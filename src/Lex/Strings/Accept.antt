-- ===== src/Lex/Strings/Accept.antt =====
-- The automaton of strings with one more action that a state accepts.
use mathlib.Core.Path.{subst}
use dparser.Prelude.{
  ◌&&◌, ℕ, ◌<◌, ◌≡◌, sym, ap, ◌∙◌, inl, inr, true, false, ◌||◌, List, [], ◌∷◌, ◌++◌, arith, ◌==◌,
  ==_iff, length, Bool-cases, has, has-append, nat_eq,
}
use dparser.Lex.{NfaState, nfa_at, targets, add_accept}
use dparser.Lex.Regex.Edges.{add_accept-Extends}
use dparser.Lex.Strings.Grown.{nfa_at-set_self, nfa_at-set_ne, has_edge}
use dparser.Lex.Strings.Tree.{IsTree}

module _ (n : List NfaState) (p k : ℕ) (below : p < length n) where
  at_p :
      nfa_at (add_accept n p k) p ≡ record (nfa_at n p) { accepts = (nfa_at n p).accepts ++ k ∷ [] }
  unfolding add_accept
  at_p = nfa_at-set_self n p _ below

  at_others : (s : ℕ) → (p == s) ≡ false → nfa_at (add_accept n p k) s ≡ nfa_at n s
  unfolding add_accept
  at_others s h = nfa_at-set_ne n p s _ h

  same_chars : (s : ℕ) → (nfa_at (add_accept n p k) s).chars ≡ (nfa_at n s).chars
  same_chars s = elim (Bool-cases (p == s)) [
    | inl self ↦
        subst (λ q. (nfa_at (add_accept n p k) q).chars ≡ (nfa_at n q).chars) ((==_iff p s).0 self)
          (ap (λ (v : NfaState). v.chars) at_p)
    | inr other ↦ ap (λ (v : NfaState). v.chars) (at_others s other)
  ]

  same_epsilon : (s : ℕ) → (nfa_at (add_accept n p k) s).epsilon ≡ (nfa_at n s).epsilon
  same_epsilon s = elim (Bool-cases (p == s)) [
    | inl self ↦
        subst (λ q. (nfa_at (add_accept n p k) q).epsilon ≡ (nfa_at n q).epsilon)
          ((==_iff p s).0 self) (ap (λ (v : NfaState). v.epsilon) at_p)
    | inr other ↦ ap (λ (v : NfaState). v.epsilon) (at_others s other)
  ]

  pub accepts_now :
      (s a : ℕ)
      → has (nfa_at (add_accept n p k) s).accepts a
        ≡ (has (nfa_at n s).accepts a || (p == s) && k == a)
  accepts_now s a = elim (Bool-cases (p == s)) [
    | inl self ↦
        let e : p ≡ s = (==_iff p s).0 self in
        let here : has (nfa_at (add_accept n p k) p).accepts a
            ≡ (has (nfa_at n p).accepts a || k == a) =
          ap (λ (v : NfaState). has v.accepts a) at_p
          ∙ has-append (nfa_at n p).accepts (k ∷ []) a
          ∙ ground arith in
        let there =
          subst
            (λ q.
              has (nfa_at (add_accept n p k) q).accepts a ≡ (has (nfa_at n q).accepts a || k == a))
            e here in
        there ∙ ground (arith, self)
    | inr other ↦ ap (λ (v : NfaState). has v.accepts a) (at_others s other) ∙ ground (arith, other)
  ]

  pub edge_kept : (s c t : ℕ) → has_edge n s c t ≡ true → has_edge (add_accept n p k) s c t ≡ true
  edge_kept s c t h = ap (λ l. has (targets l c) t) (same_chars s) ∙ h

  pub accept-IsTree : (label : ℕ → List ℕ) → IsTree n label → IsTree (add_accept n p k) label
  accept-IsTree label tree =
      let more = add_accept-Extends n p k tree.nfa in
      record {
        nfa = more.nfa;
        begun = omega (arith, more.size, tree.begun);
        root = tree.root;
        quiet = λ s t. ap (λ l. has l t) (same_epsilon s) ∙ tree.quiet s t;
        edges =
            λ s c t h. tree.edges s c t (ap (λ l. has (targets l c) t) (sym (same_chars s)) ∙ h);
      }
