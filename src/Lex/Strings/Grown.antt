-- ===== src/Lex/Strings/Grown.antt =====
-- The automaton of strings with a new state and an edge to it.
use mathlib.Core.Path.{subst}
use dparser.Prelude.{
  ℕ, zero, suc, ◌≤◌, ◌<◌, ◌≡◌, refl, ap, ◌∙◌, inl, inr, Bool, false, ◌&&◌, ◌||◌, List, [], ◌∷◌,
  ◌++◌, arith, ◌==◌, ==_iff, length, length-append, set, Bool-cases, has, nat_eq,
}
use dparser.Lex.{NfaState, blank_nfa, nfa_at, targets, add_char}
use dparser.Lex.Regex.Edges.{nfa_at-new}

pub nfa_at-set_self :
    (n : List NfaState) (s : ℕ) (v : NfaState) → s < length n → nfa_at (set n s v) s ≡ v
nfa_at-set_self [] s v h = absurd (omega arith)
nfa_at-set_self (x ∷ n) zero v h = refl
nfa_at-set_self (x ∷ n) (suc s) v h = nfa_at-set_self n s v (omega arith)

pub nfa_at-set_ne :
    (n : List NfaState) (s q : ℕ) (v : NfaState)
    → (s == q) ≡ false
    → nfa_at (set n s v) q ≡ nfa_at n q
nfa_at-set_ne [] s q v h = refl
nfa_at-set_ne (x ∷ n) zero zero v h = absurd (cc h)
nfa_at-set_ne (x ∷ n) zero (suc q) v h = refl
nfa_at-set_ne (x ∷ n) (suc s) zero v h = refl
nfa_at-set_ne (x ∷ n) (suc s) (suc q) v h = nfa_at-set_ne n s q v (ground (arith, h))

pub nfa_at_outside : (n : List NfaState) (s : ℕ) → length n ≤ s → nfa_at n s ≡ blank_nfa
nfa_at_outside [] s h = refl
nfa_at_outside (x ∷ n) zero h = absurd (omega arith)
nfa_at_outside (x ∷ n) (suc s) h = nfa_at_outside n s (omega arith)

has-targets-append :
    (chars : List (ℕ × ℕ)) (b x c t : ℕ)
    → has (targets (chars ++ (b, x) ∷ []) c) t ≡ (has (targets chars c) t || b == c && x == t)
has-targets-append [] b x c t = ground arith
has-targets-append ((d, y) ∷ chars) b x c t = ground (arith, has-targets-append chars b x c t)

abbrev pub has_edge : List NfaState → ℕ → ℕ → ℕ → Bool
has_edge n s c t = has (targets (nfa_at n s).chars c) t

-- The automaton with a new state, and an edge to it.
abbrev pub grown : List NfaState → ℕ → ℕ → List NfaState
grown n nn c = add_char (n ++ blank_nfa ∷ []) nn c (length n)

module _ (n : List NfaState) (nn c : ℕ) (below : nn < length n) where
  source_below : nn < length (n ++ blank_nfa ∷ [])
  source_below = omega (arith, length-append n (blank_nfa ∷ []))

  at_source :
      nfa_at (grown n nn c) nn
      ≡ record (nfa_at n nn) { chars = (nfa_at n nn).chars ++ (c, length n) ∷ [] }
  unfolding add_char
  at_source =
      nfa_at-set_self (n ++ blank_nfa ∷ []) nn _ source_below
      ∙ ap (λ (v : NfaState). record v { chars = v.chars ++ (c, length n) ∷ [] }) (nfa_at-new n nn)

  at_other : (s : ℕ) → (nn == s) ≡ false → nfa_at (grown n nn c) s ≡ nfa_at n s
  unfolding add_char
  at_other s h = nfa_at-set_ne (n ++ blank_nfa ∷ []) nn s _ h ∙ nfa_at-new n s

  pub has_edge-grown :
      (s d t : ℕ)
      → has_edge (grown n nn c) s d t ≡ (has_edge n s d t || nn == s && c == d && length n == t)
  has_edge-grown s d t = elim (Bool-cases (nn == s)) [
    | inl self ↦
        let e : nn ≡ s = (==_iff nn s).0 self in
        let here : has_edge (grown n nn c) nn d t ≡ (has_edge n nn d t || c == d && length n == t) =
          ap (λ (v : NfaState). has (targets v.chars d) t) at_source
          ∙ has-targets-append (nfa_at n nn).chars c (length n) d t in
        let there =
          subst (λ q. has_edge (grown n nn c) q d t ≡ (has_edge n q d t || c == d && length n == t))
            e here in
        there ∙ ground (arith, self)
    | inr other ↦
        ap (λ (v : NfaState). has (targets v.chars d) t) (at_other s other) ∙ ground (arith, other)
  ]

  pub grown_accepts : (s : ℕ) → (nfa_at (grown n nn c) s).accepts ≡ (nfa_at n s).accepts
  grown_accepts s = elim (Bool-cases (nn == s)) [
    | inl self ↦
        let e : nn ≡ s = (==_iff nn s).0 self in
        subst (λ q. (nfa_at (grown n nn c) q).accepts ≡ (nfa_at n q).accepts) e
          (ap (λ (v : NfaState). v.accepts) at_source)
    | inr other ↦ ap (λ (v : NfaState). v.accepts) (at_other s other)
  ]

  pub grown_epsilon : (s : ℕ) → (nfa_at (grown n nn c) s).epsilon ≡ (nfa_at n s).epsilon
  grown_epsilon s = elim (Bool-cases (nn == s)) [
    | inl self ↦
        let e : nn ≡ s = (==_iff nn s).0 self in
        subst (λ q. (nfa_at (grown n nn c) q).epsilon ≡ (nfa_at n q).epsilon) e
          (ap (λ (v : NfaState). v.epsilon) at_source)
    | inr other ↦ ap (λ (v : NfaState). v.epsilon) (at_other s other)
  ]
