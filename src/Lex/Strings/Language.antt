-- ===== src/Lex/Strings/Language.antt =====
-- The automaton of strings accepts the strings.
use mathlib.Core.Path.{subst}
use dparser.Prelude.{
  ◌&&◌, ℕ, zero, suc, ◌<◌, ◌≡◌, ◌↔◌, refl, sym, ap, ◌∙◌, ◌⊎◌, inl, inr, true, false, List, [], ◌∷◌,
  ◌++◌, arith, ◌==◌, leb, ==_iff, length, Bool-cases, has, nat_eq,
}
use dparser.Libc.{Ctype}
use dparser.Lr.{Action, shift}
use dparser.Lex.{NfaState, blank_nfa, nfa_at, add_accept}
use dparser.Lex.Subset.Edges.{IsNfa}
use dparser.Lex.Subset.Language.{Reads}
use dparser.Lex.Subset.Scanner.{Accepts}
use dparser.Lex.Strings.{ScanTerm, term_of, is_string, walk, add_string, add_strings}
use dparser.Lex.Strings.Grown.{nfa_at_outside, has_edge}
use dparser.Lex.Strings.Accept.{accepts_now, edge_kept, accept-IsTree}
use dparser.Lex.Strings.Tree.{IsTree, Walks, Reads-grows, label_behind, walk-Walks}

-- A shift of a string in which upper and lower case are different.
pub record IsPlain (terms : List ScanTerm) (a : Action) : Type 0 where
  pub shifts : a.kind ≡ shift
  pub strings : is_string (term_of terms a).kind ≡ true
  pub cased : (term_of terms a).ignore_case ≡ false

abbrev pub AllPlain : List ScanTerm → List Action → Type 0
AllPlain terms [] = Unit
AllPlain terms (a ∷ actions) = IsPlain terms a × AllPlain terms actions

-- Action `k` is one of the actions, and shifts the string `w`.
abbrev pub Shifts : List ScanTerm → List Action → List ℕ → ℕ → Type 0
Shifts terms [] w k = ⊥
Shifts terms (a ∷ actions) w k =
    (((term_of terms a).text ≡ w) × (a.index ≡ k)) ⊎ Shifts terms actions w k

-- The automaton accepts what `gives` says.
record Holds (n : List NfaState) (gives : List ℕ → ℕ → Type 0) : Type 0 where
  label : ℕ → List ℕ
  tree : IsTree n label
  sound : (s a : ℕ) → has (nfa_at n s).accepts a ≡ true → gives (label s) a
  complete : (w : List ℕ) (a : ℕ) → gives w a → Accepts n 0 w a

accepts_inside : (n : List NfaState) (s a : ℕ) → has (nfa_at n s).accepts a ≡ true → s < length n
accepts_inside n s a h = elim (Bool-cases (leb (length n) s)) [
  | inl outside ↦ absurd (
      cc (
        ap (λ (v : NfaState). has v.accepts a) (sym (nfa_at_outside n s (ground (arith, outside))))
        ∙ h))
  | inr inside ↦ ground (arith, inside)
]

module _ (ctype : Ctype) (n : List NfaState) (gives : List ℕ → ℕ → Type 0) (holds : Holds n gives)
    (w : List ℕ) (k : ℕ) where
  abbrev Also : List ℕ → ℕ → Type 0
  Also v a = ((w ≡ v) × (k ≡ a)) ⊎ gives v a

  accept-Holds :
      (r : List NfaState × ℕ) → Walks n holds.label 0 w r → Holds (add_accept r.0 r.1 k) Also
  accept-Holds r walks = record {
    label = walks.label';
    tree = accept-IsTree r.0 r.1 k walks.below walks.label' walks.tree;
    sound = λ s a h. elim (Bool-cases (has (nfa_at r.0 s).accepts a)) [
      | inl old ↦
          let before : has (nfa_at n s).accepts a ≡ true =
            ap (λ l. has l a) (sym (walks.accepts s)) ∙ old in
          inr (
            subst (λ l. gives l a) (sym (walks.same s (accepts_inside n s a before)))
              (holds.sound s a before))
      | inr new ↦
          let here : ((r.1 == s) && k == a) ≡ true =
            ground (arith, sym (accepts_now r.0 r.1 k walks.below s a) ∙ h, new) in
          let e : r.1 ≡ s = (==_iff r.1 s).0 (ground (arith, here)) in
          inl (
            sym (ap (λ l. l ++ w) holds.tree.root) ∙ sym walks.ends ∙ ap walks.label' e,
            (==_iff k a).0 (ground (arith, here)),
          )
    ];
    complete = λ v a g. elim g [
      | inl (text, number) ↦ (
        r.1,
        subst (λ l. Reads (add_accept r.0 r.1 k) 0 l r.1) text
            (Reads-grows walks.tree (edge_kept r.0 r.1 k walks.below) walks.reads),
        accepts_now r.0 r.1 k walks.below r.1 a
            ∙ ground (arith, ==_iff r.1 r.1, (==_iff k a).1 number),
      )
      | inr before ↦
          let (t, reads, accepted) = holds.complete v a before in
          let still : has (nfa_at r.0 t).accepts a ≡ true =
            ap (λ l. has l a) (walks.accepts t) ∙ accepted in
          (
            t,
            Reads-grows walks.tree (edge_kept r.0 r.1 k walks.below)
                (Reads-grows holds.tree walks.grows reads),
            accepts_now r.0 r.1 k walks.below t a ∙ ground (arith, still),
          )
    ];
  }

module _ (ctype : Ctype) (terms : List ScanTerm) where
  add_string-Holds :
      (n : List NfaState) (gives : List ℕ → ℕ → Type 0) (a : Action)
      → IsPlain terms a
      → Holds n gives
      → Holds
          (add_string ctype terms n a)
          (λ w k. (((term_of terms a).text ≡ w) × (a.index ≡ k)) ⊎ gives w k)
  unfolding add_string
  add_string-Holds n gives a plain holds =
      rw (plain.shifts, plain.strings, plain.cased)
        (accept-Holds ctype n gives holds (term_of terms a).text a.index
          (walk ctype false n 0 (term_of terms a).text)
          (walk-Walks ctype n holds.label 0 (term_of terms a).text holds.tree holds.tree.begun))

  Holds-same :
      (n : List NfaState) (p q : List ℕ → ℕ → Type 0)
      → ((w : List ℕ) (k : ℕ) → p w k → q w k)
      → ((w : List ℕ) (k : ℕ) → q w k → p w k)
      → Holds n p
      → Holds n q
  Holds-same n p q pq qp holds = record {
    label = holds.label;
    tree = holds.tree;
    sound = λ s a h. pq (holds.label s) a (holds.sound s a h);
    complete = λ w a g. holds.complete w a (qp w a g);
  }

  add_strings-Holds :
      (n : List NfaState) (gives : List ℕ → ℕ → Type 0) (actions : List Action)
      → AllPlain terms actions
      → Holds n gives
      → Holds (add_strings ctype terms n actions) (λ w k. gives w k ⊎ Shifts terms actions w k)
  unfolding add_strings
  add_strings-Holds n gives [] plain holds =
      Holds-same n gives (λ w k. gives w k ⊎ ⊥) (λ w k g. inl g)
        (λ w k g. elim g [ inl h ↦ h | inr h ↦ absurd h ]) holds
  add_strings-Holds n gives (a ∷ actions) plain holds =
      Holds-same (add_strings ctype terms (add_string ctype terms n a) actions) _ _
        (λ w k g. elim g [
          | inl h ↦ elim h [ inl this ↦ inr (inl this) | inr old ↦ inl old ]
          | inr later ↦ inr (inr later)
        ])
        (λ w k g. elim g [
          | inl old ↦ inl (inr old)
          | inr h ↦ elim h [ inl this ↦ inl (inl this) | inr later ↦ inr later ]
        ])
        (add_strings-Holds (add_string ctype terms n a) _ actions plain.1
          (add_string-Holds n gives a plain.0 holds))

  empty-Holds : Holds (blank_nfa ∷ []) (λ w k. ⊥)
  empty-Holds = record {
    label = λ s. [];
    tree = record {
      nfa = record {
        silent = λ s t h. absurd (blank s t h);
        reading = λ s c t h. absurd (unread s c t h);
      };
      begun = omega arith;
      root = refl;
      quiet = no_silent;
      edges = λ s c t h. absurd (unread s c t h);
    };
    sound = λ s a h. absurd (unaccepted s a h);
    complete = λ w a g. absurd g;
  }
    where
      no_silent : (s t : ℕ) → has (nfa_at (blank_nfa ∷ []) s).epsilon t ≡ false
      no_silent zero t = refl
      no_silent (suc s) t = refl

      blank : (s t : ℕ) → has (nfa_at (blank_nfa ∷ []) s).epsilon t ≡ true → ⊥
      blank zero t h = cc h
      blank (suc s) t h = cc h

      unread : (s c t : ℕ) → has_edge (blank_nfa ∷ []) s c t ≡ true → ⊥
      unread zero c t h = cc h
      unread (suc s) c t h = cc h

      unaccepted : (s a : ℕ) → has (nfa_at (blank_nfa ∷ []) s).accepts a ≡ true → ⊥
      unaccepted zero a h = cc h
      unaccepted (suc s) a h = cc h

  -- For shifts of strings in which upper and lower case are different, the automaton of strings accepts behind a
  -- text exactly the actions of which it is the string.
  pub add_strings-Accepts :
      (actions : List Action)
      → AllPlain terms actions
      → IsNfa (add_strings ctype terms (blank_nfa ∷ []) actions)
        × (0 < length (add_strings ctype terms (blank_nfa ∷ []) actions))
        × ((w : List ℕ) (k : ℕ)
            → Accepts (add_strings ctype terms (blank_nfa ∷ []) actions) 0 w k
              ↔ Shifts terms actions w k)
  add_strings-Accepts actions plain =
      let holds = add_strings-Holds (blank_nfa ∷ []) (λ w k. ⊥) actions plain empty-Holds in
      (
        holds.tree.nfa,
        holds.tree.begun,
        λ w k. (
          λ (t, reads, accepted).
              let text : holds.label t ≡ w =
                label_behind holds.tree reads ∙ ap (λ l. l ++ w) holds.tree.root in
              elim (holds.sound t k accepted) [
                | inl h ↦ absurd h
                | inr s ↦ subst (λ l. Shifts terms actions l k) text s
              ],
          λ s. holds.complete w k (inr s),
        ),
      )
