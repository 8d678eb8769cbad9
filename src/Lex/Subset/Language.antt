-- ===== src/Lex/Subset/Language.antt =====
-- The scanner reads what the automaton reads.
use mathlib.Core.Path.{subst}
use dparser.Prelude.{
  ℕ, zero, suc, ◌<◌, ◌≡◌, ◌↔◌, refl, sym, ap, ◌∙◌, inl, inr, Bool, true, ◌&&◌, List, [], ◌∷◌,
  Option, none, some, arith, ltb, ◌==◌, ==_iff, length, get_elem?, get_or, lt-length, Bool-cases,
  has, nat_eq,
}
use dparser.Lex.{NfaState, nfa_at, targets}
use dparser.Lex.Closure.Reach.{Reaches, start, along}
use dparser.Lex.Subset.{moves}
use dparser.Lex.Subset.Edges.{set_eq, Edge, nowhere, to, can_move, has-moves}
use dparser.Lex.Subset.Loop.{IsDfa}

-- The automaton goes from one state to another one and reads a text.
pub data Reads (n : List NfaState) : ℕ → List ℕ → ℕ → Type 0 where
  stop : {s : ℕ} → Reads n s [] s
  silent :
      {s t u : ℕ} {w : List ℕ} → has (nfa_at n s).epsilon t ≡ true → Reads n t w u → Reads n s w u
  read :
      {s t u c : ℕ} {w : List ℕ}
      → has (targets (nfa_at n s).chars c) t ≡ true
      → Reads n t w u
      → Reads n s (c ∷ w) u

get_elem?-some :
    {A : Type 0} (xs : List A) (k : ℕ) → k < length xs → (x : A) × (get_elem? xs k ≡ some x)
get_elem?-some [] k below = absurd (omega arith)
get_elem?-some (x ∷ xs) zero below = (x, refl)
get_elem?-some (x ∷ xs) (suc k) below = get_elem?-some xs k (omega arith)

-- The DFA state behind a text, in an automaton with these rows.
abbrev pub run : List (List (Option ℕ)) → ℕ → List ℕ → Option ℕ
run rows k [] = some k
run rows k (c ∷ w) = elim (get_elem? rows k) [
  | none ↦ none
  | some chars ↦ elim (get_or chars c none) [ none ↦ none | some j ↦ run rows j w ]
]

abbrev pub is_bytes : List ℕ → Bool
is_bytes [] = true
is_bytes (c ∷ w) = ltb c 256 && is_bytes w

module _ (n : List NfaState) where
  -- Some state of the set reads the text and ends in `t`.
  abbrev pub Matches : List ℕ → List ℕ → ℕ → Type 0
  Matches x w t = (s : ℕ) × (has x s ≡ true) × Reads n s w t

  -- What a set leads to without reading is in the set.
  abbrev pub IsSilent : List ℕ → Type 0
  IsSilent x = (s t : ℕ) → has x s ≡ true → has (nfa_at n s).epsilon t ≡ true → has x t ≡ true

  silent_first :
      {kernel : List ℕ} {t u : ℕ} {w : List ℕ}
      → Reaches n kernel t
      → Reads n t w u
      → (s : ℕ) × (has kernel s ≡ true) × Reads n s w u
  silent_first (start {s} held) r = (s, held, r)
  silent_first (along {s} {t} reach edge) r = silent_first reach (silent edge r)

  can_move_of :
      (c : ℕ) (x : List ℕ) (s t : ℕ)
      → has x s ≡ true
      → has (targets (nfa_at n s).chars c) t ≡ true
      → can_move n c x t ≡ true
  can_move_of c [] s t held edge = absurd (cc held)
  can_move_of c (q ∷ x) s t held edge = elim (Bool-cases (q == s)) [
    | inl here ↦
        let this : q ≡ s = (==_iff q s).0 here in
        let edge' : has (targets (nfa_at n q).chars c) t ≡ true =
          ap (λ z. has (targets (nfa_at n z).chars c) t) this ∙ edge in
        ground arith
    | inr other ↦ ground (arith, can_move_of c x s t (ground arith) edge)
  ]

  mover :
      (c : ℕ) (x : List ℕ) (t : ℕ)
      → can_move n c x t ≡ true
      → (s : ℕ) × (has x s ≡ true) × (has (targets (nfa_at n s).chars c) t ≡ true)
  mover c [] t move = absurd (cc move)
  mover c (q ∷ x) t move = elim (Bool-cases (has (targets (nfa_at n q).chars c) t)) [
    | inl here ↦ (q, ground (arith, ==_iff q q), here)
    | inr other ↦ let (s, held, edge) = mover c x t (ground arith) in (s, ground arith, edge)
  ]

  -- Reading a byte first, from a set that is closed.
  first_byte :
      {s u c : ℕ} {w word : List ℕ} (x : List ℕ)
      → IsSilent x
      → has x s ≡ true
      → Reads n s word u
      → word ≡ c ∷ w
      → (t : ℕ) × (can_move n c x t ≡ true) × Reads n t w u
  first_byte x closed held stop e = absurd (cc e)
  first_byte x closed held (silent {s} {t} edge r) e =
      first_byte x closed (closed s t held edge) r e
  first_byte {c = c} {w = w} x closed held (read {s} {t} {u} {c = b} {w = v} edge r) e =
      let byte : b ≡ c = cc e in
      let rest : v ≡ w = cc e in
      (
        t,
        subst (λ z. can_move n z x t ≡ true) byte (can_move_of b x s t held edge),
        subst (λ z. Reads n t z u) rest r,
      )

  nothing_read :
      {s u : ℕ} {word : List ℕ} (x : List ℕ)
      → IsSilent x
      → has x s ≡ true
      → Reads n s word u
      → word ≡ []
      → has x u ≡ true
  nothing_read x closed held stop e = held
  nothing_read x closed held (silent {s} {t} edge r) e =
      nothing_read x closed (closed s t held edge) r e
  nothing_read x closed held (read edge r) e = absurd (cc e)

  pub IsSilent-closure :
      (z kernel : List ℕ) → ((t : ℕ) → (has z t ≡ true) ↔ Reaches n kernel t) → IsSilent z
  IsSilent-closure z kernel exact s t held edge = (exact t).1 (along ((exact s).0 held) edge)

  -- The closure `z` of the moves of `x` by a byte reads what `x` reads behind the byte.
  Matches-cons :
      (x z w : List ℕ) (c t : ℕ)
      → IsSilent x
      → ((t : ℕ) → (has z t ≡ true) ↔ Reaches n (moves n c x []) t)
      → Matches z w t ↔ Matches x (c ∷ w) t
  Matches-cons x z w c t closed exact =
      let moved = (has-moves n c x [] refl).1 in
      (
        λ m.
            let (s, held, r) = m in
            let (q, first, r') = silent_first ((exact s).0 held) r in
            let (p, there, edge) = mover c x q (sym (moved q) ∙ first) in (p, there, read edge r'),
        λ m.
            let (s, held, r) = m in
            let (q, move, r') = first_byte x closed held r refl in
            (q, (exact q).1 (start (moved q ∙ move)), r'),
      )

  -- A set and its closure read the same.
  pub Matches-closure :
      (z kernel w : List ℕ) (t : ℕ)
      → ((t : ℕ) → (has z t ≡ true) ↔ Reaches n kernel t)
      → Matches z w t ↔ Matches kernel w t
  Matches-closure z kernel w t exact = (
    λ m. let (s, held, r) = m in silent_first ((exact s).0 held) r,
    λ m. let (s, held, r) = m in (s, (exact s).1 (start held), r),
  )

  module _ (sets : List (List ℕ)) (rows : List (List (Option ℕ))) where
    -- What the outcome of a run from the set `x` says.
    pub data Ends (x w : List ℕ) : Option ℕ → Type 0 where
      unread : ((t : ℕ) → Matches x w t → ⊥) → Ends x w none
      ends :
          {j : ℕ} {z : List ℕ}
          → get_elem? sets j ≡ some z
          → ((t : ℕ) → (has z t ≡ true) ↔ Matches x w t)
          → Ends x w (some j)

    pub Ends-as :
        (x z w v : List ℕ) (o : Option ℕ)
        → ((t : ℕ) → Matches z w t ↔ Matches x v t)
        → Ends z w o
        → Ends x v o
    Ends-as x z w v none same (unread h) = unread (λ t m. h t ((same t).1 m))
    Ends-as x z w v (some j) same (ends at exact) =
        ends at (λ t. (λ held. (same t).0 ((exact t).0 held), λ m. (exact t).1 ((same t).1 m)))

    -- By an edge, and then as the rest says.
    Ends-Edge :
        (x w : List ℕ) (c : ℕ) (o : Option ℕ)
        → IsSilent x
        → Edge n sets x c o
        → ((j : ℕ) (z : List ℕ) → get_elem? sets j ≡ some z → IsSilent z → Ends z w (run rows j w))
        → Ends x (c ∷ w) (elim o [ none ↦ none | some j ↦ run rows j w ])
    Ends-Edge x w c none closed (nowhere h) rest = unread (λ t m.
        let (s, held, r) = m in
        let (q, move, r') = first_byte x closed held r refl in cc (h q, move))
    Ends-Edge x w c (some j) closed (to {z = z} at exact) rest =
        Ends-as x z w (c ∷ w) (run rows j w) (λ t. Matches-cons x z w c t closed exact)
          (rest j z at (IsSilent-closure z (moves n c x []) exact))

    pub run-Ends :
        IsDfa n sets rows
        → length rows ≡ length sets
        → (w : List ℕ) (k : ℕ) (x : List ℕ) → is_bytes w ≡ true
        → get_elem? sets k ≡ some x
        → IsSilent x
        → Ends x w (run rows k w)
    run-Ends d full [] k x bytes at closed = ends at (λ t.
        (λ held. (t, held, stop), λ m. let (s, held, r) = m in nothing_read x closed held r refl))
    run-Ends d full (c ∷ w) k x bytes at closed =
        let (chars, row_at) = get_elem?-some rows k (omega (arith, full, lt-length sets k x at)) in
        let edge = d.edges k c x chars at row_at (ground arith) in
        rw (row_at, run)
          (Ends-Edge x w c (get_or chars c none) closed edge
            (λ j z there silent. run-Ends d full w j z (ground arith) there silent))
