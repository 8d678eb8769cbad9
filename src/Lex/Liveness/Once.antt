-- ===== src/Lex/Liveness/Once.antt =====
-- The lists of live actions: no action stands twice, and they are sorted.
use dparser.Prelude.{
  ℕ, zero, suc, ◌≡◌, refl, sym, ap, ◌∙◌, inl, inr, true, List, [], ◌∷◌, ◌++◌, map, Option, none,
  some, ◌==◌, set, Bool-cases, Option-cases, has, distinct, distinct-concat, nat_eq,
}
use dparser.Libc.{Qsort, IsOrder, Ascending}
use dparser.Libc.Members.{distinct-qsort}
use Prim.Native.Nat.{Ordering}
use dparser.Lr.{Action}
use dparser.Lr.Actions.{actioncmp}
use dparser.Lr.Actions.Keys.{actioncmp-IsOrder}
use dparser.Lex.Subset.{ScanState}
use dparser.Lex.Liveness.{
  set_union, live_of, first_lives, visit_char, visit_chars, visit_states, live_loop, live_fuel,
  sort_live, compute_liveness,
}

set_union_once :
    (live more : List ℕ) → distinct live ≡ true → distinct (set_union live more).0 ≡ true
unfolding set_union
set_union_once live [] d = d
set_union_once live (a ∷ more) d = elim (Bool-cases (has live a)) [
  | inl old ↦ rw (old, set_union) (set_union_once live more d)
  | inr new ↦
      rw (new, set_union) (set_union_once (live ++ a ∷ []) more (distinct-concat live a d new))
]

abbrev Once : List (List ℕ) → Type 0
Once lives = (i : ℕ) → distinct (live_of lives i) ≡ true

set-Once :
    (lives : List (List ℕ)) (s : ℕ) (v : List ℕ)
    → Once lives
    → distinct v ≡ true
    → Once (set lives s v)
set-Once [] s v once d i = refl
set-Once (l ∷ lives) zero v once d zero = d
set-Once (l ∷ lives) zero v once d (suc i) = once (suc i)
set-Once (l ∷ lives) (suc s) v once d zero = once 0
set-Once (l ∷ lives) (suc s) v once d (suc i) = set-Once lives s v (λ j. once (suc j)) d i

visit_char-Once :
    (lives : List (List ℕ)) (s : ℕ) (o : Option ℕ) → Once lives → Once (visit_char lives s o).0
unfolding visit_char
visit_char-Once lives s none once = once
visit_char-Once lives s (some t) once = elim (Bool-cases (s == t)) [
  | inl self ↦ rw self once
  | inr other ↦
      rw other
        (set-Once lives s _ once (set_union_once (live_of lives s) (live_of lives t) (once s)))
]

visit_chars-Once :
    (lives : List (List ℕ)) (s : ℕ) (chars : List (Option ℕ))
    → Once lives
    → Once (visit_chars lives s chars).0
unfolding visit_chars
visit_chars-Once lives s [] once = once
visit_chars-Once lives s (o ∷ chars) once =
    visit_chars-Once (visit_char lives s o).0 s chars (visit_char-Once lives s o once)

visit_states-Once :
    (lives : List (List ℕ)) (s : ℕ) (states : List ScanState)
    → Once lives
    → Once (visit_states lives s states).0
unfolding visit_states
visit_states-Once lives s [] once = once
visit_states-Once lives s (ss ∷ states) once =
    visit_states-Once (visit_chars lives s ss.chars).0 (suc s) states
      (visit_chars-Once lives s ss.chars once)

live_loop-Once :
    (fuel : ℕ) (states : List ScanState) (lives lives' : List (List ℕ))
    → live_loop fuel states lives ≡ some lives'
    → Once lives
    → Once lives'
unfolding live_loop
live_loop-Once zero states lives lives' run once = absurd (cc run)
live_loop-Once (suc fuel) states lives lives' run once =
    let next = visit_states-Once lives 0 states once in
    elim (Bool-cases (visit_states lives 0 states).1) [
      | inr still ↦
          let done : some (visit_states lives 0 states).0 ≡ some lives' =
            rw (still, live_loop) at run in
          let this : (visit_states lives 0 states).0 ≡ lives' = cc done in
          λ i. ap (λ l. distinct (live_of l i)) (sym this) ∙ next i
      | inl changed ↦
          live_loop-Once fuel states (visit_states lives 0 states).0 lives'
            (rw (changed, live_loop) at run) next
    ]

first_lives-Once : (states : List ScanState) → Once (first_lives states)
unfolding first_lives
first_lives-Once [] i = refl
first_lives-Once (ss ∷ states) zero = set_union_once [] ss.accepts refl
first_lives-Once (ss ∷ states) (suc i) = first_lives-Once states i

module _ (libc : Qsort) (action : ℕ → Action) where
  abbrev pub live_cmp : ℕ → ℕ → Ordering
  live_cmp a b = actioncmp (action a) (action b)

  live_cmp-IsOrder : IsOrder live_cmp
  live_cmp-IsOrder = record {
    total = λ a b. actioncmp-IsOrder.total (action a) (action b);
    trans = λ a b c. actioncmp-IsOrder.trans (action a) (action b) (action c);
  }

  pub record Tidy (live : List ℕ) : Type 0 where
    pub once : distinct live ≡ true
    pub sorted : Ascending live_cmp live

  sort_live-Tidy :
      (lives : List (List ℕ)) (i : ℕ)
      → Once lives
      → Tidy (live_of (map (sort_live libc action) lives) i)
  unfolding sort_live
  sort_live-Tidy [] i once = record { once = refl; sorted = record {} }
  sort_live-Tidy (l ∷ lives) zero once = record {
    once = distinct-qsort libc live_cmp l (once 0);
    sorted = libc.qsort-Ascending ℕ live_cmp l live_cmp-IsOrder;
  }
  sort_live-Tidy (l ∷ lives) (suc i) once = sort_live-Tidy lives i (λ j. once (suc j))

  pub compute_liveness-Tidy :
      (states : List ScanState) (lives : List (List ℕ))
      → compute_liveness libc action states ≡ some lives
      → (i : ℕ) → Tidy (live_of lives i)
  unfolding compute_liveness
  compute_liveness-Tidy states lives run i =
      elim (Option-cases (live_loop (live_fuel states) states (first_lives states))) [
        | inl nothing ↦
            let no_one : none ≡ some lives = rw (nothing, compute_liveness) at run in
            absurd (cc no_one)
        | inr (l, found) ↦
            let done : some (map (sort_live libc action) l) ≡ some lives =
              rw (found, compute_liveness) at run in
            let this : map (sort_live libc action) l ≡ lives = cc done in
            let once =
              live_loop-Once (live_fuel states) states (first_lives states) l found
                (first_lives-Once states) in
            rw (← this) (sort_live-Tidy l i once)
      ]
