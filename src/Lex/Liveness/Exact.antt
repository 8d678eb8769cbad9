-- ===== src/Lex/Liveness/Exact.antt =====
-- `compute_liveness` finds what is accepted in the states that a state reaches.
use mathlib.Core.Path.{subst}
use dparser.Prelude.{
  ℕ, zero, suc, ◌+◌, ◌*◌, ◌≤◌, ◌<◌, ◌≡◌, ◌↔◌, refl, sym, ap, ◌∙◌, inl, inr, true, List, [], ◌∷◌,
  map, Option, some, arith, length, length-map, lt-length, get_elem?, Bool-cases, has, nat_eq,
}
use dparser.Libc.{Qsort}
use dparser.Libc.Members.{has-qsort}
use dparser.Lr.{Action}
use dparser.Lr.Actions.{actioncmp}
use dparser.Lex.Subset.{ScanState}
use dparser.Lex.Liveness.{
  live_of, first_lives, visit_chars, visit_states, live_loop, live_fuel, every_accept, sort_live,
  compute_liveness,
}
use dparser.Lex.Liveness.Grows.{set_union-Adds, total, total_at_most}
use dparser.Lex.Liveness.Reach.{Reaches, here, onwards, Live}
use dparser.Lex.Liveness.Rounds.{
  Within, Good, Step, nothing_done, Step-then, Step-weaken, visit_chars-Step,
}

zero_add : (k : ℕ) → 0 + k ≡ k
zero_add k = omega arith

-- No state is missing an action that is live behind one of its bytes.
abbrev ClosedFrom : ℕ → List ScanState → List (List ℕ) → Type 0
ClosedFrom s rest lives =
    (k c t : ℕ) (ss : ScanState)
    → get_elem? rest k ≡ some ss
    → get_elem? ss.chars c ≡ some (some t)
    → Within lives (s + k) t

-- What is known between the rounds.
record Between (states : List ScanState) (lives : List (List ℕ)) : Type 0 where
  good : Good states lives
  size : length lives ≡ length states
  basis :
      (i a : ℕ) (ss : ScanState)
      → get_elem? states i ≡ some ss
      → has ss.accepts a ≡ true
      → has (live_of lives i) a ≡ true

module _ (states : List ScanState) where
  visit_states-Step :
      (lives : List (List ℕ)) (s : ℕ) (rest : List ScanState)
      → length lives ≡ length states
      → ((k : ℕ) → get_elem? states (s + k) ≡ get_elem? rest k)
      → Good states lives
      → Step states lives (ClosedFrom s rest lives) (visit_states lives s rest)
  unfolding visit_states
  visit_states-Step lives s [] size these good =
      nothing_done states lives _ good (λ k c t ss e. absurd (cc e))
  visit_states-Step lives s (ss ∷ rest) size these good =
      let at : get_elem? states s ≡ some ss = ap (get_elem? states) (add_zero s) ∙ these 0 in
      let first =
        visit_chars-Step states s ss at lives 0 ss.chars
          (omega (arith, size, lt-length states s ss at))
          (λ k. ap (get_elem? ss.chars) (zero_add k)) good in
      let p = visit_chars lives s ss.chars in
      let next =
        visit_states-Step p.0 (suc s) rest (first.size ∙ size)
          (λ k. ap (get_elem? states) (add_suc s k) ∙ these (suc k)) first.good in
      Step-weaken states lives _ _ _ (λ all k c t q e to. pick p.0 all k c t q e to)
        (Step-then states lives _ _ p (visit_states p.0 (suc s) rest) first next)
    where
      add_zero : (s : ℕ) → s ≡ s + 0
      add_zero s = omega arith

      add_suc : (s k : ℕ) → suc s + k ≡ s + suc k
      add_suc s k = omega arith

      pick :
          (lives' : List (List ℕ))
          → (lives' ≡ lives)
            × ((c : ℕ) (o : Option ℕ)
                → get_elem? ss.chars c ≡ some o
                → (t : ℕ) → o ≡ some t
                → Within lives s t)
            × ClosedFrom (suc s) rest lives'
          → ClosedFrom s (ss ∷ rest) lives
      pick lives' (same, now, later) zero c t q e to =
          let this : ss ≡ q = cc e in
          subst (λ n. Within lives n t) (add_zero s)
            (now c (some t) (ap (λ (z : ScanState). get_elem? z.chars c) this ∙ to) t refl)
      pick lives' (same, now, later) (suc k) c t q e to =
          subst (λ n. Within lives n t) (add_suc s k)
            (subst (λ l. Within l (suc s + k) t) same (later k c t q e to))

  live_loop-Closed :
      (fuel : ℕ) (lives : List (List ℕ))
      → Between states lives
      → total (every_accept states) lives < fuel
      → (lives' : List (List ℕ)) × (live_loop fuel states lives ≡ some lives')
        × Between states lives'
        × ClosedFrom 0 states lives'
  unfolding live_loop
  live_loop-Closed zero lives b enough = absurd (omega arith)
  live_loop-Closed (suc fuel) lives b enough =
      let step =
        visit_states-Step lives 0 states b.size (λ k. ap (get_elem? states) (zero_add k)) b.good in
      let r = visit_states lives 0 states in
      let next : Between states r.0 = record {
        good = step.good;
        size = step.size ∙ b.size;
        basis = λ i a ss at h. step.grows i a (b.basis i a ss at h);
      } in
      elim (Bool-cases (visit_states lives 0 states).1) [
        | inr still ↦
            let (same, closed) = step.still still in
            (r.0, rw (still, live_loop) refl, next, subst (ClosedFrom 0 states) (sym same) closed)
        | inl changed ↦
            let (lives', run, b', closed) =
              live_loop-Closed fuel r.0 next (ground (arith, step.fewer, changed, enough)) in
            (lives', rw (changed, live_loop) run, b', closed)
      ]

  live_of_Reaches :
      (lives : List (List ℕ))
      → ClosedFrom 0 states lives
      → {i j : ℕ} (a : ℕ) → Reaches states i j
      → has (live_of lives j) a ≡ true
      → has (live_of lives i) a ≡ true
  live_of_Reaches lives closed a (here i) held = held
  live_of_Reaches lives closed a (onwards {i} {j} {t} {ss} c at to more) held =
      subst (λ k. Within lives k t) (zero_add i) (closed i c t ss at to) a
        (live_of_Reaches lives closed a more held)

first_lives-size : (states : List ScanState) → length (first_lives states) ≡ length states
unfolding first_lives
first_lives-size [] = refl
first_lives-size (ss ∷ states) = ap suc (first_lives-size states)

first_lives-basis :
    (states : List ScanState) (i a : ℕ) (ss : ScanState)
    → get_elem? states i ≡ some ss
    → has (live_of (first_lives states) i) a ≡ has ss.accepts a
unfolding first_lives
first_lives-basis [] i a ss at = absurd (cc at)
first_lives-basis (s ∷ states) zero a ss at =
    let this : s ≡ ss = cc at in
    (set_union-Adds [] s.accepts).members a ∙ ap (λ (q : ScanState). has q.accepts a) this
first_lives-basis (s ∷ states) (suc i) a ss at = first_lives-basis states i a ss at

first_lives_inside :
    (states : List ScanState) (i a : ℕ)
    → has (live_of (first_lives states) i) a ≡ true
    → (ss : ScanState) × (get_elem? states i ≡ some ss)
unfolding first_lives
first_lives_inside [] i a h = absurd (cc h)
first_lives_inside (s ∷ states) zero a h = (s, refl)
first_lives_inside (s ∷ states) (suc i) a h = first_lives_inside states i a h

first_lives-Between : (states : List ScanState) → Between states (first_lives states)
first_lives-Between states = record {
  good = λ i a h.
      let (ss, at) = first_lives_inside states i a h in
      record {
        goal = i;
        state = ss;
        reaches = here i;
        at_goal = at;
        accepts = sym (first_lives-basis states i a ss at) ∙ h;
      };
  size = first_lives-size states;
  basis = λ i a ss at h. first_lives-basis states i a ss at ∙ h;
}

module _ (libc : Qsort) (action : ℕ → Action) where
  has-sort_live :
      (lives : List (List ℕ)) (i a : ℕ)
      → has (live_of (map (sort_live libc action) lives) i) a ≡ has (live_of lives i) a
  unfolding sort_live
  has-sort_live [] i a = refl
  has-sort_live (l ∷ lives) zero a = has-qsort libc (λ b c. actioncmp (action b) (action c)) l a
  has-sort_live (l ∷ lives) (suc i) a = has-sort_live lives i a

  -- `compute_liveness` ends, with a list for each state; the actions that are live in a state are those that are
  -- accepted in a state which it reaches.
  pub compute_liveness-Live :
      (states : List ScanState)
      → (lives : List (List ℕ)) × (compute_liveness libc action states ≡ some lives)
        × (length lives ≡ length states)
        × ((i a : ℕ) → (has (live_of lives i) a ≡ true) ↔ Live states i a)
  unfolding compute_liveness
  compute_liveness-Live states =
      let first = first_lives-Between states in
      let (lives, run, b, closed) =
        live_loop-Closed states (live_fuel states) (first_lives states) first (
          enough (length (every_accept states)) _ _ _ first.size
            (total_at_most (every_accept states) (first_lives states))) in
      (
        map (sort_live libc action) lives,
        rw (run, compute_liveness) refl,
        length-map lives (sort_live libc action) ∙ b.size,
        λ i a. (
          λ held. b.good i a (sym (has-sort_live lives i a) ∙ held),
          λ l.
              has-sort_live lives i a
              ∙ live_of_Reaches states lives closed a l.reaches
                  (b.basis l.goal a l.state l.at_goal l.accepts),
        ),
      )
    where
      enough : (m n k t : ℕ) → n ≡ k → t ≤ n * m → t < suc (k * m)
      enough m n k t e h = omega (arith, subst (λ q. t ≤ q * m) e h)
