-- ===== src/Lex/Transitions/Last.antt =====
-- A transition has the actions that the state accepts and that no state behind the byte accepts.
use dparser.Prelude.{
  ℕ, ◌≡◌, ◌↔◌, refl, ◌⊎◌, inl, inr, true, List, [], map, some, get_elem?, has, nat_eq,
}
use dparser.Libc.{Qsort}
use dparser.Lr.{Action}
use dparser.Lex.Diff.{has_index, rising}
use dparser.Lex.Subset.{ScanState}
use dparser.Lex.Liveness.{every_accept}
use dparser.Lex.Liveness.Reach.{Live}
use dparser.Lex.Liveness.Exact.{compute_liveness-Live}
use dparser.Util.Set.{ok, exhausted}
use dparser.Util.Hashed.{cleared}
use dparser.Util.Hashed.Same.{outcome_of}
use dparser.Lex.Transitions.{Transition, build_transitions}
use dparser.Lex.Transitions.Hashed.{TransitionsHash, compute_transitions}
use dparser.Lex.Transitions.Refines.{Mirrors, cleared-Mirrors, build_transitions-Same}
use dparser.Lex.Transitions.Sorted.{IsNumbered}

-- What is asked of the states: the numbers of their actions, and the order in which a state accepts them.
pub record IsOrdered (action : ℕ → Action) (states : List ScanState) : Type 0 where
  pub numbered : IsNumbered action (every_accept states)
  pub accepts :
      (s : ℕ) (ss : ScanState)
      → get_elem? states s ≡ some ss
      → rising (map action ss.accepts) ≡ true

-- The loops over the states run off the table of primes, or give what they give on the list alone.
built :
    (action : ℕ → Action) (lives : List (List ℕ)) (states : List ScanState)
    → (dparser.Lex.Transitions.Hashed.build_transitions action lives [] cleared 0 states
        ≡ exhausted)
      ⊎ ((hash : TransitionsHash) × (dparser.Lex.Transitions.Hashed.build_transitions action lives
              [] cleared 0 states
            ≡ ok (build_transitions action lives [] 0 states, hash)))
built action lives states =
    elim (outcome_of (λ q h. Mirrors q.0 h) _ (build_transitions action lives [] 0 states) _ refl
      (build_transitions-Same action lives [] cleared 0 states cleared-Mirrors)) [
        | inl behind ↦ inl behind
        | inr (hash, e, _) ↦ inr (hash, e)
      ]

pub compute_transitions_ends :
    (libc : Qsort) (action : ℕ → Action) (states : List ScanState)
    → (compute_transitions libc action states ≡ exhausted)
      ⊎ ((r : List (List ℕ) × List Transition × List (List ℕ)) × (compute_transitions libc action
              states
            ≡ ok r))
unfolding compute_transitions
compute_transitions_ends libc action states =
    let (lives, run, _, _) = compute_liveness-Live libc action states in
    elim (built action lives states) [
      | inl behind ↦ inl (rw (run, compute_transitions) (rw behind refl))
      | inr (hash, e) ↦
          let r = build_transitions action lives [] 0 states in
          inr ((lives, r.0, r.1), rw (run, compute_transitions) (rw e refl))
    ]

-- The transition of state `s` by byte `c`.
pub record Entry (ts : List Transition) (rows : List (List ℕ)) (s c : ℕ) : Type 0 where
  pub row : List ℕ
  pub number : ℕ
  pub transition : Transition
  pub at_row : get_elem? rows s ≡ some row
  pub at_byte : get_elem? row c ≡ some number
  pub at_number : get_elem? ts number ≡ some transition

module _ (libc : Qsort) (action : ℕ → Action) (states : List ScanState) where
  -- The transition by a byte that leads to `t` has, of the actions of the state, those that are not live in `t`.
  abbrev pub Exact : List Transition × List (List ℕ) → Type 0
  Exact r =
      (s c t : ℕ) (ss : ScanState)
      → get_elem? states s ≡ some ss
      → get_elem? ss.chars c ≡ some (some t)
      → (e : Entry r.0 r.1 s c) × ((a : ℕ)
          → has ss.accepts a ≡ true
          → (has_index e.transition.accepts_diff (action a) ≡ true) ↔ (Live states t a → ⊥))
