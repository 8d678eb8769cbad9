-- ===== src/Lex/Transitions/Hashed.antt =====
-- lex.c (`trans_hash_fn`, `trans_cmp_fn`, `build_transitions`, `compute_transitions`): the transitions of a scanner,
-- in a set by `set_add_fn`.
-- An element of the set is a transition by its position in the order in which they are made. Two actions are the
-- same where their indices are. Where `set_add_fn` runs off the table of primes, the functions are `exhausted`.
use dparser.Prelude.{
  ℕ, suc, ◌+◌, ◌*◌, ◌%◌, ◌^◌, Bool, List, [], ◌∷◌, ◌++◌, Option, none, some, ◌==◌, if◌then◌else◌,
  length,
}
use dparser.Libc.{Qsort}
use dparser.Util.Set.{Outcome, ok, out_of_fuel, ◌>>=◌}
use dparser.Util.Hashed.{HashFns, FnTable, cleared, set_add_fn}
use dparser.Lr.{Action}
use dparser.Lex.Subset.{ScanState}
use dparser.Lex.Liveness.{compute_liveness}
use dparser.Lex.Transitions.{Transition, trans_eq, transition_for}

pub record Placed : Type 0 where
  pub position : ℕ
  pub transition : Transition

abbrev pub index_sum : List Action → ℕ
index_sum [] = 0
index_sum (a ∷ actions) = (3 * a.index + index_sum actions) % 2 ^ 32

unfoldable pub trans_hash_fn : Placed → ℕ
trans_hash_fn a = index_sum a.transition.accepts_diff

unfoldable pub trans_cmp_fn : Placed → Placed → Bool
trans_cmp_fn a b = trans_eq a.transition b.transition

abbrev pub trans_hash_fns : HashFns Placed
trans_hash_fns = record { hash_fn = trans_hash_fn; same = trans_cmp_fn }

abbrev pub TransitionsHash : Type 0
TransitionsHash = FnTable Placed

-- The call of `set_add_fn` for `trans`: the transitions and the one that is equal to it, with the set.
unfoldable pub enter_transition :
    List Transition
    → TransitionsHash
    → Transition
    → Outcome ((List Transition × ℕ) × TransitionsHash)
enter_transition ts hash trans =
    set_add_fn trans_hash_fns hash (record { position = length ts; transition = trans }) >>= λ r.
    if r.1.position == length ts
    then ok ((ts ++ trans ∷ [], length ts), r.0)
    else ok ((ts, r.1.position), r.0)

module _ (action : ℕ → Action) (lives : List (List ℕ)) where
  -- The inner loop, over the bytes of state `s`.
  unfoldable pub row_transitions :
      List Transition
      → TransitionsHash
      → ℕ
      → List ℕ
      → List (Option ℕ)
      → Outcome ((List Transition × List ℕ) × TransitionsHash)
  row_transitions ts hash s accepts [] = ok ((ts, []), hash)
  row_transitions ts hash s accepts (o ∷ chars) =
      enter_transition ts hash (transition_for action lives s accepts o) >>= λ first.
      row_transitions first.0.0 first.1 s accepts chars >>= λ rest.
      ok ((rest.0.0, first.0.1 ∷ rest.0.1), rest.1)

  -- The transitions, and the field `transition` of each state, from state `s` on.
  unfoldable pub build_transitions :
      List Transition
      → TransitionsHash
      → ℕ
      → List ScanState
      → Outcome ((List Transition × List (List ℕ)) × TransitionsHash)
  build_transitions ts hash s [] = ok ((ts, []), hash)
  build_transitions ts hash s (ss ∷ states) =
      row_transitions ts hash s ss.accepts ss.chars >>= λ first.
      build_transitions first.0.0 first.1 (suc s) states >>= λ rest.
      ok ((rest.0.0, first.0.1 ∷ rest.0.1), rest.1)

unfoldable pub compute_transitions :
    Qsort
    → (ℕ → Action)
    → List ScanState
    → Outcome (List (List ℕ) × List Transition × List (List ℕ))
compute_transitions libc action states = elim (compute_liveness libc action states) [
  | none ↦ out_of_fuel
  | some lives ↦
      build_transitions action lives [] cleared 0 states >>= λ r. ok (lives, r.0.0, r.0.1)
]
