-- ===== src/Lex/Transitions.antt =====
-- lex.c (`build_transitions`, `compute_transitions`): the transitions of a scanner.
-- `LIVE_DIFF_IN_TRANSITIONS` is not defined. A pointer to a transition is its position in the order in which they
-- are made; the field `index`, by the order of the set, is left out. Actions are numbers in the states, and
-- `action` has what a number stands for. This file has what the loop does on the list of transitions alone; the
-- functions of lex.c, with the hash table, stand in Lex/Transitions/Hashed.
pub mod Sorted
pub mod Search
pub mod Table
pub mod Hashed
pub mod Refines
pub mod Last
use dparser.Prelude.{
  ℕ, zero, suc, ◌+◌, Bool, true, false, ◌&&◌, List, [], ◌∷◌, ◌++◌, map, Option, none, some, ◌==◌,
  if◌then◌else◌, length,
}
use dparser.Lr.{Action}
use dparser.Lex.Diff.{action_diff, action_intersect}
use dparser.Lex.Subset.{ScanState}
use dparser.Lex.Liveness.{live_of}

pub record Transition : Type 0 where
  pub live_diff : List Action
  pub accepts_diff : List Action

unfoldable pub same_actions : List Action → List Action → Bool
same_actions [] [] = true
same_actions [] (_ ∷ _) = false
same_actions (_ ∷ _) [] = false
same_actions (a ∷ as') (b ∷ bs) = a.index == b.index && same_actions as' bs

abbrev pub trans_eq : Transition → Transition → Bool
trans_eq a b = same_actions a.accepts_diff b.accepts_diff

unfoldable pub find_transition : List Transition → Transition → Option ℕ
find_transition [] x = none
find_transition (y ∷ ts) x =
    let rest = find_transition ts x in
    if trans_eq y x then some 0 else elim rest [ none ↦ none | some k ↦ some (suc k) ]

-- The transitions, and the first one that is equal to `x`.
unfoldable pub add_transition : List Transition → Transition → List Transition × ℕ
add_transition ts x = elim (find_transition ts x) [
  | none ↦ (ts ++ x ∷ [], length ts)
  | some k ↦ (ts, k)
]

module _ (action : ℕ → Action) (lives : List (List ℕ)) where
  -- `trans` of state `s`, which accepts `accepts`, for a byte that leads to the state `o`.
  unfoldable pub transition_for : ℕ → List ℕ → Option ℕ → Transition
  transition_for s accepts none = record { live_diff = []; accepts_diff = [] }
  transition_for s accepts (some t) =
      let diff = action_diff (map action (live_of lives s)) (map action (live_of lives t)) in
      record { live_diff = diff; accepts_diff = action_intersect (map action accepts) diff }

  unfoldable pub row_transitions :
      List Transition → ℕ → List ℕ → List (Option ℕ) → List Transition × List ℕ
  row_transitions ts s accepts [] = (ts, [])
  row_transitions ts s accepts (o ∷ chars) =
      let first = add_transition ts (transition_for s accepts o) in
      let rest = row_transitions first.0 s accepts chars in (rest.0, first.1 ∷ rest.1)

  -- The transitions, and the field `transition` of each state, from state `s` on.
  unfoldable pub build_transitions :
      List Transition → ℕ → List ScanState → List Transition × List (List ℕ)
  build_transitions ts s [] = (ts, [])
  build_transitions ts s (ss ∷ states) =
      let first = row_transitions ts s ss.accepts ss.chars in
      let rest = build_transitions first.0 (suc s) states in (rest.0, first.1 ∷ rest.1)
