-- ===== src/Lex/Closure.antt =====
-- lex.c (`nfa_closure`, `eq_dfa_state`, `nfacmp`): the states of an automaton that some states lead to
-- without reading.
pub mod Reach
pub mod Canonical
use Prim.Native.Nat.{Ordering, compare}
use dparser.Prelude.{
  ℕ, zero, suc, ◌+◌, Bool, true, false, ◌&&◌, List, [], ◌∷◌, ◌++◌, Option, none, some, ◌==◌,
  if◌then◌else◌, length, get_elem?, has, nat_eq,
}
use dparser.Libc.{Qsort}
use dparser.Lex.{NfaState, nfa_at}

unfoldable pub nfacmp : ℕ → ℕ → Ordering
nfacmp i j = compare i j

-- The loop over the states that state `i` goes to.
unfoldable pub add_targets : List ℕ → List ℕ → List ℕ
add_targets states [] = states
add_targets states (t ∷ epsilon) =
    add_targets (if has states t then states else states ++ t ∷ []) epsilon

-- `for (i = 0; i < x->states.n; i++)`, where the body may add states.
unfoldable pub closure_loop : List NfaState → ℕ → ℕ → List ℕ → Option (List ℕ)
closure_loop n zero i states = none
closure_loop n (suc fuel) i states = elim (get_elem? states i) [
  | none ↦ some states
  | some s ↦ closure_loop n fuel (suc i) (add_targets states (nfa_at n s).epsilon)
]

unfoldable pub eq_dfa_state : List ℕ → List ℕ → Bool
eq_dfa_state [] [] = true
eq_dfa_state [] (_ ∷ _) = false
eq_dfa_state (_ ∷ _) [] = false
eq_dfa_state (x ∷ xs) (y ∷ ys) = x == y && eq_dfa_state xs ys

module _ (libc : Qsort) where
  -- A round for each state of the automaton, and one to stop.
  unfoldable pub nfa_closure : List NfaState → List ℕ → Option (List ℕ)
  nfa_closure n states = elim (closure_loop n (suc (length n)) 0 states) [
    | none ↦ none
    | some all ↦ some (libc.qsort ℕ nfacmp all)
  ]
