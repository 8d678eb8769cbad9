-- ===== src/Lr/Hashed/Correct.antt =====
-- The LR(0) automaton that is built with the hash table of the states.
use dparser.Prelude.{◌≡◌, ◌⊎◌, inl, inr, ℕ, List, Option, some}
use dparser.Libc.{Qsort}
use dparser.Gram.{Symbol, Grammar, item_Eq}
use dparser.Util.Set.{ok, exhausted}
use dparser.Util.Hashed.Laws.{Crowded, With}
use dparser.Util.Hashed.Same.{outcome_of}
use dparser.Lr.{State, first_item}
use dparser.Lr.Automaton.{first_rule}
use dparser.Lr.Automaton.Language.{Ends, state_after}
use dparser.Lr.Automaton.Start.{build_lr_sets-Ends}
use dparser.Lr.Hashed.{Listed, StatesHash, state_hash_fns, build_lr_sets}
use dparser.Lr.Hashed.Sets.{build_lr_sets-Same}

-- A new element meets a table of the last prime that is crowded, with elements of this table and itself.
abbrev pub RunsOff : StatesHash → Type 0
RunsOff hash = (x : Listed) × Crowded state_hash_fns (With state_hash_fns hash x)

module _ (libc : Qsort) (g : Grammar) where
  -- Where the first rule has an element, `build_LR_sets` reads behind `d_prime2`, or ends, and then, behind any
  -- symbols, its automaton is in the state of exactly the items that these symbols reach from the first rule, or
  -- in no state where they reach none.
  pub build_lr_sets-IsAutomaton :
      (r : ℕ)
      → first_rule g ≡ some r
      → (build_lr_sets libc g r ≡ exhausted)
        ⊎ ((states : List State) × (own : List (Option ℕ)) × (hash : StatesHash) × (build_lr_sets
                libc g r
              ≡ ok ((states, own), hash))
            × ((w : List Symbol) → Ends g (first_item r) states w (state_after states w)))
  build_lr_sets-IsAutomaton r first =
      let (states, own, run, ends) = build_lr_sets-Ends libc g r first in
      elim (outcome_of (λ _ _. Unit {0}) _ (states, own) (build_lr_sets libc g r) run
        (build_lr_sets-Same libc g r first)) [
          | inl behind ↦ inl behind
          | inr (hash, ended, _) ↦ inr (states, own, hash, ended, ends)
        ]
