-- ===== src/Tests/Runs.antt =====
-- The automaton of a small grammar.
use dparser.Prelude.{ℕ, ◌≡◌, ◌⊎◌, refl, List, Option}
use dparser.Libc.Insertion.{insertion}
use dparser.Gram.{Symbol}
use dparser.Util.Set.{ok, exhausted}
use dparser.Tests.States.{nested}
use dparser.Lr.{State, first_item}
use dparser.Lr.Automaton.Language.{Ends, state_after}
use dparser.Lr.Hashed.{StatesHash, build_lr_sets}
use dparser.Lr.Hashed.Correct.{build_lr_sets-IsAutomaton}

build_lr_sets-IsAutomaton_example :
    (build_lr_sets insertion nested 0 ≡ exhausted)
    ⊎ ((states : List State) × (own : List (Option ℕ)) × (hash : StatesHash) × (build_lr_sets
            insertion nested 0
          ≡ ok ((states, own), hash))
        × ((w : List Symbol) → Ends nested (first_item 0) states w (state_after states w)))
build_lr_sets-IsAutomaton_example = build_lr_sets-IsAutomaton insertion nested 0 refl
