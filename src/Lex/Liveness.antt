-- ===== src/Lex/Liveness.antt =====
-- lex.c (`compute_liveness`): the actions that are live in a state of a scanner.
-- `lives` has the field `live` of each state, by position. The set is a list without repetitions, in the order of
-- insertion, until it is sorted. Actions are numbers here, and `action` has what a number stands for.
pub mod Grows
pub mod Rounds
pub mod Reach
pub mod Exact
pub mod Once
use dparser.Prelude.{
  ℕ, zero, suc, ◌*◌, Bool, true, false, not, ◌||◌, List, [], ◌∷◌, ◌++◌, map, Option, none, some,
  ◌==◌, if◌then◌else◌, length, set, get_or, has, nat_eq,
}
use dparser.Libc.{Qsort}
use dparser.Lr.{Action}
use dparser.Lr.Actions.{actioncmp}
use dparser.Lex.Subset.{ScanState}

-- `set_union`: the set, and whether it changed.
unfoldable pub set_union : List ℕ → List ℕ → List ℕ × Bool
set_union live [] = (live, false)
set_union live (a ∷ more) =
    let fresh = not (has live a) in
    let r = set_union (if fresh then live ++ a ∷ [] else live) more in (r.0, fresh || r.1)

abbrev pub live_of : List (List ℕ) → ℕ → List ℕ
live_of lives s = get_or lives s []

-- The live actions before the first round.
unfoldable pub first_lives : List ScanState → List (List ℕ)
first_lives [] = []
first_lives (ss ∷ states) = (set_union [] ss.accepts).0 ∷ first_lives states

-- The body of the loop over the bytes, for the state that state `s` goes to.
unfoldable pub visit_char : List (List ℕ) → ℕ → Option ℕ → List (List ℕ) × Bool
visit_char lives s none = (lives, false)
visit_char lives s (some t) =
    if s == t
    then (lives, false)
    else (let r = set_union (live_of lives s) (live_of lives t) in (set lives s r.0, r.1))

unfoldable pub visit_chars : List (List ℕ) → ℕ → List (Option ℕ) → List (List ℕ) × Bool
visit_chars lives s [] = (lives, false)
visit_chars lives s (o ∷ chars) =
    let first = visit_char lives s o in
    let rest = visit_chars first.0 s chars in (rest.0, first.1 || rest.1)

-- A round, from state `s` on.
unfoldable pub visit_states : List (List ℕ) → ℕ → List ScanState → List (List ℕ) × Bool
visit_states lives s [] = (lives, false)
visit_states lives s (ss ∷ states) =
    let first = visit_chars lives s ss.chars in
    let rest = visit_states first.0 (suc s) states in (rest.0, first.1 || rest.1)

unfoldable pub live_loop : ℕ → List ScanState → List (List ℕ) → Option (List (List ℕ))
live_loop zero states lives = none
live_loop (suc fuel) states lives =
    let r = visit_states lives 0 states in
    elim r.1 [ false ↦ some r.0 | true ↦ live_loop fuel states r.0 ]

-- The actions that the states accept.
abbrev pub every_accept : List ScanState → List ℕ
every_accept [] = []
every_accept (ss ∷ states) = ss.accepts ++ every_accept states

-- A round for each action in each state, and one to stop.
abbrev pub live_fuel : List ScanState → ℕ
live_fuel states = suc (length states * length (every_accept states))

module _ (libc : Qsort) (action : ℕ → Action) where
  unfoldable pub sort_live : List ℕ → List ℕ
  sort_live live = libc.qsort ℕ (λ a b. actioncmp (action a) (action b)) live

  unfoldable pub compute_liveness : List ScanState → Option (List (List ℕ))
  compute_liveness states = elim (live_loop (live_fuel states) states (first_lives states)) [
    | none ↦ none
    | some lives ↦ some (map sort_live lives)
  ]
