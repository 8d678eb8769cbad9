-- ===== src/Lex/Subset.antt =====
-- lex.c (`nfa_to_scanner`, `dfa_to_scanner`): the deterministic automaton of a scanner.
-- A DFA state is a position: `sets` has its NFA states, and `rows` its `chars`, for the states that
-- the loop has visited, which are the first ones. NULL is `none`.
-- The set `y->states` is a list without repetitions, in the order of insertion: `nfa_closure` sorts it.
-- Actions are numbers, and `priority` is the priority of the terminal of an action less INT_MIN.
pub mod Edges
pub mod Count
pub mod Loop
pub mod Language
pub mod Start
pub mod Accepts
pub mod Scanner
use dparser.Prelude.{
  ℕ, zero, suc, ◌+◌, ◌^◌, Bool, true, false, List, [], ◌∷◌, ◌++◌, Option, none, some, ltb, ◌==◌,
  if◌then◌else◌, length, get_elem?, is_empty,
}
use dparser.Libc.{Qsort}
use dparser.Lex.{NfaState, nfa_at, targets}
use dparser.Lex.Closure.{add_targets, eq_dfa_state, nfa_closure}

-- The NFA states that those of `states` go to by the byte, added to `y`.
unfoldable pub moves : List NfaState → ℕ → List ℕ → List ℕ → List ℕ
moves n c [] y = y
moves n c (s ∷ states) y = moves n c states (add_targets y (targets (nfa_at n s).chars c))

unfoldable pub find_dfa : List (List ℕ) → List ℕ → Option ℕ
find_dfa [] y = none
find_dfa (x ∷ sets) y =
    let rest = find_dfa sets y in
    if eq_dfa_state y x then some 0 else elim rest [ none ↦ none | some j ↦ some (suc j) ]

unfoldable pub highest_from : (ℕ → ℕ) → ℕ → List ℕ → ℕ
highest_from priority highest [] = highest
highest_from priority highest (a ∷ accepts) =
    highest_from priority (if ltb highest (priority a) then priority a else highest) accepts

unfoldable pub with_priority : (ℕ → ℕ) → ℕ → List ℕ → List ℕ
with_priority priority highest [] = []
with_priority priority highest (a ∷ accepts) =
    let rest = with_priority priority highest accepts in
    if priority a == highest then a ∷ rest else rest

-- The actions that the two pairs of loops read.
unfoldable pub all_accepts : List NfaState → List ℕ → List ℕ
all_accepts n [] = []
all_accepts n (s ∷ states) = (nfa_at n s).accepts ++ all_accepts n states

pub record ScanState : Type 0 where
  pub index : ℕ
  pub chars : List (Option ℕ)
  pub accepts : List ℕ

unfoldable pub scan_state : List NfaState → (ℕ → ℕ) → ℕ → List ℕ → List (Option ℕ) → ScanState
scan_state n priority i states chars =
    let accepts = all_accepts n states in
    record {
      index = i;
      chars = chars;
      accepts = with_priority priority (highest_from priority 0 accepts) accepts;
    }

unfoldable pub dfa_to_scanner :
    List NfaState → (ℕ → ℕ) → ℕ → List (List ℕ) → List (List (Option ℕ)) → List ScanState
dfa_to_scanner n priority i [] rows = []
dfa_to_scanner n priority i (x ∷ sets) [] = []
dfa_to_scanner n priority i (x ∷ sets) (chars ∷ rows) =
    scan_state n priority i x chars ∷ dfa_to_scanner n priority (suc i) sets rows

module _ (libc : Qsort) where
  -- The body of the loop over the bytes: the DFA states, and the new `x->chars[i_char]`.
  unfoldable pub edge :
      List NfaState → List ℕ → ℕ → List (List ℕ) → Option (List (List ℕ) × Option ℕ)
  edge n x c sets =
      let y = moves n c x [] in
      if is_empty y then some (sets, none) else elim (nfa_closure libc n y) [
        | none ↦ none
        | some z ↦ elim (find_dfa sets z) [
          | some j ↦ some (sets, some j)
          | none ↦ some (sets ++ z ∷ [], some (length sets))
        ]
      ]

  -- `rest` bytes, from `c` on
  unfoldable pub row :
      List NfaState → List ℕ → ℕ → ℕ → List (List ℕ) → Option (List (List ℕ) × List (Option ℕ))
  row n x zero c sets = some (sets, [])
  row n x (suc rest) c sets = elim (edge n x c sets) [
    | none ↦ none
    | some (sets', o) ↦ elim (row n x rest (suc c) sets') [
      | none ↦ none
      | some (sets'', chars) ↦ some (sets'', o ∷ chars)
    ]
  ]

  unfoldable pub dfa_loop :
      List NfaState
      → ℕ
      → List (List ℕ)
      → List (List (Option ℕ))
      → Option (List (List ℕ) × List (List (Option ℕ)))
  dfa_loop n zero sets rows = none
  dfa_loop n (suc fuel) sets rows = elim (get_elem? sets (length rows)) [
    | none ↦ some (sets, rows)
    | some x ↦ elim (row n x 256 0 sets) [
      | none ↦ none
      | some (sets', chars) ↦ dfa_loop n fuel sets' (rows ++ chars ∷ [])
    ]
  ]

  -- A round for each set of NFA states, and one to stop.
  unfoldable pub build_dfa : List NfaState → ℕ → Option (List (List ℕ) × List (List (Option ℕ)))
  build_dfa n start = elim (nfa_closure libc n (start ∷ [])) [
    | none ↦ none
    | some x ↦ dfa_loop n (suc (2 ^ length n)) (x ∷ []) []
  ]

  unfoldable pub nfa_to_scanner : List NfaState → (ℕ → ℕ) → ℕ → Option (List ScanState)
  nfa_to_scanner n priority start = elim (build_dfa n start) [
    | none ↦ none
    | some (sets, rows) ↦ some (dfa_to_scanner n priority 0 sets rows)
  ]
