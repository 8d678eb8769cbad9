-- ===== src/Scan.antt =====
-- scan.c (`scan_buffer`) with the tables of dparse_tables.h that it reads.
-- The input is the list of bytes from the current position to the end of the buffer, and a position
-- is its offset. The three cases of the `switch` differ in the width of a table entry only, and are
-- one function here. A loop that runs off the buffer is the outcome `none`.
pub mod Longest
pub mod Safety
pub mod Match
pub mod Compact
pub mod Select
use dparser.Prelude.{
  ℕ, zero, suc, ◌+◌, ◌-◌, ◌/◌, ◌%◌, Bool, true, false, not, ◌&&◌, ◌||◌, List, [], ◌∷◌, ◌++◌, map,
  Option, none, some, ltb, ◌==◌, if◌then◌else◌, length, set, get_or, get_elem?, drop, take,
}

-- d_loc_t, less the path name and the white space.
pub record Loc : Type 0 where
  pub s : ℕ
  pub line : ℕ
  pub col : ℕ

-- The fields of D_Shift that tell shifts apart and that the scanner reads.
pub record Shift : Type 0 where
  pub symbol : ℕ
  pub shift_kind : ℕ

pub record ShiftResult : Type 0 where
  pub loc : Loc
  pub shift : Shift

-- SB_uint8, SB_uint16 and SB_uint32: a NULL `shift` is `none`.
pub record Row : Type 0 where
  pub shift : Option (List Shift)
  pub scanner_block : List (List ℕ)

-- The fields of D_State that the scanner reads.
pub record State : Type 0 where
  pub scanner_size : ℕ
  pub scan_kind : ℕ
  pub scanner_table : List Row
  pub transition_table : List (List (List ℕ))
  pub accepts_diff : Option (List (List Shift))

-- D_SCAN_LONGEST, D_SCAN_MIXED and D_SCAN_TRAILING
abbrev pub scan_longest : ℕ
scan_longest = 1

abbrev pub scan_mixed : ℕ
scan_mixed = 2

abbrev pub scan_trailing : ℕ
scan_trailing = 3

-- `scanner_block[c >> SCANNER_BLOCK_SHIFT][c & SCANNER_BLOCK_MASK]`
unfoldable pub entry : List (List ℕ) → ℕ → ℕ
entry blocks c = get_or (get_or blocks (c / 64) []) (c % 64) 0

abbrev pub no_row : Row
no_row = record { shift = none; scanner_block = [] }

abbrev pub row : State → ℕ → Row
row ps state = get_or ps.scanner_table state no_row

-- The local variables that the loop changes, `state` and `c` apart.
pub record Vars : Type 0 where
  pub last : ℕ
  pub prev : ℕ
  pub loc : Loc
  pub last_loc : Loc
  pub results : List ShiftResult

-- The position behind the byte `c`.
unfoldable pub next_loc : Loc → ℕ → Loc
next_loc loc c =
    if c == 10
    then record { s = loc.s + 1; line = loc.line + 1; col = 0 }
    else record loc { s = loc.s + 1; col = loc.col + 1 }

unfoldable pub add_results : Loc → List Shift → List ShiftResult → List ShiftResult
add_results loc shifts results = results ++ map (λ sh. record { loc = loc; shift = sh }) shifts

-- The results that end before `c`: `accepts_diff[tst[prev].scanner_block[sb][so]]`.
unfoldable pub trailing_results : State → ℕ → Vars → List ShiftResult
trailing_results ps c x = if x.prev == 0 then x.results else elim ps.accepts_diff [
  | none ↦ x.results
  | some diffs ↦
      add_results x.loc (get_or diffs (entry (get_or ps.transition_table x.prev []) c) []) x.results
]

abbrev pub accepts : State → ℕ → Bool
accepts ps state = elim (row ps state).shift [ none ↦ false | some _ ↦ true ]

-- The body of the loop, once `state` is the state behind `c`.
unfoldable pub advance : State → ℕ → ℕ → Vars → Vars
advance ps state c x =
    let loc = next_loc x.loc c in
    record {
      last = if accepts ps state then state else x.last;
      prev = state;
      loc = loc;
      last_loc = if accepts ps state then loc else x.last_loc;
      results = trailing_results ps c x;
    }

unfoldable pub scan_loop : State → List ℕ → ℕ → Vars → Option Vars
scan_loop ps [] state x = none
scan_loop ps (c ∷ rest) state x =
    let next = entry (row ps state).scanner_block c in
    let more = scan_loop ps rest (next - 1) (advance ps (next - 1) c x) in
    if next == 0 then some x else more

abbrev pub start_vars : Loc → Vars
start_vars loc = record { last = 0; prev = 0; loc = loc; last_loc = loc; results = [] }

-- All results in the order in which they are found.
unfoldable pub all_matches : State → Loc → List ℕ → Option (List ShiftResult)
all_matches ps loc input =
    if ps.scanner_size == 1 || ps.scanner_size == 2 || ps.scanner_size == 4
    then elim (scan_loop ps input 0 (start_vars loc)) [
      | none ↦ none
      | some x ↦ elim (row ps x.last).shift [
        | none ↦ some x.results
        | some shifts ↦ some (add_results x.last_loc shifts x.results)
      ]
    ]
    else some []

-- The loop over the results from the last one: how many it leaves at the front, and `longest`.
unfoldable pub find_longest : ℕ → ℕ → List ShiftResult → ℕ × Bool
find_longest end_s zero results = (0, false)
find_longest end_s (suc i) results =
    let rest = find_longest end_s i results in
    elim (get_elem? results i) [
      | none ↦ (suc i, false)
      | some r ↦
          if ltb r.loc.s end_s
          then (suc i, false)
          else (rest.0, (r.shift.shift_kind == scan_longest) || rest.1)
    ]

-- The loop that keeps some results, in place: `i` of them are kept when slot `j` is read.
unfoldable pub compact : (ShiftResult → Bool) → ℕ → ℕ → ℕ → List ShiftResult → ℕ × List ShiftResult
compact keep zero j i results = (i, results)
compact keep (suc rounds) j i results = elim (get_elem? results j) [
  | none ↦ (i, results)
  | some r ↦
      compact keep rounds (j + 1) (if keep r then i + 1 else i)
        (if keep r && not (i == j) then set results i r else results)
]

-- The same from the other end: slot `j` is read next, and the kept ones stand from slot `i`.
unfoldable pub compact_back : (ShiftResult → Bool) → ℕ → ℕ → List ShiftResult → ℕ × List ShiftResult
compact_back keep zero i results = (i, results)
compact_back keep (suc j) i results = elim (get_elem? results j) [
  | none ↦ (i, results)
  | some r ↦
      compact_back keep j (if keep r then i - 1 else i)
        (if keep r && not (i == suc j) then set results (i - 1) r else results)
]

unfoldable pub keeps_longest : ℕ → ShiftResult → Bool
keeps_longest end_s r = r.loc.s == end_s || r.shift.shift_kind == scan_trailing

unfoldable pub keeps_short : ShiftResult → Bool
keeps_short r = not (r.shift.shift_kind == scan_longest)

-- What is left of the results after the last part of `scan_buffer`, for the end of the last one.
unfoldable pub select : ℕ → ℕ → List ShiftResult → List ShiftResult
select scan_kind end_s results =
    let n = length results in
    let (left, at_end) = find_longest end_s n results in
    if scan_kind == scan_longest || (scan_kind == scan_mixed && at_end)
    then (let (i, kept) = compact (keeps_longest end_s) n 0 0 results in take i kept)
    else if scan_kind == scan_mixed
    then (let (i, kept) = compact_back keeps_short left left results in drop i kept)
    else results

-- The offset behind the last result.
unfoldable pub last_end : List ShiftResult → ℕ
last_end [] = 0
last_end (r ∷ []) = r.loc.s
last_end (r ∷ q ∷ rest) = last_end (q ∷ rest)

unfoldable pub scan_buffer : State → Loc → List ℕ → Option (List ShiftResult)
scan_buffer ps loc input = elim (all_matches ps loc input) [
  | none ↦ none
  | some results ↦ some (select ps.scan_kind (last_end results) results)
]
