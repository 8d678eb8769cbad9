-- ===== src/Scan/Safety.antt =====
-- The scanner stays inside the buffer, and its line and column are those of the text.
use dparser.Prelude.{
  ℕ, suc, ◌+◌, ◌-◌, ◌≡◌, refl, inl, inr, Bool, true, false, ◌||◌, List, [], ◌∷◌, some, arith, ◌==◌,
  if◌then◌else◌, length, Bool-cases, Option-cases,
}
use dparser.Scan.{
  Loc, State, Vars, row, entry, next_loc, advance, scan_loop, start_vars, all_matches, scan_buffer,
  ShiftResult,
}
use dparser.Scan.Longest.{locate}

abbrev pub has_nul : List ℕ → Bool
has_nul [] = false
has_nul (c ∷ cs) = c == 0 || has_nul cs

-- No state of the automaton takes the NUL byte.
abbrev pub StopsAtNul : State → Type 0
StopsAtNul ps = (state : ℕ) → entry (row ps state).scanner_block 0 ≡ 0

pub scan_loop_returns :
    (ps : State) (input : List ℕ) (state : ℕ) (x : Vars)
    → StopsAtNul ps
    → has_nul input ≡ true
    → (x' : Vars) × (scan_loop ps input state x ≡ some x')
unfolding scan_loop
scan_loop_returns ps [] state x stops nul = absurd (cc nul)
scan_loop_returns ps (c ∷ rest) state x stops nul =
    elim (Bool-cases (entry (row ps state).scanner_block c == 0)) [
      | inl stop ↦ (x, rw (stop, scan_loop))
      | inr go ↦
          let q = entry (row ps state).scanner_block c - 1 in
          let behind : has_nul rest ≡ true = ground (arith, stops state) in
          let (x', e) = scan_loop_returns ps rest q (advance ps q c x) stops behind in
          (x', rw (go, scan_loop) e)
    ]

-- On a buffer that holds a NUL byte, where no state of the automaton takes that byte, `scan_buffer`
-- returns, and reads no byte behind the buffer.
pub scan_buffer_returns :
    (ps : State) (loc : Loc) (input : List ℕ)
    → StopsAtNul ps
    → has_nul input ≡ true
    → (results : List ShiftResult) × (scan_buffer ps loc input ≡ some results)
unfolding scan_buffer all_matches
scan_buffer_returns ps loc input stops nul =
    let (x', e) = scan_loop_returns ps input 0 (start_vars loc) stops nul in
    elim (Option-cases (scan_buffer ps loc input)) [
      | inl off ↦ absurd (ground arith)
      | inr returned ↦ returned
    ]

-- The newlines of a text, and the bytes behind the last one, after `col` bytes of the line.
abbrev pub newlines : List ℕ → ℕ
newlines [] = 0
newlines (c ∷ cs) = if c == 10 then suc (newlines cs) else newlines cs

abbrev pub column : ℕ → List ℕ → ℕ
column col [] = col
column col (c ∷ cs) = column (if c == 10 then 0 else suc col) cs

-- Behind some bytes the offset has grown by their number and the line by the newlines among them,
-- and the column counts the bytes behind the last newline.
pub locate_lem :
    (loc : Loc) (text : List ℕ)
    → ((locate loc text).s ≡ loc.s + length text)
      × ((locate loc text).line ≡ loc.line + newlines text)
      × ((locate loc text).col ≡ column loc.col text)
unfolding next_loc
locate_lem loc [] = (omega arith, omega arith, refl)
locate_lem loc (c ∷ cs) = ground (arith, locate_lem (next_loc loc c) cs)
