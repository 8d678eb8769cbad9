-- ===== src/Scan/Match.antt =====
-- Without trailing contexts, the matches are the shifts of the longest match.
use dparser.Prelude.{
  ℕ, zero, suc, ◌-◌, ◌≤◌, ◌<◌, ◌≡◌, refl, ◌∙◌, ◌⊎◌, inl, inr, true, false, List, [], ◌∷◌, none,
  some, arith, ◌==◌, length, take, Bool-cases, Option-cases,
}
use dparser.Scan.{
  Loc, Shift, ShiftResult, State, Vars, row, entry, accepts, advance, trailing_results, add_results,
  scan_loop, start_vars, all_matches,
}
use dparser.Scan.Longest.{locate, run, IsLongest, scan_loop-IsLongest}

scan_loop-results :
    (ps : State) (input : List ℕ) (state : ℕ) (x x' : Vars)
    → ps.accepts_diff ≡ none
    → scan_loop ps input state x ≡ some x'
    → x'.results ≡ x.results
unfolding scan_loop
scan_loop-results ps [] state x x' plain e = absurd (cc e)
scan_loop-results ps (c ∷ rest) state x x' plain e =
    elim (Bool-cases (entry (row ps state).scanner_block c == 0)) [
      | inl stop ↦ let stays : some x ≡ some x' = rw (stop, scan_loop) at e in ground arith
      | inr go ↦
          let q = entry (row ps state).scanner_block c - 1 in
          let kept : (advance ps q c x).results ≡ x.results =
            unfold advance trailing_results in ground arith in
          scan_loop-results ps rest q (advance ps q c x) x' plain (rw (go, scan_loop) at e) ∙ kept
    ]

-- The shifts of a state, of which there may be none.
abbrev pub shifts_of : State → ℕ → List Shift
shifts_of ps q = elim (row ps q).shift [ none ↦ [] | some shifts ↦ shifts ]

-- `rs` are the shifts at the state behind the first `k` bytes, and no longer match exists.
pub record IsLongestMatch (ps : State) (loc : Loc) (input : List ℕ) (rs : List ShiftResult)
    (k q : ℕ) : Type 0 where
  pub within : k ≤ length input
  pub reached : run ps 0 (take k input) ≡ some q
  pub accepted : 0 < k → accepts ps q ≡ true
  pub matches : rs ≡ add_results (locate loc (take k input)) (shifts_of ps q) []
  pub longest :
      (m p : ℕ) → k < m → m ≤ length input → run ps 0 (take m input) ≡ some p → accepts ps p ≡ false

plain_result :
    (ps : State) (loc : Loc) (input : List ℕ) (rs : List ShiftResult) (x : Vars)
    → (ps.scanner_size ≡ 1) ⊎ (ps.scanner_size ≡ 2) ⊎ (ps.scanner_size ≡ 4)
    → ps.accepts_diff ≡ none
    → scan_loop ps input 0 (start_vars loc) ≡ some x
    → all_matches ps loc input ≡ some rs
    → rs ≡ add_results x.last_loc (shifts_of ps x.last) []
unfolding all_matches add_results
plain_result ps loc input rs x size plain run_ends e =
    ground (arith, scan_loop-results ps input 0 (start_vars loc) x plain run_ends)

match_at :
    (ps : State) (loc : Loc) (input : List ℕ) (rs : List ShiftResult) (x : Vars) (k : ℕ)
    → rs ≡ add_results x.last_loc (shifts_of ps x.last) []
    → IsLongest ps 0 input (start_vars loc) x k
    → IsLongestMatch ps loc input rs k x.last
unfolding run
match_at ps loc input rs x zero e h =
    let (last, at) = h.unmoved refl in
    record {
      within = h.within;
      reached = rw last;
      accepted = λ pos. absurd (omega arith);
      matches = rw (← at) e;
      longest = h.none_later;
    }
match_at ps loc input rs x (suc k) e h =
    let (reached, accepted, at) = h.here (omega arith) in
    record {
      within = h.within;
      reached = reached;
      accepted = λ _. accepted;
      matches = rw (← at) e;
      longest = h.none_later;
    }

-- In a state whose table has one of the three sizes and no trailing contexts, the matches that are
-- found are those of the longest prefix of the input that leads to an accepting state.
pub all_matches-IsLongestMatch :
    (ps : State) (loc : Loc) (input : List ℕ) (rs : List ShiftResult)
    → (ps.scanner_size ≡ 1) ⊎ (ps.scanner_size ≡ 2) ⊎ (ps.scanner_size ≡ 4)
    → ps.accepts_diff ≡ none
    → all_matches ps loc input ≡ some rs
    → (k : ℕ) × (q : ℕ) × IsLongestMatch ps loc input rs k q
unfolding all_matches
all_matches-IsLongestMatch ps loc input rs size plain e =
    elim (Option-cases (scan_loop ps input 0 (start_vars loc))) [
      | inl off ↦ absurd (ground arith)
      | inr (x, ends) ↦
          let (k, h) = scan_loop-IsLongest ps input 0 (start_vars loc) x ends in
          (
            k,
            x.last,
            match_at ps loc input rs x k (plain_result ps loc input rs x size plain ends e) h,
          )
    ]
