-- ===== src/Tests/Scanning.antt =====
-- The scanner on an automaton of two states, and the merge of action lists.
use dparser.Prelude.{ℕ, suc, zero, ◌≡◌, refl, inl, List, [], ◌∷◌, some, none, replicate, set}
use dparser.Scan.{
  Loc, Shift, ShiftResult, State, entry, all_matches, scan_buffer, select, scan_loop, advance,
  next_loc, trailing_results, add_results,
}
use dparser.Scan.Match.{IsLongestMatch, all_matches-IsLongestMatch}
use dparser.Scan.Select.{select_lists, select_lem}
use dparser.Scan.Safety.{StopsAtNul, scan_buffer_returns}

abbrev an_a : Shift
an_a = record { symbol = 4; shift_kind = 0 }

-- The block of the bytes 64 to 127 in which only `a` has an entry.
abbrev a_block : List ℕ
a_block = set (replicate 64 0) 33 2

-- `a+`
abbrev letters : State
letters = record {
  scanner_size = 1;
  scan_kind = 1;
  scanner_table =
      record { shift = none; scanner_block = [] ∷ a_block ∷ [] }
      ∷ record { shift = some (an_a ∷ []); scanner_block = [] ∷ a_block ∷ [] }
      ∷ [];
  transition_table = [];
  accepts_diff = none;
}

abbrev origin : Loc
origin = record { s = 0; line = 1; col = 0 }

-- "aa" and the NUL byte
abbrev text : List ℕ
text = 97 ∷ 97 ∷ 0 ∷ []

abbrev found_two : List ShiftResult
found_two = record { loc = record { s = 2; line = 1; col = 2 }; shift = an_a } ∷ []

scan_two : all_matches letters origin text ≡ some found_two
unfolding all_matches scan_loop advance next_loc trailing_results add_results entry
scan_two = refl

all_matches-IsLongestMatch_example :
    (k : ℕ) × (q : ℕ) × IsLongestMatch letters origin text found_two k q
all_matches-IsLongestMatch_example =
    all_matches-IsLongestMatch letters origin text found_two (inl refl) refl scan_two

select_lem_example : select 2 2 found_two ≡ select_lists 2 2 found_two
select_lem_example = select_lem 2 2 found_two

letters-StopsAtNul : StopsAtNul letters
unfolding entry
letters-StopsAtNul zero = refl
letters-StopsAtNul (suc zero) = refl
letters-StopsAtNul (suc (suc n)) = refl

scan_buffer_returns_example :
    (results : List ShiftResult) × (scan_buffer letters origin text ≡ some results)
scan_buffer_returns_example = scan_buffer_returns letters origin text letters-StopsAtNul refl

-- Two lines
abbrev two_lines : List ℕ
two_lines = 97 ∷ 10 ∷ 98 ∷ []
