-- ===== src/Tests/Scanners.antt =====
-- A scanner of three states: the live actions and the transitions.
use dparser.Prelude.{
  refl, ℕ, ◌≡◌, ◌↔◌, ◌⊎◌, true, false, List, [], ◌∷◌, some, none, length, has, nat_eq,
}
use dparser.Libc.Insertion.{insertion}
use dparser.Lr.{Action, ActionKind}
use dparser.Lex.Subset.{ScanState}
use dparser.Lex.Liveness.{live_of, compute_liveness}
use dparser.Lex.Liveness.Reach.{Live}
use dparser.Lex.Liveness.Exact.{compute_liveness-Live}
use dparser.Lex.Transitions.Last.{Exact}
use dparser.Tests.Expressions.{ascii}
use dparser.Lr.Actions.{Numbering}
use dparser.Lex.{blank_nfa, add_char, add_accept}
use dparser.Lex.Brackets.{done, overrun}
use dparser.Lex.Subset.Language.{run, is_bytes, read, stop}
use dparser.Lex.Subset.Scanner.{Accepts, all_chars}
use dparser.Lex.Strings.{ScanTerm, TermKind, add_strings, add_string, walk, step_byte, step_folded}
use dparser.Lex.Strings.Language.{AllPlain}
use dparser.Lex.Scanners.{Scanner, Shifts, priority_of, build_state_scanner, detect_same}
use dparser.Lex.Scanners.Strings.{Verdict, build_state_scanner-Verdict}
use dparser.Lex.Scanners.Same.{AllSame, shifts_of, detect_same_lem}

abbrev action : ℕ → Action
action n = record { kind = ActionKind.shift; term = some n; rule = none; state = none; index = n }

-- State 0 accepts 0 and goes to 1, which accepts 1 and goes to 2, which accepts 0 and stays.
abbrev state_0 : ScanState
state_0 = record { index = 0; chars = some 1 ∷ none ∷ []; accepts = 0 ∷ [] }

abbrev state_1 : ScanState
state_1 = record { index = 1; chars = none ∷ some 2 ∷ []; accepts = 1 ∷ [] }

abbrev state_2 : ScanState
state_2 = record { index = 2; chars = some 2 ∷ []; accepts = 0 ∷ [] }

abbrev states : List ScanState
states = state_0 ∷ state_1 ∷ state_2 ∷ []

compute_liveness-Live_example :
    (lives : List (List ℕ)) × (compute_liveness insertion action states ≡ some lives)
    × (length lives ≡ 3)
    × ((i a : ℕ) → (has (live_of lives i) a ≡ true) ↔ Live states i a)
compute_liveness-Live_example = compute_liveness-Live insertion action states

abbrev plain_term : List ℕ → ℕ → ScanTerm
plain_term text priority = record {
  kind = TermKind.string;
  text = text;
  priority = priority;
  ignore_case = false;
}

-- "a", "ab", and "ab" with a lower priority.
abbrev terms : List ScanTerm
terms = plain_term (97 ∷ []) 10 ∷ plain_term (97 ∷ 98 ∷ []) 10 ∷ plain_term (97 ∷ 98 ∷ []) 9 ∷ []

abbrev shifts : List Action
shifts = action 0 ∷ action 1 ∷ action 2 ∷ []

abbrev numbering : Numbering
numbering = record { actions = shifts; action_count = 3 }

plain : AllPlain terms shifts
plain = (
  record { shifts = refl; strings = refl; cased = refl },
  (
    record { shifts = refl; strings = refl; cased = refl },
    (record { shifts = refl; strings = refl; cased = refl }, record {}),
  ),
)

build_state_scanner-Verdict_example :
    (build_state_scanner insertion ascii terms numbering shifts ≡ overrun)
    ⊎ ((scanner : Scanner) × (build_state_scanner insertion ascii terms numbering shifts
          ≡ done (numbering, some scanner))
        × ((w : List ℕ)
            → is_bytes w ≡ true
            → Verdict
                (priority_of insertion ascii terms shifts)
                terms
                shifts
                scanner.states
                w
                (run (all_chars scanner.states) 0 w)))
build_state_scanner-Verdict_example =
    build_state_scanner-Verdict insertion ascii terms numbering shifts plain (λ e. cc e)

-- "a" in either case, and "ab" as it stands.
abbrev mixed : List ScanTerm
mixed = record (plain_term (97 ∷ []) 10) { ignore_case = true } ∷ plain_term (97 ∷ 98 ∷ []) 10 ∷ []

-- "Ab" is read as "ab", since the two strings share the state behind their first byte.
mixed_cases :
    Accepts (add_strings ascii mixed (blank_nfa ∷ []) (action 0 ∷ action 1 ∷ [])) 0 (65 ∷ 98 ∷ []) 1
unfolding add_strings add_string walk step_byte step_folded add_char add_accept
mixed_cases =
    (2, read {s = 0} {t = 1} {c = 65} refl (read {s = 1} {t = 2} {c = 98} refl stop), refl)

abbrev same_states : List Shifts
same_states =
    record { actions = action 0 ∷ []; scan_kind = 0 }
    ∷ record { actions = action 1 ∷ []; scan_kind = 0 }
    ∷ record { actions = action 0 ∷ []; scan_kind = 0 }
    ∷ []

detect_same_lem_example :
    AllSame (detect_same [] same_states) × (shifts_of (detect_same [] same_states) ≡ same_states)
detect_same_lem_example = detect_same_lem same_states
