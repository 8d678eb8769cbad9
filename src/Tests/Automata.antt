-- ===== src/Tests/Automata.antt =====
-- A scanner for the texts "a" and "ab", of which the first one has the higher priority.
use dparser.Prelude.{
  ℕ, zero, suc, ◌<◌, ◌≡◌, ◌↔◌, refl, Bool, true, false, List, [], ◌∷◌, some, ◌==◌, arith, has,
  nat_eq,
}
use dparser.Libc.Insertion.{insertion}
use dparser.Lex.{NfaState, nfa_at, targets}
use dparser.Lex.Closure.{nfa_closure}
use dparser.Lex.Closure.Reach.{Reaches, IsSubset}
use dparser.Lex.Closure.Canonical.{rising, nfa_closure-Reaches}
use dparser.Lex.Subset.{ScanState, nfa_to_scanner}
use dparser.Lex.Subset.Edges.{IsNfa}
use dparser.Lex.Subset.Language.{run, is_bytes}
use dparser.Lex.Subset.Scanner.{Answer, all_chars, nfa_to_scanner-Answer}

-- State 1 reads "a" and accepts the action 7 behind it, and 3 reads "ab" and accepts 8.
abbrev automaton : List NfaState
automaton =
    record { chars = []; epsilon = 1 ∷ 3 ∷ []; accepts = [] }
    ∷ record { chars = (97, 2) ∷ []; epsilon = []; accepts = [] }
    ∷ record { chars = []; epsilon = []; accepts = 7 ∷ [] }
    ∷ record { chars = (97, 4) ∷ []; epsilon = []; accepts = [] }
    ∷ record { chars = (98, 5) ∷ []; epsilon = []; accepts = [] }
    ∷ record { chars = []; epsilon = 2 ∷ []; accepts = 8 ∷ [] }
    ∷ []

abbrev priority : ℕ → ℕ
priority a = if_seven (a == 7)
  where
    if_seven : Bool → ℕ
    if_seven true = 10
    if_seven false = 5

silent_edges : (s t : ℕ) → has (nfa_at automaton s).epsilon t ≡ true → t < 6
silent_edges zero t held = ground (arith, held)
silent_edges (suc zero) t held = absurd (cc held)
silent_edges (suc (suc zero)) t held = absurd (cc held)
silent_edges (suc (suc (suc zero))) t held = absurd (cc held)
silent_edges (suc (suc (suc (suc zero)))) t held = absurd (cc held)
silent_edges (suc (suc (suc (suc (suc zero))))) t held = ground (arith, held)
silent_edges (suc (suc (suc (suc (suc (suc s)))))) t held = absurd (cc held)

reading_edges : (s c t : ℕ) → has (targets (nfa_at automaton s).chars c) t ≡ true → t < 6
reading_edges zero c t held = absurd (cc held)
reading_edges (suc zero) c t held = ground (arith, held)
reading_edges (suc (suc zero)) c t held = absurd (cc held)
reading_edges (suc (suc (suc zero))) c t held = ground (arith, held)
reading_edges (suc (suc (suc (suc zero)))) c t held = ground (arith, held)
reading_edges (suc (suc (suc (suc (suc zero))))) c t held = absurd (cc held)
reading_edges (suc (suc (suc (suc (suc (suc s)))))) c t held = absurd (cc held)

first_IsSubset : IsSubset automaton (0 ∷ [])
first_IsSubset = record { once = refl; inside = λ s held. ground (arith, held) }

nfa_closure-Reaches_example :
    (states : List ℕ) × (nfa_closure insertion automaton (0 ∷ []) ≡ some states)
    × (rising states ≡ true)
    × ((t : ℕ) → (has states t ≡ true) ↔ Reaches automaton (0 ∷ []) t)
nfa_closure-Reaches_example =
    nfa_closure-Reaches insertion automaton (0 ∷ []) silent_edges first_IsSubset

automaton-IsNfa : IsNfa automaton
automaton-IsNfa = record { silent = silent_edges; reading = reading_edges }

nfa_to_scanner-Answer_example :
    (states : List ScanState) × (nfa_to_scanner insertion automaton priority 0 ≡ some states)
    × ((w : List ℕ)
        → is_bytes w ≡ true
        → Answer automaton priority 0 states w (run (all_chars states) 0 w))
nfa_to_scanner-Answer_example =
    nfa_to_scanner-Answer insertion automaton priority 0 automaton-IsNfa (omega arith)
