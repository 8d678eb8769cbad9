-- ===== src/Lex/Scanners/Strings.antt =====
-- The scanner of a state that shifts strings.
use dparser.Prelude.{
  ℕ, ◌≡◌, ◌≢◌, ◌↔◌, refl, ap, ◌⊎◌, inl, inr, true, false, not, ◌&&◌, List, [], ◌∷◌, Option, none,
  some, arith, get_elem?, has, nat_eq,
}
use dparser.Libc.{Qsort, Ctype}
use dparser.Lr.{Action}
use dparser.Lr.Actions.{Numbering}
use dparser.Lex.{NfaState, blank_nfa}
use dparser.Lex.Brackets.{done, overrun, ◌>>=◌}
use dparser.Lex.Subset.{ScanState}
use dparser.Lex.Subset.Language.{run, is_bytes}
use dparser.Lex.Subset.Accepts.{IsBest, IsBest-same}
use dparser.Lex.Subset.Scanner.{Accepts, Answer, rejects, accepts, all_chars, nfa_to_scanner-Answer}
use dparser.Lex.Transitions.Last.{compute_transitions_ends}
use dparser.Lex.Strings.{
  ScanTerm, TermKind, string, regex, code, token, term_of, is_string, add_strings,
}
use dparser.Lex.Strings.Language.{IsPlain, AllPlain, Shifts, add_strings-Accepts}
use dparser.Lex.Scanners.{
  Work, Scanner, is_regex, is_shift, action_of, add_regex, add_regexes, needs_scanner, priority_of,
  finish_scanner, build_state_scanner,
}

-- What the state of a scanner behind a text says: `none` where no string is the text, and otherwise the
-- actions of the highest priority that shift it.
pub data Verdict (priority : ℕ → ℕ) (terms : List ScanTerm) (shifts : List Action)
    (states : List ScanState) (w : List ℕ) : Option ℕ → Type 0 where
  no_string : ((k : ℕ) → Shifts terms shifts w k → ⊥) → Verdict priority terms shifts states w none
  says :
      {j : ℕ} {ss : ScanState}
      → get_elem? states j ≡ some ss
      → ((k : ℕ) → (has ss.accepts k ≡ true) ↔ IsBest priority (Shifts terms shifts w) k)
      → Verdict priority terms shifts states w (some j)

no_regex : (k : TermKind) → is_string k ≡ true → is_regex k ≡ false
no_regex string h = refl
no_regex regex h = absurd (cc h)
no_regex code h = absurd (cc h)
no_regex token h = absurd (cc h)

module _ (libc : Qsort) (ctype : Ctype) (terms : List ScanTerm) where
  add_regexes_plain :
      (w : Work) (shifts : List Action)
      → AllPlain terms shifts
      → add_regexes libc ctype terms w shifts ≡ done w
  unfolding add_regexes add_regex ◌>>=◌
  add_regexes_plain w [] plain = refl
  add_regexes_plain w (a ∷ shifts) plain =
      let other = no_regex (term_of terms a).kind plain.0.strings in
      let h : (not (is_shift a.kind && is_regex (term_of terms a).kind)) ≡ true =
        ground (arith, other) in
      rw (h, add_regexes, add_regex) (add_regexes_plain w shifts plain.1)

  needs_plain :
      (a : Action) (shifts : List Action)
      → IsPlain terms a
      → needs_scanner libc ctype terms (a ∷ shifts) ≡ true
  unfolding needs_scanner
  needs_plain a shifts plain =
      let s = plain.strings in
      let k : is_shift a.kind ≡ true = ap is_shift plain.shifts in ground (arith, s, k)

  verdict :
      (n : List NfaState) (priority : ℕ → ℕ) (shifts : List Action) (states : List ScanState)
      (w : List ℕ) (o : Option ℕ)
      → ((k : ℕ) → Accepts n 0 w k ↔ Shifts terms shifts w k)
      → Answer n priority 0 states w o
      → Verdict priority terms shifts states w o
  verdict n priority shifts states w none exact (rejects h) =
      no_string (λ k s. let (t, reads, _) = (exact k).1 s in h t reads)
  verdict n priority shifts states w (some j) exact (accepts at best) = says at (λ k. (
    λ held. IsBest-same priority (Accepts n 0 w) (Shifts terms shifts w) k exact ((best k).0 held),
    λ b. (best k).1 (
        IsBest-same priority (Shifts terms shifts w) (Accepts n 0 w) k
          (λ q. ((exact q).1, (exact q).0)) b),
  ))

  -- For a state that shifts only strings in which upper and lower case are different, and at least one,
  -- `build_state_scanner` reads behind `d_prime2` for the transitions, or makes a scanner and numbers no new action;
  -- behind a text, that scanner is in no state only if no string is the text, and otherwise in a state that accepts,
  -- of the actions that shift the text, those of the highest priority.
  pub build_state_scanner-Verdict :
      (numbering : Numbering) (shifts : List Action)
      → AllPlain terms shifts
      → shifts ≢ []
      → (build_state_scanner libc ctype terms numbering shifts ≡ overrun)
        ⊎ ((scanner : Scanner) × (build_state_scanner libc ctype terms numbering shifts
              ≡ done (numbering, some scanner))
            × ((w : List ℕ)
                → is_bytes w ≡ true
                → Verdict
                    (priority_of libc ctype terms numbering.actions)
                    terms
                    shifts
                    scanner.states
                    w
                    (run (all_chars scanner.states) 0 w)))
  unfolding build_state_scanner finish_scanner ◌>>=◌
  build_state_scanner-Verdict numbering [] plain some_shift = absurd (some_shift refl)
  build_state_scanner-Verdict numbering (a ∷ shifts) plain some_shift =
      let all = a ∷ shifts in
      let n = add_strings ctype terms (blank_nfa ∷ []) all in
      let (nfa, begun, exact) = add_strings-Accepts ctype terms all plain in
      let priority = priority_of libc ctype terms numbering.actions in
      let (states, built, answer) = nfa_to_scanner-Answer libc n priority 0 nfa begun in
      let work : Work = record { nfas = n; numbering = numbering } in
      elim (compute_transitions_ends libc (action_of numbering.actions) states) [
        | inl behind ↦
            let finished : finish_scanner libc ctype terms work ≡ overrun =
              rw (built, finish_scanner) (rw behind refl) in
            inl (
              rw (add_regexes_plain work all plain)
                (rw (needs_plain a shifts plain.0) (rw finished refl)))
        | inr (r, done_transitions) ↦
            let scanner : Scanner = record {
              states = states;
              lives = r.0;
              transitions = r.1;
              rows = r.2;
            } in
            let finished : finish_scanner libc ctype terms work ≡ done scanner =
              rw (built, finish_scanner) (rw done_transitions refl) in
            inr (
              scanner,
              rw (add_regexes_plain work all plain)
                  (rw (needs_plain a shifts plain.0) (rw finished refl)),
              λ w bytes.
                  verdict n priority all states w (run (all_chars states) 0 w) (exact w)
                    (answer w bytes),
            )
      ]
