-- ===== src/Lex/Scanners.antt =====
-- lex.c (`build_state_scanner`, `build_scanners`): the scanners of the states of a grammar.
-- `numbering` has the actions of the grammar and their count. A scanner without states is `none`. The fields
-- `trailing_context`, and the counts that are printed, are left out. `overrun` is also the read behind `d_prime2` for
-- the set of the transitions.
pub mod Same
pub mod Strings
use dparser.Prelude.{
  ℕ, zero, suc, ◌+◌, Bool, true, false, not, ◌&&◌, ◌||◌, List, [], ◌∷◌, ◌++◌, Option, none, some,
  ◌==◌, if◌then◌else◌, length, is_empty, get_or,
}
use dparser.Libc.{Qsort, Ctype}
use dparser.Lr.{Action, ActionKind, shift, shift_trailing, reduce, accept}
use dparser.Lr.Actions.{Numbering}
use dparser.Lex.{NfaState, blank_nfa, add_epsilon, add_accept}
use dparser.Lex.Brackets.{Parsed, done, failed, overrun, starved, ◌>>=◌}
use dparser.Lex.Regex.{Built, build_regex_nfa}
use dparser.Lex.Subset.{ScanState, nfa_to_scanner}
use dparser.Util.Set.{ok, exhausted, out_of_fuel}
use dparser.Lex.Transitions.{Transition}
use dparser.Lex.Transitions.Hashed.{compute_transitions}
use dparser.Lex.Strings.{
  ScanTerm, TermKind, string, regex, code, token, term_of, is_string, add_strings,
}

pub record Work : Type 0 where
  pub nfas : List NfaState
  pub numbering : Numbering

-- The scanner of a state: its states, their live actions, its transitions and the one of each state and byte.
pub record Scanner : Type 0 where
  pub states : List ScanState
  pub lives : List (List ℕ)
  pub transitions : List Transition
  pub rows : List (List ℕ)

abbrev pub is_regex : TermKind → Bool
is_regex string = false
is_regex regex = true
is_regex code = false
is_regex token = false

abbrev pub is_shift : ActionKind → Bool
is_shift accept = false
is_shift shift = true
is_shift reduce = false
is_shift shift_trailing = false

abbrev pub is_accept : ActionKind → Bool
is_accept accept = true
is_accept shift = false
is_accept reduce = false
is_accept shift_trailing = false

-- The action of a number, which is set wherever it is read.
abbrev pub action_of : List Action → ℕ → Action
action_of [] k = record {
  kind = ActionKind.accept;
  term = none;
  rule = none;
  state = none;
  index = k;
}
action_of (a ∷ actions) k = if a.index == k then a else action_of actions k

module _ (libc : Qsort) (ctype : Ctype) (terms : List ScanTerm) where
  -- The body of the second loop.
  unfoldable pub add_regex : Work → Action → Parsed Work
  add_regex w a =
      if not (is_shift a.kind && is_regex (term_of terms a).kind)
      then done w
      else (let n = w.numbering in
          let trailing = n.action_count in
          let nnn = length w.nfas in
          let nfas = add_epsilon (w.nfas ++ blank_nfa ∷ []) 0 nnn ++ blank_nfa ∷ [] in
          build_regex_nfa ctype (term_of terms a).ignore_case trailing nfas
            ((term_of terms a).text ++ 0 ∷ []) nnn (suc nnn)
          >>= λ b. done (record {
            nfas = add_accept b.nfas (suc nnn) a.index;
            numbering = record {
              actions =
                  if b.has_trailing
                  then n.actions
                    ++ record a { kind = ActionKind.shift_trailing; index = trailing } ∷ []
                  else n.actions;
              action_count = suc trailing;
            };
          }))

  unfoldable pub add_regexes : Work → List Action → Parsed Work
  add_regexes w [] = done w
  add_regexes w (a ∷ actions) = add_regex w a >>= λ w'. add_regexes w' actions

  -- `one`: some action needs a scanner.
  unfoldable pub needs_scanner : List Action → Bool
  needs_scanner [] = false
  needs_scanner (a ∷ actions) =
      is_accept a.kind
      || is_shift a.kind && (is_string (term_of terms a).kind || is_regex (term_of terms a).kind)
      || needs_scanner actions

  abbrev pub priority_of : List Action → ℕ → ℕ
  priority_of actions k = (term_of terms (action_of actions k)).priority

  unfoldable pub finish_scanner : Work → Parsed Scanner
  finish_scanner w =
      let actions = w.numbering.actions in
      elim (nfa_to_scanner libc w.nfas (priority_of actions) 0) [
        | none ↦ starved
        | some states ↦ elim (compute_transitions libc (action_of actions) states) [
          | exhausted ↦ overrun
          | out_of_fuel ↦ starved
          | ok (lives, transitions, rows) ↦
              done
                (record { states = states; lives = lives; transitions = transitions; rows = rows })
        ]
      ]

  unfoldable pub build_state_scanner : Numbering → List Action → Parsed (Numbering × Option Scanner)
  build_state_scanner numbering shifts =
      let nfas = add_strings ctype terms (blank_nfa ∷ []) shifts in
      add_regexes (record { nfas = nfas; numbering = numbering }) shifts >>= λ w.
      if needs_scanner shifts
      then (finish_scanner w >>= λ scanner. done (w.numbering, some scanner))
      else done (w.numbering, none)

-- What `build_scanners` reads of a state.
pub record Shifts : Type 0 where
  pub actions : List Action
  pub scan_kind : ℕ

abbrev pub same_term : Option ℕ → Option ℕ → Bool
same_term none none = true
same_term none (some _) = false
same_term (some _) none = false
same_term (some a) (some b) = a == b

-- As many actions, with the same terminals.
abbrev pub same_terms : List Action → List Action → Bool
same_terms [] [] = true
same_terms [] (_ ∷ _) = false
same_terms (_ ∷ _) [] = false
same_terms (a ∷ as') (b ∷ bs) = same_term b.term a.term && same_terms as' bs

abbrev pub same_scanner : Shifts → Shifts → Bool
same_scanner x s = same_terms x.actions s.actions && x.scan_kind == s.scan_kind

-- State `x`, whose `same_shifts` is `same`, has the scanner of `s`.
abbrev pub shares : Option ℕ → Shifts → Shifts → Bool
shares none x s = same_scanner x s
shares (some _) x s = false

-- The loop over the states before `s`, with their `same_shifts`.
unfoldable pub find_same : List (Shifts × Option ℕ) → Shifts → Option ℕ
find_same [] s = none
find_same ((x, same) ∷ before) s =
    let rest = find_same before s in
    elim (shares same x s) [
      | true ↦ some 0
      | false ↦ elim rest [ none ↦ none | some j ↦ some (suc j) ]
    ]

-- The first loop: the states with their `same_shifts`.
unfoldable pub detect_same : List (Shifts × Option ℕ) → List Shifts → List (Shifts × Option ℕ)
detect_same before [] = before
detect_same before (s ∷ states) = detect_same (before ++ (s, find_same before s) ∷ []) states

module _ (libc : Qsort) (ctype : Ctype) (terms : List ScanTerm) where
  -- The second loop, behind the states that have the scanners `built`.
  unfoldable pub build_each :
      Numbering
      → List (Option Scanner)
      → List (Shifts × Option ℕ)
      → Parsed (Numbering × List (Option Scanner))
  build_each numbering built [] = done (numbering, built)
  build_each numbering built ((s, same) ∷ states) =
      (if is_empty s.actions then done (numbering, none) else elim same [
        | some j ↦ done (numbering, get_or built j none)
        | none ↦ build_state_scanner libc ctype terms numbering s.actions
      ])
      >>= λ r. build_each r.0 (built ++ r.1 ∷ []) states

  unfoldable pub build_scanners :
      Numbering → List Shifts → Parsed (Numbering × List (Option Scanner))
  build_scanners numbering states = build_each numbering [] (detect_same [] states)
