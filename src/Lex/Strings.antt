-- ===== src/Lex/Strings.antt =====
-- lex.c (`build_state_scanner`, its first loop): the automaton of the strings of a state, a tree in which strings
-- share their first bytes.
-- `text` has the bytes of the string of a terminal before its NUL byte, and `priority` is `term_priority` less
-- INT_MIN. State 0 is the first state of the automaton.
pub mod Grown
pub mod Tree
pub mod Accept
pub mod Language
use dparser.Prelude.{
  ℕ, zero, suc, Bool, true, false, List, [], ◌∷◌, ◌++◌, Option, none, some, if◌then◌else◌, length,
  get_or,
}
use dparser.Libc.{Ctype}
use dparser.Lr.{Action, ActionKind, shift, shift_trailing, reduce, accept}
use dparser.Lex.{NfaState, blank_nfa, nfa_at, targets, add_char, add_accept}

pub data TermKind : Type 0 where
  string : TermKind
  regex : TermKind
  code : TermKind
  token : TermKind

pub record ScanTerm : Type 0 where
  pub kind : TermKind
  pub text : List ℕ
  pub priority : ℕ
  pub ignore_case : Bool

abbrev pub no_term : ScanTerm
no_term = record { kind = TermKind.token; text = []; priority = 0; ignore_case = false }

-- `a->term`
abbrev pub term_of : List ScanTerm → Action → ScanTerm
term_of terms a = elim a.term [ none ↦ no_term | some t ↦ get_or terms t no_term ]

abbrev pub is_string : TermKind → Bool
is_string string = true
is_string regex = false
is_string code = false
is_string token = false

-- The state behind the byte: the first one that is there, or a new one.
unfoldable pub step_byte : List NfaState → ℕ → ℕ → List NfaState × ℕ
step_byte nfas nn c = elim (targets (nfa_at nfas nn).chars c) [
  | [] ↦ (add_char (nfas ++ blank_nfa ∷ []) nn c (length nfas), length nfas)
  | nnn ∷ _ ↦ (nfas, nnn)
]

-- A new state behind the byte, in both cases if it is a letter.
unfoldable pub step_folded : Ctype → List NfaState → ℕ → ℕ → List NfaState × ℕ
step_folded ctype nfas nn c =
    let nnn = length nfas in
    let n = nfas ++ blank_nfa ∷ [] in
    (
      if ctype.isalpha c
          then add_char (add_char n nn (ctype.toupper c) nnn) nn (ctype.tolower c) nnn
          else add_char n nn c nnn,
      nnn,
    )

unfoldable pub walk : Ctype → Bool → List NfaState → ℕ → List ℕ → List NfaState × ℕ
walk ctype ignore_case nfas nn [] = (nfas, nn)
walk ctype ignore_case nfas nn (c ∷ text) =
    let r = if ignore_case then step_folded ctype nfas nn c else step_byte nfas nn c in
    walk ctype ignore_case r.0 r.1 text

module _ (ctype : Ctype) (terms : List ScanTerm) where
  unfoldable pub add_string : List NfaState → Action → List NfaState
  add_string nfas a = elim a.kind [
    | accept ↦ (let r = step_byte nfas 0 0 in add_accept r.0 r.1 a.index)
    | shift ↦
        if is_string (term_of terms a).kind
        then (let r = walk ctype (term_of terms a).ignore_case nfas 0 (term_of terms a).text in
            add_accept r.0 r.1 a.index)
        else nfas
    | reduce ↦ nfas
    | shift_trailing ↦ nfas
  ]

  unfoldable pub add_strings : List NfaState → List Action → List NfaState
  add_strings nfas [] = nfas
  add_strings nfas (a ∷ actions) = add_strings (add_string nfas a) actions
