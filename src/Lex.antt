-- ===== src/Lex.antt =====
-- lex.c: the scanners. An automaton is the list of its states, `allnfas`, and a pointer to a state is
-- its `index`, the position in that list. The 256 vectors `chars` of a state are one list of a byte
-- and a target for each `vec_add`, in their order; `live` is not used for these states. Actions are numbers.
pub mod Diff
pub mod Closure
pub mod Subset
pub mod Liveness
pub mod Transitions
pub mod Strings
pub mod Scanners
pub mod Brackets
pub mod Regex
use dparser.Prelude.{
  ℕ, zero, suc, ◌+◌, Bool, true, false, List, [], ◌∷◌, ◌++◌, ◌==◌, if◌then◌else◌, length, set,
  get_or,
}

pub record NfaState : Type 0 where
  pub chars : List (ℕ × ℕ)
  pub epsilon : List ℕ
  pub accepts : List ℕ

abbrev pub blank_nfa : NfaState
blank_nfa = record { chars = []; epsilon = []; accepts = [] }

abbrev pub nfa_at : List NfaState → ℕ → NfaState
nfa_at n s = get_or n s blank_nfa

-- `chars[c]`
abbrev pub targets : List (ℕ × ℕ) → ℕ → List ℕ
targets [] c = []
targets ((b, t) ∷ chars) c = if b == c then t ∷ targets chars c else targets chars c

-- `vec_add` to a vector of state `s`
unfoldable pub add_epsilon : List NfaState → ℕ → ℕ → List NfaState
add_epsilon n s t = set n s (record (nfa_at n s) { epsilon = (nfa_at n s).epsilon ++ t ∷ [] })

unfoldable pub add_char : List NfaState → ℕ → ℕ → ℕ → List NfaState
add_char n s c t = set n s (record (nfa_at n s) { chars = (nfa_at n s).chars ++ (c, t) ∷ [] })

unfoldable pub add_accept : List NfaState → ℕ → ℕ → List NfaState
add_accept n s a = set n s (record (nfa_at n s) { accepts = (nfa_at n s).accepts ++ a ∷ [] })
