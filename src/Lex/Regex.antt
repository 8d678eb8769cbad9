-- ===== src/Lex/Regex.antt =====
-- lex.c (`build_regex_nfa`): the automaton of a regular expression.
-- The text is a list of bytes that ends with its NUL byte, and a read behind the list is `overrun`;
-- `failed` is a call of `d_fail`, which ends the program. `trailing` is the number of that action.
pub mod Edges
pub mod Outcome
pub mod Builds
pub mod Total
pub mod Groups
pub mod Order
use dparser.Prelude.{
  ℕ, zero, suc, ◌+◌, ◌-◌, Bool, true, false, not, ◌&&◌, ◌||◌, List, [], ◌∷◌, ◌++◌, ◌==◌,
  if◌then◌else◌, length, set, get_or, has, nat_eq,
}
use dparser.Libc.{Ctype}
use dparser.Lex.{NfaState, blank_nfa, nfa_at, add_epsilon, add_char, add_accept}
use dparser.Lex.Brackets.{Parsed, done, failed, overrun, starved, ◌>>=◌, next, read_set}

-- The cases of the `switch` over a byte.
pub data Token : Type 0 where
  ends : Token
  opens : Token
  closes : Token
  bar : Token
  class : Token
  opt : Token
  star : Token
  plus : Token
  slash : Token
  escape : Token
  plain : Token

unfoldable pub token : ℕ → Token
token c =
    if c == 0
    then ends
    else if c == 40
    then opens
    else if c == 41
    then closes
    else if c == 124
    then bar
    else if c == 91
    then class
    else if c == 63
    then opt
    else if c == 42
    then star
    else if c == 43
    then plus
    else if c == 47
    then slash
    else if c == 92
    then escape
    else plain

pub record Vars : Type 0 where
  pub nfas : List NfaState
  pub reg : List ℕ
  pub p : ℕ
  pub s : ℕ
  pub has_trailing : Bool

-- What a call returns, with the automaton and `*areg`.
pub record Built : Type 0 where
  pub nfas : List NfaState
  pub reg : List ℕ
  pub has_trailing : Bool

-- `s = x = new_NFAState(ls); vec_add(&pp->epsilon, x); p = x;`
unfoldable pub enter : List NfaState → List ℕ → ℕ → Bool → Vars
enter nfas reg pp has_trailing =
    let x = length nfas in
    record {
      nfas = add_epsilon (nfas ++ blank_nfa ∷ []) pp x;
      reg = reg;
      p = x;
      s = x;
      has_trailing = has_trailing;
    }

unfoldable pub finish : ℕ → Vars → List ℕ → Parsed Built
finish nn v reg =
    done (record { nfas = add_epsilon v.nfas v.s nn; reg = reg; has_trailing = v.has_trailing })

-- The edges for the bytes of a set, from byte `i` on
unfoldable pub add_set : ℕ → ℕ → Bool → List ℕ → ℕ → ℕ → List NfaState → List NfaState
add_set zero i reversed mark s x nfas = nfas
add_set (suc rest) i reversed mark s x nfas = add_set rest (suc i) reversed mark s x (
    if (not reversed && has mark i) || (reversed && not (has mark i))
    then add_char nfas s i x
    else nfas)

module _ (ctype : Ctype) (ignore_case : Bool) (trailing : ℕ) where
  unfoldable pub fold_case : ℕ → ℕ → List ℕ → List ℕ
  fold_case zero i mark = mark
  fold_case (suc rest) i mark = fold_case rest (suc i) (
      if has mark i && ctype.isalpha i
      then (if ctype.islower i then ctype.toupper i else ctype.tolower i) ∷ mark
      else mark)

  -- A byte that stands for itself.
  unfoldable pub add_plain : Vars → List ℕ → ℕ → Vars
  add_plain v reg c =
      let x = length v.nfas in
      let n = v.nfas ++ blank_nfa ∷ [] in
      record v {
        nfas =
            if not ignore_case || not (ctype.isalpha c)
            then add_char n v.s c x
            else add_char (add_char n v.s (ctype.tolower c) x) v.s (ctype.toupper c) x;
        reg = reg;
        p = v.s;
        s = x;
      }

  unfoldable pub add_class : Vars → Bool → List ℕ → List ℕ → Vars
  add_class v reversed mark reg =
      let x = length v.nfas in
      let mark' = if ignore_case then fold_case 255 1 mark else mark in
      record v {
        nfas = add_set 255 1 reversed mark' v.s x (v.nfas ++ blank_nfa ∷ []);
        reg = reg;
        p = v.s;
        s = x;
      }

  -- `if (*reg == '^') { reg++; reversed = 1; } else reversed = 0;`
  unfoldable pub read_class : Vars → List ℕ → Parsed Vars
  read_class v reg = next reg >>= λ r.
      let reversed = r.0 == 94 in
      let reg' = if reversed then r.1 else reg in
      read_set (suc (length reg')) reg' 255 [] >>= λ q. done (add_class v reversed q.0 q.1)

  -- One byte of the expression. `rest` is the loop on the rest, also that of the calls for a group.
  unfoldable pub regex_byte :
      (ℕ → ℕ → Vars → Parsed Built) → Token → ℕ → List ℕ → ℕ → ℕ → Vars → Parsed Built
  regex_byte rest ends c reg pp nn v = finish nn v reg
  regex_byte rest closes c reg pp nn v = finish nn v reg
  regex_byte rest opens c reg pp nn v =
      let x = length v.nfas in
      rest v.s x (enter (v.nfas ++ blank_nfa ∷ []) reg v.s false) >>= λ b. rest pp nn (record {
        nfas = b.nfas;
        reg = b.reg;
        p = v.s;
        s = x;
        has_trailing = b.has_trailing || v.has_trailing;
      })
  regex_byte rest bar c reg pp nn v =
      rest pp nn (enter (add_epsilon v.nfas v.s nn) reg pp v.has_trailing)
  regex_byte rest class c reg pp nn v = read_class v reg >>= λ w. rest pp nn w
  regex_byte rest opt c reg pp nn v =
      rest pp nn (record v { nfas = add_epsilon v.nfas v.p v.s; reg = reg })
  regex_byte rest star c reg pp nn v =
      rest pp nn (record v { nfas = add_epsilon (add_epsilon v.nfas v.p v.s) v.s v.p; reg = reg })
  regex_byte rest plus c reg pp nn v =
      rest pp nn (record v { nfas = add_epsilon v.nfas v.s v.p; reg = reg })
  regex_byte rest slash c reg pp nn v =
      rest pp nn
        (record v { nfas = add_accept v.nfas v.s trailing; reg = reg; has_trailing = true })
  regex_byte rest escape c reg pp nn v =
      next reg >>= λ q. elim (q.0 == 0) [ true ↦ failed | false ↦ rest pp nn (add_plain v q.1 q.0) ]
  regex_byte rest plain c reg pp nn v = rest pp nn (add_plain v reg c)

  unfoldable pub regex_loop : ℕ → ℕ → ℕ → Vars → Parsed Built
  regex_loop zero pp nn v = starved
  regex_loop (suc fuel) pp nn v = next v.reg >>= λ r.
      regex_byte (λ pp' nn' v'. regex_loop fuel pp' nn' v') (token r.0) r.0 r.1 pp nn v

  -- A round for each byte of the text, and one more.
  unfoldable pub build_regex_nfa : List NfaState → List ℕ → ℕ → ℕ → Parsed Built
  build_regex_nfa nfas reg pp nn = regex_loop (suc (length reg)) pp nn (enter nfas reg pp false)
