-- ===== src/Lex/Brackets.antt =====
-- lex.c (`build_regex_nfa`): the bytes of a set in brackets.
-- The text is a list of bytes that ends with its NUL byte, and a read behind the list is `overrun`;
-- `failed` is a call of `d_fail`, which ends the program.
use dparser.Prelude.{ℕ, zero, suc, ◌-◌, true, false, List, [], ◌∷◌, ◌==◌, if◌then◌else◌, nat_eq}

pub data Parsed (A : Type 0) : Type 0 where
  done : A → Parsed A
  failed : Parsed A
  overrun : Parsed A
  starved : Parsed A

infix 5 ◌>>=◌
unfoldable pub ◌>>=◌ : {A B : Type 0} → Parsed A → (A → Parsed B) → Parsed B
done a >>= f = f a
failed >>= f = failed
overrun >>= f = overrun
starved >>= f = starved

-- `*reg++`
unfoldable pub next : List ℕ → Parsed (ℕ × List ℕ)
next [] = overrun
next (c ∷ reg) = done (c, reg)

-- The cases within brackets.
pub data SetToken : Type 0 where
  set_ends : SetToken
  set_close : SetToken
  set_dash : SetToken
  set_escape : SetToken
  set_plain : SetToken

unfoldable pub set_token : ℕ → SetToken
set_token c =
    if c == 0
    then set_ends
    else if c == 93
    then set_close
    else if c == 45
    then set_dash
    else if c == 92
    then set_escape
    else set_plain

-- `for (; u_pc <= u_c; u_pc++) mark[u_pc] = 1;` in so many rounds
unfoldable pub mark_up : ℕ → ℕ → List ℕ → List ℕ
mark_up zero u mark = mark
mark_up (suc rounds) u mark = mark_up rounds (suc u) (u ∷ mark)

unfoldable pub mark_range : ℕ → ℕ → List ℕ → List ℕ
mark_range pc c mark = mark_up (suc c - pc) pc mark

-- `rest` is the rest of a loop: a `break` of the `switch` goes there.
abbrev pub SetLoop : Type 0
SetLoop = List ℕ → ℕ → List ℕ → Parsed (List ℕ × List ℕ)

-- `if (!c) goto Lerror;` and the marks from `pc` to `c`
unfoldable pub set_range : SetLoop → ℕ × List ℕ → ℕ → List ℕ → Parsed (List ℕ × List ℕ)
set_range rest (c, reg) pc mark = elim (c == 0) [
  | true ↦ failed
  | false ↦ rest reg pc (mark_range pc c mark)
]

-- The byte behind a dash.
unfoldable pub set_dashed : SetLoop → SetToken → ℕ × List ℕ → ℕ → List ℕ → Parsed (List ℕ × List ℕ)
set_dashed rest set_ends (c, reg) pc mark = failed
set_dashed rest set_close (c, reg) pc mark = done (45 ∷ mark, reg)
set_dashed rest set_escape (c, reg) pc mark = next reg >>= λ q. set_range rest q pc mark
set_dashed rest set_dash (c, reg) pc mark = set_range rest (c, reg) pc mark
set_dashed rest set_plain (c, reg) pc mark = set_range rest (c, reg) pc mark

-- One byte of a set; UCHAR_MAX is 255.
unfoldable pub set_byte : SetLoop → SetToken → ℕ × List ℕ → ℕ → List ℕ → Parsed (List ℕ × List ℕ)
set_byte rest set_ends (c, reg) pc mark = done (mark, reg)
set_byte rest set_close (c, reg) pc mark = done (mark, reg)
set_byte rest set_dash (c, reg) pc mark = elim (pc == 255) [
  | true ↦ rest reg 45 (45 ∷ mark)
  | false ↦ next reg >>= λ q. set_dashed rest (set_token q.0) q pc mark
]
set_byte rest set_escape (c, reg) pc mark = next reg >>= λ q. rest q.1 q.0 (q.0 ∷ mark)
set_byte rest set_plain (c, reg) pc mark = rest reg c (c ∷ mark)

-- The bytes in brackets, as a list, and the text behind them.
unfoldable pub read_set : ℕ → SetLoop
read_set zero reg pc mark = starved
read_set (suc fuel) reg pc mark = next reg >>= λ r.
    set_byte (λ reg' pc' mark'. read_set fuel reg' pc' mark') (set_token r.0) r pc mark
