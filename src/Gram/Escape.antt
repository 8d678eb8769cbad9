-- ===== src/Gram/Escape.antt =====
-- gram.c (`unescape_term_string`) and util.c (`escape_string_internal`): escapes in texts.
-- A text is the list of its bytes without the NUL byte at its end. A term is a string or a regular
-- expression here, since `new_string` is the only caller.
pub mod Back
use dparser.Prelude.{
  ℕ, zero, suc, ◌+◌, ◌/◌, ◌%◌, Bool, true, false, not, ◌&&◌, ◌||◌, List, [], ◌∷◌, ◌++◌, ltb, leb,
  ◌==◌, if◌then◌else◌, length, take, drop, is_empty,
}
use dparser.Libc.Chars.{Chars, hex_digit}

-- What a byte behind a backslash asks for.
pub data Escape : Type 0 where
  byte : ℕ → Escape
  cut_here : Escape
  hex : Escape
  decimal : Escape
  octal : Escape
  as_is : Escape

unfoldable pub escape_of : Bool → ℕ → Escape
escape_of is_string c =
    if c == 92
    then (if is_string then byte 92 else as_is)
    else if c == 98
    then byte 8
    else if c == 102
    then byte 12
    else if c == 110
    then byte 10
    else if c == 114
    then byte 13
    else if c == 116
    then byte 9
    else if c == 118
    then byte 11
    else if c == 97
    then byte 7
    else if c == 99
    then cut_here
    else if c == 34
    then (if is_string then as_is else byte 34)
    else if c == 39
    then (if is_string then byte 39 else as_is)
    else if c == 120
    then hex
    else if c == 100
    then decimal
    else if leb 48 c && leb c 55
    then octal
    else as_is

-- The bytes that are written: `cut` after an escape `\c`, `failed` by `d_fail`, `overrun` where the
-- loop reads behind the NUL byte, `starved` at the end of the fuel.
pub data Written : Type 0 where
  done : List ℕ → Written
  cut : List ℕ → Written
  failed : Written
  overrun : Written
  starved : Written

unfoldable pub emit : ℕ → Written → Written
emit b (done w) = done (b ∷ w)
emit b (cut w) = cut (b ∷ w)
emit b failed = failed
emit b overrun = overrun
emit b starved = starved

-- `s[i]`, the NUL byte at the end
abbrev pub at : List ℕ → ℕ → ℕ
at [] i = 0
at (c ∷ s) zero = c
at (c ∷ s) (suc i) = at s i

-- The last byte of the first `n` is positive, as a `char`.
abbrev pub is_positive : ℕ → Bool
is_positive c = ltb 0 c && ltb c 128

-- The bytes up to a NUL byte that was written.
unfoldable pub before_nul : List ℕ → List ℕ
before_nul [] = []
before_nul (c ∷ w) = let rest = before_nul w in if c == 0 then [] else c ∷ rest

module _ (libc : Chars) where
  unfoldable pub hex_length : List ℕ → ℕ
  hex_length s = if libc.isxdigit (at s 0) then (if libc.isxdigit (at s 1) then 2 else 1) else 0

  unfoldable pub decimal_length : List ℕ → ℕ
  decimal_length s =
      if libc.isdigit (at s 0)
      then (if libc.isdigit (at s 1)
          then (if libc.isdigit (at s 2)
                && (ltb (at s 0) 50
                    || (at s 0 == 50 && (ltb (at s 1) 53 || (at s 1 == 53 && ltb (at s 2) 54))))
              then 3
              else 2)
          else 1)
      else 0

  -- From the first digit on, which has been read
  unfoldable pub octal_length : List ℕ → ℕ
  octal_length s =
      if libc.isdigit (at s 1) && not (at s 1 == 56) && not (at s 1 == 57)
      then (if libc.isdigit (at s 2) && not (at s 2 == 56) && not (at s 2 == 57) then 3 else 2)
      else 1

  -- At `Lncont`: the digits, and what the loop does behind them.
  unfoldable pub numeric : ℕ → ℕ → List ℕ → (List ℕ → Written) → Written
  numeric base zero s rest = rest s
  numeric base (suc n) s rest = elim (is_positive (at s n)) [
    | true ↦ emit (libc.strtol base (take (suc n) s) % 256) (rest (drop (suc n) s))
    | false ↦ failed
  ]

  -- Behind a backslash, where `c` is the next byte and `s` the text behind it.
  unfoldable pub unescape_byte : Escape → ℕ → List ℕ → (List ℕ → Written) → Written
  unescape_byte (byte b) c s rest = emit b (rest s)
  unescape_byte cut_here c s rest = cut []
  unescape_byte hex c s rest = numeric 16 (hex_length s) s rest
  unescape_byte decimal c s rest = numeric 10 (decimal_length s) s rest
  unescape_byte octal c s rest = numeric 8 (octal_length (c ∷ s)) (c ∷ s) rest
  unescape_byte as_is c s rest = emit 92 (emit c (rest s))

  unfoldable pub unescape_loop : ℕ → Bool → List ℕ → Written
  unescape_loop zero is_string s = starved
  unescape_loop (suc fuel) is_string [] = done []
  unescape_loop (suc fuel) is_string (c ∷ s) = elim (c == 92) [
    | false ↦ emit c (unescape_loop fuel is_string s)
    | true ↦ elim s [
      | [] ↦ overrun
      | d ∷ s' ↦ unescape_byte (escape_of is_string d) d s' (λ t. unescape_loop fuel is_string t)
    ]
  ]

  -- The new `string`, whose length is `string_len` but after an escape `\c`.
  unfoldable pub unescape_term_string : Bool → List ℕ → Written
  unescape_term_string is_string s = elim (unescape_loop (suc (length s)) is_string s) [
    | done w ↦ (let text = before_nul w in if is_empty text then failed else done text)
    | cut w ↦ cut (before_nul w)
    | failed ↦ failed
    | overrun ↦ overrun
    | starved ↦ starved
  ]

  unfoldable pub escape_byte : Bool → ℕ → List ℕ
  escape_byte single_quote c =
      if c == 8
      then 92 ∷ 98 ∷ []
      else if c == 12
      then 92 ∷ 102 ∷ []
      else if c == 10
      then 92 ∷ 110 ∷ []
      else if c == 13
      then 92 ∷ 114 ∷ []
      else if c == 9
      then 92 ∷ 116 ∷ []
      else if c == 11
      then 92 ∷ 118 ∷ []
      else if c == 7
      then 92 ∷ 97 ∷ []
      else if c == 92
      then 92 ∷ 92 ∷ []
      else if c == 34
      then (if single_quote then 34 ∷ [] else 92 ∷ 34 ∷ [])
      else if c == 39
      then (if single_quote then 92 ∷ 39 ∷ [] else 39 ∷ [])
      else if libc.isprint c
      then c ∷ []
      else 92 ∷ 120 ∷ hex_digit (c / 16) ∷ hex_digit (c % 16) ∷ []

  unfoldable pub escape_string_internal : Bool → List ℕ → List ℕ
  escape_string_internal single_quote [] = []
  escape_string_internal single_quote (c ∷ s) =
      escape_byte single_quote c ++ escape_string_internal single_quote s
