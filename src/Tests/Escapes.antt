-- ===== src/Tests/Escapes.antt =====
-- Escapes, with the characters of ASCII.
use dparser.Prelude.{
  ℕ, ◌+◌, ◌-◌, ◌*◌, ◌<◌, ◌≡◌, refl, true, ◌&&◌, ◌||◌, List, [], ◌∷◌, arith, leb, if◌then◌else◌,
}
use dparser.Libc.Chars.{Chars, ReadsHex, hex_digit}
use dparser.Gram.Escape.{done, unescape_term_string, escape_string_internal}
use dparser.Gram.Escape.Back.{
  unescape_term_string-escape_string_internal, unescape_term_string_cuts,
}

abbrev digit_value : ℕ → ℕ
digit_value c = if leb 97 c then c - 87 else if leb 65 c then c - 55 else c - 48

abbrev value_from : ℕ → ℕ → List ℕ → ℕ
value_from base v [] = v
value_from base v (c ∷ s) = value_from base (v * base + digit_value c) s

abbrev ascii : Chars
ascii = record {
  isprint = λ c. leb 32 c && leb c 126;
  isdigit = λ c. leb 48 c && leb c 57;
  isxdigit = λ c. (leb 48 c && leb c 57) || (leb 65 c && leb c 70) || (leb 97 c && leb c 102);
  strtol = λ base s. value_from base 0 s;
}

value_of_hex : (d : ℕ) → d < 16 → digit_value (hex_digit d) ≡ d
value_of_hex d h = ground arith

ascii-ReadsHex : ReadsHex ascii
ascii-ReadsHex = record {
  isxdigit_hex = λ d h. ground arith;
  strtol_hex = λ a b h k. rw (value_of_hex a h, value_of_hex b k) (omega arith);
}

-- A line end, a quote, a backslash and the byte 1
unescape_term_string-escape_string_internal_example :
    unescape_term_string ascii true (escape_string_internal ascii true (97 ∷ 10 ∷ 39 ∷ 92 ∷ 1 ∷ []))
    ≡ done (97 ∷ 10 ∷ 39 ∷ 92 ∷ 1 ∷ [])
unescape_term_string-escape_string_internal_example =
    unescape_term_string-escape_string_internal ascii (97 ∷ 10 ∷ 39 ∷ 92 ∷ 1 ∷ []) ascii-ReadsHex
      refl refl

-- `a\x00b`
unescape_term_string_cuts_example :
    unescape_term_string ascii true
      (97 ∷ 92 ∷ 120 ∷ 48 ∷ 48 ∷ escape_string_internal ascii true (98 ∷ []))
    ≡ done (97 ∷ [])
unescape_term_string_cuts_example =
    unescape_term_string_cuts ascii 97 (98 ∷ []) ascii-ReadsHex (omega arith) (λ e. omega arith)
      refl
