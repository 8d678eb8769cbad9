-- ===== src/Libc/Chars.antt =====
-- `ctype.h` and `strtol`, as far as escapes use them. A text has no NUL byte.
use dparser.Prelude.{ℕ, ◌+◌, ◌*◌, ◌<◌, ◌≡◌, Bool, true, List, [], ◌∷◌, ltb, if◌then◌else◌}

pub record Chars : Type 0 where
  pub isprint : ℕ → Bool
  pub isdigit : ℕ → Bool
  pub isxdigit : ℕ → Bool
  pub strtol : ℕ → List ℕ → ℕ

-- A digit from 0 to 15, in upper case
abbrev pub hex_digit : ℕ → ℕ
hex_digit d = if ltb 9 d then d + 55 else d + 48

-- What the standard says of two hexadecimal digits
pub record ReadsHex (libc : Chars) : Type 0 where
  pub isxdigit_hex : (d : ℕ) → d < 16 → libc.isxdigit (hex_digit d) ≡ true
  pub strtol_hex :
      (a b : ℕ) → a < 16 → b < 16 → libc.strtol 16 (hex_digit a ∷ hex_digit b ∷ []) ≡ a * 16 + b
