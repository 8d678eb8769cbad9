-- ===== src/Gram/Utf8.antt =====
-- gram.c (`new_utf8_char`): a code point written in hexadecimal becomes a terminal of UTF-8 bytes.
-- `x & 0x3f` is the remainder by 64, and likewise for the other masks; the call of `d_fail` is `none`.
use Prim.Native.Nat.{bit_or}
use dparser.Prelude.{
  ℕ, zero, suc, ◌+◌, ◌-◌, ◌*◌, ◌/◌, ◌%◌, ◌^◌, ◌≤◌, ◌<◌, ◌≡◌, refl, sym, ◌∙◌, ap, ◌⊎◌, inl, inr,
  Bool, true, ◌&&◌, List, [], ◌∷◌, Option, none, some, arith, ltb, leb, ◌==◌, if◌then◌else◌,
}

-- What a character adds at its place: nothing, if it is no digit.
unfoldable pub digit_value : ℕ → ℕ
digit_value c =
    if leb b'0' c && leb c b'9'
    then c - b'0'
    else if leb b'a' c && leb c b'f'
    then c - b'a' + 10
    else if leb b'A' c && leb c b'F'
    then c - b'A' + 10
    else 0

-- The loop over the characters behind the prefix, from the last one on, in 64 bits.
unfoldable pub utf32_code : List ℕ → ℕ → ℕ → ℕ
utf32_code [] base code = code
utf32_code (c ∷ before) base code =
    utf32_code before (base * 16 % 2 ^ 64) ((code + base * digit_value c) % 2 ^ 64)

unfoldable pub utf8_code : ℕ → Option (List ℕ)
utf8_code c =
    if ltb c 0x80
    then some (c ∷ [])
    else if ltb c 0x800
    then some (bit_or 0xc0 (c / 2 ^ 6 % 0x20) ∷ bit_or 0x80 (c % 0x40) ∷ [])
    else if ltb c 0x10000
    then some (
        bit_or 0xe0 (c / 2 ^ 12 % 0x10)
        ∷ bit_or 0x80 (c / 2 ^ 6 % 0x40)
        ∷ bit_or 0x80 (c % 0x40)
        ∷ [])
    else if ltb c 0x2000000
    then some (
        bit_or 0xf0 (c / 2 ^ 18 % 0x8)
        ∷ bit_or 0x80 (c / 2 ^ 12 % 0x40)
        ∷ bit_or 0x80 (c / 2 ^ 6 % 0x40)
        ∷ bit_or 0x80 (c % 0x40)
        ∷ [])
    else none

-- The bytes of the terminal, for the characters behind the prefix in reverse.
unfoldable pub utf8_char : List ℕ → Option (List ℕ)
utf8_char reversed = utf8_code (utf32_code reversed 1 0)

-- A byte of the form 10xxxxxx.
abbrev pub follows : ℕ → Bool
follows b = leb 0x80 b && ltb b 0xc0

-- The code point of one UTF-8 sequence, by the form of its first byte.
pub decode : List ℕ → Option ℕ
decode (a ∷ []) = if ltb a 0x80 then some a else none
decode (a ∷ b ∷ []) =
    if leb 0xc0 a && ltb a 0xe0 && follows b then some ((a - 0xc0) * 2 ^ 6 + (b - 0x80)) else none
decode (a ∷ b ∷ c ∷ []) =
    if leb 0xe0 a && ltb a 0xf0 && follows b && follows c
    then some ((a - 0xe0) * 2 ^ 12 + (b - 0x80) * 2 ^ 6 + (c - 0x80))
    else none
decode (a ∷ b ∷ c ∷ d ∷ []) =
    if leb 0xf0 a && ltb a 0xf8 && follows b && follows c && follows d
    then some ((a - 0xf0) * 2 ^ 18 + (b - 0x80) * 2 ^ 12 + (c - 0x80) * 2 ^ 6 + (d - 0x80))
    else none
decode _ = none

-- For the numbers below a bound, the bits of the tag and of the number do not meet.
adds : (high : ℕ) → ℕ → Bool
adds high zero = true
adds high (suc y) = adds high y && (high + y == bit_or high y)

tag : (high bound x : ℕ) → x < bound → adds high bound ≡ true → bit_or high x ≡ high + x
unfolding adds
tag high zero x less tested = elim less [ ]
tag high (suc y) x less tested = ground (arith, tag high y x)

tag_80 : (x : ℕ) → bit_or 0x80 (x % 0x40) ≡ 0x80 + x % 0x40
tag_80 x = tag 0x80 0x40 (x % 0x40) (omega arith) (unfold adds in refl)

tag_c0 : (x : ℕ) → bit_or 0xc0 (x % 0x20) ≡ 0xc0 + x % 0x20
tag_c0 x = tag 0xc0 0x20 (x % 0x20) (omega arith) (unfold adds in refl)

tag_e0 : (x : ℕ) → bit_or 0xe0 (x % 0x10) ≡ 0xe0 + x % 0x10
tag_e0 x = tag 0xe0 0x10 (x % 0x10) (omega arith) (unfold adds in refl)

tag_f0 : (x : ℕ) → bit_or 0xf0 (x % 0x8) ≡ 0xf0 + x % 0x8
tag_f0 x = tag 0xf0 0x8 (x % 0x8) (omega arith) (unfold adds in refl)

decode-two :
    (h l : ℕ) → h < 0x20 → l < 0x40 → decode ((0xc0 + h) ∷ (0x80 + l) ∷ []) ≡ some (h * 2 ^ 6 + l)
unfolding decode
decode-two h l ph pl = ground arith

decode-three :
    (h m l : ℕ)
    → h < 0x10
    → m < 0x40
    → l < 0x40
    → decode ((0xe0 + h) ∷ (0x80 + m) ∷ (0x80 + l) ∷ []) ≡ some (h * 2 ^ 12 + m * 2 ^ 6 + l)
unfolding decode
decode-three h m l ph pm pl = ground arith

decode-four :
    (h m n l : ℕ)
    → h < 0x8
    → m < 0x40
    → n < 0x40
    → l < 0x40
    → decode ((0xf0 + h) ∷ (0x80 + m) ∷ (0x80 + n) ∷ (0x80 + l) ∷ [])
      ≡ some (h * 2 ^ 18 + m * 2 ^ 12 + n * 2 ^ 6 + l)
unfolding decode
decode-four h m n l ph pm pn pl = ground arith

lt_or_le : (a b : ℕ) → (a < b) ⊎ (b ≤ a)
lt_or_le a b = ground arith

-- The branches of the code, each with the tags as sums.
one : (c : ℕ) → c < 0x80 → utf8_code c ≡ some (c ∷ [])
unfolding utf8_code
one c h = ground arith

two :
    (c : ℕ)
    → 0x80 ≤ c
    → c < 0x800
    → utf8_code c ≡ some ((0xc0 + c / 2 ^ 6 % 0x20) ∷ (0x80 + c % 0x40) ∷ [])
unfolding utf8_code
two c lo hi = rw (tag_c0 (c / 2 ^ 6), tag_80 c) (ground arith)

three :
    (c : ℕ)
    → 0x800 ≤ c
    → c < 0x10000
    → utf8_code c
      ≡ some ((0xe0 + c / 2 ^ 12 % 0x10) ∷ (0x80 + c / 2 ^ 6 % 0x40) ∷ (0x80 + c % 0x40) ∷ [])
unfolding utf8_code
three c lo hi = rw (tag_e0 (c / 2 ^ 12), tag_80 (c / 2 ^ 6), tag_80 c) (ground arith)

four :
    (c : ℕ)
    → 0x10000 ≤ c
    → c < 0x2000000
    → utf8_code c
      ≡ some (
          (0xf0 + c / 2 ^ 18 % 0x8)
          ∷ (0x80 + c / 2 ^ 12 % 0x40)
          ∷ (0x80 + c / 2 ^ 6 % 0x40)
          ∷ (0x80 + c % 0x40)
          ∷ [])
unfolding utf8_code
four c lo hi =
    rw (tag_f0 (c / 2 ^ 18), tag_80 (c / 2 ^ 12), tag_80 (c / 2 ^ 6), tag_80 c) (ground arith)

-- A code point below 0x200000, which four bytes can hold, gets bytes that decode to it.
pub decode-utf8_code :
    (c : ℕ) → c < 0x200000 → (bytes : List ℕ) × (utf8_code c ≡ some bytes) × (decode bytes ≡ some c)
decode-utf8_code c h = elim (lt_or_le c 0x80) [
  | inl p ↦ (_, one c p, (unfold decode in ground arith))
  | inr p ↦ elim (lt_or_le c 0x800) [
    | inl q ↦ (_, two c p q, decode-two _ _ (omega arith) (omega arith) ∙ ap some (omega arith))
    | inr q ↦ elim (lt_or_le c 0x10000) [
      | inl r ↦ (
        _,
        three c q r,
        decode-three _ _ _ (omega arith) (omega arith) (omega arith) ∙ ap some (omega arith),
      )
      | inr r ↦ (
        _,
        four c r (omega arith),
        decode-four _ _ _ _ (omega arith) (omega arith) (omega arith) (omega arith)
            ∙ ap some (omega arith),
      )
    ]
  ]
]

-- A code point from 0x210000 on, up to the limit of the code, gets the bytes of the one that is
-- smaller by 0x200000.
pub utf8_code_alias :
    (c : ℕ) → 0x10000 ≤ c → c + 0x200000 < 0x2000000 → utf8_code (c + 0x200000) ≡ utf8_code c
utf8_code_alias c lo hi =
    let a : ((c + 0x200000) / 2 ^ 18 % 0x8 ≡ c / 2 ^ 18 % 0x8) = omega arith in
    let b : ((c + 0x200000) / 2 ^ 12 % 0x40 ≡ c / 2 ^ 12 % 0x40) = omega arith in
    let d : ((c + 0x200000) / 2 ^ 6 % 0x40 ≡ c / 2 ^ 6 % 0x40) = omega arith in
    let e : ((c + 0x200000) % 0x40 ≡ c % 0x40) = omega arith in
    four (c + 0x200000) (omega arith) hi ∙ rw (a, b, d, e) (sym (four c lo (omega arith)))
