-- ===== src/Gram/Escape/Back.antt =====
-- A text that was escaped for single quotes is read back.
use mathlib.Core.Path.{subst}
use dparser.Prelude.{
  ℕ, zero, suc, ◌/◌, ◌%◌, ◌≤◌, ◌<◌, ◌≡◌, ◌≢◌, refl, ap, ◌∙◌, inl, inr, Bool, true, false, ◌&&◌,
  List, [], ◌∷◌, ◌++◌, arith, ltb, ◌==◌, ==_iff, if◌then◌else◌, length, length-append, is_empty,
  Bool-cases, has, nat_eq,
}
use dparser.Libc.Chars.{Chars, ReadsHex, hex_digit}
use dparser.Gram.Escape.{
  Written, done, emit, is_positive, escape_of, hex_length, numeric, unescape_byte, unescape_loop,
  before_nul, unescape_term_string, escape_byte, escape_string_internal,
}

-- The bytes of a text: none of them is NUL.
abbrev pub is_text : List ℕ → Bool
is_text [] = true
is_text (c ∷ s) = (ltb 0 c && ltb c 256) && is_text s

abbrev All : (ℕ → Type 0) → List ℕ → Type 0
All P [] = Unit
All P (x ∷ xs) = P x × All P xs

All-has : (P : ℕ → Type 0) (xs : List ℕ) (c : ℕ) → All P xs → has xs c ≡ true → P c
All-has P [] c h held = absurd (cc held)
All-has P (x ∷ xs) c h held = elim (Bool-cases (x == c)) [
  | inl here ↦ subst P ((==_iff x c).0 here) h.0
  | inr later ↦ All-has P xs c h.1 (ground (arith, held, later))
]

-- The bytes with an escape of their own, and the quotes.
abbrev special : List ℕ
special = 8 ∷ 12 ∷ 10 ∷ 13 ∷ 9 ∷ 11 ∷ 7 ∷ 92 ∷ 34 ∷ 39 ∷ []

apart_from : (xs : List ℕ) (c k : ℕ) → has xs c ≡ false → has xs k ≡ true → (c == k) ≡ false
apart_from xs c k absent held = elim (Bool-cases (c == k)) [
  | inl same ↦
      let this : c ≡ k = (==_iff c k).0 same in absurd (cc (absent, held, ap (has xs) this))
  | inr apart ↦ apart
]

module _ (libc : Chars) where
  -- What is to be shown of a byte: its escape is read back, whatever follows.
  abbrev Back : ℕ → List ℕ → ℕ → Type 0
  Back fuel t c =
      unescape_loop libc (suc fuel) true (escape_byte libc true c ++ t)
      ≡ emit c (unescape_loop libc fuel true t)

  special-Back : (fuel : ℕ) (t : List ℕ) → All (Back fuel t) special
  unfolding unescape_loop escape_byte escape_of unescape_byte
  special-Back fuel t =
      (refl, (refl, (refl, (refl, (refl, (refl, (refl, (refl, (refl, (refl, tt))))))))))

  escape_byte-other :
      (c : ℕ)
      → has special c ≡ false
      → escape_byte libc true c ≡ (
          if libc.isprint c
          then c ∷ []
          else 92 ∷ 120 ∷ hex_digit (c / 16) ∷ hex_digit (c % 16) ∷ [])
  unfolding escape_byte
  escape_byte-other c h =
      let apart = λ (k : ℕ) (e : has special k ≡ true). apart_from special c k h e in
      rw
        (
          apart 8 refl,
          apart 12 refl,
          apart 10 refl,
          apart 13 refl,
          apart 9 refl,
          apart 11 refl,
          apart 7 refl,
          apart 92 refl,
          apart 34 refl,
          apart 39 refl,
          escape_byte,
        )
        refl

  hex_positive : (d : ℕ) → d < 16 → is_positive (hex_digit d) ≡ true
  hex_positive d h = ground arith

  numeric_back :
      (c : ℕ) (t : List ℕ) (rest : List ℕ → Written)
      → ReadsHex libc
      → c < 256
      → numeric libc 16
          (hex_length libc (hex_digit (c / 16) ∷ hex_digit (c % 16) ∷ t))
          (hex_digit (c / 16) ∷ hex_digit (c % 16) ∷ t)
          rest
        ≡ emit c (rest t)
  unfolding numeric hex_length
  numeric_back c t rest h below =
      rw
        (
          h.isxdigit_hex (c / 16) (omega arith),
          h.isxdigit_hex (c % 16) (omega arith),
          hex_positive (c % 16) (omega arith),
          h.strtol_hex (c / 16) (c % 16) (omega arith) (omega arith),
          numeric,
        )
        (ap (λ b. emit b (rest t)) (omega arith))

  other-Back :
      (fuel : ℕ) (t : List ℕ) (c : ℕ)
      → ReadsHex libc
      → c < 256
      → has special c ≡ false
      → Back fuel t c
  unfolding unescape_loop escape_of unescape_byte
  other-Back fuel t c h below other =
      let escaped = escape_byte-other c other in
      let no_backslash = apart_from special c 92 other refl in
      elim (Bool-cases (libc.isprint c)) [
        | inl prints ↦ rw (escaped, prints) (rw (no_backslash, unescape_loop) refl)
        | inr hidden ↦
            rw (escaped, hidden) (numeric_back c t (λ t. unescape_loop libc fuel true t) h below)
      ]

  byte-Back : (fuel : ℕ) (t : List ℕ) (c : ℕ) → ReadsHex libc → c < 256 → Back fuel t c
  byte-Back fuel t c h below = elim (Bool-cases (has special c)) [
    | inl own ↦ All-has (Back fuel t) special c (special-Back fuel t) own
    | inr other ↦ other-Back fuel t c h below other
  ]

  loop_back :
      (fuel : ℕ) (s : List ℕ)
      → ReadsHex libc
      → is_text s ≡ true
      → length s < fuel
      → unescape_loop libc fuel true (escape_string_internal libc true s) ≡ done s
  unfolding unescape_loop escape_string_internal emit
  loop_back zero s h text enough = absurd (omega arith)
  loop_back (suc fuel) [] h text enough = refl
  loop_back (suc fuel) (c ∷ s) h text enough =
      byte-Back fuel (escape_string_internal libc true s) c h (ground (arith, text))
      ∙ ap (emit c) (loop_back fuel s h (ground (arith, text)) (omega arith))

  before_nul-text : (s : List ℕ) → is_text s ≡ true → before_nul s ≡ s
  unfolding before_nul
  before_nul-text [] text = refl
  before_nul-text (c ∷ s) text =
      let rest = before_nul-text s (ground (arith, text)) in
      let some_byte : (c == 0) ≡ false = ground (arith, text) in rw (some_byte, rest) refl

  special_lengths : All (λ c. 0 < length (escape_byte libc true c)) special
  unfolding escape_byte
  special_lengths =
      let two : 0 < 2 = omega arith in
      (two, (two, (two, (two, (two, (two, (two, (two, (omega arith, (two, tt))))))))))

  byte_length : (c : ℕ) → 0 < length (escape_byte libc true c)
  byte_length c = elim (Bool-cases (has special c)) [
    | inl own ↦ All-has (λ c. 0 < length (escape_byte libc true c)) special c special_lengths own
    | inr other ↦ rw (escape_byte-other c other) (shown (libc.isprint c))
  ]
    where
      shown :
          (b : Bool)
          → 0
            < length (if b then c ∷ [] else 92 ∷ 120 ∷ hex_digit (c / 16) ∷ hex_digit (c % 16) ∷ [])
      shown true = omega arith
      shown false = omega arith

  length-escape : (s : List ℕ) → length s ≤ length (escape_string_internal libc true s)
  unfolding escape_string_internal
  length-escape [] = omega arith
  length-escape (c ∷ s) = omega (
    arith,
    byte_length c,
    length-escape s,
    length-append (escape_byte libc true c) (escape_string_internal libc true s),
  )

  -- Where `isxdigit` and `strtol` read hexadecimal digits, and whatever `isprint` says:
  -- `escape_string_single_quote` of a text with some bytes is a string that `unescape_term_string` turns
  -- back into the text.
  pub unescape_term_string-escape_string_internal :
      (s : List ℕ)
      → ReadsHex libc
      → is_text s ≡ true
      → is_empty s ≡ false
      → unescape_term_string libc true (escape_string_internal libc true s) ≡ done s
  unfolding unescape_term_string
  unescape_term_string-escape_string_internal s h text some_bytes =
      let back =
        loop_back (suc (length (escape_string_internal libc true s))) s h text
          (omega (arith, length-escape s)) in
      rw (back, unescape_term_string) (rw (before_nul-text s text, some_bytes) refl)

  -- Where `isxdigit` and `strtol` read hexadecimal digits: on a byte that is neither NUL nor a backslash, the four
  -- bytes of `\x00`, and what `escape_string_single_quote` makes of a text, `unescape_term_string` does not fail and
  -- gives the first byte alone.
  pub unescape_term_string_cuts :
      (c : ℕ) (s : List ℕ)
      → ReadsHex libc
      → 0 < c
      → c ≢ 92
      → is_text s ≡ true
      → unescape_term_string libc true (c ∷ 92 ∷ 120 ∷ 48 ∷ 48 ∷ escape_string_internal libc true s)
        ≡ done (c ∷ [])
  unfolding unescape_term_string unescape_loop escape_of unescape_byte emit before_nul
  unescape_term_string_cuts c s h positive apart text =
      let e = escape_string_internal libc true s in
      let no_backslash : (c == 92) ≡ false = ground arith in
      let some_byte : (c == 0) ≡ false = ground arith in
      let fuel = suc (suc (suc (suc (length e)))) in
      let back = loop_back fuel s h text (omega (arith, length-escape s)) in
      let nul = numeric_back 0 e (λ t. unescape_loop libc fuel true t) h (omega arith) in
      let all : unescape_loop libc (suc (suc fuel)) true (c ∷ 92 ∷ 120 ∷ 48 ∷ 48 ∷ e)
          ≡ done (c ∷ 0 ∷ s) =
        rw (no_backslash, unescape_loop) (ap (emit c) (nul ∙ ap (emit 0) back)) in
      rw (all, unescape_term_string) (rw (some_byte, before_nul) refl)
