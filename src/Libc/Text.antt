-- ===== src/Libc/Text.antt =====
-- `strcmp` and `strncmp` of the C library, on lists of bytes whose end is a NUL byte.
use dparser.Prelude.{
  ℕ, ◌≡◌, refl, Bool, true, ◌&&◌, List, [], ◌∷◌, arith, ◌==◌, if◌then◌else◌, length,
}

-- `!strcmp(a, b)`, where the end of a list is a NUL byte too.
unfoldable pub same_text : List ℕ → List ℕ → Bool
same_text [] [] = true
same_text [] (b ∷ ys) = b == 0
same_text (a ∷ xs) [] = a == 0
same_text (a ∷ xs) (b ∷ ys) =
    let rest = same_text xs ys in a == b && (if a == 0 then true else rest)

unfoldable pub same_string : List ℕ → List ℕ → Bool
same_string a b = length a == length b && same_text a b

pub same_text_sym : (a b : List ℕ) → same_text a b ≡ same_text b a
unfolding same_text
same_text_sym [] [] = refl
same_text_sym [] (b ∷ ys) = refl
same_text_sym (a ∷ xs) [] = refl
same_text_sym (a ∷ xs) (b ∷ ys) = ground (arith, same_text_sym xs ys)

same_text_trans :
    (a b c : List ℕ)
    → length a ≡ length b
    → length b ≡ length c
    → same_text a b ≡ true
    → same_text b c ≡ true
    → same_text a c ≡ true
unfolding same_text
same_text_trans [] [] c la lb h k = k
same_text_trans [] (b ∷ ys) c la lb h k = absurd (omega arith)
same_text_trans (a ∷ xs) [] c la lb h k = absurd (omega arith)
same_text_trans (a ∷ xs) (b ∷ ys) [] la lb h k = absurd (omega arith)
same_text_trans (a ∷ xs) (b ∷ ys) (c ∷ zs) la lb h k = ground (arith, same_text_trans xs ys zs)

-- Strings that are the same as a third one are the same.
pub same_string_swap : (s t u : List ℕ) → same_string t u ≡ true → same_string s t ≡ same_string s u
unfolding same_string
same_string_swap s t u h =
    ground (arith, same_text_sym t u, same_text_trans s t u, same_text_trans s u t)

pub same_string_sym : (s t : List ℕ) → same_string s t ≡ same_string t s
unfolding same_string
same_string_sym s t = ground (arith, same_text_sym s t)
