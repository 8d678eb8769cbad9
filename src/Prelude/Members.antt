-- ===== src/Prelude/Members.antt =====
-- Membership in lists as a Boolean test, for types with a test of equality.
use Prim.Native.Nat.{ℕ, suc, ◌≤◌}
use mathlib.Core.Path.{◌≡◌, refl}
use mathlib.Core.Logic.{◌↔◌}
use mathlib.Core.Bool.{Bool, true, false, not, ◌&&◌, ◌||◌}
use mathlib.Core.List.{List, [], ◌∷◌, ◌++◌}
use native.Mathlib.Omega.{arith}
use dparser.Prelude.Tests.{◌==◌, ==_iff, if◌then◌else◌}
use dparser.Prelude.Lists.{length}

-- A type with a test of equality.
pub record Eq {ℓ} (A : Type ℓ) : Type ℓ where
  pub beq : A → A → Bool
  pub beq_iff : (a b : A) → (beq a b ≡ true) ↔ (a ≡ b)

instance abbrev pub nat_eq : Eq ℕ
nat_eq = record { beq = ◌==◌; beq_iff = ==_iff }

module _ {ℓ} {A : Type ℓ} ⦃e : Eq A⦄ where
  abbrev pub has : List A → A → Bool
  has [] a = false
  has (x ∷ xs) a = e.beq x a || has xs a

  -- No element stands twice.
  abbrev pub distinct : List A → Bool
  distinct [] = true
  distinct (x ∷ xs) = not (has xs x) && distinct xs

  pub beq_refl : (a : A) → e.beq a a ≡ true
  beq_refl a = (e.beq_iff a a).1 refl

  pub has-append : (xs ys : List A) (a : A) → has (xs ++ ys) a ≡ (has xs a || has ys a)
  has-append [] ys a = refl
  has-append (x ∷ xs) ys a = ground (arith, has-append xs ys a)

  pub distinct-concat :
      (xs : List A) (a : A) → distinct xs ≡ true → has xs a ≡ false → distinct (xs ++ a ∷ []) ≡ true
  distinct-concat [] a d h = refl
  distinct-concat (x ∷ xs) a d h =
      ground (arith, distinct-concat xs a, has-append xs (a ∷ []) x, e.beq_iff a x, e.beq_iff x a)

  -- The list without the first occurrence of an element.
  abbrev remove : List A → A → List A
  remove [] a = []
  remove (x ∷ xs) a = if e.beq x a then xs else x ∷ remove xs a

  length-remove : (xs : List A) (a : A) → has xs a ≡ true → length xs ≡ suc (length (remove xs a))
  length-remove [] a h = absurd (cc h)
  length-remove (x ∷ xs) a h = ground (arith, length-remove xs a)

  has-remove :
      (xs : List A) (a b : A) → has xs b ≡ true → e.beq a b ≡ false → has (remove xs a) b ≡ true
  has-remove [] a b h n = absurd (cc h)
  has-remove (x ∷ xs) a b h n =
      ground (arith, has-remove xs a b, e.beq_iff x a, e.beq_iff x b, e.beq_iff a b)

  -- Distinct elements of a list are at most as many as the list is long.
  pub pigeonhole :
      (xs ys : List A)
      → distinct xs ≡ true
      → ((a : A) → has xs a ≡ true → has ys a ≡ true)
      → length xs ≤ length ys
  pigeonhole [] ys d sub = omega arith
  pigeonhole (x ∷ xs) ys d sub =
      let here : has ys x ≡ true = sub x (ground (arith, beq_refl x)) in
      let rest =
        pigeonhole xs (remove ys x) (ground arith) (λ a h.
          has-remove ys x a (sub a (ground (arith, h))) (ground (arith, h, e.beq_iff x a))) in
      omega (arith, length-remove ys x here, rest)
