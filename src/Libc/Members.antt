-- ===== src/Libc/Members.antt =====
-- `qsort` keeps the members of a list, and their number.
use dparser.Prelude.{
  ℕ, ◌≤◌, false, distinct, ◌≡◌, refl, sym, ap, ◌∙◌, true, List, [], ◌∷◌, arith, ltb, Eq, has,
  Bool-cases, inl, inr, beq_refl,
}
use dparser.Libc.{Qsort, count_if}
use Prim.Native.Nat.{Ordering}

module _ {A : Type 0} ⦃e : Eq A⦄ where
  pub has-count_if : (xs : List A) (a : A) → has xs a ≡ ltb 0 (count_if (λ x. e.beq x a) xs)
  has-count_if [] a = refl
  has-count_if (x ∷ xs) a = ground (arith, has-count_if xs a)

  pub has-qsort :
      (libc : Qsort) (cmp : A → A → Ordering) (xs : List A) (a : A)
      → has (libc.qsort A cmp xs) a ≡ has xs a
  has-qsort libc cmp xs a =
      has-count_if (libc.qsort A cmp xs) a
      ∙ ap (ltb 0) (libc.qsort-count A cmp (λ x. e.beq x a) xs)
      ∙ sym (has-count_if xs a)

  abbrev count : List A → A → ℕ
  count xs a = count_if (λ x. e.beq x a) xs

  count_of_distinct : (xs : List A) (a : A) → distinct xs ≡ true → count xs a ≤ 1
  count_of_distinct [] a d = omega arith
  count_of_distinct (x ∷ xs) a d = elim (Bool-cases (e.beq x a)) [
    | inl here ↦
        let this : x ≡ a = (e.beq_iff x a).0 here in
        let fresh : has xs a ≡ false = ap (has xs) (sym this) ∙ ground arith in
        ground (arith, has-count_if xs a, fresh, here)
    | inr other ↦ ground (arith, count_of_distinct xs a, other)
  ]

  count_rest : (x a : A) (xs : List A) → count (x ∷ xs) a ≤ 1 → count xs a ≤ 1
  count_rest x a xs h = ground (arith, h)

  absent : (x : A) (xs : List A) → count (x ∷ xs) x ≤ 1 → has xs x ≡ false
  absent x xs h = ground (arith, h, has-count_if xs x, beq_refl x)

  distinct_of_count : (xs : List A) → ((a : A) → count xs a ≤ 1) → distinct xs ≡ true
  distinct_of_count [] h = refl
  distinct_of_count (x ∷ xs) h =
      let fresh = absent x xs (h x) in
      let rest = distinct_of_count xs (λ a. count_rest x a xs (h a)) in ground (arith, fresh, rest)

  pub distinct-qsort :
      (libc : Qsort) (cmp : A → A → Ordering) (xs : List A)
      → distinct xs ≡ true
      → distinct (libc.qsort A cmp xs) ≡ true
  distinct-qsort libc cmp xs d =
      distinct_of_count (libc.qsort A cmp xs)
        (λ a. omega (arith, libc.qsort-count A cmp (λ x. e.beq x a) xs, count_of_distinct xs a d))
