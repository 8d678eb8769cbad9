-- ===== src/Libc/Insertion.antt =====
-- Insertion sort does what is asked of `qsort`.
use Prim.Native.Nat.{Ordering}
use dparser.Prelude.{
  ◌≡◌, ◌≢◌, refl, ◌∙◌, ◌⊎◌, inl, inr, Bool, true, false, List, [], ◌∷◌, if◌then◌else◌, arith,
}
use dparser.Libc.{count_if, IsOrder, Follows, Ascending, Qsort}

abbrev is_gt : Ordering → Bool
is_gt Ordering.gt = true
is_gt _ = false

unfoldable pub insert : {A : Type 0} → (A → A → Ordering) → A → List A → List A
insert cmp x [] = x ∷ []
insert cmp x (y ∷ ys) =
    let rest = insert cmp x ys in if is_gt (cmp x y) then y ∷ rest else x ∷ y ∷ ys

unfoldable pub insertion_sort : {A : Type 0} → (A → A → Ordering) → List A → List A
insertion_sort cmp [] = []
insertion_sort cmp (x ∷ xs) = insert cmp x (insertion_sort cmp xs)

count_if-insert :
    {A : Type 0} (cmp : A → A → Ordering) (p : A → Bool) (x : A) (ys : List A)
    → count_if p (insert cmp x ys) ≡ count_if p (x ∷ ys)
unfolding insert
count_if-insert cmp p x [] = refl
count_if-insert cmp p x (y ∷ ys) = ground (arith, count_if-insert cmp p x ys)

pub count_if-insertion_sort :
    {A : Type 0} (cmp : A → A → Ordering) (p : A → Bool) (xs : List A)
    → count_if p (insertion_sort cmp xs) ≡ count_if p xs
unfolding insertion_sort
count_if-insertion_sort cmp p [] = refl
count_if-insertion_sort cmp p (x ∷ xs) =
    count_if-insert cmp p x (insertion_sort cmp xs)
    ∙ ground (arith, count_if-insertion_sort cmp p xs)

is_gt-cases :
    (o : Ordering) → (is_gt o ≡ true) × (o ≡ Ordering.gt) ⊎ (is_gt o ≡ false) × (o ≢ Ordering.gt)
is_gt-cases Ordering.gt = inl (refl, refl)
is_gt-cases Ordering.lt = inr (refl, λ e. cc e)
is_gt-cases Ordering.eq = inr (refl, λ e. cc e)

Follows-insert :
    {A : Type 0} (cmp : A → A → Ordering) (x y : A) (ys : List A)
    → cmp y x ≢ Ordering.gt
    → Follows cmp y ys
    → Follows cmp y (insert cmp x ys)
unfolding insert
Follows-insert cmp x y [] h f = h
Follows-insert cmp x y (z ∷ ys) h f = elim (is_gt-cases (cmp x z)) [
  | inl (gt, _) ↦ rw (gt, insert) f
  | inr (le, _) ↦ rw (le, insert) h
]

Ascending-insert :
    {A : Type 0} (cmp : A → A → Ordering) (x : A) (ys : List A)
    → IsOrder cmp
    → Ascending cmp ys
    → Ascending cmp (insert cmp x ys)
unfolding insert
Ascending-insert cmp x [] order sorted = (tt, tt)
Ascending-insert cmp x (y ∷ ys) order sorted = elim (is_gt-cases (cmp x y)) [
  | inl (gt, e) ↦
      rw (gt, insert)
        (
          Follows-insert cmp x y ys (order.total x y e) sorted.0,
          Ascending-insert cmp x ys order sorted.1,
        )
  | inr (le, n) ↦ rw (le, insert) (n, sorted)
]

pub Ascending-insertion_sort :
    {A : Type 0} (cmp : A → A → Ordering) (xs : List A)
    → IsOrder cmp
    → Ascending cmp (insertion_sort cmp xs)
unfolding insertion_sort
Ascending-insertion_sort cmp [] order = tt
Ascending-insertion_sort cmp (x ∷ xs) order =
    Ascending-insert cmp x (insertion_sort cmp xs) order (Ascending-insertion_sort cmp xs order)

abbrev pub insertion : Qsort
insertion = record {
  qsort = λ A cmp xs. insertion_sort cmp xs;
  qsort-count = λ A cmp p xs. count_if-insertion_sort cmp p xs;
  qsort-Ascending = λ A cmp xs order. Ascending-insertion_sort cmp xs order;
}
