-- ===== src/Libc.antt =====
-- Functions of the C library that the program calls: `qsort`, by what its documentation says, and those
-- of `ctype.h`.
pub mod Insertion
pub mod Text
pub mod Chars
pub mod Members
use Prim.Native.Nat.{Ordering}
use dparser.Prelude.{ℕ, suc, ◌≡◌, ◌≢◌, Bool, true, false, List, [], ◌∷◌, if◌then◌else◌}

-- How many elements pass a test.
abbrev pub count_if : {A : Type 0} → (A → Bool) → List A → ℕ
count_if p [] = 0
count_if p (x ∷ xs) = if p x then suc (count_if p xs) else count_if p xs

-- A comparison that tells which of two elements comes first, consistently.
pub record IsOrder {A : Type 0} (cmp : A → A → Ordering) : Type 0 where
  pub total : (a b : A) → cmp a b ≡ Ordering.gt → cmp b a ≢ Ordering.gt
  pub trans : (a b c : A) → cmp a b ≢ Ordering.gt → cmp b c ≢ Ordering.gt → cmp a c ≢ Ordering.gt

-- No element comes before its predecessor.
abbrev pub Follows : {A : Type 0} → (A → A → Ordering) → A → List A → Type 0
Follows cmp x [] = Unit
Follows cmp x (y ∷ ys) = cmp x y ≢ Ordering.gt

abbrev pub Ascending : {A : Type 0} → (A → A → Ordering) → List A → Type 0
Ascending cmp [] = Unit
Ascending cmp (x ∷ xs) = Follows cmp x xs × Ascending cmp xs

-- `qsort` rearranges the array, in ascending order.
pub record Qsort : Type 1 where
  pub qsort : (A : Type 0) → (A → A → Ordering) → List A → List A
  pub qsort-count :
      (A : Type 0) (cmp : A → A → Ordering) (p : A → Bool) (xs : List A)
      → count_if p (qsort A cmp xs) ≡ count_if p xs
  pub qsort-Ascending :
      (A : Type 0) (cmp : A → A → Ordering) (xs : List A)
      → IsOrder cmp
      → Ascending cmp (qsort A cmp xs)

pub record Ctype : Type 0 where
  pub isalpha : ℕ → Bool
  pub islower : ℕ → Bool
  pub toupper : ℕ → ℕ
  pub tolower : ℕ → ℕ
