-- ===== src/Util/Vec/Grow.antt =====
-- What a block has room for, and the block that `vec_add_internal` grows.
use native.Mathlib.Nat.{pow-suc}
use mathlib.Core.List.{map-append}
use mathlib.Core.Logic.{⊎_elim}
use dparser.Prelude.{
  ℕ, zero, suc, ◌+◌, ◌-◌, ◌*◌, ◌/◌, ◌%◌, ◌^◌, ◌≤◌, ◌<◌, ◌≡◌, ◌≢◌, refl, ap, ◌∙◌, ◌⊎◌, inl, inr,
  List, [], ◌∷◌, ◌++◌, map, Option, none, some, true, false, arith, ltb, length, set, take,
  length-append, length-take, length-replicate, Bool-cases, ◌==◌,
}
use dparser.Util.Vec.{Cells, Target, AbstractVec, write, realloc, realloc_pow, strip, grow}

module _ {ℓ} {A : Type ℓ} where
  abbrev pub block : AbstractVec A → Cells A
  block av = elim av.v [ Target.null ↦ [] | Target.integral ↦ av.e | Target.heap b ↦ b ]

  -- The room that each target has: a heap block has 8 * 2 ^ k cells, and more than half of them are
  -- in use once it has grown.
  abbrev pub HasRoom : ℕ → Target A → Type 0
  HasRoom n Target.null = n ≡ 0
  HasRoom n Target.integral = n ≤ 3
  HasRoom n (Target.heap b) =
      (k : ℕ) × (length b ≡ 8 * 2 ^ k) × (n ≤ 8 * 2 ^ k) × (0 < n) × ((k ≡ 0) ⊎ (4 * 2 ^ k < n))

  pub record Holds (av : AbstractVec A) (xs : List A) : Type ℓ where
    pub size : av.n ≡ length xs
    pub integral : length av.e ≡ 3
    pub room : HasRoom av.n av.v
    pub cells : take av.n (block av) ≡ map some xs

  take-set :
      (cells : Cells A) (n : ℕ) (y : Option A)
      → n < length cells
      → take (suc n) (set cells n y) ≡ take n cells ++ y ∷ []
  take-set [] n y h = elim h [ ]
  take-set (c ∷ cells) zero y h = refl
  take-set (c ∷ cells) (suc n) y h = ap (λ r. c ∷ r) (take-set cells n y (omega arith))

  pub take-append : (n : ℕ) (a b : Cells A) → n ≤ length a → take n (a ++ b) ≡ take n a
  take-append zero a b h = refl
  take-append (suc n) [] b h = absurd (omega arith)
  take-append (suc n) (x ∷ a) b h = ap (λ r. x ∷ r) (take-append n a b (omega arith))

  pub take-take : (n m : ℕ) (a : Cells A) → n ≤ m → take n (take m a) ≡ take n a
  take-take zero m a h = refl
  take-take (suc n) zero a h = absurd (omega arith)
  take-take (suc n) (suc m) [] h = refl
  take-take (suc n) (suc m) (x ∷ a) h = ap (λ r. x ∷ r) (take-take n m a (omega arith))

  pub write-take :
      (cells : Cells A) (n : ℕ) (xs : List A) (x : A)
      → n < length cells
      → take n cells ≡ map some xs
      → (write cells n x ≡ some (set cells n (some x)))
        × (take (n + 1) (set cells n (some x)) ≡ map some (xs ++ x ∷ []))
  unfolding write
  write-take cells n xs x h e =
      let e' : n + 1 ≡ suc n = omega arith in
      (ground arith, rw (e', take-set cells n (some x) h, e) (rw map-append refl))

-- What is left after stripping the factors 2: the quotient by a power of 2, which is counted.
strip_factor :
    (fuel l nl : ℕ) → (j : ℕ) × ((strip fuel l nl).0 * 2 ^ j ≡ l) × ((strip fuel l nl).1 ≡ nl + j)
unfolding strip
strip_factor zero l nl = (0, omega arith, omega arith)
strip_factor (suc fuel) l nl = elim (Bool-cases (l % 2 == 0)) [
  | inl even ↦
      let (j, e, c) = strip_factor fuel (l / 2) (nl + 1) in
      let half : l % 2 ≡ 0 = ground arith in
      rw even (suc j, rw (pow-suc 2 j) (omega arith), omega arith)
  | inr odd ↦ rw odd (0, omega arith, omega arith)
]

-- A power of 2 is stripped down to 1.
strip-pow : (k fuel nl : ℕ) → k ≤ fuel → (strip fuel (2 ^ k) nl).0 ≡ 1
unfolding strip
strip-pow zero zero nl h = refl
strip-pow zero (suc fuel) nl h = refl
strip-pow (suc k) zero nl h = absurd (omega arith)
strip-pow (suc k) (suc fuel) nl h =
    let p = pow-suc 2 k in
    let even : 2 ^ suc k % 2 ≡ 0 = omega arith in
    let half : 2 ^ suc k / 2 ≡ 2 ^ k = omega arith in
    rw (even, half) (strip-pow k fuel (nl + 1) (omega arith))

lt-pow : (k : ℕ) → k < 2 ^ k
lt-pow zero = omega arith
lt-pow (suc k) = rw (pow-suc 2 k) (omega (arith, lt-pow k))

pow-add_four : (j : ℕ) → 2 ^ (4 + j) ≡ 16 * 2 ^ j
pow-add_four zero = refl
pow-add_four (suc j) =
    let e : 4 + suc j ≡ suc (4 + j) = omega arith in
    rw (e, pow-suc 2 (4 + j), pow-suc 2 j) (omega (arith, pow-add_four j))

-- A full block of 8 * 2 ^ k cells has a power of 2 eighths.
strip-full : (n k : ℕ) → n ≡ 8 * 2 ^ k → (strip n (n / 8) 4).0 ≡ 1
strip-full n k e =
    let eighth : n / 8 ≡ 2 ^ k = omega arith in
    rw eighth (strip-pow k n 4 (omega (arith, lt-pow k)))

pub still : {k n : ℕ} → (k ≡ 0) ⊎ (4 * 2 ^ k < n) → (k ≡ 0) ⊎ (4 * 2 ^ k < n + 1)
still = ⊎_elim inl (λ h. inr (omega arith))

large_pow : (m : ℕ) → 2 ^ 27 ≤ 2 ^ (m + 27)
large_pow zero = omega arith
large_pow (suc m) =
    let e : suc m + 27 ≡ suc (m + 27) = omega arith in
    rw (e, pow-suc 2 (m + 27)) (omega (arith, large_pow m))

small_exponent : (j : ℕ) → 2 ^ j < 2 ^ 27 → j < 27
small_exponent j h = elim (Bool-cases (ltb j 27)) [
  | inl below ↦ ground arith
  | inr other ↦
      let e : j ≡ (j - 27) + 27 = ground arith in
      absurd (omega (arith, large_pow (j - 27), ap (λ k. 2 ^ k) e))
]

last_factor : (l p m : ℕ) → l * p ≡ m → 0 < m → l / 2 ≡ 0 → p ≡ m
last_factor zero p m e pos one = absurd (omega arith)
last_factor (suc zero) p m e pos one = omega arith
last_factor (suc (suc l)) p m e pos one = absurd (omega arith)

module _ {ℓ} {A : Type ℓ} where
  length-realloc : (b : Cells A) (size : ℕ) → length (realloc b size) ≡ size
  unfolding realloc
  length-realloc b size =
      rw length-append
        (omega (arith, length-take size b, length-replicate {A = Option A} (size - length b) none))

  take-realloc :
      (n : ℕ) (b : Cells A) (size : ℕ)
      → n ≤ size
      → n ≤ length b
      → take n (realloc b size) ≡ take n b
  unfolding realloc
  take-realloc n b size small fits =
      take-append n (take size b) _ (omega (arith, length-take size b)) ∙ take-take n size b small

  abbrev pub IsGrown : ℕ → Cells A → Cells A → Type ℓ
  IsGrown n b b' = (n < length b') × HasRoom (n + 1) (Target.heap b') × (take n b' ≡ take n b)

  -- Where the count of eighths is a power of 2, the block is doubled.
  doubled :
      (n k j nl : ℕ) (b : Cells A)
      → length b ≡ 8 * 2 ^ k
      → n ≤ 8 * 2 ^ k
      → 0 < n
      → n ≡ 8 * 2 ^ j
      → nl ≡ 4 + j
      → IsGrown n b (realloc b (2 ^ nl))
  doubled n k j nl b size fits pos full count =
      let len = length-realloc b (2 ^ nl) in
      let big : 2 ^ nl ≡ 16 * 2 ^ j = rw count (pow-add_four j) in
      (
        omega arith,
        (
          suc j,
          rw (pow-suc 2 j) (omega arith),
          rw (pow-suc 2 j) (omega arith),
          omega arith,
          inr (rw (pow-suc 2 j) (omega arith)),
        ),
        take-realloc n b (2 ^ nl) (omega arith) (omega arith),
      )

  pub grow-IsGrown :
      (n : ℕ) (b : Cells A)
      → n < 2 ^ 30
      → HasRoom n (Target.heap b)
      → (b' : Cells A) × (grow n b ≡ some b') × IsGrown n b b'
  unfolding grow realloc_pow
  grow-IsGrown n b few (k, size, fits, pos, half) = elim (Bool-cases (n % 8 == 0)) [
    | inl full ↦
        let eighths : n % 8 ≡ 0 = ground arith in
        let filled : (n == 0) ≡ false = ground arith in
        let (j, e, c) = strip_factor n (n / 8) 4 in
        rw (full, filled)
          (elim (Bool-cases ((strip n (n / 8) 4).0 / 2 == 0)) [
            | inl one ↦
                let eighth = last_factor _ (2 ^ j) (n / 8) e (omega arith) (ground arith) in
                let whole : n ≡ 8 * 2 ^ j = omega arith in
                let below : j < 27 = small_exponent j (omega arith) in
                let fits_int : ltb (strip n (n / 8) 4).1 31 ≡ true = ground (arith, c, below) in
                rw (one, fits_int) (_, refl, doubled n k j _ b size fits pos whole c)
            | inr more ↦
                let apart : n ≢ 8 * 2 ^ k = λ q.
                  let odd = strip-full n k q in
                  let left : (strip n (n / 8) 4).0 / 2 ≢ 0 = ground arith in left (omega arith) in
                rw more
                  (b, refl, (omega arith, (k, size, omega arith, omega arith, still half), refl))
          ])
    | inr part ↦
        let rest : n % 8 ≢ 0 = ground arith in
        rw part (b, refl, (omega arith, (k, size, omega arith, omega arith, still half), refl))
  ]
