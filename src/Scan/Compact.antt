-- ===== src/Scan/Compact.antt =====
-- The two loops that compact the results in place keep what a filter keeps.
use mathlib.Core.List.{append-nil, append_assoc}
use mathlib.Core.Path.{ap₂}
use dparser.Prelude.{
  ℕ, zero, suc, ◌+◌, ◌-◌, ◌≤◌, ◌<◌, ◌≡◌, refl, sym, ap, ◌∙◌, inl, inr, Bool, List, [], ◌∷◌, ◌++◌,
  none, some, arith, ◌==◌, if◌then◌else◌, length, take, drop, set, get_elem?, Bool-cases,
  Option-cases, length-set,
}
use dparser.Scan.{ShiftResult, compact, compact_back}

-- The results that pass a test, in order.
abbrev pub keep_if {ℓ} : {A : Type ℓ} → (A → Bool) → List A → List A
keep_if keep [] = []
keep_if keep (r ∷ rs) = if keep r then r ∷ keep_if keep rs else keep_if keep rs

module _ {ℓ} {A : Type ℓ} where
  drop-get_elem? :
      (rs : List A) (j : ℕ) (r : A) → get_elem? rs j ≡ some r → drop j rs ≡ r ∷ drop (suc j) rs
  drop-get_elem? [] j r e = absurd (cc e)
  drop-get_elem? (x ∷ rs) zero r e = cc
  drop-get_elem? (x ∷ rs) (suc j) r e = drop-get_elem? rs j r e

  drop-get_elem?-none : (rs : List A) (j : ℕ) → get_elem? rs j ≡ none → drop j rs ≡ []
  drop-get_elem?-none [] zero e = refl
  drop-get_elem?-none [] (suc j) e = refl
  drop-get_elem?-none (x ∷ rs) zero e = absurd (cc e)
  drop-get_elem?-none (x ∷ rs) (suc j) e = drop-get_elem?-none rs j e

  pub get_elem?-lt : (rs : List A) (j : ℕ) (r : A) → get_elem? rs j ≡ some r → j < length rs
  get_elem?-lt [] j r e = absurd (cc e)
  get_elem?-lt (x ∷ rs) zero r e = omega arith
  get_elem?-lt (x ∷ rs) (suc j) r e = omega (arith, get_elem?-lt rs j r e)

  -- A write below `j` leaves the rest from `j` on, and one at `i` extends the first `i`.
  drop-set : (rs : List A) (i j : ℕ) (r : A) → i < j → drop j (set rs i r) ≡ drop j rs
  drop-set [] i j r h = refl
  drop-set (x ∷ rs) i zero r h = absurd (omega arith)
  drop-set (x ∷ rs) zero (suc j) r h = refl
  drop-set (x ∷ rs) (suc i) (suc j) r h = drop-set rs i j r (omega arith)

  take-set :
      (rs : List A) (i : ℕ) (r : A)
      → i < length rs
      → take (suc i) (set rs i r) ≡ take i rs ++ r ∷ []
  take-set [] i r h = elim h [ ]
  take-set (x ∷ rs) zero r h = refl
  take-set (x ∷ rs) (suc i) r h = ap (λ q. x ∷ q) (take-set rs i r (omega arith))

  pub take-suc :
      (rs : List A) (i : ℕ) (r : A)
      → get_elem? rs i ≡ some r
      → take (suc i) rs ≡ take i rs ++ r ∷ []
  take-suc [] i r e = absurd (cc e)
  take-suc (x ∷ rs) zero r e = cc
  take-suc (x ∷ rs) (suc i) r e = ap (λ q. x ∷ q) (take-suc rs i r e)

  drop-eq-nil : (rs : List A) (j : ℕ) → length rs ≤ j → drop j rs ≡ []
  drop-eq-nil [] zero h = refl
  drop-eq-nil [] (suc j) h = refl
  drop-eq-nil (x ∷ rs) zero h = absurd (omega arith)
  drop-eq-nil (x ∷ rs) (suc j) h = drop-eq-nil rs j (omega arith)

  pub get_elem?-none : (rs : List A) (j : ℕ) → get_elem? rs j ≡ none → length rs ≤ j
  get_elem?-none [] j e = omega arith
  get_elem?-none (x ∷ rs) zero e = absurd (cc e)
  get_elem?-none (x ∷ rs) (suc j) e = omega (arith, get_elem?-none rs j e)

  take-set_below : (rs : List A) (j i : ℕ) (r : A) → j ≤ i → take j (set rs i r) ≡ take j rs
  take-set_below rs zero i r h = refl
  take-set_below [] (suc j) i r h = refl
  take-set_below (x ∷ rs) (suc j) zero r h = absurd (omega arith)
  take-set_below (x ∷ rs) (suc j) (suc i) r h =
      ap (λ q. x ∷ q) (take-set_below rs j i r (omega arith))

  drop-set_at :
      (rs : List A) (i k : ℕ) (r : A)
      → k ≡ suc i
      → i < length rs
      → drop i (set rs i r) ≡ r ∷ drop k rs
  drop-set_at [] i k r e h = elim h [ ]
  drop-set_at (x ∷ rs) zero k r e h = rw e refl
  drop-set_at (x ∷ rs) (suc i) k r e h = rw e (drop-set_at rs i (suc i) r refl (omega arith))

  pub keep_if-append :
      (keep : A → Bool) (xs ys : List A)
      → keep_if keep (xs ++ ys) ≡ keep_if keep xs ++ keep_if keep ys
  keep_if-append keep [] ys = refl
  keep_if-append keep (x ∷ xs) ys = elim (Bool-cases (keep x)) [
    | inl kept ↦ rw kept (ap (λ q. x ∷ q) (keep_if-append keep xs ys))
    | inr dropped ↦ rw dropped (keep_if-append keep xs ys)
  ]

-- What has been kept, and what the test keeps of the slots that are still to be read.
compact_at :
    (keep : ShiftResult → Bool) (rounds j i : ℕ) (rs : List ShiftResult)
    → rounds + j ≡ length rs
    → i ≤ j
    → take (compact keep rounds j i rs).0 (compact keep rounds j i rs).1
      ≡ take i rs ++ keep_if keep (drop j rs)
unfolding compact
compact_at keep zero j i rs len le = rw (drop-eq-nil rs j (omega arith)) (sym (append-nil _))
compact_at keep (suc rounds) j i rs len le = elim (Option-cases (get_elem? rs j)) [
  | inl end ↦ absurd (omega (arith, get_elem?-none rs j end))
  | inr (r, at) ↦
      let lt = get_elem?-lt rs j r at in
      let next : j + 1 ≡ suc j = omega arith in
      let room : i + 1 ≡ suc i = omega arith in
      rw (at, compact, drop-get_elem? rs j r at, next, room)
        (elim (Bool-cases (keep r)) [
          | inr dropped ↦
              rw dropped (compact_at keep rounds (suc j) i rs (omega arith) (omega arith))
          | inl kept ↦ elim (Bool-cases (i == j)) [
            | inl same ↦
                let here : i ≡ j = ground arith in
                rw (kept, same)
                  (compact_at keep rounds (suc j) (suc i) rs (omega arith) (omega arith)
                    ∙ ap (λ q. q ++ keep_if keep (drop (suc j) rs)) (take-suc rs i r (rw here at))
                    ∙ append_assoc (take i rs) (r ∷ []) _)
            | inr apart ↦
                let below : i < j = ground arith in
                rw (kept, apart)
                  (compact_at keep rounds (suc j) (suc i) (set rs i r) (rw length-set (omega arith))
                      (omega arith)
                    ∙ ap₂ (λ q t. q ++ keep_if keep t) (take-set rs i r (omega arith))
                        (drop-set rs i (suc j) r (omega arith))
                    ∙ append_assoc (take i rs) (r ∷ []) _)
          ]
        ])
]

-- The first loop keeps exactly the results that pass the test, in their order.
pub compact_lem :
    (keep : ShiftResult → Bool) (rs : List ShiftResult)
    → take (compact keep (length rs) 0 0 rs).0 (compact keep (length rs) 0 0 rs).1 ≡ keep_if keep rs
compact_lem keep rs = compact_at keep (length rs) 0 0 rs (omega arith) (omega arith)

-- From the other end: what has been kept stands behind slot `i`.
compact_back_at :
    (keep : ShiftResult → Bool) (j i : ℕ) (rs : List ShiftResult)
    → j ≤ i
    → i ≤ length rs
    → drop (compact_back keep j i rs).0 (compact_back keep j i rs).1
      ≡ keep_if keep (take j rs) ++ drop i rs
unfolding compact_back
compact_back_at keep zero i rs le len = refl
compact_back_at keep (suc j) i rs le len = elim (Option-cases (get_elem? rs j)) [
  | inl end ↦ absurd (omega (arith, get_elem?-none rs j end))
  | inr (r, at) ↦
      rw (at, compact_back, take-suc rs j r at, keep_if-append)
        (elim (Bool-cases (keep r)) [
          | inr dropped ↦ rw (dropped, append-nil) (compact_back_at keep j i rs (omega arith) len)
          | inl kept ↦ elim (Bool-cases (i == suc j)) [
            | inl same ↦
                let here : i ≡ suc j = ground arith in
                let before : suc j - 1 ≡ j = omega arith in
                rw (kept, same, here, before)
                  (compact_back_at keep j j rs (omega arith) (omega arith)
                    ∙ ap (λ q. keep_if keep (take j rs) ++ q) (drop-get_elem? rs j r at)
                    ∙ sym (append_assoc (keep_if keep (take j rs)) (r ∷ []) _))
            | inr apart ↦
                let above : suc j < i = ground arith in
                rw (kept, apart)
                  (compact_back_at keep j (i - 1) (set rs (i - 1) r) (omega arith)
                      (rw length-set (omega arith))
                    ∙ ap₂ (λ t q. keep_if keep t ++ q) (take-set_below rs j (i - 1) r (omega arith))
                        (drop-set_at rs (i - 1) i r (omega arith) (omega arith))
                    ∙ sym (append_assoc (keep_if keep (take j rs)) (r ∷ []) _))
          ]
        ])
]

-- The second loop keeps of the first `left` slots what passes the test, before the slots behind.
pub compact_back_lem :
    (keep : ShiftResult → Bool) (left : ℕ) (rs : List ShiftResult)
    → left ≤ length rs
    → drop (compact_back keep left left rs).0 (compact_back keep left left rs).1
      ≡ keep_if keep (take left rs) ++ drop left rs
compact_back_lem keep left rs le = compact_back_at keep left left rs (omega arith) le
