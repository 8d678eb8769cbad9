-- ===== src/Util/Hashed/Probing.antt =====
-- The probing loop of `set_add_fn`, before and after another element takes a free slot.
use native.Mathlib.Nat.{mod-lt}
use dparser.Prelude.{
  ℕ, zero, suc, ◌+◌, ◌%◌, ◌<◌, ◌≡◌, refl, sym, ap, ◌∙◌, ◌⊎◌, inl, inr, true, false, List, [], ◌∷◌,
  Option, none, some, arith, ltb, ◌==◌, ==_iff, length, set, get_or, Bool-cases, Option-cases,
}
use dparser.Util.Hashed.{HashFns, free, found, full, at_slot, probe_fn}

-- The element is in some slot.
abbrev pub Sits : {A : Type 0} → List (Option A) → A → Type 0
Sits v x = (j : ℕ) × (get_or v j none ≡ some x)

module _ {A : Type 0} where
  pub get_or-set_same :
      (v : List (Option A)) (j : ℕ) (o : Option A) → j < length v → get_or (set v j o) j none ≡ o
  get_or-set_same [] j o h = elim h [ ]
  get_or-set_same (x ∷ v) zero o h = refl
  get_or-set_same (x ∷ v) (suc j) o h = get_or-set_same v j o (omega arith)

  pub get_or-set_other :
      (v : List (Option A)) (j i : ℕ) (o : Option A)
      → (j == i) ≡ false
      → get_or (set v j o) i none ≡ get_or v i none
  get_or-set_other [] j i o h = refl
  get_or-set_other (x ∷ v) zero zero o h = absurd (ground arith)
  get_or-set_other (x ∷ v) zero (suc i) o h = refl
  get_or-set_other (x ∷ v) (suc j) zero o h = refl
  get_or-set_other (x ∷ v) (suc j) (suc i) o h = get_or-set_other v j i o (ground arith)

  -- What sits in the slots once `t` takes the free slot `j`.
  pub Sits-set :
      (v : List (Option A)) (j : ℕ) (t x : A)
      → j < length v
      → Sits (set v j (some t)) x
      → Sits v x ⊎ (x ≡ t)
  Sits-set v j t x h (i, at) = elim (Bool-cases (j == i)) [
    | inl here ↦
        let e : j ≡ i = (==_iff j i).0 here in
        let there : get_or (set v j (some t)) j none ≡ some x =
          ap (λ k. get_or (set v j (some t)) k none) e ∙ at in
        inr (cc (there, get_or-set_same v j (some t) h))
    | inr other ↦ inl (i, sym (get_or-set_other v j i (some t) other) ∙ at)
  ]

  pub Sits-kept :
      (v : List (Option A)) (j : ℕ) (t x : A)
      → get_or v j none ≡ none
      → Sits v x
      → Sits (set v j (some t)) x
  Sits-kept v j t x empty (i, at) = elim (Bool-cases (j == i)) [
    | inl here ↦
        let e : j ≡ i = (==_iff j i).0 here in
        let there : get_or v j none ≡ some x = ap (λ k. get_or v k none) e ∙ at in
        absurd (cc (there, empty))
    | inr other ↦ (i, get_or-set_other v j i (some t) other ∙ at)
  ]

  -- A free slot and a taken one.
  pub apart :
      (v : List (Option A)) (j i : ℕ) (z : A)
      → get_or v j none ≡ none
      → get_or v i none ≡ some z
      → (j == i) ≡ false
  apart v j i z empty taken = elim (Bool-cases (j == i)) [
    | inr other ↦ other
    | inl here ↦ absurd (cc (ap (λ k. get_or v k none) ((==_iff j i).0 here), empty, taken))
  ]

module _ {A : Type 0} (fns : HashFns A) where
  -- One round of the loop.
  probe_step :
      (rounds : ℕ) (v : List (Option A)) (n : ℕ) (t : A) (i : ℕ)
      → (i < n)
      → probe_fn fns (suc rounds) v n t i
        ≡ at_slot fns (get_or v i none) t i (probe_fn fns rounds v n t ((i + 1) % n))
  unfolding probe_fn
  probe_step rounds v n t i h = let b : ltb i n ≡ true = ground arith in rw b refl

  probe_outside :
      (rounds : ℕ) (v : List (Option A)) (n : ℕ) (t : A) (i : ℕ)
      → ltb i n ≡ false
      → probe_fn fns rounds v n t i ≡ full
  unfolding probe_fn
  probe_outside zero v n t i h = refl
  probe_outside (suc rounds) v n t i h = rw h refl

  -- What a round that does not end in `full` found in its slot.
  pub data Round (v : List (Option A)) (n : ℕ) (t : A) (rounds i : ℕ) : Type 0 where
    at_none : i < n → get_or v i none ≡ none → Round v n t rounds i
    at_same :
        (y : A) → i < n → get_or v i none ≡ some y → fns.same y t ≡ true → Round v n t rounds i
    at_other :
        (y : A) → i < n → get_or v i none ≡ some y → fns.same y t ≡ false → Round v n t rounds i
    outside : ltb i n ≡ false → Round v n t rounds i

  pub round_cases : (v : List (Option A)) (n : ℕ) (t : A) (rounds i : ℕ) → Round v n t rounds i
  round_cases v n t rounds i = elim (Bool-cases (ltb i n)) [
    | inr out ↦ outside out
    | inl inside ↦ elim (Option-cases (get_or v i none)) [
      | inl empty ↦ at_none (ground arith) empty
      | inr (y, taken) ↦ elim (Bool-cases (fns.same y t)) [
        | inl equal ↦ at_same y (ground arith) taken equal
        | inr other ↦ at_other y (ground arith) taken other
      ]
    ]
  ]

  probe_none :
      (rounds : ℕ) (v : List (Option A)) (n : ℕ) (t : A) (i : ℕ)
      → i < n
      → get_or v i none ≡ none
      → probe_fn fns (suc rounds) v n t i ≡ free i
  unfolding at_slot
  probe_none rounds v n t i h e = probe_step rounds v n t i h ∙ rw e refl

  probe_same :
      (rounds : ℕ) (v : List (Option A)) (n : ℕ) (t : A) (i : ℕ) (y : A)
      → i < n
      → get_or v i none ≡ some y
      → fns.same y t ≡ true
      → probe_fn fns (suc rounds) v n t i ≡ found y
  unfolding at_slot
  probe_same rounds v n t i y h e s = probe_step rounds v n t i h ∙ rw e (rw s refl)

  probe_other :
      (rounds : ℕ) (v : List (Option A)) (n : ℕ) (t : A) (i : ℕ) (y : A)
      → i < n
      → get_or v i none ≡ some y
      → fns.same y t ≡ false
      → probe_fn fns (suc rounds) v n t i ≡ probe_fn fns rounds v n t ((i + 1) % n)
  unfolding at_slot
  probe_other rounds v n t i y h e s = probe_step rounds v n t i h ∙ rw e (rw s refl)

  pub Sits-of_found :
      (rounds : ℕ) (v : List (Option A)) (n : ℕ) (t : A) (i : ℕ) (y : A)
      → probe_fn fns rounds v n t i ≡ found y
      → Sits v y × (fns.same y t ≡ true)
  unfolding probe_fn
  Sits-of_found zero v n t i y e = absurd (cc e)
  Sits-of_found (suc rounds) v n t i y e = elim (round_cases v n t rounds i) [
    | at_none h o ↦ absurd (cc (probe_none rounds v n t i h o, e))
    | at_same z h o s ↦
        let this : found z ≡ found y = sym (probe_same rounds v n t i z h o s) ∙ e in
        let same : z ≡ y = cc this in
        ((i, o ∙ ap (λ q. some q) same), ap (λ q. fns.same q t) (sym same) ∙ s)
    | at_other z h o s ↦
        Sits-of_found rounds v n t ((i + 1) % n) y (sym (probe_other rounds v n t i z h o s) ∙ e)
    | outside out ↦ absurd (cc (probe_outside (suc rounds) v n t i out, e))
  ]

  -- The free slot lies in the table.
  pub free_slot :
      (rounds : ℕ) (v : List (Option A)) (n : ℕ) (t : A) (i j : ℕ)
      → probe_fn fns rounds v n t i ≡ free j
      → (j < n) × (get_or v j none ≡ none)
  unfolding probe_fn
  free_slot zero v n t i j e = absurd (cc e)
  free_slot (suc rounds) v n t i j e = elim (round_cases v n t rounds i) [
    | at_none h o ↦
        let this : free i ≡ free j = sym (probe_none rounds v n t i h o) ∙ e in
        let same : i ≡ j = cc this in
        (omega (arith, same), ap (λ k. get_or v k none) (sym same) ∙ o)
    | at_same z h o s ↦ absurd (cc (probe_same rounds v n t i z h o s, e))
    | at_other z h o s ↦
        free_slot rounds v n t ((i + 1) % n) j (sym (probe_other rounds v n t i z h o s) ∙ e)
    | outside out ↦ absurd (cc (probe_outside (suc rounds) v n t i out, e))
  ]

  -- Once `t` takes the slot that was found free, the loop finds it.
  pub found_of_free_fn :
      (rounds : ℕ) (v : List (Option A)) (n : ℕ) (t : A) (i j : ℕ)
      → length v ≡ n
      → fns.same t t ≡ true
      → probe_fn fns rounds v n t i ≡ free j
      → probe_fn fns rounds (set v j (some t)) n t i ≡ found t
  unfolding probe_fn
  found_of_free_fn zero v n t i j len r e = absurd (cc e)
  found_of_free_fn (suc rounds) v n t i j len r e = elim (round_cases v n t rounds i) [
    | at_none h o ↦
        let this : free i ≡ free j = sym (probe_none rounds v n t i h o) ∙ e in
        let same : i ≡ j = cc this in
        probe_same rounds (set v j (some t)) n t i t h
          (ap (λ k. get_or (set v j (some t)) k none) same
            ∙ get_or-set_same v j (some t) (omega (arith, same, len)))
          r
    | at_same z h o s ↦ absurd (cc (probe_same rounds v n t i z h o s, e))
    | at_other z h o s ↦
        let later = sym (probe_other rounds v n t i z h o s) ∙ e in
        let (_, empty) = free_slot rounds v n t ((i + 1) % n) j later in
        probe_other rounds (set v j (some t)) n t i z h
          (get_or-set_other v j i (some t) (apart v j i z empty o) ∙ o) s
        ∙ found_of_free_fn rounds v n t ((i + 1) % n) j len r later
    | outside out ↦ absurd (cc (probe_outside (suc rounds) v n t i out, e))
  ]

  -- An element that the loop finds is found again after another one takes a free slot.
  pub found-set_fn :
      (rounds : ℕ) (v : List (Option A)) (n : ℕ) (t y u : A) (i j : ℕ)
      → get_or v j none ≡ none
      → probe_fn fns rounds v n t i ≡ found y
      → probe_fn fns rounds (set v j (some u)) n t i ≡ found y
  unfolding probe_fn
  found-set_fn zero v n t y u i j empty e = absurd (cc e)
  found-set_fn (suc rounds) v n t y u i j empty e = elim (round_cases v n t rounds i) [
    | at_none h o ↦ absurd (cc (probe_none rounds v n t i h o, e))
    | at_same z h o s ↦
        probe_same rounds (set v j (some u)) n t i z h
          (get_or-set_other v j i (some u) (apart v j i z empty o) ∙ o) s
        ∙ sym (probe_same rounds v n t i z h o s)
        ∙ e
    | at_other z h o s ↦
        probe_other rounds (set v j (some u)) n t i z h
          (get_or-set_other v j i (some u) (apart v j i z empty o) ∙ o) s
        ∙ found-set_fn rounds v n t y u ((i + 1) % n) j empty
            (sym (probe_other rounds v n t i z h o s) ∙ e)
    | outside out ↦ absurd (cc (probe_outside (suc rounds) v n t i out, e))
  ]

  -- The loop is the same for elements that are equal to the same ones.
  pub probe-same :
      (rounds : ℕ) (v : List (Option A)) (n : ℕ) (t u : A) (i : ℕ)
      → ((y : A) → fns.same y t ≡ fns.same y u)
      → probe_fn fns rounds v n t i ≡ probe_fn fns rounds v n u i
  unfolding probe_fn
  probe-same zero v n t u i h = refl
  probe-same (suc rounds) v n t u i h = elim (round_cases v n t rounds i) [
    | at_none b o ↦ probe_none rounds v n t i b o ∙ sym (probe_none rounds v n u i b o)
    | at_same z b o s ↦
        probe_same rounds v n t i z b o s ∙ sym (probe_same rounds v n u i z b o (sym (h z) ∙ s))
    | at_other z b o s ↦
        probe_other rounds v n t i z b o s
        ∙ probe-same rounds v n t u ((i + 1) % n) h
        ∙ sym (probe_other rounds v n u i z b o (sym (h z) ∙ s))
    | outside out ↦
        probe_outside (suc rounds) v n t i out ∙ sym (probe_outside (suc rounds) v n u i out)
  ]

  -- The slot behind slot `i` by `k` places.
  abbrev pub slot_behind : ℕ → ℕ → ℕ → ℕ
  slot_behind n zero i = i
  slot_behind n (suc k) i = slot_behind n k ((i + 1) % n)

  -- Where the loop gives up, each slot that it looked at holds another element.
  pub full_slots :
      (rounds : ℕ) (v : List (Option A)) (n : ℕ) (t : A) (i k : ℕ)
      → probe_fn fns rounds v n t i ≡ full
      → i < n
      → k < rounds
      → (x : A) × (get_or v (slot_behind n k i) none ≡ some x) × (fns.same x t ≡ false)
  full_slots zero v n t i k e inside below = absurd (omega arith)
  full_slots (suc rounds) v n t i zero e inside below = elim (round_cases v n t rounds i) [
    | at_none h o ↦ absurd (cc (probe_none rounds v n t i h o, e))
    | at_same z h o s ↦ absurd (cc (probe_same rounds v n t i z h o s, e))
    | outside out ↦ absurd (ground (arith, inside))
    | at_other z h o s ↦ (z, o, s)
  ]
  full_slots (suc rounds) v n t i (suc k) e inside below = elim (round_cases v n t rounds i) [
    | at_none h o ↦ absurd (cc (probe_none rounds v n t i h o, e))
    | at_same z h o s ↦ absurd (cc (probe_same rounds v n t i z h o s, e))
    | outside out ↦ absurd (ground (arith, inside))
    | at_other z h o s ↦
        full_slots rounds v n t ((i + 1) % n) k (sym (probe_other rounds v n t i z h o s) ∙ e)
          (mod-lt (i + 1) (omega arith)) (omega arith)
  ]
