-- ===== src/Util/Set/Probing.antt =====
-- The probing loop reads the same before and after another pointer takes a free slot.
use dparser.Prelude.{
  ℕ, zero, suc, ◌+◌, ◌%◌, ◌<◌, ◌≡◌, ◌≢◌, refl, sym, Bool, true, false, ◌||◌, List, [], ◌∷◌, arith,
  ◌==◌, if◌then◌else◌, length, set, get_or,
}
use dparser.Util.Set.{free, found, probe}

get_or-set :
    (v : List ℕ) (i j t : ℕ)
    → i < length v
    → get_or (set v i t) j 0 ≡ (if j == i then t else get_or v j 0)
get_or-set [] i j t h = elim h [ ]
get_or-set (x ∷ v) zero zero t h = refl
get_or-set (x ∷ v) zero (suc j) t h = ground arith
get_or-set (x ∷ v) (suc i) zero t h = ground arith
get_or-set (x ∷ v) (suc i) (suc j) t h = ground (arith, get_or-set v i j t)

-- The pointer is in some slot.
abbrev pub holds : List ℕ → ℕ → Bool
holds [] t = false
holds (x ∷ v) t = x == t || holds v t

pub holds-set :
    (v : List ℕ) (i t u : ℕ)
    → i < length v
    → get_or v i 0 ≡ 0
    → u ≢ 0
    → holds (set v i t) u ≡ (t == u || holds v u)
holds-set [] i t u h z p = elim h [ ]
holds-set (x ∷ v) zero t u h z p = ground arith
holds-set (x ∷ v) (suc i) t u h z p = ground (arith, holds-set v i t u)

holds_of_get_or : (v : List ℕ) (i t : ℕ) → t ≢ 0 → get_or v i 0 ≡ t → holds v t ≡ true
holds_of_get_or [] i t p e = absurd (p (sym e))
holds_of_get_or (x ∷ v) zero t p e = ground arith
holds_of_get_or (x ∷ v) (suc i) t p e = ground (arith, holds_of_get_or v i t)

module _ (v : List ℕ) (n t : ℕ) where
  -- A free slot lies in the table and is free.
  pub probe-free : (rounds i j : ℕ) → probe rounds v n t i ≡ free j → (j < n) × (get_or v j 0 ≡ 0)
  unfolding probe
  probe-free zero i j e = absurd (cc e)
  probe-free (suc rounds) i j e = ground (arith, probe-free rounds ((i + 1) % n) j)

  pub holds_of_found : (rounds i : ℕ) → t ≢ 0 → probe rounds v n t i ≡ found → holds v t ≡ true
  unfolding probe
  holds_of_found zero i p e = absurd (cc e)
  holds_of_found (suc rounds) i p e =
      ground (arith, holds_of_found rounds ((i + 1) % n), holds_of_get_or v i t)

  -- Once `t` is written to the slot that was found free, the loop finds it.
  pub found_of_free :
      (rounds i j : ℕ)
      → length v ≡ n
      → t ≢ 0
      → probe rounds v n t i ≡ free j
      → probe rounds (set v j t) n t i ≡ found
  unfolding probe
  found_of_free zero i j len p e = absurd (cc e)
  found_of_free (suc rounds) i j len p e = ground (
    arith,
    found_of_free rounds ((i + 1) % n) j,
    get_or-set v j i t,
    probe-free rounds ((i + 1) % n) j,
  )

  -- A pointer that the loop finds is found again after another one takes a free slot.
  pub found-set :
      (u : ℕ) (rounds i j : ℕ)
      → length v ≡ n
      → j < n
      → get_or v j 0 ≡ 0
      → probe rounds v n t i ≡ found
      → probe rounds (set v j u) n t i ≡ found
  unfolding probe
  found-set u zero i j len h z e = absurd (cc e)
  found-set u (suc rounds) i j len h z e =
      ground (arith, found-set u rounds ((i + 1) % n) j, get_or-set v j i u)
