-- ===== src/Util/Vec/Bounds.antt =====
-- No write of `vec_add` leaves its block, and the vector holds the elements in order.
use dparser.Prelude.{
  ℕ, ◌+◌, ◌%◌, ◌^◌, ◌<◌, ◌≡◌, ◌≢◌, refl, ◌∙◌, inl, inr, List, [], ◌∷◌, ◌++◌, map, Option, none,
  some, true, false, arith, length, set, take, drop, replicate, length-append, length-set,
  length-take, length-drop, Bool-cases, ◌==◌, ltb,
}
use dparser.Util.Vec.{Cells, Target, AbstractVec, copy, store, vec_add_internal, vec_add, vec_clear}
use dparser.Util.Vec.Grow.{
  block, HasRoom, Holds, take-append, take-take, write-take, still, grow-IsGrown,
}

module _ {ℓ} {A : Type ℓ} where
  store-Holds :
      (n : ℕ) (v : Target A) (e : Cells A) (xs : List A) (x : A)
      → n ≡ length xs
      → length e ≡ 3
      → n < length (block (record { n = n; v = v; e = e }))
      → take n (block (record { n = n; v = v; e = e })) ≡ map some xs
      → HasRoom (n + 1) v
      → (av' : AbstractVec A) × (store (record { n = n; v = v; e = e }) x ≡ some av')
        × Holds av' (xs ++ x ∷ [])
  unfolding store
  store-Holds n Target.null e xs x size three h cells room = elim h [ ]
  store-Holds n Target.integral e xs x size three h cells room =
      let (w, t) = write-take e n xs x h cells in
      (
        record { n = n + 1; v = Target.integral; e = set e n (some x) },
        rw (w, store),
        record {
          size = rw length-append (omega arith);
          integral = rw length-set three;
          room = room;
          cells = t;
        },
      )
  store-Holds n (Target.heap b) e xs x size three h cells room =
      let (w, t) = write-take b n xs x h cells in
      (
        record { n = n + 1; v = Target.heap (set b n (some x)); e = e },
        rw (w, store),
        record {
          size = rw length-append (omega arith);
          integral = three;
          room = (room.0, rw length-set room.1, room.2, room.3, room.4);
          cells = t;
        },
      )

module _ {ℓ} {A : Type ℓ} where
  -- A vector stores each element that is added, within its memory, behind those it has.
  abbrev Adds : AbstractVec A → List A → A → Option (AbstractVec A) → Type ℓ
  Adds av xs x result = (av' : AbstractVec A) × (result ≡ some av') × Holds av' (xs ++ x ∷ [])

  full_integral-Holds :
      (n : ℕ) (e : Cells A) (xs : List A) (x : A)
      → 0 < n
      → Holds (record { n = n; v = Target.integral; e = e }) xs
      → Adds
          (record { n = n; v = Target.integral; e = e })
          xs
          x
          (vec_add_internal (record { n = n; v = Target.integral; e = e }) x)
  unfolding vec_add_internal copy
  full_integral-Holds n e xs x pos h =
      let filled : (n == 0) ≡ false = ground arith in
      let moved = take n e ++ drop n (replicate 8 none) in
      let len : length (take n e) ≡ n = omega (arith, length-take n e, h.integral, h.room) in
      let total : length moved ≡ 8 =
        rw length-append (omega (arith, length-drop {A = Option A} n (replicate 8 none))) in
      rw filled (
        store-Holds n (Target.heap moved) e xs x h.size h.integral (omega (arith, h.room))
          (take-append n (take n e) _ (omega arith) ∙ take-take n n e (omega arith) ∙ h.cells)
          (0, omega arith, omega (arith, h.room), omega arith, inl refl))

  vec_add_internal-heap :
      (n : ℕ) (b e : Cells A) (xs : List A) (x : A)
      → n < 2 ^ 30
      → Holds (record { n = n; v = Target.heap b; e = e }) xs
      → Adds
          (record { n = n; v = Target.heap b; e = e })
          xs
          x
          (vec_add_internal (record { n = n; v = Target.heap b; e = e }) x)
  unfolding vec_add_internal
  vec_add_internal-heap n b e xs x few h =
      let (b', grown, (fits, room, same)) = grow-IsGrown n b few h.room in
      let pos = h.room.3 in
      let filled : (n == 0) ≡ false = ground arith in
      rw (filled, grown)
        (store-Holds n (Target.heap b') e xs x h.size h.integral fits (same ∙ h.cells) room)

  null-Holds :
      (n : ℕ) (e : Cells A) (xs : List A) (x : A)
      → Holds (record { n = n; v = Target.null; e = e }) xs
      → Adds
          (record { n = n; v = Target.null; e = e })
          xs
          x
          (store (record { n = n; v = Target.integral; e = e }) x)
  null-Holds n e xs x h =
      let empty : n ≡ 0 = h.room in
      store-Holds n Target.integral e xs x h.size h.integral (omega (arith, h.integral))
        (rw empty (rw empty at h.cells)) (omega arith)

  vec_add_at :
      (n : ℕ) (v : Target A) (e : Cells A) (xs : List A) (x : A)
      → n < 2 ^ 30
      → Holds (record { n = n; v = v; e = e }) xs
      → Adds (record { n = n; v = v; e = e }) xs x (vec_add (record { n = n; v = v; e = e }) x)
  unfolding vec_add
  vec_add_at n Target.null e xs x few h = null-Holds n e xs x h
  vec_add_at n Target.integral e xs x few h = elim (Bool-cases (ltb n 3)) [
    | inl room ↦ rw room (
        store-Holds n Target.integral e xs x h.size h.integral (ground (arith, h.integral)) h.cells
          (ground arith))
    | inr full ↦ rw full (full_integral-Holds n e xs x (ground arith) h)
  ]
  vec_add_at n (Target.heap b) e xs x few h = elim (Bool-cases (n % 8 == 0)) [
    | inl aligned ↦ rw aligned (vec_add_internal-heap n b e xs x few h)
    | inr part ↦
        let (k, size, fits, pos, half) = h.room in
        let off : n % 8 ≢ 0 = ground arith in
        rw part (
          store-Holds n (Target.heap b) e xs x h.size h.integral (omega arith) h.cells
            (k, size, omega arith, omega arith, still half))
  ]

  -- From a vector that holds `xs`, of less than 2 ^ 30 elements, `vec_add` writes inside its block and holds `xs` and
  -- then `x`.
  pub vec_add-Holds :
      (av : AbstractVec A) (xs : List A) (x : A)
      → length xs < 2 ^ 30
      → Holds av xs
      → (av' : AbstractVec A) × (vec_add av x ≡ some av') × Holds av' (xs ++ x ∷ [])
  vec_add-Holds av xs x few h = vec_add_at av.n av.v av.e xs x (omega (arith, h.size)) h

  vec_add_internal_at :
      (n : ℕ) (v : Target A) (e : Cells A) (xs : List A) (x : A)
      → n < 2 ^ 30
      → Holds (record { n = n; v = v; e = e }) xs
      → Adds
          (record { n = n; v = v; e = e })
          xs
          x
          (vec_add_internal (record { n = n; v = v; e = e }) x)
  unfolding vec_add_internal
  vec_add_internal_at n Target.null e xs x few h =
      let empty : (n == 0) ≡ true = ground (arith, h.room) in rw empty (null-Holds n e xs x h)
  vec_add_internal_at n Target.integral e xs x few h = elim (Bool-cases (n == 0)) [
    | inl empty ↦ rw empty (
        store-Holds n Target.integral e xs x h.size h.integral (ground (arith, h.integral)) h.cells
          (ground arith))
    | inr filled ↦ full_integral-Holds n e xs x (ground arith) h
  ]
  vec_add_internal_at n (Target.heap b) e xs x few h = vec_add_internal-heap n b e xs x few h

  -- From a vector that holds `xs`, of less than 2 ^ 30 elements, `vec_add_internal` called by itself writes inside
  -- its block and holds `xs` and then `x`.
  pub vec_add_internal-Holds :
      (av : AbstractVec A) (xs : List A) (x : A)
      → length xs < 2 ^ 30
      → Holds av xs
      → (av' : AbstractVec A) × (vec_add_internal av x ≡ some av') × Holds av' (xs ++ x ∷ [])
  vec_add_internal-Holds av xs x few h =
      vec_add_internal_at av.n av.v av.e xs x (omega (arith, h.size)) h

  pub vec_clear-Holds : Holds (vec_clear {A = A}) []
  unfolding vec_clear
  vec_clear-Holds = record { size = refl; integral = refl; room = refl; cells = refl }
