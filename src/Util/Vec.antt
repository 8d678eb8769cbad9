-- ===== src/Util/Vec.antt =====
-- util.h (the macros `vec_add`, `vec_clear`) and util.c (`vec_add_internal`, `vec_eq`): a vector
-- whose first elements stand inside the struct, and whose heap block grows by doubling.
-- A block of memory is a list of cells, `none` for one that was never written. A write outside
-- the block, and a size of a block that does not fit into an `int`, is the outcome `none`.
pub mod Grow
pub mod Bounds
use dparser.Prelude.{
  ℕ, zero, suc, ◌+◌, ◌-◌, ◌/◌, ◌%◌, ◌^◌, ◌||◌, List, ◌++◌, Option, none, some, ltb, ◌==◌,
  if◌then◌else◌, length, set, take, drop, replicate,
}

abbrev pub Cells {ℓ} : Type ℓ → Type ℓ
Cells A = List (Option A)

-- What the field `v` points to: nothing, the array `e` in the struct, or a heap block.
pub data Target {ℓ} (A : Type ℓ) : Type ℓ where
  null : Target A
  integral : Target A
  heap : Cells A → Target A

pub record AbstractVec {ℓ} (A : Type ℓ) : Type ℓ where
  pub n : ℕ
  pub v : Target A
  pub e : Cells A

-- INTEGRAL_VEC_SIZE, INITIAL_VEC_SHIFT and INITIAL_VEC_SIZE
abbrev pub integral_vec_size : ℕ
integral_vec_size = 3

abbrev pub initial_vec_size : ℕ
initial_vec_size = 8

module _ {ℓ} {A : Type ℓ} where
  -- A vector whose memory was cleared by `memset`.
  unfoldable pub vec_clear : AbstractVec A
  vec_clear = record { n = 0; v = Target.null; e = replicate integral_vec_size none }

  -- `block[i] = x`
  unfoldable pub write : Cells A → ℕ → A → Option (Cells A)
  write cells i x = if ltb i (length cells) then some (set cells i (some x)) else none

  -- `memcpy` of `n` cells to the start of another block.
  unfoldable pub copy : ℕ → Cells A → Cells A → Cells A
  copy n from to = take n from ++ drop n to

  -- REALLOC to `size` cells: the old cells that fit, and fresh ones behind them.
  unfoldable pub realloc : Cells A → ℕ → Cells A
  realloc cells size = take size cells ++ replicate (size - length cells) none

-- `while (!(l & 1)) { l = l >> 1; nl++; }` in at most `fuel` rounds.
unfoldable pub strip : ℕ → ℕ → ℕ → ℕ × ℕ
strip zero l nl = (l, nl)
strip (suc fuel) l nl =
    let rest = strip fuel (l / 2) (nl + 1) in if l % 2 == 0 then rest else (l, nl)

module _ {ℓ} {A : Type ℓ} where
  -- `av->v[av->n] = elem; av->n++;` for each target of `v`.
  unfoldable pub store : AbstractVec A → A → Option (AbstractVec A)
  unfolding write
  store av x = elim av.v [
    | Target.null ↦ none
    | Target.integral ↦ elim (write av.e av.n x) [
      | none ↦ none
      | some cells ↦ some (record av { n = av.n + 1; e = cells })
    ]
    | Target.heap block ↦ elim (write block av.n x) [
      | none ↦ none
      | some cells ↦ some (record av { n = av.n + 1; v = Target.heap cells })
    ]
  ]

  -- REALLOC to `1 << nl` cells, where the shift of an `int` does not overflow.
  unfoldable pub realloc_pow : Cells A → ℕ → Option (Cells A)
  unfolding realloc
  realloc_pow block nl = if ltb nl 31 then some (realloc block (2 ^ nl)) else none

  -- The third branch of `vec_add_internal`, on a heap block with `n` elements.
  unfoldable pub grow : ℕ → Cells A → Option (Cells A)
  unfolding strip
  grow n block =
      if n % initial_vec_size == 0
      then (let (l, nl) = strip n (n / 8) 4 in
          if n == 0 || l / 2 == 0 then realloc_pow block nl else some block)
      else some block

  unfoldable pub vec_add_internal : AbstractVec A → A → Option (AbstractVec A)
  unfolding copy
  vec_add_internal av x =
      if av.n == 0 then store (record av { v = Target.integral }) x else elim av.v [
        | Target.null ↦ store av x
        | Target.integral ↦
            store (record av { v = Target.heap (copy av.n av.e (replicate initial_vec_size none)) })
              x
        | Target.heap block ↦ elim (grow av.n block) [
          | none ↦ none
          | some block' ↦ store (record av { v = Target.heap block' }) x
        ]
      ]

  unfoldable pub vec_add : AbstractVec A → A → Option (AbstractVec A)
  vec_add av x = elim av.v [
    | Target.null ↦ store (record av { v = Target.integral }) x
    | Target.integral ↦ if ltb av.n integral_vec_size then store av x else vec_add_internal av x
    | Target.heap block ↦ if av.n % initial_vec_size == 0 then vec_add_internal av x else store av x
  ]
