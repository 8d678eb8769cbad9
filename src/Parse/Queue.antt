-- ===== src/Parse/Queue.antt =====
-- parse.c (`znode_depth`, `add_Reduction`, `add_Shift`): the work lists `reductions_todo` and
-- `shifts_todo`. Nodes are their numbers. `loc` gives `sn->loc.s` of an SNode, and `sns` the depths of
-- the SNodes that a ZNode names. The counting of references and the free lists are left out.
pub mod Order
use dparser.Prelude.{
  ℕ, ◌-◌, ◌^◌, ◌≡◌, ◌↔◌, arith, Bool, true, false, ◌&&◌, ◌||◌, List, [], ◌∷◌, Option, none, some,
  ltb, leb, ◌==◌, ==_iff, if◌then◌else◌, Eq, has,
}

-- The greatest depth of the SNodes of a ZNode, and INT_MAX for NULL.
unfoldable pub max_depth : ℕ → List ℕ → ℕ
max_depth d [] = d
max_depth d (e ∷ es) = max_depth (if ltb d e then e else d) es

unfoldable pub znode_depth : Option (List ℕ) → ℕ
znode_depth none = 2 ^ 31 - 1
znode_depth (some depths) = max_depth 0 depths

-- `znode` is `none` for NULL; `reduction` is the number of the D_Reduction.
pub record Reduction : Type 0 where
  pub znode : Option ℕ
  pub snode : ℕ
  pub reduction : ℕ

abbrev pub znode_eq : Option ℕ → Option ℕ → Bool
znode_eq none none = true
znode_eq none (some b) = false
znode_eq (some a) none = false
znode_eq (some a) (some b) = a == b

abbrev pub reduction_eq : Reduction → Reduction → Bool
reduction_eq x y = x.snode == y.snode && znode_eq x.znode y.znode && x.reduction == y.reduction

znode_eq_iff : (a b : Option ℕ) → (znode_eq a b ≡ true) ↔ (a ≡ b)
znode_eq_iff none none = ground arith
znode_eq_iff none (some b) = ground arith
znode_eq_iff (some a) none = ground arith
znode_eq_iff (some a) (some b) = ground arith

pub reduction_eq_iff : (x y : Reduction) → (reduction_eq x y ≡ true) ↔ (x ≡ y)
reduction_eq_iff x y = ground (arith, znode_eq_iff x.znode y.znode)

instance abbrev pub reduction_Eq : Eq Reduction
reduction_Eq = record { beq = reduction_eq; beq_iff = reduction_eq_iff }

module _ (loc : ℕ → ℕ) (sns : ℕ → List ℕ) where
  abbrev pub depth : Reduction → ℕ
  depth x = znode_depth (elim x.znode [ none ↦ none | some z ↦ some (sns z) ])

  -- The new list, or `none` where the reduction is there and NULL is returned.
  unfoldable pub add_reduction : List Reduction → Reduction → Option (List Reduction)
  add_reduction [] r = some (r ∷ [])
  add_reduction (x ∷ xs) r =
      let rest = add_reduction xs r in
      if ltb (loc r.snode) (loc x.snode)
      then some (r ∷ x ∷ xs)
      else if loc r.snode == loc x.snode && leb (depth x) (depth r)
      then (if depth r == depth x && has (x ∷ xs) r then none else some (r ∷ x ∷ xs))
      else elim rest [ none ↦ none | some later ↦ some (x ∷ later) ]

  -- The list of shifts holds SNodes.
  unfoldable pub add_shift : List ℕ → ℕ → List ℕ
  add_shift [] sn = sn ∷ []
  add_shift (x ∷ xs) sn = if leb (loc sn) (loc x) then sn ∷ x ∷ xs else x ∷ add_shift xs sn
