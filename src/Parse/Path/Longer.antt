-- ===== src/Parse/Path/Longer.antt =====
-- A path that is skipped stays so when it goes on.
use dparser.Prelude.{
  ℕ, ◌≡◌, refl, sym, ap, ◌∙◌, ◌⊎◌, inl, inr, false, not, ◌||◌, List, [], ◌∷◌, ◌++◌, Option, none,
  some, arith, ◌==◌, Bool-cases,
}
use dparser.Parse.Priority.{PNode, check_assoc_priority}
use dparser.Parse.Path.{
  some_legal, check_within, bad_top, check_path_internal, check_path_priorities,
}

-- The ZNode `z` is in a list of pointers.
abbrev pub In : ℕ → List (Option ℕ) → Type 0
In z [] = ⊥
In z (o ∷ zs) = (o ≡ some z) ⊎ In z zs

-- The last ZNode of a path.
abbrev pub IsLast : ℕ → List ℕ → Type 0
IsLast z [] = ⊥
IsLast z (y ∷ []) = y ≡ z
IsLast z (y ∷ x ∷ path) = IsLast z (x ∷ path)

module _ (pn : ℕ → PNode) (below : ℕ → List (Option ℕ)) where
  none_legal :
      (pn0 pn1 : PNode) (zs : List (Option ℕ)) (z : ℕ)
      → some_legal pn below pn0 pn1 zs ≡ false
      → In z zs
      → check_assoc_priority pn0 pn1 (some (pn z)) ≡ false
  none_legal pn0 pn1 [] z h member = absurd member
  none_legal pn0 pn1 (none ∷ zs) z h (inl e) = absurd (cc e)
  none_legal pn0 pn1 (none ∷ zs) z h (inr later) = none_legal pn0 pn1 zs z h later
  none_legal pn0 pn1 (some y ∷ zs) z h (inl e) =
      let this : y ≡ z = cc e in
      let bad : check_assoc_priority pn0 pn1 (some (pn y)) ≡ false = ground (arith, h) in
      ap (λ q. check_assoc_priority pn0 pn1 (some (pn q))) (sym this) ∙ bad
  none_legal pn0 pn1 (some y ∷ zs) z h (inr later) =
      none_legal pn0 pn1 zs z (ground (arith, h)) later

  check_within-longer :
      (pn0 : PNode) (path : List ℕ) (last z : ℕ)
      → check_within pn below pn0 path ≡ false
      → IsLast last path
      → In z (below last)
      → check_within pn below pn0 (path ++ z ∷ []) ≡ false
  unfolding check_within
  check_within-longer pn0 [] last z h ends member = absurd ends
  check_within-longer pn0 (z1 ∷ []) last z h ends member =
      let member' : In z (below z1) = rw ends member in
      none_legal pn0 (pn z1) (below z1) z (ground (arith, h)) member'
  check_within-longer pn0 (z1 ∷ z2 ∷ path) last z h ends member = h

  check_path_internal-longer :
      (z0 z1 : ℕ) (path : List ℕ) (last z : ℕ)
      → check_path_internal pn below (z0 ∷ z1 ∷ path) ≡ false
      → IsLast last (z0 ∷ z1 ∷ path)
      → In z (below last)
      → check_path_internal pn below (z0 ∷ z1 ∷ path ++ z ∷ []) ≡ false
  unfolding check_path_internal check_within
  check_path_internal-longer z0 z1 path last z h ends member =
      elim (Bool-cases ((pn z0).op_assoc == 0)) [
        | inr operator ↦
            rw (operator, check_path_internal)
              (check_within-longer (pn z0) (z1 ∷ path) last z
                (rw (operator, check_path_internal) at h) ends member)
        | inl expression ↦ elim (Bool-cases ((pn z1).op_assoc == 0)) [
          | inl neither ↦ absurd (cc (rw (expression, neither, check_path_internal) at h))
          | inr operator ↦ elim (Bool-cases (bad_top pn below (pn z0) (pn z1))) [
            | inl bad ↦ rw (expression, operator, bad, check_path_internal) refl
            | inr fine ↦
                rw (expression, operator, fine, check_path_internal)
                  (within path (rw (expression, operator, fine, check_path_internal) at h) ends)
          ]
        ]
      ]
    where
      within :
          (path : List ℕ)
          → check_within pn below (pn z1) path ≡ false
          → IsLast last (z1 ∷ path)
          → check_within pn below (pn z1) (path ++ z ∷ []) ≡ false
      within [] h' ends' = absurd (cc h')
      within (z2 ∷ path') h' ends' = check_within-longer (pn z1) (z2 ∷ path') last z h' ends' member

  -- A path that is skipped is also skipped with any ZNode below its last one.
  pub check_path_priorities_longer :
      (path : List ℕ) (last z : ℕ)
      → check_path_priorities pn below path ≡ false
      → IsLast last path
      → In z (below last)
      → check_path_priorities pn below (path ++ z ∷ []) ≡ false
  unfolding check_path_priorities
  check_path_priorities_longer [] last z h ends member = absurd ends
  check_path_priorities_longer (z0 ∷ []) last z h ends member = absurd (cc h)
  check_path_priorities_longer (z0 ∷ z1 ∷ path) last z h ends member =
      elim (Bool-cases (not ((pn z0).op_assoc == 0) || not ((pn z1).op_assoc == 0))) [
        | inr skips ↦ absurd (cc (rw (skips, check_path_priorities) at h))
        | inl checks ↦
            rw (checks, check_path_priorities)
              (check_path_internal-longer z0 z1 path last z
                (rw (checks, check_path_priorities) at h) ends member)
      ]
