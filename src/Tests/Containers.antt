-- ===== src/Tests/Containers.antt =====
-- Vectors and sets of util.c on small inputs.
use dparser.Prelude.{ℕ, ◌≡◌, ◌⊎◌, refl, inl, Bool, true, not, ◌||◌, [], ◌∷◌, some, ◌==◌, arith}
use dparser.Util.Vec.{AbstractVec, Target, vec_add}
use dparser.Util.Vec.Grow.{Holds}
use dparser.Util.Vec.Bounds.{vec_add-Holds}
use dparser.Util.Set.{
  Table, ok, exhausted, set_add, set_find, empty, set_add_fuel, lookup, home, probe, enlarge,
  d_prime2, union_with,
}
use dparser.Util.Set.Adding.{IsValid, set_add-Adds}
use dparser.Util.Set.Total.{set_add_ends}
use dparser.Lr.Hashed.{Listed}

-- A vector whose three cells in the struct are in use.
abbrev three : AbstractVec ℕ
three = record { n = 3; v = Target.integral; e = some 5 ∷ some 6 ∷ some 7 ∷ [] }

three-Holds : Holds three (5 ∷ 6 ∷ 7 ∷ [])
three-Holds = record { size = refl; integral = refl; room = omega arith; cells = refl }

vec_add-Holds_example :
    (av' : AbstractVec ℕ) × (vec_add three 8 ≡ some av') × Holds av' (5 ∷ 6 ∷ 7 ∷ 8 ∷ [])
vec_add-Holds_example = vec_add-Holds three (5 ∷ 6 ∷ 7 ∷ []) 8 (omega arith) three-Holds

empty-IsValid : IsValid empty
empty-IsValid = record { sized = refl; placed = λ t p e. absurd (cc e) }

-- The table of seven slots after the first pointer.
abbrev one_held : Table
one_held = record { n = 7; i = 2; v = 0 ∷ 0 ∷ 0 ∷ 0 ∷ 0 ∷ 12 ∷ 0 ∷ [] }

add_first : set_add empty 12 ≡ ok (one_held, true)
unfolding set_add set_add_fuel lookup home probe enlarge d_prime2 union_with
add_first = refl

set_add-Adds_example :
    IsValid one_held
    × (set_find one_held 12 ≡ (12 == 12 || set_find empty 12))
    × (true ≡ not (set_find empty 12))
set_add-Adds_example =
    set_add-Adds empty 12 12 one_held true empty-IsValid (λ e. omega arith) (λ e. omega arith)
      add_first

set_add_ends_example :
    (set_add empty 12 ≡ exhausted) ⊎ ((r : Table × Bool) × (set_add empty 12 ≡ ok r))
set_add_ends_example = set_add_ends empty 12 (inl refl)

-- A state with one item is added to an empty table.
abbrev one_item : Listed
one_item = record { position = 0; items = record { rule = 1; index = 2 } ∷ [] }
