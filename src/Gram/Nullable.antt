-- ===== src/Gram/Nullable.antt =====
-- gram.c (`compute_nullable`): which productions derive the empty text, and by which rule.
-- `goto Lnot_nullable` leaves the loop over the rules of a production, so only its first rule is
-- ever tried in the transitive closure.
pub mod Laws
pub mod Ends
pub mod Misses
use dparser.Prelude.{
  is_empty, ℕ, zero, suc, ◌+◌, Bool, true, false, ◌&&◌, ◌||◌, List, [], ◌∷◌, Option, none, some,
  if◌then◌else◌, length, set, get_elem?,
}
use dparser.Gram.{Grammar, Production, Symbol, nterm, term, rule_of, rules_of, production_of}

abbrev pub is_some {ℓ} : {A : Type ℓ} → Option A → Bool
is_some none = false
is_some (some _) = true

-- `e->kind != ELEM_NTERM || !e->e.nterm->nullable` fails for each element.
unfoldable pub all_nullable : Grammar → List Symbol → Bool
all_nullable g [] = true
all_nullable g (nterm p ∷ es) = is_some (production_of g p).nullable && all_nullable g es
all_nullable g (term t ∷ es) = false

-- The first rule without elements.
unfoldable pub empty_rule : Grammar → List ℕ → Option ℕ
empty_rule g [] = none
empty_rule g (r ∷ rs) = if is_empty (rule_of g r).elems then some r else empty_rule g rs

-- The loop over the rules: the first one decides.
unfoldable pub nullable_rule : Grammar → List ℕ → Option ℕ
nullable_rule g [] = none
nullable_rule g (r ∷ rs) = if all_nullable g (rule_of g r).elems then some r else none

unfoldable pub set_nullable : Grammar → ℕ → Option ℕ → Grammar
set_nullable g p r = record g {
  productions = set g.productions p (record (production_of g p) { nullable = r });
}

-- The trivial case, for `rounds` productions from number `p`.
unfoldable pub basis : ℕ → ℕ → Grammar → Grammar
basis zero p g = g
basis (suc rounds) p g =
    basis rounds (p + 1)
      (elim (empty_rule g (rules_of g p)) [ none ↦ g | some r ↦ set_nullable g p (some r) ])

-- One production in a pass of the transitive closure.
unfoldable pub visit : ℕ → Grammar × Bool → Grammar × Bool
visit p (g, changed) = elim (production_of g p).nullable [
  | some _ ↦ (g, changed)
  | none ↦ elim (nullable_rule g (rules_of g p)) [
    | none ↦ (g, changed)
    | some r ↦ (set_nullable g p (some r), true)
  ]
]

unfoldable pub pass : ℕ → ℕ → Grammar × Bool → Grammar × Bool
pass zero p state = state
pass (suc rounds) p state = pass rounds (p + 1) (visit p state)

-- `while (changed)`, in at most `fuel` passes.
unfoldable pub closure : ℕ → Grammar → Option Grammar
closure zero g = none
closure (suc fuel) g =
    let (g', changed) = pass (length g.productions) 0 (g, false) in
    let more = closure fuel g' in if changed then more else some g'

-- A pass that changes something finds a production, so one pass for each and one more are enough.
unfoldable pub compute_nullable : Grammar → Option Grammar
compute_nullable g = let n = length g.productions in closure (suc n) (basis n 0 g)
