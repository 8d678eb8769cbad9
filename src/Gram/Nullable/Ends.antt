-- ===== src/Gram/Nullable/Ends.antt =====
-- The transitive closure of `compute_nullable` ends, and the productions that it passes over.
use dparser.Prelude.{
  ℕ, zero, suc, ◌+◌, ◌≤◌, ◌<◌, ◌≡◌, refl, ◌∙◌, ◌⊎◌, inl, inr, Bool, true, false, List, [], ◌∷◌,
  none, some, arith, if◌then◌else◌, length, set, get_or, Bool-cases, Option-cases, length-set,
}
use dparser.Gram.{Grammar, Production, rule_of, rules_of, production_of, no_production}
use dparser.Gram.Nullable.{
  is_some, all_nullable, empty_rule, nullable_rule, set_nullable, basis, visit, pass, closure,
  compute_nullable,
}

-- The productions that are not marked yet.
abbrev unmarked : List Production → ℕ
unmarked [] = 0
unmarked (p ∷ ps) = if is_some p.nullable then unmarked ps else suc (unmarked ps)

unmarked-set :
    (ps : List Production) (p r : ℕ) (rs : List ℕ) (q : ℕ)
    → (get_or ps p no_production).nullable ≡ none
    → (get_or ps p no_production).rules ≡ q ∷ rs
    → suc (unmarked (set ps p (record (get_or ps p no_production) { nullable = some r })))
      ≡ unmarked ps
unmarked-set [] p r rs q e k = absurd (cc k)
unmarked-set (x ∷ ps) zero r rs q e k = ground arith
unmarked-set (x ∷ ps) (suc p) r rs q e k = ground (arith, unmarked-set ps p r rs q e k)

unmarked-le-length : (ps : List Production) → unmarked ps ≤ length ps
unmarked-le-length [] = omega arith
unmarked-le-length (p ∷ ps) = ground (arith, unmarked-le-length ps)

-- A step keeps the number of productions, and where it sets the flag it has marked one.
record Marks (s s' : Grammar × Bool) : Type 0 where
  fewer : unmarked s'.0.productions ≤ unmarked s.0.productions
  progress : s'.1 ≡ true → (s.1 ≡ true) ⊎ (unmarked s'.0.productions < unmarked s.0.productions)
  size : length s'.0.productions ≡ length s.0.productions

visit-Marks : (p : ℕ) (g : Grammar) (c : Bool) → Marks (g, c) (visit p (g, c))
unfolding visit nullable_rule set_nullable
visit-Marks p g c = elim (Option-cases (production_of g p).nullable) [
  | inr (r, old) ↦
      rw (old, visit) (record { fewer = omega arith; progress = λ e. inl e; size = refl })
  | inl none_yet ↦ go (rules_of g p) refl none_yet
]
  where
    go :
        (rs : List ℕ)
        → rules_of g p ≡ rs
        → (production_of g p).nullable ≡ none
        → Marks (g, c) (visit p (g, c))
    go [] e none_yet =
        rw (none_yet, e, visit, nullable_rule)
          (record { fewer = omega arith; progress = λ q. inl q; size = refl })
    go (r ∷ rs) e none_yet = elim (Bool-cases (all_nullable g (rule_of g r).elems)) [
      | inl all ↦
          let count = unmarked-set g.productions p r rs r none_yet e in
          rw (none_yet, e, all, visit, nullable_rule)
            (record {
              fewer = omega arith;
              progress = λ q. inr (omega arith);
              size = length-set g.productions p _;
            })
      | inr part ↦
          rw (none_yet, e, part, visit, nullable_rule)
            (record { fewer = omega arith; progress = λ q. inl q; size = refl })
    ]

pass-Marks : (rounds p : ℕ) (g : Grammar) (c : Bool) → Marks (g, c) (pass rounds p (g, c))
unfolding pass
pass-Marks zero p g c = record { fewer = omega arith; progress = λ e. inl e; size = refl }
pass-Marks (suc rounds) p g c =
    let one = visit-Marks p g c in
    let rest = pass-Marks rounds (p + 1) (visit p (g, c)).0 (visit p (g, c)).1 in
    record {
      fewer = omega (arith, one.fewer, rest.fewer);
      progress = λ e. both one rest (rest.progress e);
      size = rest.size ∙ one.size;
    }
  where
    both :
        Marks (g, c) (visit p (g, c))
        → Marks (visit p (g, c)) (pass rounds (p + 1) (visit p (g, c)))
        → ((visit p (g, c)).1 ≡ true)
          ⊎ (unmarked (pass rounds (p + 1) (visit p (g, c))).0.productions
              < unmarked (visit p (g, c)).0.productions)
        → (c ≡ true)
          ⊎ (unmarked (pass rounds (p + 1) (visit p (g, c))).0.productions < unmarked g.productions)
    both one rest (inr less) = inr (omega (arith, one.fewer))
    both one rest (inl set) = elim (one.progress set) [
      | inl old ↦ inl old
      | inr less ↦ inr (omega (arith, rest.fewer))
    ]

closure_ends :
    (fuel : ℕ) (g : Grammar)
    → unmarked g.productions < fuel
    → (g' : Grammar) × (closure fuel g ≡ some g')
unfolding closure
closure_ends zero g h = elim h [ ]
closure_ends (suc fuel) g h =
    let step = pass-Marks (length g.productions) 0 g false in
    let next = (pass (length g.productions) 0 (g, false)).0 in
    elim (Bool-cases (pass (length g.productions) 0 (g, false)).1) [
      | inr stable ↦ (next, rw (stable, closure))
      | inl changed ↦
          let less : unmarked next.productions < unmarked g.productions =
            elim (step.progress changed) [
              | inl impossible ↦ absurd (cc impossible)
              | inr less ↦ less
            ] in
          let (g', e) = closure_ends fuel next (omega arith) in (g', rw (changed, closure) e)
    ]

basis-size :
    (rounds p : ℕ) (g : Grammar) → length (basis rounds p g).productions ≡ length g.productions
unfolding basis set_nullable
basis-size zero p g = refl
basis-size (suc rounds) p g = elim (Option-cases (empty_rule g (rules_of g p))) [
  | inl nothing ↦ rw (nothing, basis) (basis-size rounds (p + 1) g)
  | inr (r, found) ↦
      rw (found, basis)
        (basis-size rounds (p + 1) (set_nullable g p (some r)) ∙ length-set g.productions p _)
]

-- `compute_nullable` ends on every grammar.
pub compute_nullable_ends : (g : Grammar) → (g' : Grammar) × (compute_nullable g ≡ some g')
unfolding compute_nullable
compute_nullable_ends g =
    let n = length g.productions in
    closure_ends (suc n) (basis n 0 g)
      (omega (arith, unmarked-le-length (basis n 0 g).productions, basis-size n 0 g))
