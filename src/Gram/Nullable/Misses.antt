-- ===== src/Gram/Nullable/Misses.antt =====
-- The productions that `compute_nullable` does not find: the search gives up at the first rule.
use dparser.Prelude.{
  ℕ, zero, suc, ◌+◌, ◌≡◌, ◌≢◌, refl, ap, ◌∙◌, inl, inr, Bool, false, List, [], ◌∷◌, none, some,
  length, Bool-cases, Option-cases,
}
use dparser.Gram.{Grammar, Production, Symbol, term, rule_of, rules_of, production_of}
use dparser.Gram.Nullable.{
  all_nullable, empty_rule, nullable_rule, set_nullable, basis, visit, pass, closure,
  compute_nullable,
}
use dparser.Gram.Nullable.Laws.{get_or-set}

module _ (g₀ : Grammar) (p r t : ℕ) (rs : List ℕ) (es : List Symbol) where
  -- The rules are those of `g₀`, the production `p` has them and is not marked.
  record IsMissed (g : Grammar) : Type 0 where
    same_rules : g.rules ≡ g₀.rules
    rules : rules_of g p ≡ r ∷ rs
    unmarked : (production_of g p).nullable ≡ none

  module _ (first : (rule_of g₀ r).elems ≡ term t ∷ es) where
    set_nullable-IsMissed :
        (g : Grammar) (q s : ℕ) → q ≢ p → IsMissed g → IsMissed (set_nullable g q (some s))
    unfolding set_nullable
    set_nullable-IsMissed g q s apart h = elim (get_or-set g.productions q p _) [
      | inr (e, new) ↦ absurd (apart e)
      | inl kept ↦ record {
        same_rules = h.same_rules;
        rules = ap (λ (x : Production). x.rules) kept ∙ h.rules;
        unmarked = ap (λ (x : Production). x.nullable) kept ∙ h.unmarked;
      }
    ]

    nullable_rule-none : (g : Grammar) → IsMissed g → nullable_rule g (rules_of g p) ≡ none
    unfolding nullable_rule all_nullable
    nullable_rule-none g h =
        let begins : (rule_of g r).elems ≡ term t ∷ es = rw h.same_rules first in
        rw (h.rules, nullable_rule, begins)

    visit-IsMissed : (q : ℕ) (g : Grammar) (c : Bool) → IsMissed g → IsMissed (visit q (g, c)).0
    unfolding visit
    visit-IsMissed q g c h = elim (Option-cases (production_of g q).nullable) [
      | inr (s, old) ↦ rw (old, visit) h
      | inl none_yet ↦ elim (Option-cases (nullable_rule g (rules_of g q))) [
        | inl nothing ↦ rw (none_yet, nothing, visit) h
        | inr (s, found) ↦
            let apart : q ≢ p = λ e. cc (nullable_rule-none g h, rw e at found) in
            rw (none_yet, found, visit) (set_nullable-IsMissed g q s apart h)
      ]
    ]

    pass-IsMissed :
        (rounds q : ℕ) (g : Grammar) (c : Bool) → IsMissed g → IsMissed (pass rounds q (g, c)).0
    unfolding pass
    pass-IsMissed zero q g c h = h
    pass-IsMissed (suc rounds) q g c h =
        pass-IsMissed rounds (q + 1) (visit q (g, c)).0 (visit q (g, c)).1 (visit-IsMissed q g c h)

    closure-IsMissed :
        (fuel : ℕ) (g g' : Grammar) → closure fuel g ≡ some g' → IsMissed g → IsMissed g'
    unfolding closure
    closure-IsMissed zero g g' e h = absurd (cc e)
    closure-IsMissed (suc fuel) g g' e h =
        let step = pass-IsMissed (length g.productions) 0 g false h in
        elim (Bool-cases (pass (length g.productions) 0 (g, false)).1) [
          | inl changed ↦
              closure-IsMissed fuel (pass (length g.productions) 0 (g, false)).0 g'
                (rw (changed, closure) at e) step
          | inr stable ↦
              let last : some (pass (length g.productions) 0 (g, false)).0 ≡ some g' =
                rw (stable, closure) at e in
              let this : (pass (length g.productions) 0 (g, false)).0 ≡ g' = cc in rw (← this) step
        ]

    empty_rule-same :
        (g : Grammar) (qs : List ℕ) → g.rules ≡ g₀.rules → empty_rule g qs ≡ empty_rule g₀ qs
    unfolding empty_rule
    empty_rule-same g [] e = refl
    empty_rule-same g (q ∷ qs) e = rw (e, empty_rule-same g qs e)

    basis-IsMissed :
        (rounds q : ℕ) (g : Grammar)
        → empty_rule g₀ (r ∷ rs) ≡ none
        → IsMissed g
        → IsMissed (basis rounds q g)
    unfolding basis
    basis-IsMissed zero q g no_empty h = h
    basis-IsMissed (suc rounds) q g no_empty h = elim (Option-cases (empty_rule g (rules_of g q))) [
      | inl nothing ↦ rw (nothing, basis) (basis-IsMissed rounds (q + 1) g no_empty h)
      | inr (s, found) ↦
          let none_here : empty_rule g (rules_of g p) ≡ none =
            rw h.rules (empty_rule-same g (r ∷ rs) h.same_rules ∙ no_empty) in
          let apart : q ≢ p = λ e. cc (none_here, rw e at found) in
          rw (found, basis)
            (basis-IsMissed rounds (q + 1) (set_nullable g q (some s)) no_empty
              (set_nullable-IsMissed g q s apart h))
    ]

-- A production that is not marked, has no rule without elements and whose first rule begins with a
-- terminal stays unmarked, whatever its other rules are.
pub compute_nullable_misses :
    (g g' : Grammar) (p r t : ℕ) (rs : List ℕ) (es : List Symbol)
    → rules_of g p ≡ r ∷ rs
    → (rule_of g r).elems ≡ term t ∷ es
    → empty_rule g (r ∷ rs) ≡ none
    → (production_of g p).nullable ≡ none
    → compute_nullable g ≡ some g'
    → (production_of g' p).nullable ≡ none
unfolding compute_nullable
compute_nullable_misses g g' p r t rs es rules first no_empty unmarked run =
    let n = length g.productions in
    let start : IsMissed g p r t rs es g = record {
      same_rules = refl;
      rules = rules;
      unmarked = unmarked;
    } in
    (closure-IsMissed g p r t rs es first (suc n) (basis n 0 g) g' run
      (basis-IsMissed g p r t rs es first n 0 g no_empty start)).unmarked
