-- ===== src/Gram/Nullable/Laws.antt =====
-- What `compute_nullable` marks derives the empty text, and what it does not find.
use mathlib.Core.Path.{subst}
use dparser.Prelude.{
  is_empty, ℕ, zero, suc, ◌+◌, ◌≡◌, refl, sym, ap, ◌∙◌, ◌⊎◌, inl, inr, Bool, true, false, List, [],
  ◌∷◌, none, some, arith, length, set, get_or, Bool-cases, Option-cases, has, nat_eq,
}
use dparser.Gram.{
  Grammar, Production, Symbol, nterm, term, rule_of, rules_of, production_of, no_production,
}
use dparser.Gram.Nullable.{
  all_nullable, empty_rule, nullable_rule, set_nullable, basis, visit, pass, closure,
  compute_nullable,
}

-- The productions that derive the empty text, by a rule all of whose elements do.
mutual
  pub data Empties (rules : ℕ → List ℕ) (elems : ℕ → List Symbol) : ℕ → Type 0 where
    by_rule :
        {p : ℕ} (r : ℕ)
        → has (rules p) r ≡ true
        → AllEmpty rules elems (elems r)
        → Empties rules elems p

  pub data AllEmpty (rules : ℕ → List ℕ) (elems : ℕ → List Symbol) : List Symbol → Type 0 where
    nil : AllEmpty rules elems []
    cons :
        {p : ℕ} {es : List Symbol}
        → Empties rules elems p
        → AllEmpty rules elems es
        → AllEmpty rules elems (nterm p ∷ es)

pub get_or-set :
    (ps : List Production) (p q : ℕ) (x : Production)
    → (get_or (set ps p x) q no_production ≡ get_or ps q no_production)
      ⊎ ((p ≡ q) × (get_or (set ps p x) q no_production ≡ x))
get_or-set [] p q x = inl refl
get_or-set (y ∷ ps) zero zero x = inr (refl, refl)
get_or-set (y ∷ ps) zero (suc q) x = inl refl
get_or-set (y ∷ ps) (suc p) zero x = inl refl
get_or-set (y ∷ ps) (suc p) (suc q) x = elim (get_or-set ps p q x) [
  | inl same ↦ inl same
  | inr (e, new) ↦ inr (ap suc e, new)
]

is_empty-nil : (es : List Symbol) → is_empty es ≡ true → es ≡ []
is_empty-nil [] e = refl
is_empty-nil (x ∷ es) e = absurd (cc e)

module _ (g₀ : Grammar) where
  abbrev elems_of : ℕ → List Symbol
  elems_of r = (rule_of g₀ r).elems

  abbrev pub DerivesEmpty : ℕ → Type 0
  DerivesEmpty p = Empties (rules_of g₀) elems_of p

  -- The rules are those of `g₀`, and each mark names a rule that derives the empty text.
  pub record IsSound (g : Grammar) : Type 0 where
    pub same_rules : g.rules ≡ g₀.rules
    pub same : (p : ℕ) → rules_of g p ≡ rules_of g₀ p
    pub marks :
        (p r : ℕ)
        → (production_of g p).nullable ≡ some r
        → (has (rules_of g₀ p) r ≡ true) × AllEmpty (rules_of g₀) elems_of (elems_of r)

  elems-eq : (g : Grammar) (r : ℕ) → IsSound g → (rule_of g r).elems ≡ elems_of r
  elems-eq g r h = rw h.same_rules

  set_nullable-IsSound :
      (g : Grammar) (p r : ℕ)
      → IsSound g
      → has (rules_of g₀ p) r ≡ true
      → AllEmpty (rules_of g₀) elems_of (elems_of r)
      → IsSound (set_nullable g p (some r))
  unfolding set_nullable
  set_nullable-IsSound g p r h member empty = record {
    same_rules = h.same_rules;
    same = λ q. elim (get_or-set g.productions p q _) [
      | inl kept ↦ ap (λ (x : Production). x.rules) kept ∙ h.same q
      | inr (e, new) ↦ ap (λ (x : Production). x.rules) new ∙ ap (rules_of g) e ∙ h.same q
    ];
    marks = λ q s marked. elim (get_or-set g.productions p q _) [
      | inl kept ↦ h.marks q s (sym (ap (λ (x : Production). x.nullable) kept) ∙ marked)
      | inr (e, new) ↦
          let this : some r ≡ some s = sym (ap (λ (x : Production). x.nullable) new) ∙ marked in
          let rule : r ≡ s = cc in rw (← e, ← rule) (member, empty)
    ];
  }

  all_nullable-AllEmpty :
      (g : Grammar) (es : List Symbol)
      → IsSound g
      → all_nullable g es ≡ true
      → AllEmpty (rules_of g₀) elems_of es
  unfolding all_nullable
  all_nullable-AllEmpty g [] h e = nil
  all_nullable-AllEmpty g (nterm p ∷ es) h e = elim (Option-cases (production_of g p).nullable) [
    | inl unmarked ↦ absurd (ground arith)
    | inr (r, marked) ↦
        let (member, empty) = h.marks p r marked in
        cons (by_rule r member empty) (all_nullable-AllEmpty g es h (ground arith))
  ]
  all_nullable-AllEmpty g (term t ∷ es) h e = absurd (cc e)

  empty_rule_sound :
      (g : Grammar) (rs : List ℕ) (r : ℕ)
      → empty_rule g rs ≡ some r
      → (has rs r ≡ true) × ((rule_of g r).elems ≡ [])
  unfolding empty_rule
  empty_rule_sound g [] r e = absurd (cc e)
  empty_rule_sound g (q ∷ rs) r e = elim (Bool-cases (is_empty (rule_of g q).elems)) [
    | inl empty ↦
        let first : q ≡ r = ground arith in
        (ground arith, rw (← first) (is_empty-nil (rule_of g q).elems empty))
    | inr more ↦
        let (member, none_left) = empty_rule_sound g rs r (rw (more, empty_rule) at e) in
        (ground arith, none_left)
  ]

  nullable_rule_sound :
      (g : Grammar) (rs : List ℕ) (r : ℕ)
      → nullable_rule g rs ≡ some r
      → (has rs r ≡ true) × (all_nullable g (rule_of g r).elems ≡ true)
  unfolding nullable_rule
  nullable_rule_sound g [] r e = absurd (cc e)
  nullable_rule_sound g (q ∷ rs) r e =
      let first : q ≡ r = ground arith in (ground arith, rw (← first) (ground arith))

  basis-IsSound : (rounds p : ℕ) (g : Grammar) → IsSound g → IsSound (basis rounds p g)
  unfolding basis
  basis-IsSound zero p g h = h
  basis-IsSound (suc rounds) p g h = elim (Option-cases (empty_rule g (rules_of g p))) [
    | inl nothing ↦ rw (nothing, basis) (basis-IsSound rounds (p + 1) g h)
    | inr (r, found) ↦
        let (member, empty) = empty_rule_sound g (rules_of g p) r found in
        let derives : AllEmpty (rules_of g₀) elems_of (elems_of r) =
          subst (AllEmpty (rules_of g₀) elems_of) (sym empty ∙ elems-eq g r h) nil in
        rw (found, basis)
          (basis-IsSound rounds (p + 1) (set_nullable g p (some r))
            (set_nullable-IsSound g p r h (rw h.same at member) derives))
  ]

  visit-IsSound : (p : ℕ) (g : Grammar) (c : Bool) → IsSound g → IsSound (visit p (g, c)).0
  unfolding visit
  visit-IsSound p g c h = elim (Option-cases (production_of g p).nullable) [
    | inr (r, old) ↦ rw (old, visit) h
    | inl unmarked ↦ elim (Option-cases (nullable_rule g (rules_of g p))) [
      | inl nothing ↦ rw (unmarked, nothing, visit) h
      | inr (r, found) ↦
          let (member, all) = nullable_rule_sound g (rules_of g p) r found in
          let derives = all_nullable-AllEmpty g (rule_of g r).elems h all in
          rw (unmarked, found, visit)
            (set_nullable-IsSound g p r h (rw h.same at member)
              (subst (AllEmpty (rules_of g₀) elems_of) (elems-eq g r h) derives))
    ]
  ]

  pass-IsSound :
      (rounds p : ℕ) (g : Grammar) (c : Bool) → IsSound g → IsSound (pass rounds p (g, c)).0
  unfolding pass
  pass-IsSound zero p g c h = h
  pass-IsSound (suc rounds) p g c h =
      pass-IsSound rounds (p + 1) (visit p (g, c)).0 (visit p (g, c)).1 (visit-IsSound p g c h)

  closure-IsSound : (fuel : ℕ) (g g' : Grammar) → closure fuel g ≡ some g' → IsSound g → IsSound g'
  unfolding closure
  closure-IsSound zero g g' e h = absurd (cc e)
  closure-IsSound (suc fuel) g g' e h =
      let step = pass-IsSound (length g.productions) 0 g false h in
      elim (Bool-cases (pass (length g.productions) 0 (g, false)).1) [
        | inl changed ↦
            closure-IsSound fuel (pass (length g.productions) 0 (g, false)).0 g'
              (rw (changed, closure) at e) step
        | inr stable ↦
            let last : some (pass (length g.productions) 0 (g, false)).0 ≡ some g' =
              rw (stable, closure) at e in
            let this : (pass (length g.productions) 0 (g, false)).0 ≡ g' = cc in rw (← this) step
      ]

-- From a grammar without marks, each production that `compute_nullable` marks derives the empty
-- text, and the rule that it names for it is one of its rules.
pub compute_nullable-DerivesEmpty :
    (g g' : Grammar) (p r : ℕ)
    → ((q : ℕ) → (production_of g q).nullable ≡ none)
    → compute_nullable g ≡ some g'
    → (production_of g' p).nullable ≡ some r
    → DerivesEmpty g p × (has (rules_of g p) r ≡ true)
unfolding compute_nullable
compute_nullable-DerivesEmpty g g' p r unmarked run marked =
    let start : IsSound g g = record {
      same_rules = refl;
      same = λ q. refl;
      marks = λ q s found. absurd (cc (unmarked q, found));
    } in
    let n = length g.productions in
    let h = closure-IsSound g (suc n) (basis n 0 g) g' run (basis-IsSound g n 0 g start) in
    let (member, empty) = h.marks p r marked in (by_rule r member empty, member)
