-- ===== src/Symtab/Versions/Entered.antt =====
-- The store after `enter_D_Scope`: the older scopes and the new one.
use dparser.Prelude.{
  ℕ, suc, ◌<◌, ◌≡◌, refl, sym, ap, ◌∙◌, ◌⊎◌, inl, inr, [], ◌∷◌, ◌++◌, map, some, arith, length,
  get_elem?, length-append, length-map,
}
use dparser.Symtab.{Store, Scope, scope_at}
use dparser.Symtab.Links.{
  core, Entered, get_elem?-map, get_elem?-unmap, get_elem?-concat, get_elem?-last, get_elem?-front,
}
use dparser.Symtab.Versions.{IsValid, Extends}

-- The scope `c` of a store that `enter_scope` made is an older one or the new one.
module _ (m m' : Store) (scope : Scope) (n current : ℕ) (e : Entered m m' scope n current) where
  pub length-entered : length m'.scopes ≡ suc (length m.scopes)
  length-entered =
      sym (length-map m'.scopes core)
      ∙ ap length e.scopes
      ∙ length-append (map core m.scopes) _
      ∙ omega (arith, length-map m.scopes core)

  kept_scope :
      (i : ℕ) (c : Scope)
      → scope_at m i ≡ some c
      → (c' : Scope) × (scope_at m' i ≡ some c') × (core c' ≡ core c)
  kept_scope i c at = get_elem?-unmap core m'.scopes i (core c) (
      ap (λ q. get_elem? q i) e.scopes
      ∙ get_elem?-front (map core m.scopes) _ (core c) i (get_elem?-map core m.scopes i c at))

  pub entered-Extends : Extends m m'
  entered-Extends = record { scopes = kept_scope; symbols = λ s h. rw e.syms refl }

  pub new_scope_at :
      (c : Scope) × (scope_at m' (length m.scopes) ≡ some c)
      × (c.updates ≡ [])
      × (c.up_updates ≡ some current)
  new_scope_at =
      let (c, at, same) = get_elem?-unmap core m'.scopes (length m.scopes) _ (
        ap (λ q. get_elem? q (length m.scopes)) e.scopes
        ∙ ap (get_elem? (map core m.scopes ++ _ ∷ [])) (sym (length-map m.scopes core))
        ∙ get_elem?-last (map core m.scopes) _) in
      (c, at, ap (λ (x : Scope). x.updates) same, ap (λ (x : Scope). x.up_updates) same)

  entered-cases :
      (i : ℕ) (c' : Scope)
      → scope_at m' i ≡ some c'
      → ((c : Scope) × (scope_at m i ≡ some c) × (core c' ≡ core c))
        ⊎ ((i ≡ length m.scopes) × (c'.updates ≡ []) × (c'.up_updates ≡ some current))
  entered-cases i c' at =
      elim (get_elem?-concat (map core m.scopes) _ (core c') i
        (ap (λ q. get_elem? q i) (sym e.scopes) ∙ get_elem?-map core m'.scopes i c' at)) [
          | inl old ↦
              let (c, at_old, same) = get_elem?-unmap core m.scopes i (core c') old in
              inl (c, at_old, sym same)
          | inr (last, same) ↦ inr (
            last ∙ length-map m.scopes core,
            ap (λ (x : Scope). x.updates) (sym same),
            ap (λ (x : Scope). x.up_updates) (sym same),
          )
        ]

  pub entered-IsValid : current < length m.scopes → IsValid m → IsValid m'
  entered-IsValid inside h = record {
    before = λ i j c' at next. elim (entered-cases i c' at) [
      | inl (c, old, same) ↦ h.before i j c old (sym (ap (λ (x : Scope). x.up_updates) same) ∙ next)
      | inr (last, updates, up) ↦
          (let this : some current ≡ some j = sym up ∙ next in
            let eq : current ≡ j = cc this in omega arith)
    ];
    updates = λ i c' at. elim (entered-cases i c' at) [
      | inl (c, old, same) ↦ rw (e.syms, ap (λ (x : Scope). x.updates) same) (h.updates i c old)
      | inr (last, updates, up) ↦ rw updates refl
    ];
    rooted = λ s below. rw e.syms (h.rooted s (rw e.syms at below));
  }
