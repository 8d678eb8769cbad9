-- ===== src/Symtab/Versions/Update.antt =====
-- `update_D_Sym` makes a version that the new scope sees, and no other scope does.
use mathlib.Core.Path.{subst}
use dparser.Prelude.{
  ℕ, zero, suc, ◌≤◌, ◌<◌, ◌≡◌, refl, sym, ap, ◌∙◌, ◌⊎◌, inl, inr, true, List, [], ◌∷◌, ◌++◌, none,
  some, arith, ltb, ◌==◌, ==_iff, length, get_elem?-set_self, get_elem?-set_ne, length-append,
  length-set, Bool-cases,
}
use dparser.Symtab.{Store, Scope, Sym, scope_at, sym_at, set_scope}
use dparser.Symtab.Symbols.{
  base_of, update_in, current_from, current_sym, update_additional, update_sym,
}
use dparser.Symtab.Links.{
  get_or-append, get_or-last, enter_scope-Entered, get_elem?-some, get_elem?-within,
}
use dparser.Symtab.Versions.{IsValid, all_below, current_from-Extends, current_sym-Extends}
use dparser.Symtab.Versions.Entered.{length-entered, entered-Extends, new_scope_at, entered-IsValid}

all_below_weaken : (n k : ℕ) (xs : List ℕ) → n ≤ k → all_below n xs ≡ true → all_below k xs ≡ true
all_below_weaken n k [] le h = refl
all_below_weaken n k (x ∷ xs) le h = ground (arith, all_below_weaken n k xs)

current_from_first :
    (f : ℕ) (m : Store) (st s u : ℕ) (c : Scope)
    → 0 < f
    → scope_at m st ≡ some c
    → update_in m s c.updates ≡ some u
    → current_from f m (some st) s ≡ some u
unfolding current_from
current_from_first zero m st s u c p at found = absurd (omega arith)
current_from_first (suc f) m st s u c p at found = rw (at, found, current_from) refl

-- The store after `update_additional_D_Sym` for the symbol of which `b` is the root.
module _ (m : Store) (st b : ℕ) (c : Scope) (y : Sym) (at : scope_at m st ≡ some c)
    (version : y.update_of ≡ some b) where
  abbrev updated : Store
  updated =
      set_scope (record m { syms = m.syms ++ y ∷ [] }) st
        (record c { updates = length m.syms ∷ c.updates })

  updated_symbols : (s : ℕ) → s < length m.syms → sym_at updated s ≡ sym_at m s
  updated_symbols s below = get_or-append m.syms y s below

  updated_base : (s : ℕ) → s < length m.syms → base_of updated s ≡ base_of m s
  updated_base s below = rw (updated_symbols s below, base_of) refl

  updated-scope :
      (i : ℕ) (d : Scope)
      → scope_at updated i ≡ some d
      → (scope_at m i ≡ some d)
        ⊎ ((i ≡ st) × (d ≡ record c { updates = length m.syms ∷ c.updates }))
  updated-scope i d e = elim (Bool-cases (st == i)) [
    | inr other ↦ inl (sym (get_elem?-set_ne m.scopes _ (λ q. ground (arith, q))) ∙ e)
    | inl self ↦
        let here : st ≡ i = (==_iff st i).0 self in
        let there : scope_at updated i ≡ some (record c { updates = length m.syms ∷ c.updates }) =
          subst (λ n. scope_at updated n ≡ some (record c { updates = length m.syms ∷ c.updates }))
            here
            (get_elem?-set_self m.scopes st (record c { updates = length m.syms ∷ c.updates })
              (get_elem?-within m.scopes c st at)) in
        inr (sym here, cc (there, e))
  ]

  updated-IsValid : b < length m.syms → (sym_at m b).update_of ≡ none → IsValid m → IsValid updated
  updated-IsValid below root h = record {
    before = λ i j d e next. elim (updated-scope i d e) [
      | inl old ↦ h.before i j d old next
      | inr (here, this) ↦
          rw (← here) at (h.before st j c at (sym (ap (λ (x : Scope). x.up_updates) this) ∙ next))
    ];
    updates = λ i d e. elim (updated-scope i d e) [
      | inl old ↦
          all_below_weaken (length m.syms) (length updated.syms) d.updates
            (omega (arith, length-append m.syms (y ∷ []))) (h.updates i d old)
      | inr (here, this) ↦ rw (ap (λ (x : Scope). x.updates) this) (
          ground (
            arith,
            length-append m.syms (y ∷ []),
            all_below_weaken (length m.syms) (length updated.syms) c.updates
                (omega (arith, length-append m.syms (y ∷ []))) (h.updates st c at),
          ))
    ];
    rooted = λ s inside. elim (Bool-cases (ltb s (length m.syms))) [
      | inl old ↦
          let (below_base, root_base) = h.rooted s (ground arith) in
          rw (updated_base s (ground arith)) (
            omega (arith, length-append m.syms (y ∷ []), below_base),
            ap (λ (x : Sym). x.update_of) (updated_symbols (base_of m s) below_base) ∙ root_base,
          )
      | inr new ↦
          let last : s ≡ length m.syms = ground (arith, length-append m.syms (y ∷ []), inside) in
          let base : base_of updated s ≡ b =
            rw (last, get_or-last m.syms y, base_of) (rw version refl) in
          rw base (
            omega (arith, length-append m.syms (y ∷ []), below),
            ap (λ (x : Sym). x.update_of) (updated_symbols b below) ∙ root,
          )
    ];
  }

  updated_current :
      (s : ℕ)
      → s < length m.syms
      → base_of m s ≡ b
      → current_sym updated (some st) s ≡ some (length m.syms)
  unfolding current_sym update_in
  updated_current s below base =
      let here =
        get_elem?-set_self m.scopes st (record c { updates = length m.syms ∷ c.updates })
          (get_elem?-within m.scopes c st at) in
      rw (updated_base s below, base)
        (current_from_first (length updated.scopes) updated st b (length m.syms) _
          (omega (
            arith,
            length-set m.scopes st (record c { updates = length m.syms ∷ c.updates }),
            get_elem?-within m.scopes c st at,
          ))
          here (rw (get_or-last m.syms y, version, update_in) (ground arith)))

base_same : (m m' : Store) (s : ℕ) → m'.syms ≡ m.syms → base_of m' s ≡ base_of m s
base_same m m' s e = rw (e, base_of) refl

-- A scope without updates sees what the scope of its link sees.
current_entered :
    (m m' : Store) (p : Scope) (pst st s v : ℕ) (c : Scope)
    → scope_at m' st ≡ some c
    → c.updates ≡ []
    → c.up_updates ≡ some pst
    → length m'.scopes ≡ suc (length m.scopes)
    → m'.syms ≡ m.syms
    → current_from (length m.scopes) m' (some pst) (base_of m s) ≡ some v
    → current_sym m' (some st) s ≡ some v
unfolding current_sym update_in current_from
current_entered m m' p pst st s v c at no_updates up size same seen =
    let nothing : update_in m' (base_of m s) c.updates ≡ none = rw no_updates refl in
    rw (base_same m m' s same, size) (rw (at, nothing, up, current_from) seen)

-- The new version is seen from the new scope, and each older scope sees of each older symbol what it
-- saw.
pub record Versioned (m : Store) (s : ℕ) (m' : Store) (u st : ℕ) : Type 0 where
  pub valid : IsValid m'
  pub seen : current_sym m' (some st) s ≡ some u
  pub fresh : (u ≡ length m.syms) × (st ≡ length m.scopes)
  pub others :
      (i t : ℕ)
      → i < length m.scopes
      → t < length m.syms
      → current_sym m' (some i) t ≡ current_sym m (some i) t

-- In a valid store, `update_D_Sym` of a symbol from a scope of the store returns a version and a new
-- scope: the store stays valid, the new scope sees the version, and every older scope sees of every
-- older symbol the version that it saw before.
pub update_sym-Versioned :
    (m : Store) (s pst : ℕ)
    → IsValid m
    → s < length m.syms
    → pst < length m.scopes
    → (r : Store × (ℕ × ℕ)) × (update_sym m s pst ≡ some r) × Versioned m s r.0 r.1.0 r.1.1
unfolding update_sym update_additional
update_sym-Versioned m s pst h below inside =
    let (p, at_pst) = get_elem?-some m.scopes pst inside in
    let (m1, entered, e) = enter_scope-Entered m pst pst p p at_pst at_pst in
    let st = length m.scopes in
    let b = base_of m s in
    let h1 = entered-IsValid m m1 p pst pst e inside h in
    let x1 = entered-Extends m m1 p pst pst e in
    let (c, at, no_updates, up) = new_scope_at m m1 p pst pst e in
    let (below_b, root) = h.rooted s below in
    let size = length-entered m m1 p pst pst e in
    let n1 : length m1.syms ≡ length m.syms = rw e.syms refl in
    let (v, seen, seen', below_v, base_v) =
      current_from-Extends m m1 h x1 (length m.scopes) (length m.scopes) pst b inside inside inside
        below_b root in
    let current : current_sym m1 (some st) s ≡ some v =
      current_entered m m1 p pst st s v c at no_updates up size e.syms seen' in
    let y = record (sym_at m1 v) { update_of = some (base_of m1 v) } in
    let base1 : base_of m1 v ≡ b = base_same m m1 v e.syms ∙ base_v in
    let version : y.update_of ≡ some b = ap some base1 in
    let m2 = updated m1 st b c y at version in
    let root1 : (sym_at m1 b).update_of ≡ none = rw e.syms root in
    let h2 = updated-IsValid m1 st b c y at version (omega arith) root1 h1 in
    (
      (m2, (length m1.syms, st)),
      rw (entered, update_sym) (rw (current, at, update_additional) refl),
      record {
        valid = h2;
        seen = updated_current m1 st b c y at version s (omega arith) (base_same m m1 s e.syms);
        fresh = (n1, refl);
        others = λ i t older old.
            current_sym-Extends m m2 h
              (record {
                scopes = λ j d at_j.
                    (let (d', at', same) = x1.scopes j d at_j in
                      (
                        d',
                        get_elem?-set_ne m1.scopes _
                              (λ q. omega (arith, q, get_elem?-within m.scopes d j at_j))
                            ∙ at',
                        same,
                      ));
                symbols = λ j under.
                    updated_symbols m1 st b c y at version j (omega arith) ∙ x1.symbols j under;
              })
              i t older old
              (omega (
                arith,
                length-set m1.scopes st (record c { updates = length m1.syms ∷ c.updates }),
              ));
      },
    )
