-- ===== src/Symtab/Versions.antt =====
-- Which version of a symbol a scope sees: links go to older scopes, and an operation that only adds to
-- the store changes no version that an older scope sees.
pub mod Entered
pub mod Update
use dparser.Prelude.{
  ℕ, zero, suc, ◌+◌, ◌≤◌, ◌<◌, ◌≡◌, refl, sym, ap, ◌∙◌, ◌⊎◌, inl, inr, Bool, true, false, ◌&&◌,
  List, [], ◌∷◌, ◌++◌, map, Option, none, some, arith, ltb, ◌==◌, ==_iff, if◌then◌else◌, length,
  get_elem?, get_or, Bool-cases, Option-cases,
}
use dparser.Symtab.{Store, Scope, Sym, scope_at, sym_at, no_sym}
use dparser.Symtab.Scopes.{same_scope}
use dparser.Symtab.Symbols.{base_of, update_in, current_from, current_sym}
use dparser.Symtab.Links.{core, get_elem?-some, get_elem?-within}

abbrev pub all_below : ℕ → List ℕ → Bool
all_below n [] = true
all_below n (x ∷ xs) = ltb x n && all_below n xs

-- Links go to older scopes, updates are symbols of the store, and the symbol of which a symbol is an
-- update is no update itself.
pub record IsValid (m : Store) : Type 0 where
  pub before : (i j : ℕ) (c : Scope) → scope_at m i ≡ some c → c.up_updates ≡ some j → j < i
  pub updates :
      (i : ℕ) (c : Scope) → scope_at m i ≡ some c → all_below (length m.syms) c.updates ≡ true
  pub rooted :
      (s : ℕ)
      → s < length m.syms
      → (base_of m s < length m.syms) × ((sym_at m (base_of m s)).update_of ≡ none)

-- The scopes and symbols of `m` are in `m'` as they were.
pub record Extends (m m' : Store) : Type 0 where
  pub scopes :
      (i : ℕ) (c : Scope)
      → scope_at m i ≡ some c
      → (c' : Scope) × (scope_at m' i ≡ some c') × (core c' ≡ core c)
  pub symbols : (s : ℕ) → s < length m.syms → sym_at m' s ≡ sym_at m s

Extends-refl : (m : Store) → Extends m m
Extends-refl m = record { scopes = λ i c at. (c, at, refl); symbols = λ s h. refl }

module _ (m m' : Store) (h : IsValid m) (k : Extends m m') where
  update_in-Extends :
      (s : ℕ) (updates : List ℕ)
      → all_below (length m.syms) updates ≡ true
      → update_in m' s updates ≡ update_in m s updates
  unfolding update_in
  update_in-Extends s [] below = refl
  update_in-Extends s (u ∷ updates) below =
      rw (k.symbols u (ground arith), update_in-Extends s updates (ground arith)) refl

  -- An update that is found is of the symbol.
  update_in-base :
      (s u : ℕ) (updates : List ℕ)
      → all_below (length m.syms) updates ≡ true
      → update_in m s updates ≡ some u
      → (u < length m.syms) × (base_of m u ≡ s)
  unfolding update_in
  update_in-base s u [] below e = absurd (cc e)
  update_in-base s u (x ∷ updates) below e = elim (Option-cases (sym_at m x).update_of) [
    | inl no_update ↦ update_in-base s u updates (ground arith) (rw (no_update, update_in) at e)
    | inr (b, update) ↦ elim (Bool-cases (b == s)) [
      | inr other ↦ update_in-base s u updates (ground arith) (rw (update, other, update_in) at e)
      | inl hit ↦
          let found : some x ≡ some u = rw (update, hit, update_in) at e in
          let this : x ≡ u = cc found in
          let below_x : x < length m.syms = ground arith in
          let base : base_of m x ≡ s = rw (update, base_of) ((==_iff b s).0 hit) in
          (rw this at below_x, rw this at base)
    ]
  ]

  -- The version that a scope sees, in both stores, for any fuel beyond the number of the scope.
  pub current_from-Extends :
      (f f' i s : ℕ)
      → i < f
      → i < f'
      → i < length m.scopes
      → s < length m.syms
      → (sym_at m s).update_of ≡ none
      → (v : ℕ) × (current_from f m (some i) s ≡ some v)
        × (current_from f' m' (some i) s ≡ some v)
        × (v < length m.syms)
        × (base_of m v ≡ s)
  unfolding current_from
  current_from-Extends zero f' i s p q r below root = absurd (omega arith)
  current_from-Extends (suc f) zero i s p q r below root = absurd (omega arith)
  current_from-Extends (suc f) (suc f') i s p q r below root =
      let (c, at) = get_elem?-some m.scopes i r in
      let (c', at', same) = k.scopes i c at in
      let updates : c'.updates ≡ c.updates = ap (λ (x : Scope). x.updates) same in
      let up : c'.up_updates ≡ c.up_updates = ap (λ (x : Scope). x.up_updates) same in
      let all = h.updates i c at in
      let search : update_in m' s c'.updates ≡ update_in m s c.updates =
        ap (update_in m' s) updates ∙ update_in-Extends s c.updates all in
      elim (Option-cases (update_in m s c.updates)) [
        | inr (u, found) ↦
            let (below_u, base) = update_in-base s u c.updates all found in
            let found' : update_in m' s c'.updates ≡ some u = search ∙ found in
            (
              u,
              rw (at, found, current_from) refl,
              rw (at', found', current_from) refl,
              below_u,
              base,
            )
        | inl absent ↦
            let absent' : update_in m' s c'.updates ≡ none = search ∙ absent in
            elim (Option-cases c.up_updates) [
              | inl end ↦
                  let end' : c'.up_updates ≡ none = up ∙ end in
                  (
                    s,
                    rw (at, absent, end, current_from) refl,
                    rw (at', absent', end', current_from) refl,
                    below,
                    rw (root, base_of) refl,
                  )
              | inr (j, next) ↦
                  let next' : c'.up_updates ≡ some j = up ∙ next in
                  let older : j < i = h.before i j c at next in
                  let (v, e, e', below_v, base) =
                    current_from-Extends f f' j s (omega arith) (omega arith) (omega arith) below
                      root in
                  (
                    v,
                    rw (at, absent, next, current_from) e,
                    rw (at', absent', next', current_from) e',
                    below_v,
                    base,
                  )
            ]
      ]

  base_of-Extends : (s : ℕ) → s < length m.syms → base_of m' s ≡ base_of m s
  base_of-Extends s below = rw (k.symbols s below, base_of) refl

  -- In a valid store a scope sees the same version of each symbol before and after.
  pub current_sym-Extends :
      (i s : ℕ)
      → i < length m.scopes
      → s < length m.syms
      → length m.scopes ≤ length m'.scopes
      → current_sym m' (some i) s ≡ current_sym m (some i) s
  unfolding current_sym
  current_sym-Extends i s r below grown =
      let (below_b, root) = h.rooted s below in
      let (v, e, e', below_v, base) =
        current_from-Extends (length m.scopes) (length m'.scopes) i (base_of m s) r (omega arith) r
          below_b root in
      ap (current_from (length m'.scopes) m' (some i)) (base_of-Extends s below) ∙ e' ∙ sym e
