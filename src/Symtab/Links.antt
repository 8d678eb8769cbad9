-- ===== src/Symtab/Links.antt =====
-- What an operation on scopes leaves as it is: all but the links `down`, `down_next` and the pool.
use dparser.Prelude.{
  ℕ, zero, suc, ◌<◌, ◌≡◌, refl, sym, ap, ◌∙◌, ◌⊎◌, inl, inr, List, [], ◌∷◌, ◌++◌, map, none, some,
  arith, length, set, get_elem?, get_or, Option-cases,
}
use dparser.Symtab.{Store, Scope, Sym, no_sym, scope_at, blank}
use dparser.Symtab.Scopes.{get_scope_pool, register_scope, attach, enter_scope}

abbrev pub core : Scope → Scope
core c = record c { down = none; down_next = none; pool = none }

module _ {A B : Type 0} (f : A → B) where
  pub get_elem?-map :
      (xs : List A) (i : ℕ) (x : A) → get_elem? xs i ≡ some x → get_elem? (map f xs) i ≡ some (f x)
  get_elem?-map [] i x e = absurd (cc e)
  get_elem?-map (y ∷ xs) zero x e = (let this : y ≡ x = cc e in ap (λ z. some (f z)) this)
  get_elem?-map (y ∷ xs) (suc i) x e = get_elem?-map xs i x e

  pub get_elem?-unmap :
      (xs : List A) (i : ℕ) (y : B)
      → get_elem? (map f xs) i ≡ some y
      → (x : A) × (get_elem? xs i ≡ some x) × (f x ≡ y)
  get_elem?-unmap [] i y e = absurd (cc e)
  get_elem?-unmap (x ∷ xs) zero y e = (x, refl, cc e)
  get_elem?-unmap (x ∷ xs) (suc i) y e = get_elem?-unmap xs i y e

  -- A write that the projection does not show.
  pub map-set :
      (xs : List A) (i : ℕ) (x v : A)
      → get_elem? xs i ≡ some x
      → f v ≡ f x
      → map f (set xs i v) ≡ map f xs
  map-set [] i x v e h = refl
  map-set (y ∷ xs) zero x v e h =
      (let this : y ≡ x = cc e in ap (λ z. z ∷ map f xs) (h ∙ sym (ap f this)))
  map-set (y ∷ xs) (suc i) x v e h = ap (λ q. f y ∷ q) (map-set xs i x v e h)

  pub map-concat : (xs : List A) (x : A) → map f (xs ++ x ∷ []) ≡ map f xs ++ f x ∷ []
  map-concat [] x = refl
  map-concat (y ∷ xs) x = ap (λ q. f y ∷ q) (map-concat xs x)

-- A symbol at the end of the store.
pub get_or-append :
    (xs : List Sym) (y : Sym) (i : ℕ)
    → i < length xs
    → get_or (xs ++ y ∷ []) i no_sym ≡ get_or xs i no_sym
get_or-append [] y i h = absurd (omega arith)
get_or-append (x ∷ xs) y zero h = refl
get_or-append (x ∷ xs) y (suc i) h = get_or-append xs y i (omega arith)

pub get_or-last : (xs : List Sym) (y : Sym) → get_or (xs ++ y ∷ []) (length xs) no_sym ≡ y
get_or-last [] y = refl
get_or-last (x ∷ xs) y = get_or-last xs y

module _ {A : Type 0} where
  pub get_elem?-concat :
      (xs : List A) (x y : A) (i : ℕ)
      → get_elem? (xs ++ x ∷ []) i ≡ some y
      → (get_elem? xs i ≡ some y) ⊎ ((i ≡ length xs) × (x ≡ y))
  get_elem?-concat [] x y zero e = inr (refl, cc)
  get_elem?-concat [] x y (suc i) e = absurd (cc e)
  get_elem?-concat (z ∷ xs) x y zero e = inl e
  get_elem?-concat (z ∷ xs) x y (suc i) e = elim (get_elem?-concat xs x y i e) [
    | inl old ↦ inl old
    | inr (last, same) ↦ inr (omega arith, same)
  ]

  pub get_elem?-last : (xs : List A) (x : A) → get_elem? (xs ++ x ∷ []) (length xs) ≡ some x
  get_elem?-last [] x = refl
  get_elem?-last (y ∷ xs) x = get_elem?-last xs x

  pub get_elem?-front :
      (xs : List A) (x y : A) (i : ℕ)
      → get_elem? xs i ≡ some y
      → get_elem? (xs ++ x ∷ []) i ≡ some y
  get_elem?-front [] x y i e = absurd (cc e)
  get_elem?-front (z ∷ xs) x y zero e = e
  get_elem?-front (z ∷ xs) x y (suc i) e = get_elem?-front xs x y i e

  pub get_elem?-within : (xs : List A) (x : A) (i : ℕ) → get_elem? xs i ≡ some x → i < length xs
  get_elem?-within [] x i e = absurd (cc e)
  get_elem?-within (y ∷ xs) x zero e = omega arith
  get_elem?-within (y ∷ xs) x (suc i) e = omega (arith, get_elem?-within xs x i e)

  pub get_elem?-some : (xs : List A) (i : ℕ) → i < length xs → (x : A) × (get_elem? xs i ≡ some x)
  get_elem?-some [] i h = absurd (omega arith)
  get_elem?-some (y ∷ xs) zero h = (y, refl)
  get_elem?-some (y ∷ xs) (suc i) h = get_elem?-some xs i (omega arith)

register_scope-core :
    (m : Store) (st : ℕ) → map core (register_scope m st).scopes ≡ map core m.scopes
unfolding register_scope
register_scope-core m st = elim (Option-cases (get_scope_pool m st)) [
  | inl nothing ↦ rw (nothing, register_scope) refl
  | inr (p, owner) ↦ elim (Option-cases (scope_at m p)) [
    | inl nowhere ↦ rw (owner, nowhere, register_scope) refl
    | inr (c, at) ↦ elim (Option-cases c.pool) [
      | inl empty ↦ rw (owner, at, empty, register_scope) refl
      | inr (scopes, pool) ↦
          rw (owner, at, pool, register_scope)
            (map-set core m.scopes p c (record c { pool = some (scopes ++ st ∷ []) }) at refl)
    ]
  ]
]

register_scope-syms : (m : Store) (st : ℕ) → (register_scope m st).syms ≡ m.syms
unfolding register_scope
register_scope-syms m st = elim (Option-cases (get_scope_pool m st)) [
  | inl nothing ↦ rw (nothing, register_scope) refl
  | inr (p, owner) ↦ elim (Option-cases (scope_at m p)) [
    | inl nowhere ↦ rw (owner, nowhere, register_scope) refl
    | inr (c, at) ↦ elim (Option-cases c.pool) [
      | inl empty ↦ rw (owner, at, empty, register_scope) refl
      | inr (scopes, pool) ↦ rw (owner, at, pool, register_scope) refl
    ]
  ]
]

attach-core :
    (m : Store) (a : ℕ) (p c : Scope)
    → scope_at m a ≡ some p
    → map core (attach m (some a) c).scopes ≡ map core m.scopes ++ core c ∷ []
unfolding attach
attach-core m a p c at =
    rw (at, attach)
      (map-concat core _ _ ∙ ap (λ q. q ++ core c ∷ []) (map-set core m.scopes a p _ at refl))

attach-syms :
    (m : Store) (a : ℕ) (c p : Scope) → scope_at m a ≡ some p → (attach m (some a) c).syms ≡ m.syms
unfolding attach
attach-syms m a c p at = rw (at, attach) refl

-- The store that `enter_scope` makes, from one that has both scopes.
pub record Entered (m m' : Store) (scope : Scope) (n current : ℕ) : Type 0 where
  pub syms : m'.syms ≡ m.syms
  pub scopes :
      map core m'.scopes
      ≡ map core m.scopes
        ++ record blank {
          depth = scope.depth;
          up = scope.up;
          kind = scope.kind;
          search = some n;
          up_updates = some current;
        }
          ∷ []

pub enter_scope-Entered :
    (m : Store) (current n : ℕ) (p c : Scope)
    → scope_at m current ≡ some p
    → scope_at m n ≡ some c
    → (m' : Store) × (enter_scope m current n ≡ some (m', length m.scopes))
      × Entered m m' c n current
unfolding enter_scope
enter_scope-Entered m current n p c at_current at =
    let new = record blank {
      depth = c.depth;
      up = c.up;
      kind = c.kind;
      search = some n;
      up_updates = some current;
    } in
    let m' = attach m (some current) new in
    (
      register_scope m' (length m.scopes),
      rw (at, enter_scope) refl,
      record {
        syms = register_scope-syms m' (length m.scopes) ∙ attach-syms m current new p at_current;
        scopes = register_scope-core m' (length m.scopes) ∙ attach-core m current p new at_current;
      },
    )
