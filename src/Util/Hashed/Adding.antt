-- ===== src/Util/Hashed/Adding.antt =====
-- What `set_add_fn` does to a table, growth included: it finds an equal element or adds the one that is given, or it
-- runs off the table of primes. It does not run out of its fuel.
use dparser.Prelude.{
  ℕ, zero, suc, ◌+◌, ◌%◌, ◌^◌, ◌≤◌, ◌<◌, ◌≡◌, refl, sym, ◌∙◌, inl, inr, true, false, List, [], ◌∷◌,
  Option, none, some, arith, ◌==◌, if◌then◌else◌, length, set, get_elem?, replicate, Bool-cases,
  Option-cases, length-set, length-replicate,
}
use mathlib.Core.Path.{subst}
use dparser.Util.Set.{Outcome, d_prime2}
use dparser.Util.Set.Total.{prime_lem}
use dparser.Util.Hashed.{
  HashFns, FnTable, FnProbe, free, found, full, probe_fn, lookup_fn, enlarge_fn, set_union_fn,
  set_add_fn_fuel, set_add_fn,
}
use dparser.Util.Hashed.Probing.{
  Sits, Sits-set, Sits-kept, get_or-set_same, Sits-of_found, free_slot, found_of_free_fn,
  found-set_fn, probe-same,
}
use dparser.Util.Hashed.Laws.{
  IsHash, level, IsValid, Follows, Follows->>=, Follows-weaken, Probe-cases, Adds, Crowded, With,
  Crowded-weaken, last-Crowded,
}

module _ {A : Type 0} (fns : HashFns A) where
  module _ (laws : IsHash fns) where
    same_as : (t u : A) → fns.same t u ≡ true → (y : A) → fns.same y t ≡ fns.same y u
    same_as t u e y = elim (Bool-cases (fns.same y t)) [
      | inl here ↦ here ∙ sym (laws.transitive y t u here e)
      | inr other ↦ elim (Bool-cases (fns.same y u)) [
        | inr apart ↦ other ∙ sym apart
        | inl there ↦ absurd (cc (laws.transitive y u t there (laws.symmetric t u e), other))
      ]
    ]

    lookup-same :
        (s : FnTable A) (t u : A) → fns.same t u ≡ true → lookup_fn fns s t ≡ lookup_fn fns s u
    unfolding lookup_fn
    lookup-same s t u e = elim (Bool-cases (s.n == 0)) [
      | inl none_yet ↦ rw none_yet refl
      | inr allocated ↦
          rw (allocated, laws.congruent t u e) (probe-same fns 5 s.v s.n t u _ (same_as t u e))
    ]

    -- Equal elements of a table are one.
    pub only_one :
        (s : FnTable A) (x y : A)
        → IsValid fns s
        → Sits s.v x
        → Sits s.v y
        → fns.same x y ≡ true
        → x ≡ y
    only_one s x y h at at' e = cc (h.placed x at, h.placed y at', lookup-same s x y e)

    lookup-open :
        (s : FnTable A) (t : A) (p : FnProbe A)
        → lookup_fn fns s t ≡ p
        → (p ≡ full → ⊥)
        → ((s.n == 0) ≡ false) × (probe_fn fns 5 s.v s.n t (fns.hash_fn t % 2 ^ 32 % s.n) ≡ p)
    unfolding lookup_fn
    lookup-open s t p e ends = elim (Bool-cases (s.n == 0)) [
      | inl none_yet ↦ absurd (ends (sym e ∙ rw none_yet refl))
      | inr allocated ↦ (allocated, rw allocated at e)
    ]

    lookup-probe :
        (n i : ℕ) (v : List (Option A)) (t : A)
        → (n == 0) ≡ false
        → lookup_fn fns (record { n = n; i = i; v = v }) t
          ≡ probe_fn fns 5 v n t (fns.hash_fn t % 2 ^ 32 % n)
    unfolding lookup_fn
    lookup-probe n i v t e = rw e refl

    place-Adds :
        (s : FnTable A) (t : A) (j : ℕ)
        → IsValid fns s
        → lookup_fn fns s t ≡ free j
        → Adds fns s t (record s { v = set s.v j (some t) }, t)
    place-Adds s t j h e =
        let (allocated, at_home) = lookup-open s t (free j) e (λ q. cc q) in
        let (in_range, empty) = free_slot fns 5 s.v s.n t _ j at_home in
        let room : j < length s.v = omega (arith, h.sized) in
        let again : lookup_fn fns (record s { v = set s.v j (some t) }) t ≡ found t =
          lookup-probe s.n s.i (set s.v j (some t)) t allocated
          ∙ found_of_free_fn fns 5 s.v s.n t _ j h.sized (laws.reflexive t) at_home in
        record {
          valid = record {
            sized = length-set s.v j (some t) ∙ h.sized;
            small = h.small;
            placed = λ x at. elim (Sits-set s.v j t x room at) [
              | inl old ↦
                  lookup-probe s.n s.i (set s.v j (some t)) x allocated
                  ∙ found-set_fn fns 5 s.v s.n x x t _ j empty
                      ((lookup-open s x (found x) (h.placed x old) (λ q. cc q)).1)
              | inr new ↦
                  subst (λ q. lookup_fn fns (record s { v = set s.v j (some t) }) q ≡ found q)
                    (sym new) again
            ];
          };
          larger = omega arith;
          members = λ x at. Sits-set s.v j t x room at;
          kept = λ x at. Sits-kept s.v j t x empty at;
          got = (j, get_or-set_same s.v j (some t) room);
          equal = laws.reflexive t;
        }

    old-Adds :
        (s : FnTable A) (t y : A)
        → IsValid fns s
        → lookup_fn fns s t ≡ found y
        → Adds fns s t (s, y)
    old-Adds s t y h e =
        let (_, at_home) = lookup-open s t (found y) e (λ q. cc q) in
        let (sits, equal) = Sits-of_found fns 5 s.v s.n t _ y at_home in
        record {
          valid = h;
          larger = omega arith;
          members = λ x at. inl at;
          kept = λ x at. at;
          got = sits;
          equal = equal;
        }

    nothing-Sits : (n : ℕ) (x : A) → Sits (replicate n none) x → ⊥
    nothing-Sits zero x (j, e) = cc e
    nothing-Sits (suc n) x (zero, e) = cc e
    nothing-Sits (suc n) x (suc j, e) = nothing-Sits n x (j, e)

    pub enlarge-IsValid :
        (s fresh : FnTable A)
        → enlarge_fn s ≡ some fresh
        → IsValid fns fresh × (level fresh ≡ suc (level s)) × ((x : A) → Sits fresh.v x → ⊥)
    unfolding enlarge_fn
    enlarge-IsValid s fresh e =
        let blank : fresh.v ≡ replicate fresh.n none = ground arith in
        let size : get_elem? d_prime2 fresh.i ≡ some fresh.n = ground arith in
        let index : fresh.i ≡ (if s.n == 0 then 2 else s.i + 1) = ground arith in
        let (in_table, pos) = prime_lem fresh.i fresh.n size in
        let nobody = λ (x : A) (at : Sits fresh.v x).
          nothing-Sits fresh.n x (subst (λ v. Sits v x) blank at) in
        (
          record {
            sized = rw blank (length-replicate fresh.n none);
            small = ground arith;
            placed = λ x at. absurd (nobody x at);
          },
          ground arith,
          nobody,
        )

    -- What the calls in the loop of `set_union_fn` promise.
    abbrev AddsOne : ℕ → (FnTable A → A → Outcome (FnTable A × A)) → Type 0
    AddsOne fuel add =
        (s : FnTable A) (t : A)
        → IsValid fns s
        → 30 ≤ fuel + level s
        → Follows (Crowded fns (With fns s t)) (Adds fns s t) (add s t)

    -- The elements of `old` that are already in `s`, and those in the slots `ts`.
    record Moved (old : List (Option A)) (s : FnTable A) (ts : List (Option A)) (r : FnTable A)
        : Type 0 where
      valid : IsValid fns r
      larger : level s ≤ level r
      inside : (x : A) → Sits r.v x → Sits old x
      kept : (x : A) → Sits s.v x → Sits r.v x
      moved : (x : A) → Sits ts x → Sits r.v x

    union-Moved :
        (fuel : ℕ) (add : FnTable A → A → Outcome (FnTable A × A)) (old : List (Option A))
        (s : FnTable A) (ts : List (Option A))
        → AddsOne fuel add
        → ((x y : A) → Sits old x → Sits old y → fns.same x y ≡ true → x ≡ y)
        → IsValid fns s
        → 30 ≤ fuel + level s
        → ((x : A) → Sits s.v x → Sits old x)
        → ((x : A) → Sits ts x → Sits old x)
        → Follows (Crowded fns (Sits old)) (Moved old s ts) (set_union_fn add s ts)
    unfolding set_union_fn
    union-Moved fuel add old s [] adds once h enough inside sub = record {
      valid = h;
      larger = omega arith;
      inside = inside;
      kept = λ x at. at;
      moved = λ x (j, e). absurd (cc e);
    }
    union-Moved fuel add old s (none ∷ ts) adds once h enough inside sub =
        Follows-weaken (Crowded fns (Sits old)) (Crowded fns (Sits old)) (Moved old s ts) _ _
          (union-Moved fuel add old s ts adds once h enough inside (λ x (j, e). sub x (suc j, e)))
          (λ c. c)
          (λ r m. record {
            valid = m.valid;
            larger = m.larger;
            inside = m.inside;
            kept = m.kept;
            moved = skip r m;
          })
      where
        skip : (r : FnTable A) → Moved old s ts r → (x : A) → Sits (none ∷ ts) x → Sits r.v x
        skip r m x (zero, e) = absurd (cc e)
        skip r m x (suc j, e) = m.moved x (j, e)
    union-Moved fuel add old s (some t ∷ ts) adds once h enough inside sub =
        Follows->>= (Crowded fns (With fns s t)) (Crowded fns (Sits old)) (Adds fns s t)
          (Moved old s (some t ∷ ts)) (add s t) _ (adds s t h enough)
          (Crowded-weaken fns (With fns s t) (Sits old) among)
          (λ r a.
            let all_inside = from_old r a in
            Follows-weaken (Crowded fns (Sits old)) (Crowded fns (Sits old)) (Moved old r.0 ts) _ _
              (union-Moved fuel add old r.0 ts adds once a.valid (omega (arith, a.larger))
                all_inside (λ x (j, e). sub x (suc j, e)))
              (λ c. c)
              (λ q m. record {
                valid = m.valid;
                larger = omega (arith, a.larger, m.larger);
                inside = m.inside;
                kept = λ x at. m.kept x (a.kept x at);
                moved = each r a q m;
              }))
      where
        among : (x : A) → With fns s t x → Sits old x
        among x (inl before) = inside x before
        among x (inr new) = subst (Sits old) (sym new) (sub t (0, refl))

        from_old : (r : FnTable A × A) → Adds fns s t r → (x : A) → Sits r.0.v x → Sits old x
        from_old r a x at = elim (a.members x at) [
          | inl before ↦ inside x before
          | inr new ↦ subst (Sits old) (sym new) (sub t (0, refl))
        ]

        each :
            (r : FnTable A × A)
            → Adds fns s t r
            → (q : FnTable A) → Moved old r.0 ts q
            → (x : A) → Sits (some t ∷ ts) x
            → Sits q.v x
        each r a q m x (zero, e) =
            let this : t ≡ x = cc e in
            let same : r.1 ≡ t = once r.1 t (from_old r a r.1 a.got) (sub t (0, refl)) a.equal in
            m.kept x (subst (Sits r.0.v) (same ∙ this) a.got)
        each r a q m x (suc j, e) = m.moved x (j, e)

    set_add_fn_fuel-Adds : (fuel : ℕ) → AddsOne fuel (set_add_fn_fuel fns fuel)
    unfolding set_add_fn_fuel
    set_add_fn_fuel-Adds zero s t h enough = absurd (omega (arith, h.small))
    set_add_fn_fuel-Adds (suc fuel) s t h enough = elim (Probe-cases (lookup_fn fns s t)) [
      | inl (j, at) ↦ rw (at, set_add_fn_fuel) (place-Adds s t j h at)
      | inr (inl (y, at)) ↦ rw (at, set_add_fn_fuel) (old-Adds s t y h at)
      | inr (inr at) ↦ elim (Option-cases (enlarge_fn s)) [
        | inl last ↦ rw (at, last, set_add_fn_fuel) (last-Crowded fns s t h at last)
        | inr (fresh, bigger) ↦
            let (clean, next, nobody) = enlarge-IsValid s fresh bigger in
            rw (at, bigger, set_add_fn_fuel)
              (Follows->>= (Crowded fns (Sits s.v)) (Crowded fns (With fns s t))
                (Moved s.v fresh s.v) (Adds fns s t) _ _
                (union-Moved fuel (set_add_fn_fuel fns fuel) s.v fresh s.v
                  (set_add_fn_fuel-Adds fuel) (λ x y. only_one s x y h) clean (omega (arith, next))
                  (λ x held. absurd (nobody x held)) (λ x held. held))
                (Crowded-weaken fns (Sits s.v) (With fns s t) (λ x held. inl held))
                (λ q m.
                  Follows-weaken (Crowded fns (With fns q t)) (Crowded fns (With fns s t))
                    (Adds fns q t) (Adds fns s t) _
                    (set_add_fn_fuel-Adds fuel q t m.valid (omega (arith, next, m.larger)))
                    (Crowded-weaken fns (With fns q t) (With fns s t)
                      (λ x w. elim w [ inl there ↦ inl (m.inside x there) | inr new ↦ inr new ]))
                    (λ r a. record {
                      valid = a.valid;
                      larger = omega (arith, next, m.larger, a.larger);
                      members = λ x held. elim (a.members x held) [
                        | inl there ↦ inl (m.inside x there)
                        | inr new ↦ inr new
                      ];
                      kept = λ x held. a.kept x (m.moved x held);
                      got = a.got;
                      equal = a.equal;
                    })))
      ]
    ]

    pub set_add_fn-Adds :
        (s : FnTable A) (t : A)
        → IsValid fns s
        → Follows (Crowded fns (With fns s t)) (Adds fns s t) (set_add_fn fns s t)
    unfolding set_add_fn
    set_add_fn-Adds s t h = set_add_fn_fuel-Adds 30 s t h (omega arith)
