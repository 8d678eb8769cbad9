-- ===== src/Util/Hashed/Laws.antt =====
-- What is valid of a table of `set_add_fn`, what a call adds to it, and when it runs off the table of primes.
use dparser.Prelude.{
  ℕ, zero, suc, ◌+◌, ◌%◌, ◌^◌, ◌≤◌, ◌<◌, ◌≡◌, refl, ◌⊎◌, inl, inr, true, false, List, [], ◌∷◌, none,
  some, arith, ◌==◌, if◌then◌else◌, length, get_or, get_elem?, Bool-cases,
}
use native.Mathlib.Nat.{mod-lt}
use dparser.Util.Set.{Outcome, ok, exhausted, out_of_fuel, ◌>>=◌, d_prime2}
use dparser.Util.Hashed.{
  HashFns, FnTable, FnProbe, free, found, full, cleared, lookup_fn, enlarge_fn,
}
use dparser.Util.Hashed.Probing.{Sits, slot_behind, full_slots}

-- The comparison is an equivalence, and equal elements have the same hash.
pub record IsHash {A : Type 0} (fns : HashFns A) : Type 0 where
  pub reflexive : (a : A) → fns.same a a ≡ true
  pub symmetric : (a b : A) → fns.same a b ≡ true → fns.same b a ≡ true
  pub transitive : (a b c : A) → fns.same a b ≡ true → fns.same b c ≡ true → fns.same a c ≡ true
  pub congruent : (a b : A) → fns.same a b ≡ true → fns.hash_fn a ≡ fns.hash_fn b

-- The place of the size in `d_prime2`, where a cleared table stands before the first size.
abbrev pub level : {A : Type 0} → FnTable A → ℕ
level s = if s.n == 0 then 1 else s.i

-- The table has the size that it says, and each element in it is found by probing.
pub record IsValid {A : Type 0} (fns : HashFns A) (s : FnTable A) : Type 0 where
  pub sized : length s.v ≡ s.n
  pub small : level s < 29
  pub placed : (x : A) → Sits s.v x → lookup_fn fns s x ≡ found x

-- The outcome is not `out_of_fuel`, a result has the property, and where the table of primes is run off, `E` holds.
abbrev pub Follows : {B : Type 0} → Type 0 → (B → Type 0) → Outcome B → Type 0
Follows E P (ok b) = P b
Follows E P exhausted = E
Follows E P out_of_fuel = ⊥

pub Follows->>= :
    {B C : Type 0} (E E' : Type 0) (P : B → Type 0) (Q : C → Type 0) (m : Outcome B)
    (f : B → Outcome C)
    → Follows E P m
    → (E → E')
    → ((b : B) → P b → Follows E' Q (f b))
    → Follows E' Q (m >>= f)
Follows->>= E E' P Q (ok b) f h off next = next b h
Follows->>= E E' P Q exhausted f h off next = off h
Follows->>= E E' P Q out_of_fuel f h off next = h

pub Follows-weaken :
    {B : Type 0} (E E' : Type 0) (P Q : B → Type 0) (m : Outcome B)
    → Follows E P m
    → (E → E')
    → ((b : B) → P b → Q b)
    → Follows E' Q m
Follows-weaken E E' P Q (ok b) h off weaker = weaker b h
Follows-weaken E E' P Q exhausted h off weaker = off h
Follows-weaken E E' P Q out_of_fuel h off weaker = h

pub Probe-cases :
    {A : Type 0} (p : FnProbe A) → ((j : ℕ) × (p ≡ free j)) ⊎ ((y : A) × (p ≡ found y)) ⊎ (p ≡ full)
Probe-cases (free j) = inl (j, refl)
Probe-cases (found y) = inr (inl (y, refl))
Probe-cases full = inr (inr refl)

module _ {A : Type 0} (fns : HashFns A) where
  -- After `t` is added to `s`: the table, and the element of it that is equal to `t`.
  pub record Adds (s : FnTable A) (t : A) (r : FnTable A × A) : Type 0 where
    pub valid : IsValid fns r.0
    pub larger : level s ≤ level r.0
    pub members : (x : A) → Sits r.0.v x → Sits s.v x ⊎ (x ≡ t)
    pub kept : (x : A) → Sits s.v x → Sits r.0.v x
    pub got : Sits r.0.v r.1
    pub equal : fns.same r.1 t ≡ true

  -- A table of the last prime, with elements of a set, where the five slots from the home of a further element of
  -- the set hold other ones.
  pub record Crowded (Member : A → Type 0) : Type 0 where
    pub crowd : FnTable A
    pub last : crowd.i ≡ 28
    pub allocated : 0 < crowd.n
    pub inside : (x : A) → Sits crowd.v x → Member x
    pub element : A
    pub member : Member element
    pub taken :
        (k : ℕ)
        → k < 5
        → (x : A) × (get_or crowd.v
              (slot_behind fns crowd.n k (fns.hash_fn element % 2 ^ 32 % crowd.n))
              none
            ≡ some x)
          × (fns.same x element ≡ false)

  -- The elements of a table and `t`.
  abbrev pub With : FnTable A → A → A → Type 0
  With s t x = Sits s.v x ⊎ (x ≡ t)

  pub Crowded-weaken : (P Q : A → Type 0) → ((x : A) → P x → Q x) → Crowded P → Crowded Q
  Crowded-weaken P Q weaker c = record {
    crowd = c.crowd;
    last = c.last;
    allocated = c.allocated;
    inside = λ x at. weaker x (c.inside x at);
    element = c.element;
    member = weaker c.element c.member;
    taken = c.taken;
  }

  past_end : (ps : List ℕ) (i : ℕ) → get_elem? ps i ≡ none → length ps ≤ i
  past_end [] i e = omega arith
  past_end (p ∷ ps) zero e = absurd (cc e)
  past_end (p ∷ ps) (suc i) e = omega (arith, past_end ps i e)

  last_size : (s : FnTable A) → enlarge_fn s ≡ none → level s < 29 → (s.i ≡ 28) × (0 < s.n)
  unfolding enlarge_fn d_prime2
  last_size s e small = elim (Bool-cases (s.n == 0)) [
    | inl none_yet ↦ absurd (cc (rw (none_yet, enlarge_fn) at e))
    | inr allocated ↦
        let behind : get_elem? d_prime2 (s.i + 1) ≡ none = ground arith in
        let far = past_end d_prime2 (s.i + 1) behind in
        let place : level s ≡ s.i = rw allocated refl in (omega (arith, place), ground arith)
  ]

  pub last-Crowded :
      (s : FnTable A) (t : A)
      → IsValid fns s
      → lookup_fn fns s t ≡ full
      → enlarge_fn s ≡ none
      → Crowded (With s t)
  unfolding lookup_fn
  last-Crowded s t h e end =
      let (last, pos) = last_size s end h.small in
      let open_table : (s.n == 0) ≡ false = ground arith in
      record {
        crowd = s;
        last = last;
        allocated = pos;
        inside = λ x at. inl at;
        element = t;
        member = inr refl;
        taken = λ k below.
            full_slots fns 5 s.v s.n t (fns.hash_fn t % 2 ^ 32 % s.n) k (rw open_table at e)
              (mod-lt (fns.hash_fn t % 2 ^ 32) pos) below;
      }

  pub cleared-IsValid : IsValid fns cleared
  cleared-IsValid = record { sized = refl; small = omega arith; placed = λ x (j, e). absurd (cc e) }
