-- ===== src/Util/Hashed/Same.antt =====
-- Code that uses a hash table, and the same code on what the table stands for.
use mathlib.Core.Path.{subst}
use dparser.Prelude.{◌≡◌, refl, sym, ap, ◌⊎◌, inl, inr, Option, none, some}
use dparser.Util.Set.{Outcome, ok, exhausted, out_of_fuel, ◌>>=◌}
use dparser.Util.Hashed.Laws.{Follows}

-- Two runs of a piece of code: the second one with a hash table, which it may run off, and the first one on what
-- the table stands for. The results are the same, and the table has the property.
abbrev pub Same : {A H : Type 0} → (A → H → Type 0) → Option A → Outcome (A × H) → Type 0
Same P none (ok b) = ⊥
Same P none exhausted = Unit
Same P none out_of_fuel = Unit
Same P (some a) (ok b) = (b.0 ≡ a) × P a b.1
Same P (some a) exhausted = Unit
Same P (some a) out_of_fuel = ⊥

pub Same->>= :
    {A B H : Type 0} (P : A → H → Type 0) (Q : B → H → Type 0) (o : Option A) (m : Outcome (A × H))
    (h : A → Option B) (f : A × H → Outcome (B × H))
    → Same P o m
    → ((a : A) (hash : H) → P a hash → Same Q (h a) (f (a, hash)))
    → Same Q (elim o [ none ↦ none | some a ↦ h a ]) (m >>= f)
Same->>= P Q none (ok b) h f s next = absurd s
Same->>= P Q none exhausted h f s next = tt
Same->>= P Q none out_of_fuel h f s next = tt
Same->>= P Q (some a) (ok b) h f s next =
    subst (λ q. Same Q (h a) (f (q, b.1))) (sym s.0) (next a b.1 s.1)
Same->>= {B = B} P Q (some a) exhausted h f s next = free_of (h a)
  where
    free_of : (o : Option B) → Same Q o exhausted
    free_of none = tt
    free_of (some b) = tt
Same->>= P Q (some a) out_of_fuel h f s next = absurd s

pub Follows-Same :
    {A B H : Type 0} (E : Type 0) (P : B → Type 0) (Q : A → H → Type 0) (a : A) (m : Outcome B)
    (f : B → Outcome (A × H))
    → Follows E P m
    → ((b : B) → P b → Same Q (some a) (f b))
    → Same Q (some a) (m >>= f)
Follows-Same E P Q a (ok b) f h next = next b h
Follows-Same E P Q a exhausted f h next = tt
Follows-Same E P Q a out_of_fuel f h next = h

pub Same-and :
    {A H : Type 0} (P : A → H → Type 0) (R : A → Type 0) (a : A) (m : Outcome (A × H))
    → R a
    → Same P (some a) m
    → Same (λ q h. P q h × R q) (some a) m
Same-and P R a (ok b) r s = (s.0, (s.1, r))
Same-and P R a exhausted r s = tt
Same-and P R a out_of_fuel r s = s

-- What follows for a run, where the run on the list gives `a`.
pub outcome_of :
    {A H : Type 0} (P : A → H → Type 0) (o : Option A) (a : A) (m : Outcome (A × H))
    → o ≡ some a
    → Same P o m
    → (m ≡ exhausted) ⊎ ((hash : H) × (m ≡ ok (a, hash)) × P a hash)
outcome_of {A = A} {H = H} P o a m e s = by_outcome m (subst (λ q. Same P q m) e s)
  where
    by_outcome :
        (m : Outcome (A × H))
        → Same P (some a) m
        → (m ≡ exhausted) ⊎ ((hash : H) × (m ≡ ok (a, hash)) × P a hash)
    by_outcome (ok b) s = inr (b.1, ap (λ q. ok (q, b.1)) s.0, s.1)
    by_outcome exhausted s = inl refl
    by_outcome out_of_fuel s = absurd s
