-- ===== src/Lex/Liveness/Grows.antt =====
-- `set_union` adds, and what is missing becomes less.
use dparser.Prelude.{
  ℕ, zero, suc, ◌+◌, ◌*◌, ◌≤◌, ◌<◌, ◌≡◌, refl, sym, ap, ◌∙◌, inl, inr, Bool, true, false, not, ◌||◌,
  List, [], ◌∷◌, ◌++◌, arith, ◌==◌, ==_iff, if◌then◌else◌, length, set, Bool-cases, has, has-append,
  nat_eq,
}
use dparser.Libc.{count_if}
use dparser.Lex.Liveness.{set_union, live_of}

pub record Adds (live more : List ℕ) (r : List ℕ × Bool) : Type 0 where
  pub members : (a : ℕ) → has r.0 a ≡ (has live a || has more a)
  pub same : r.1 ≡ false → (r.0 ≡ live) × ((a : ℕ) → has more a ≡ true → has live a ≡ true)
  pub changed : r.1 ≡ true → (a : ℕ) × (has more a ≡ true) × (has live a ≡ false)

pub set_union-Adds : (live more : List ℕ) → Adds live more (set_union live more)
unfolding set_union
set_union-Adds live [] = record {
  members = λ a. ground arith;
  same = λ h. (refl, λ a held. absurd (cc held));
  changed = λ h. absurd (cc h);
}
set_union-Adds live (b ∷ more) = elim (Bool-cases (has live b)) [
  | inl old ↦
      let rest = set_union-Adds live more in
      rw old (record {
        members = λ a. rest.members a ∙ ground (arith, old, ==_iff b a, member_at live b a);
        same = λ h. (
          (rest.same h).0,
          λ a held. elim (Bool-cases (b == a)) [
            | inl here ↦ member_at live b a old here
            | inr other ↦ (rest.same h).1 a (ground (arith, held, other))
          ],
        );
        changed = λ h. let (a, held, new) = rest.changed h in (a, ground (arith, held), new);
      })
  | inr new ↦
      let rest = set_union-Adds (live ++ b ∷ []) more in
      rw new (record {
        members = λ a. rest.members a ∙ ground (arith, has-append live (b ∷ []) a);
        same = λ h. absurd (cc h);
        changed = λ h. (b, ground (arith, ==_iff b b), new);
      })
]
  where
    member_at : (xs : List ℕ) (b a : ℕ) → has xs b ≡ true → (b == a) ≡ true → has xs a ≡ true
    member_at xs b a h e = ap (has xs) (sym ((==_iff b a).0 e)) ∙ h

-- The actions of `all` that are not live.
abbrev pub missing : List ℕ → List ℕ → ℕ
missing all live = count_if (λ a. not (has live a)) all

missing_le :
    (all live live' : List ℕ)
    → ((a : ℕ) → has live a ≡ true → has live' a ≡ true)
    → missing all live' ≤ missing all live
missing_le [] live live' sub = omega arith
missing_le (a ∷ all) live live' sub = ground (arith, missing_le all live live' sub, sub a)

missing_lt :
    (all live live' : List ℕ) (b : ℕ)
    → ((a : ℕ) → has live a ≡ true → has live' a ≡ true)
    → has all b ≡ true
    → has live b ≡ false
    → has live' b ≡ true
    → missing all live' < missing all live
missing_lt [] live live' b sub h new held = absurd (cc h)
missing_lt (a ∷ all) live live' b sub h new held = elim (Bool-cases (a == b)) [
  | inl here ↦
      let this = (==_iff a b).0 here in
      let before : has live a ≡ false = ap (has live) this ∙ new in
      let behind : has live' a ≡ true = ap (has live') this ∙ held in
      ground (arith, missing_le all live live' sub, before, behind)
  | inr other ↦
      let rest = missing_lt all live live' b sub (ground (arith, h, other)) new held in
      ground (arith, rest, sub a)
]

abbrev pub bit : Bool → ℕ
bit b = if b then 1 else 0

pub missing-set_union :
    (all live more : List ℕ)
    → ((a : ℕ) → has more a ≡ true → has all a ≡ true)
    → missing all (set_union live more).0 + bit (set_union live more).1 ≤ missing all live
missing-set_union all live more inside =
    let u = set_union-Adds live more in
    let sub : (a : ℕ) → has live a ≡ true → has (set_union live more).0 a ≡ true =
      λ a held. u.members a ∙ ground arith in
    elim (Bool-cases (set_union live more).1) [
      | inr still ↦
          let le = missing_le all live (set_union live more).0 sub in ground (arith, le, still)
      | inl changed ↦
          let (b, held, new) = u.changed changed in
          let lt =
            missing_lt all live (set_union live more).0 b sub (inside b held) new
              (u.members b ∙ ground arith) in
          ground (arith, lt, changed)
    ]

-- The same over all states.
abbrev pub total : List ℕ → List (List ℕ) → ℕ
total all [] = 0
total all (live ∷ lives) = missing all live + total all lives

pub total-set :
    (all : List ℕ) (lives : List (List ℕ)) (s : ℕ) (v : List ℕ) (n : ℕ)
    → missing all v + n ≤ missing all (live_of lives s)
    → s < length lives
    → total all (set lives s v) + n ≤ total all lives
total-set all [] s v n h below = absurd (omega arith)
total-set all (live ∷ lives) zero v n h below = omega arith
total-set all (live ∷ lives) (suc s) v n h below =
    omega (arith, total-set all lives s v n h (omega arith))

missing_at_most : (all live : List ℕ) → missing all live ≤ length all
missing_at_most [] live = omega arith
missing_at_most (a ∷ all) live = ground (arith, missing_at_most all live)

pub total_at_most :
    (all : List ℕ) (lives : List (List ℕ)) → total all lives ≤ length lives * length all
total_at_most all [] = omega arith
total_at_most all (live ∷ lives) = omega (arith, missing_at_most all live, total_at_most all lives)
