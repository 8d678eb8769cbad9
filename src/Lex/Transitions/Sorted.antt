-- ===== src/Lex/Transitions/Sorted.antt =====
-- Lists of actions whose numbers rise, and the actions that are left of them.
use Prim.Native.Nat.{compare, Ordering}
use dparser.Prelude.{
  ℕ, ◌≤◌, ◌<◌, ◌≡◌, ◌≢◌, refl, ap, inl, inr, Bool, true, false, not, ◌&&◌, List, [], ◌∷◌, map,
  arith, ◌==◌, ==_iff, Bool-cases, has, distinct, nat_eq,
}
use dparser.Libc.{Ascending}
use dparser.Lr.{Action}
use dparser.Lr.Actions.{actioncmp, action_key}
use dparser.Scan.Compact.{keep_if}
use dparser.Lex.Diff.{has_index, rising, all_above, above_trans}
use dparser.Lex.Transitions.{same_actions}

-- The numbers of the actions in `all` are different, and rise with the order in which they are sorted.
pub record IsNumbered (action : ℕ → Action) (all : List ℕ) : Type 0 where
  pub keyed :
      (a b : ℕ)
      → has all a ≡ true
      → has all b ≡ true
      → action_key (action a) ≤ action_key (action b)
      → (action a).index ≤ (action b).index
  pub single :
      (a b : ℕ) → has all a ≡ true → has all b ≡ true → (action a).index ≡ (action b).index → a ≡ b

not_above : (a b : ℕ) → compare a b ≢ Ordering.gt → a ≤ b
not_above a b h = ground arith

rising-cons :
    (x y : Action) (rest : List Action)
    → x.index < y.index
    → rising (y ∷ rest) ≡ true
    → rising (x ∷ y ∷ rest) ≡ true
rising-cons x y rest lt h = ground (arith, above_trans x.index y.index rest)

has_first : (a : ℕ) (xs : List ℕ) → has (a ∷ xs) a ≡ true
has_first a xs = ground (arith, ==_iff a a)

has_later : (a : ℕ) (xs : List ℕ) (c : ℕ) → has xs c ≡ true → has (a ∷ xs) c ≡ true
has_later a xs c h = ground (arith, h)

heads_differ : (a b : ℕ) (xs : List ℕ) → distinct (a ∷ b ∷ xs) ≡ true → (a == b) ≡ false
heads_differ a b xs d = ground (arith, d)

tail_distinct : (a b : ℕ) (xs : List ℕ) → distinct (a ∷ b ∷ xs) ≡ true → distinct (b ∷ xs) ≡ true
tail_distinct a b xs d = ground (arith, d)

module _ (action : ℕ → Action) (all : List ℕ) (numbered : IsNumbered action all) where
  in_order :
      (a b : ℕ)
      → has all a ≡ true
      → has all b ≡ true
      → actioncmp (action a) (action b) ≢ Ordering.gt
      → (a == b) ≡ false
      → (action a).index < (action b).index
  unfolding actioncmp
  in_order a b in_a in_b cmp apart =
      let le = numbered.keyed a b in_a in_b (not_above _ _ cmp) in
      elim (Bool-cases ((action a).index == (action b).index)) [
        | inl same ↦
            absurd
              (cc ((==_iff a b).1 (numbered.single a b in_a in_b ((==_iff _ _).0 same)), apart))
        | inr other ↦ ground (arith, le, other)
      ]

  pub rising-sorted :
      (xs : List ℕ)
      → Ascending (λ a b. actioncmp (action a) (action b)) xs
      → distinct xs ≡ true
      → ((a : ℕ) → has xs a ≡ true → has all a ≡ true)
      → rising (map action xs) ≡ true
  rising-sorted [] asc d sub = refl
  rising-sorted (a ∷ []) asc d sub = refl
  rising-sorted (a ∷ b ∷ xs) asc d sub =
      let rest =
        rising-sorted (b ∷ xs) asc.1 (tail_distinct a b xs d)
          (λ c held. sub c (has_later a (b ∷ xs) c held)) in
      let in_a = sub a (has_first a (b ∷ xs)) in
      let in_b = sub b (has_later a (b ∷ xs) b (has_first b xs)) in
      rising-cons (action a) (action b) (map action xs)
        (in_order a b in_a in_b asc.0 (heads_differ a b xs d)) rest

  pub has_index-map :
      (xs : List ℕ) (a : ℕ)
      → ((b : ℕ) → has xs b ≡ true → has all b ≡ true)
      → has all a ≡ true
      → has_index (map action xs) (action a) ≡ has xs a
  has_index-map [] a sub in_a = refl
  has_index-map (b ∷ xs) a sub in_a =
      let rest = has_index-map xs a (λ c held. sub c (ground (arith, held))) in_a in
      elim (Bool-cases (b == a)) [
        | inl here ↦
            let same = ap (λ c. (action c).index) ((==_iff b a).0 here) in
            ground (arith, rest, here, (==_iff (action b).index (action a).index).1 same)
        | inr other ↦ elim (Bool-cases ((action b).index == (action a).index)) [
          | inl same ↦
              let e =
                numbered.single b a (sub b (ground (arith, ==_iff b b))) in_a
                  ((==_iff _ _).0 same) in
              absurd (cc ((==_iff b a).1 e, other))
          | inr apart ↦ ground (arith, rest, other, apart)
        ]
      ]

has_index_same :
    (cs : List Action) (x y : Action) → x.index ≡ y.index → has_index cs x ≡ has_index cs y
has_index_same [] x y e = refl
has_index_same (c ∷ cs) x y e =
    ground (arith, has_index_same cs x y e, ==_iff c.index x.index, ==_iff c.index y.index, e)

-- A test that only reads the number of an action.
abbrev ByIndex : (Action → Bool) → Type 0
ByIndex p = (x y : Action) → x.index ≡ y.index → p x ≡ p y

has_index-keep_if :
    (p : Action → Bool) (bs : List Action) (a : Action)
    → ByIndex p
    → has_index (keep_if p bs) a ≡ (has_index bs a && p a)
has_index-keep_if p [] a by = refl
has_index-keep_if p (b ∷ bs) a by =
    let rest = has_index-keep_if p bs a by in
    elim (Bool-cases (b.index == a.index)) [
      | inl here ↦ ground (arith, rest, here, by b a ((==_iff b.index a.index).0 here))
      | inr other ↦ ground (arith, rest, other)
    ]

pub has_index-without :
    (cs bs : List Action) (a : Action)
    → has_index (keep_if (λ x. not (has_index cs x)) bs) a
      ≡ (has_index bs a && not (has_index cs a))
has_index-without cs bs a =
    has_index-keep_if (λ x. not (has_index cs x)) bs a (λ x y e. ap not (has_index_same cs x y e))

pub has_index-among :
    (cs bs : List Action) (a : Action)
    → has_index (keep_if (has_index cs) bs) a ≡ (has_index bs a && has_index cs a)
has_index-among cs bs a = has_index-keep_if (has_index cs) bs a (λ x y e. has_index_same cs x y e)

all_above-keep_if :
    (p : Action → Bool) (n : ℕ) (bs : List Action)
    → all_above n bs ≡ true
    → all_above n (keep_if p bs) ≡ true
all_above-keep_if p n [] h = refl
all_above-keep_if p n (b ∷ bs) h = ground (arith, all_above-keep_if p n bs)

pub rising-keep_if :
    (p : Action → Bool) (bs : List Action) → rising bs ≡ true → rising (keep_if p bs) ≡ true
rising-keep_if p [] h = refl
rising-keep_if p (b ∷ bs) h = ground (arith, rising-keep_if p bs, all_above-keep_if p b.index bs)

pub has_index-same_actions :
    (xs ys : List Action) (a : Action) → same_actions xs ys ≡ true → has_index xs a ≡ has_index ys a
unfolding same_actions
has_index-same_actions [] [] a h = refl
has_index-same_actions [] (y ∷ ys) a h = absurd (cc h)
has_index-same_actions (x ∷ xs) [] a h = absurd (cc h)
has_index-same_actions (x ∷ xs) (y ∷ ys) a h = ground (
  arith,
  has_index-same_actions xs ys a,
  ==_iff x.index y.index,
  ==_iff x.index a.index,
  ==_iff y.index a.index,
)
