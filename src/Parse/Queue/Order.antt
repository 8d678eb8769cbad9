-- ===== src/Parse/Queue/Order.antt =====
-- The order of the work lists, and that no reduction stands in its list twice.
use dparser.Prelude.{
  ℕ, suc, ◌≡◌, refl, ◌⊎◌, inl, inr, Bool, true, false, ◌&&◌, ◌||◌, List, [], ◌∷◌, Option, none,
  some, arith, ltb, leb, ◌==◌, length, Bool-cases, has, distinct, nat_eq,
}
use dparser.Parse.Queue.{
  Reduction, reduction_eq, reduction_eq_iff, reduction_Eq, depth, add_reduction, add_shift,
}

module _ (loc : ℕ → ℕ) (sns : ℕ → List ℕ) where
  -- Earlier in the text comes first, and deeper first at the same place.
  abbrev pub before : Reduction → Reduction → Bool
  before x y =
      ltb (loc x.snode) (loc y.snode)
      || (loc x.snode == loc y.snode && leb (depth loc sns y) (depth loc sns x))

  abbrev pub all_after : Reduction → List Reduction → Bool
  all_after x [] = true
  all_after x (y ∷ ys) = before x y && all_after x ys

  abbrev pub in_order : List Reduction → Bool
  in_order [] = true
  in_order (x ∷ xs) = all_after x xs && in_order xs

  all_after_trans :
      (x y : Reduction) (zs : List Reduction)
      → before x y ≡ true
      → all_after y zs ≡ true
      → all_after x zs ≡ true
  all_after_trans x y [] h k = refl
  all_after_trans x y (z ∷ zs) h k = ground (arith, all_after_trans x y zs)

  -- What stands behind `y` is not `x`, if `x` comes strictly before `y`.
  absent_behind :
      (x y : Reduction) (zs : List Reduction)
      → all_after y zs ≡ true
      → before y x ≡ false
      → has zs x ≡ false
  absent_behind x y [] h k = refl
  absent_behind x y (z ∷ zs) h k = ground (arith, absent_behind x y zs, reduction_eq_iff z x)

  pub record Added (todo : List Reduction) (r : Reduction) (todo' : List Reduction) : Type 0 where
    pub absent : has todo r ≡ false
    pub order : in_order todo' ≡ true
    pub once : distinct todo' ≡ true
    pub members : (x : Reduction) → has todo' x ≡ (reduction_eq r x || has todo x)

  before_refl : (x : Reduction) → before x x ≡ true
  before_refl x = ground arith

  absent_strictly :
      (x r : Reduction) (xs : List Reduction)
      → all_after x xs ≡ true
      → before x r ≡ false
      → has (x ∷ xs) r ≡ false
  absent_strictly x r xs h k =
      ground (arith, absent_behind r x xs h k, reduction_eq_iff x r, before_refl x)

  in_front :
      (x r : Reduction) (xs : List Reduction)
      → in_order (x ∷ xs) ≡ true
      → distinct (x ∷ xs) ≡ true
      → before r x ≡ true
      → has (x ∷ xs) r ≡ false
      → Added (x ∷ xs) r (r ∷ x ∷ xs)
  in_front x r xs h d first new = record {
    absent = new;
    order = ground (arith, all_after_trans r x xs first);
    once = ground (arith, new, d);
    members = λ y. refl;
  }

  all_after-Added :
      (x : Reduction) (ys : List Reduction)
      → ((y : Reduction) → has ys y ≡ true → before x y ≡ true)
      → all_after x ys ≡ true
  all_after-Added x [] h = refl
  all_after-Added x (y ∷ ys) h = ground (
    arith,
    h y (ground (arith, reduction_eq_iff y y)),
    all_after-Added x ys (λ z held. h z (ground arith)),
  )

  before_of_has :
      (x y : Reduction) (ys : List Reduction)
      → all_after x ys ≡ true
      → has ys y ≡ true
      → before x y ≡ true
  before_of_has x y [] h k = absurd (cc k)
  before_of_has x y (z ∷ ys) h k = ground (arith, before_of_has x y ys, reduction_eq_iff z y)

  further_on :
      (x r : Reduction) (xs later : List Reduction)
      → in_order (x ∷ xs) ≡ true
      → distinct (x ∷ xs) ≡ true
      → before r x ≡ false
      → Added xs r later
      → Added (x ∷ xs) r (x ∷ later)
  further_on x r xs later h d behind a =
      let other : reduction_eq x r ≡ false = ground (arith, reduction_eq_iff x r, before_refl x) in
      record {
        absent = ground (arith, a.absent);
        order = ground (
          arith,
          a.order,
          all_after-Added x later
              (λ y held. ground (arith, a.members y, before_of_has x y xs, reduction_eq_iff r y)),
        );
        once = ground (arith, a.once, a.members x, reduction_eq_iff r x, reduction_eq_iff x r);
        members = λ y. ground (arith, a.members y);
      }

  abbrev Outcome : List Reduction → Reduction → Option (List Reduction) → Type 0
  Outcome todo r result =
      ((result ≡ none) × (has todo r ≡ true))
      ⊎ ((todo' : List Reduction) × (result ≡ some todo') × Added todo r todo')

  -- The case where the search goes on behind `x`.
  further_outcome :
      (x r : Reduction) (xs : List Reduction)
      → in_order (x ∷ xs) ≡ true
      → distinct (x ∷ xs) ≡ true
      → before r x ≡ false
      → Outcome xs r (add_reduction loc sns xs r)
      → Outcome
          (x ∷ xs)
          r
          (elim (add_reduction loc sns xs r) [ none ↦ none | some later ↦ some (x ∷ later) ])
  further_outcome x r xs h d behind (inl (e, held)) = inl (rw e refl, ground arith)
  further_outcome x r xs h d behind (inr (later, e, a)) =
      inr (x ∷ later, rw e refl, further_on x r xs later h d behind a)

  -- In a list in order without repetitions: the reduction is there, and nothing changes, or it is
  -- added, in order.
  pub add_reduction-Added :
      (todo : List Reduction) (r : Reduction)
      → in_order todo ≡ true
      → distinct todo ≡ true
      → ((add_reduction loc sns todo r ≡ none) × (has todo r ≡ true))
        ⊎ ((todo' : List Reduction) × (add_reduction loc sns todo r ≡ some todo')
            × Added todo r todo')
  unfolding add_reduction
  add_reduction-Added [] r h d =
      inr (r ∷ [], refl, record { absent = refl; order = refl; once = refl; members = λ x. refl })
  add_reduction-Added (x ∷ xs) r h d = elim (Bool-cases (ltb (loc r.snode) (loc x.snode))) [
    | inl earlier ↦
        let new = absent_strictly x r xs (ground arith) (ground arith) in
        rw earlier (inr (r ∷ x ∷ xs, refl, in_front x r xs h d (ground arith) new))
    | inr not_earlier ↦
        elim (Bool-cases (loc r.snode == loc x.snode && leb (depth loc sns x) (depth loc sns r))) [
          | inl here ↦ elim (Bool-cases (depth loc sns r == depth loc sns x && has (x ∷ xs) r)) [
            | inl old ↦ inl (ground arith, ground arith)
            | inr new ↦
                let absent : has (x ∷ xs) r ≡ false =
                  elim (Bool-cases (depth loc sns r == depth loc sns x)) [
                    | inl same ↦ ground arith
                    | inr deeper ↦ absent_strictly x r xs (ground arith) (ground arith)
                  ] in
                inr (r ∷ x ∷ xs, ground arith, in_front x r xs h d (ground arith) absent)
          ]
          | inr behind ↦
              rw (not_earlier, behind)
                (further_outcome x r xs h d (ground arith)
                  (add_reduction-Added xs r (ground arith) (ground arith)))
        ]
  ]

  -- The places of the shifts do not fall.
  abbrev pub shifts_in_order : List ℕ → Bool
  shifts_in_order [] = true
  shifts_in_order (x ∷ []) = true
  shifts_in_order (x ∷ y ∷ ys) = leb (loc x) (loc y) && shifts_in_order (y ∷ ys)

  -- `add_shift` keeps the order, and adds one occurrence of the node.
  pub add_shift_lem :
      (todo : List ℕ) (sn : ℕ)
      → shifts_in_order todo ≡ true
      → (shifts_in_order (add_shift loc sns todo sn) ≡ true)
        × ((n : ℕ) → has (add_shift loc sns todo sn) n ≡ (sn == n || has todo n))
        × (length (add_shift loc sns todo sn) ≡ suc (length todo))
  unfolding add_shift
  add_shift_lem [] sn h = (refl, λ n. refl, refl)
  add_shift_lem (x ∷ []) sn h = (ground arith, λ n. ground arith, ground arith)
  add_shift_lem (x ∷ y ∷ ys) sn h =
      let (order, members, count) = add_shift_lem (y ∷ ys) sn (ground arith) in
      (ground arith, λ n. ground (arith, members n), ground arith)
