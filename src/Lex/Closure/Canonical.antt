-- ===== src/Lex/Closure/Canonical.antt =====
-- The sorted closure of a set of states: one list for each set, so that `eq_dfa_state` compares sets.
use Prim.Native.Nat.{Ordering}
use dparser.Prelude.{
  ℕ, ◌≤◌, ◌<◌, ◌≡◌, ◌≢◌, ◌↔◌, refl, sym, ap, ◌∙◌, Bool, true, ◌&&◌, List, [], ◌∷◌, some, arith, ltb,
  ◌==◌, ==_iff, has, distinct, nat_eq,
}
use dparser.Libc.{Qsort, count_if, IsOrder, Ascending}
use dparser.Lex.{NfaState}
use dparser.Lex.Closure.{nfacmp, eq_dfa_state, nfa_closure}
use dparser.Lex.Closure.Reach.{Reaches, IsClosed, IsSubset, closure_loop-IsClosure}

abbrev count : List ℕ → ℕ → ℕ
count xs a = count_if (λ x. x == a) xs

has-count : (xs : List ℕ) (a : ℕ) → has xs a ≡ ltb 0 (count xs a)
has-count [] a = refl
has-count (x ∷ xs) a = ground (arith, has-count xs a)

count_of_distinct : (xs : List ℕ) (a : ℕ) → distinct xs ≡ true → count xs a ≤ 1
count_of_distinct [] a d = omega arith
count_of_distinct (x ∷ xs) a d =
    ground (arith, has-count xs a, has-count xs x, count_of_distinct xs a, ==_iff x a)

-- The numbers rise.
abbrev pub all_above : ℕ → List ℕ → Bool
all_above n [] = true
all_above n (x ∷ xs) = ltb n x && all_above n xs

abbrev pub rising : List ℕ → Bool
rising [] = true
rising (x ∷ xs) = all_above x xs && rising xs

all_above_trans : (m n : ℕ) (xs : List ℕ) → m < n → all_above n xs ≡ true → all_above m xs ≡ true
all_above_trans m n [] h a = refl
all_above_trans m n (x ∷ xs) h a = ground (arith, all_above_trans m n xs)

pub has-above : (n : ℕ) (xs : List ℕ) (a : ℕ) → all_above n xs ≡ true → has xs a ≡ true → n < a
has-above n [] a h held = absurd (cc held)
has-above n (x ∷ xs) a h held = ground (arith, has-above n xs a, ==_iff x a)

nfacmp-IsOrder : IsOrder nfacmp
unfolding nfacmp
nfacmp-IsOrder = record {
  total = λ a b e f. ground (arith, e, f);
  trans = λ a b c p q e. ground (arith, p, q, e);
}

count_tail : (x a : ℕ) (xs : List ℕ) → count (x ∷ xs) a ≤ 1 → count xs a ≤ 1
count_tail x a xs h = ground (arith, h)

count_heads : (x y : ℕ) (ys : List ℕ) → count (x ∷ y ∷ ys) y ≤ 1 → x ≢ y
count_heads x y ys h e = ground (arith, h, ==_iff x y, ==_iff y y)

rising_cons : (x y : ℕ) (ys : List ℕ) → x < y → rising (y ∷ ys) ≡ true → rising (x ∷ y ∷ ys) ≡ true
rising_cons x y ys below rest = ground (arith, all_above_trans x y ys)

below_of : (x y : ℕ) → nfacmp x y ≢ Ordering.gt → x ≢ y → x < y
unfolding nfacmp
below_of x y h apart = ground (arith, h, apart)

rising_of_Ascending :
    (xs : List ℕ) → Ascending nfacmp xs → ((a : ℕ) → count xs a ≤ 1) → rising xs ≡ true
rising_of_Ascending [] sorted once = refl
rising_of_Ascending (x ∷ []) sorted once = refl
rising_of_Ascending (x ∷ y ∷ ys) sorted once =
    rising_cons x y ys (below_of x y sorted.0 (count_heads x y ys (once y)))
      (rising_of_Ascending (y ∷ ys) sorted.1 (λ a. count_tail x a (y ∷ ys) (once a)))

-- Two rising lists with the same members are equal.
rising_unique :
    (xs ys : List ℕ)
    → rising xs ≡ true
    → rising ys ≡ true
    → ((a : ℕ) → (has xs a ≡ true) ↔ (has ys a ≡ true))
    → xs ≡ ys
rising_unique [] [] p q same = refl
rising_unique [] (y ∷ ys) p q same = absurd (cc ((same y).1 (ground (arith, ==_iff y y))))
rising_unique (x ∷ xs) [] p q same = absurd (cc ((same x).0 (ground (arith, ==_iff x x))))
rising_unique (x ∷ xs) (y ∷ ys) p q same =
    let x_there = (same x).0 (ground (arith, ==_iff x x)) in
    let y_there = (same y).1 (ground (arith, ==_iff y y)) in
    let head : x ≡ y = ground (arith, has-above y ys x, has-above x xs y, ==_iff x y, ==_iff y x) in
    let tail = rising_unique xs ys (ground arith) (ground arith) (λ a. (
      λ held. ground (arith, held, same a, has-above x xs a, ==_iff y a),
      λ held. ground (arith, held, same a, has-above y ys a, ==_iff x a),
    )) in
    cc (head, tail)

pub eq_dfa_state_iff : (xs ys : List ℕ) → (eq_dfa_state xs ys ≡ true) ↔ (xs ≡ ys)
unfolding eq_dfa_state
eq_dfa_state_iff [] [] = (λ e. refl, λ e. refl)
eq_dfa_state_iff [] (y ∷ ys) = (λ e. absurd (cc e), λ e. absurd (cc e))
eq_dfa_state_iff (x ∷ xs) [] = (λ e. absurd (cc e), λ e. absurd (cc e))
eq_dfa_state_iff (x ∷ xs) (y ∷ ys) = (
  λ e. ground (arith, e, eq_dfa_state_iff xs ys, ==_iff x y),
  λ e. ground (arith, e, eq_dfa_state_iff xs ys, ==_iff x y),
)

-- In an automaton whose edges go to its states, `nfa_closure` of different states ends, and gives
-- exactly the states that they lead to without reading, in rising order.
pub nfa_closure-Reaches :
    (libc : Qsort) (n : List NfaState) (kernel : List ℕ)
    → IsClosed n
    → IsSubset n kernel
    → (states : List ℕ) × (nfa_closure libc n kernel ≡ some states)
      × (rising states ≡ true)
      × ((t : ℕ) → (has states t ≡ true) ↔ Reaches n kernel t)
unfolding nfa_closure
nfa_closure-Reaches libc n kernel targets h =
    let (all, e, closure) = closure_loop-IsClosure n kernel targets h in
    let states = libc.qsort ℕ nfacmp all in
    let counts = λ (a : ℕ). libc.qsort-count ℕ nfacmp (λ x. x == a) all in
    let same = λ (a : ℕ). has-count states a ∙ ap (ltb 0) (counts a) ∙ sym (has-count all a) in
    (
      states,
      rw (e, nfa_closure) refl,
      rising_of_Ascending states (libc.qsort-Ascending ℕ nfacmp all nfacmp-IsOrder)
          (λ a. omega (arith, counts a, count_of_distinct all a closure.subset.once)),
      λ t. (λ held. (closure.exact t).0 (sym (same t) ∙ held), λ r. same t ∙ (closure.exact t).1 r),
    )

-- `eq_dfa_state` tells of the closures of two sets of states whether the sets lead to the same states.
pub eq_dfa_state-nfa_closure :
    (libc : Qsort) (n : List NfaState) (kernel kernel' states states' : List ℕ)
    → IsClosed n
    → IsSubset n kernel
    → IsSubset n kernel'
    → nfa_closure libc n kernel ≡ some states
    → nfa_closure libc n kernel' ≡ some states'
    → (eq_dfa_state states states' ≡ true) ↔ ((t : ℕ) → Reaches n kernel t ↔ Reaches n kernel' t)
eq_dfa_state-nfa_closure libc n kernel kernel' states states' targets h h' run run' =
    let (xs, e, up, exact) = nfa_closure-Reaches libc n kernel targets h in
    let (ys, e', up', exact') = nfa_closure-Reaches libc n kernel' targets h' in
    let this : xs ≡ states = cc (e, run) in
    let that : ys ≡ states' = cc (e', run') in
    let by_list : (eq_dfa_state xs ys ≡ true)
        ↔ ((t : ℕ) → Reaches n kernel t ↔ Reaches n kernel' t) =
      (
        λ equal t.
            let one : xs ≡ ys = (eq_dfa_state_iff xs ys).0 equal in
            (
              λ r. (exact' t).0 (ap (λ l. has l t) (sym one) ∙ (exact t).1 r),
              λ r. (exact t).0 (ap (λ l. has l t) one ∙ (exact' t).1 r),
            ),
        λ same. (eq_dfa_state_iff xs ys).1 (
            rising_unique xs ys up up' (λ a. (
              λ held. (exact' a).1 ((same a).0 ((exact a).0 held)),
              λ held. (exact a).1 ((same a).1 ((exact' a).0 held)),
            ))),
      ) in
    rw (← this, ← that) by_list
