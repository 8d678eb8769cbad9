-- ===== src/Parse/Heap/Down.antt =====
-- `heapify` lets a node sink to its place.
use dparser.Prelude.{
  ℕ, zero, suc, ◌+◌, ◌*◌, ◌≤◌, ◌<◌, ◌≡◌, ◌≢◌, refl, sym, ap, ◌∙◌, ◌⊎◌, inl, inr, true, false, ◌&&◌,
  List, [], ◌∷◌, arith, ltb, ◌==◌, ==_iff, length, length-set, set, Bool-cases,
}
use dparser.Parse.Heap.{node_at, swap, height_at, larger, heapify}

node_at-set_self : (a : List ℕ) (i v : ℕ) → i < length a → node_at (set a i v) i ≡ v
node_at-set_self [] i v h = absurd (omega arith)
node_at-set_self (x ∷ a) zero v h = refl
node_at-set_self (x ∷ a) (suc i) v h = node_at-set_self a i v (omega arith)

pub node_at-set_ne :
    (a : List ℕ) (i j v : ℕ) → (i == j) ≡ false → node_at (set a i v) j ≡ node_at a j
node_at-set_ne [] i j v h = refl
node_at-set_ne (x ∷ a) zero zero v h = absurd (cc h)
node_at-set_ne (x ∷ a) zero (suc j) v h = refl
node_at-set_ne (x ∷ a) (suc i) zero v h = refl
node_at-set_ne (x ∷ a) (suc i) (suc j) v h = node_at-set_ne a i j v (ground (arith, h))

apart : (i j : ℕ) → i ≢ j → (i == j) ≡ false
apart i j h = elim (Bool-cases (i == j)) [
  | inl same ↦ absurd (h ((==_iff i j).0 same))
  | inr other ↦ other
]

pub length-swap : (a : List ℕ) (i j : ℕ) → length (swap a i j) ≡ length a
length-swap a i j =
    length-set (set a j (node_at a i)) i (node_at a j) ∙ length-set a j (node_at a i)

-- A position below `i` in the heap
abbrev pub IsChild : ℕ → ℕ → Type 0
IsChild i c = (c ≡ 2 * i + 1) ⊎ (c ≡ 2 * i + 2)

child_above : (i c : ℕ) → IsChild i c → i < c
child_above i c (inl e) = omega arith
child_above i c (inr e) = omega arith

parent_once : (i j c : ℕ) → IsChild i c → IsChild j c → i ≡ j
parent_once i j c (inl e) (inl e') = omega arith
parent_once i j c (inl e) (inr e') = absurd (omega arith)
parent_once i j c (inr e) (inl e') = absurd (omega arith)
parent_once i j c (inr e) (inr e') = omega arith

module _ (height : ℕ → ℕ) where
  abbrev pub Over : List ℕ → ℕ → ℕ → Type 0
  Over a i j = height_at height a j ≤ height_at height a i

  -- From `lo` on, no node is less high than those below it.
  pub record IsHeapFrom (lo : ℕ) (a : List ℕ) : Type 0 where
    pub over : (j c : ℕ) → lo ≤ j → IsChild j c → c < length a → Over a j c

  -- But for the node at `k`, over whose children is what is over it.
  pub record Sinks (lo k : ℕ) (a : List ℕ) : Type 0 where
    pub over : (j c : ℕ) → lo ≤ j → j ≢ k → IsChild j c → c < length a → Over a j c
    pub past : (j c : ℕ) → lo ≤ j → IsChild j k → IsChild k c → c < length a → Over a j c

  -- `l` is a child of `k` that is higher than `k`, and not less high than the other one.
  record Best (k l : ℕ) (a : List ℕ) : Type 0 where
    child : IsChild k l
    inside : l < length a
    higher : height_at height a k < height_at height a l
    best : (c : ℕ) → IsChild k c → c < length a → Over a l c

  module _ (a : List ℕ) (lo k l : ℕ) (s : Sinks lo k a) (b : Best k l a) (from : lo ≤ k) where
    k_below : k < l
    k_below = child_above k l b.child

    at_k : height_at height (swap a k l) k ≡ height_at height a l
    at_k = ap height (
        node_at-set_self (set a l (node_at a k)) k (node_at a l)
          (omega (arith, k_below, b.inside, length-set a l (node_at a k))))

    at_l : height_at height (swap a k l) l ≡ height_at height a k
    at_l = ap height (
        node_at-set_ne (set a l (node_at a k)) k l (node_at a l)
          (apart k l (λ e. omega (arith, e, k_below)))
        ∙ node_at-set_self a l (node_at a k) b.inside)

    at_other : (j : ℕ) → j ≢ k → j ≢ l → height_at height (swap a k l) j ≡ height_at height a j
    at_other j not_k not_l = ap height (
        node_at-set_ne (set a l (node_at a k)) k j (node_at a l) (apart k j (λ e. not_k (sym e)))
        ∙ node_at-set_ne a l j (node_at a k) (apart l j (λ e. not_l (sym e))))

    swap-Over : (j c : ℕ) → lo ≤ j → j ≢ l → IsChild j c → c < length a → Over (swap a k l) j c
    swap-Over j c from_j not_l child inside = elim (Bool-cases (j == k)) [
      | inl at_top ↦
          let e : j ≡ k = (==_iff j k).0 at_top in
          elim (Bool-cases (c == l)) [
            | inl this ↦
                let e' : c ≡ l = (==_iff c l).0 this in
                omega (
                  arith,
                  at_k,
                  at_l,
                  b.higher,
                  ap (height_at height (swap a k l)) e,
                  ap (height_at height (swap a k l)) e',
                )
            | inr other ↦
                let not_this = differ c l other in
                let child_k : IsChild k c = subst_child j k c e child in
                let same = at_other c (λ q. omega (arith, q, child_above k c child_k)) not_this in
                omega
                  (arith, at_k, same, b.best c child_k inside, ap (height_at height (swap a k l)) e)
          ]
      | inr below_top ↦
          let not_k = differ j k below_top in
          let same_j = at_other j not_k not_l in
          elim (Bool-cases (c == k)) [
            | inl this ↦
                let e' : c ≡ k = (==_iff c k).0 this in
                omega (
                  arith,
                  at_k,
                  same_j,
                  s.past j l from_j (child_eq j c k e' child) b.child b.inside,
                  ap (height_at height (swap a k l)) e',
                )
            | inr other ↦
                let not_c = differ c k other in
                let not_l' : c ≢ l =
                  λ q. not_k (parent_once j k l (child_eq j c l q child) b.child) in
                omega (arith, same_j, at_other c not_c not_l', s.over j c from_j not_k child inside)
          ]
    ]
      where
        differ : (i j : ℕ) → (i == j) ≡ false → i ≢ j
        differ i j h e = cc ((==_iff i j).1 e, h)

        subst_child : (i j c : ℕ) → i ≡ j → IsChild i c → IsChild j c
        subst_child i j c e (inl h) = inl (omega (arith, h, e))
        subst_child i j c e (inr h) = inr (omega (arith, h, e))

        child_eq : (i c d : ℕ) → c ≡ d → IsChild i c → IsChild i d
        child_eq i c d e (inl h) = inl (omega (arith, h, e))
        child_eq i c d e (inr h) = inr (omega (arith, h, e))

    swap-Sinks : Sinks lo l (swap a k l)
    swap-Sinks = record {
      over = λ j c from_j not_l child inside.
          swap-Over j c from_j not_l child (omega (arith, inside, length-swap a k l));
      past = λ j c from_j parent child inside.
          let e : j ≡ k = parent_once j k l parent b.child in
          let l_above = child_above l c child in
          let same =
            at_other c (λ q. omega (arith, q, l_above, k_below)) (λ q. omega (arith, q, l_above)) in
          omega (
            arith,
            ap (height_at height (swap a k l)) e,
            at_k,
            same,
            s.over l c (omega (arith, from, k_below)) (λ q. omega (arith, q, k_below)) child
                (omega (arith, inside, length-swap a k l)),
          );
    }

  -- The choice of `largest`: the node itself where no child is higher.
  data Choice (a : List ℕ) (k : ℕ) : ℕ → Type 0 where
    stays : ((c : ℕ) → IsChild k c → c < length a → Over a k c) → Choice a k k
    goes : {l : ℕ} → Best k l a → Choice a k l

  larger-Choice :
      (a : List ℕ) (k : ℕ)
      → Choice a k (larger height a (2 * k + 2) (larger height a (2 * k + 1) k))
  larger-Choice a k =
      elim (Bool-cases (
        ltb (2 * k + 1) (length a)
        && ltb (height_at height a k) (height_at height a (2 * k + 1)))) [
          | inl left ↦
              rw left
                (elim (Bool-cases (
                  ltb (2 * k + 2) (length a)
                  && ltb (height_at height a (2 * k + 1)) (height_at height a (2 * k + 2)))) [
                    | inl right ↦ rw right (
                        goes (record {
                          child = inr refl;
                          inside = ground (arith, right);
                          higher = ground (arith, left, right);
                          best = λ c child inside. elim child [
                            | inl e ↦
                                omega (
                                  arith,
                                  ap (height_at height a) e,
                                  higher_of _ _ (2 * k + 2) right,
                                )
                            | inr e ↦ omega (arith, ap (height_at height a) e)
                          ];
                        }))
                    | inr not_right ↦ rw not_right (
                        goes (record {
                          child = inl refl;
                          inside = ground (arith, left);
                          higher = ground (arith, left);
                          best = λ c child inside. elim child [
                            | inl e ↦ omega (arith, ap (height_at height a) e)
                            | inr e ↦ not_higher (2 * k + 1) c (2 * k + 2) e inside not_right
                          ];
                        }))
                  ])
          | inr not_left ↦
              rw not_left
                (elim (Bool-cases (
                  ltb (2 * k + 2) (length a)
                  && ltb (height_at height a k) (height_at height a (2 * k + 2)))) [
                    | inl right ↦ rw right (
                        goes (record {
                          child = inr refl;
                          inside = ground (arith, right);
                          higher = ground (arith, right);
                          best = λ c child inside. elim child [
                            | inl e ↦ omega (
                              arith,
                              not_higher k c (2 * k + 1) e inside not_left,
                              higher_of _ _ (2 * k + 2) right,
                            )
                            | inr e ↦ omega (arith, ap (height_at height a) e)
                          ];
                        }))
                    | inr not_right ↦ rw not_right (
                        stays (λ c child inside. elim child [
                          | inl e ↦ not_higher k c (2 * k + 1) e inside not_left
                          | inr e ↦ not_higher k c (2 * k + 2) e inside not_right
                        ]))
                  ])
        ]
    where
      higher_of : (m n c : ℕ) → (ltb c (length a) && ltb m n) ≡ true → m < n
      higher_of m n c h = ground (arith, h)

      not_higher :
          (i c d : ℕ)
          → c ≡ d
          → c < length a
          → (ltb d (length a) && ltb (height_at height a i) (height_at height a d)) ≡ false
          → Over a i c
      not_higher i c d e inside h = ground (arith, ap (height_at height a) e, e, inside, h)

  rests :
      (a : List ℕ) (lo k : ℕ)
      → Sinks lo k a
      → ((c : ℕ) → IsChild k c → c < length a → Over a k c)
      → IsHeapFrom lo a
  rests a lo k s h = record {
    over = λ j c from child inside. elim (Bool-cases (j == k)) [
      | inl here ↦
          let e : j ≡ k = (==_iff j k).0 here in
          omega (arith, ap (height_at height a) e, h c (moved j k c e child) inside)
      | inr other ↦ s.over j c from (λ e. cc ((==_iff j k).1 e, other)) child inside
    ];
  }
    where
      moved : (i j c : ℕ) → i ≡ j → IsChild i c → IsChild j c
      moved i j c e (inl h) = inl (omega (arith, h, e))
      moved i j c e (inr h) = inr (omega (arith, h, e))

  pub heapify-IsHeapFrom :
      (fuel : ℕ) (a : List ℕ) (lo k : ℕ)
      → Sinks lo k a
      → lo ≤ k
      → length a ≤ fuel + k
      → IsHeapFrom lo (heapify height fuel a k)
  unfolding heapify
  heapify-IsHeapFrom zero a lo k s from enough =
      rests a lo k s
        (λ c child inside. absurd (omega (arith, child_above k c child, inside, enough)))
  heapify-IsHeapFrom (suc fuel) a lo k s from enough =
      by (larger height a (2 * k + 2) (larger height a (2 * k + 1) k)) (larger-Choice a k)
        (λ l s' below.
          heapify-IsHeapFrom fuel (swap a k l) lo l s' (omega (arith, from, below))
            (omega (arith, length-swap a k l, enough, below)))
    where
      by :
          (l : ℕ)
          → Choice a k l
          → ((m : ℕ)
              → Sinks lo m (swap a k m)
              → k < m
              → IsHeapFrom lo (heapify height fuel (swap a k m) m))
          → IsHeapFrom lo (elim (l == k) [ true ↦ a | false ↦ heapify height fuel (swap a k l) l ])
      by l (stays h) rest = rw ((==_iff k k).1 refl) (rests a lo k s h)
      by l (goes b) rest =
          let below = child_above k l b.child in
          rw (apart l k (λ e. omega (arith, e, below)))
            (rest l (swap-Sinks a lo k l s b from) below)
