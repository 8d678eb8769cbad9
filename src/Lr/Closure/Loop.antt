-- ===== src/Lr/Closure/Loop.antt =====
-- The loop of `build_closure`.
use dparser.Prelude.{
  ℕ, zero, suc, ◌+◌, ◌≤◌, ◌<◌, ◌≡◌, ◌↔◌, sym, ◌∙◌, ◌⊎◌, inl, inr, true, false, ◌||◌, List, [], ◌∷◌,
  ◌++◌, map, some, arith, length, take, get_elem?, length-append, length-map, take-grown, take-all,
  lt-length, Bool-cases, Option-cases, has, has-append, pigeonhole, nat_eq,
}
use dparser.Gram.{Grammar, Item, item_eq, item_eq_iff, item_Eq}
use dparser.Lr.{State, first_item, expand, closure_loop, all_rules}
use dparser.Lr.Closure.{
  Leads, start, enter, IsValid, insert_rules-Inserts, rules_at, expand-eq, rules_at-nterm,
  first_item_of_has, has-map-first_item, universe, Leads-universe,
}

has-get_elem? : (xs : List Item) (j : ℕ) (i : Item) → get_elem? xs j ≡ some i → has xs i ≡ true
has-get_elem? [] j i e = absurd (cc e)
has-get_elem? (x ∷ xs) zero i e = ground (arith, item_eq_iff x i)
has-get_elem? (x ∷ xs) (suc j) i e = ground (arith, has-get_elem? xs j i)

module _ (g : Grammar) (kernel : List Item) where
  -- The state of the loop before item `j` is read.
  pub record Inv (j : ℕ) (s : State) : Type 0 where
    pub valid : IsValid s
    pub sound : (i : Item) → has s.items i ≡ true → Leads g kernel i
    pub kept : (i : Item) → has kernel i ≡ true → has s.items i ≡ true
    pub closed :
        (i : Item) (r : ℕ)
        → has (take j s.items) i ≡ true
        → has (rules_at g i) r ≡ true
        → has s.items (first_item r) ≡ true
    pub read : j ≤ length s.items

  led_by :
      (s : State) (i k : Item)
      → Leads g kernel i
      → has (map first_item (rules_at g i)) k ≡ true
      → Leads g kernel k
  led_by s i k led held =
      let (r, rule, e) = first_item_of_has (rules_at g i) k held in
      let (p, follows, member) = rules_at-nterm g i r rule in rw (← e) (enter led follows member)

  -- The items read so far, after item `j` and what it adds.
  seen_before :
      (s : State) (new : List Item) (j : ℕ) (i k : Item)
      → get_elem? s.items j ≡ some i
      → has (take (suc j) (s.items ++ new)) k ≡ true
      → (has (take j s.items) k ≡ true) ⊎ (i ≡ k)
  seen_before s new j i k at seen =
      let split : (has (take j s.items) k || (item_eq i k || false)) ≡ true =
        sym (has-append (take j s.items) (i ∷ []) k)
        ∙ (rw (take-grown s.items new j i at) at seen) in
      elim (Bool-cases (has (take j s.items) k)) [
        | inl old ↦ inl old
        | inr new_one ↦ inr ((item_eq_iff i k).0 (ground arith))
      ]

  Inv-expand :
      (j : ℕ) (s : State) (i : Item)
      → get_elem? s.items j ≡ some i
      → Inv j s
      → Inv (suc j) (expand g s i)
  Inv-expand j s i at h =
      let step = insert_rules-Inserts s (rules_at g i) h.valid in
      let (new, grown) = step.grown in
      let led = h.sound i (has-get_elem? s.items j i at) in
      rw (expand-eq g s i) (record {
        valid = step.valid;
        sound = λ k held. elim (Bool-cases (has s.items k)) [
          | inl old ↦ h.sound k old
          | inr fresh ↦ led_by s i k led (ground (arith, step.members k))
        ];
        kept = λ k held. ground (arith, step.members k, h.kept k held);
        closed = λ k r seen rule. elim (seen_before s new j i k at (rw grown at seen)) [
          | inl before ↦ ground (arith, step.members (first_item r), h.closed k r before rule)
          | inr this ↦
              let inserted = has-map-first_item (rules_at g i) r (rw this rule) in
              ground (arith, step.members (first_item r), inserted)
        ];
        read = rw grown (rw length-append (omega (arith, lt-length s.items j i at)));
      })

  -- A state holds no more items than there are.
  length-items :
      (j : ℕ) (s : State)
      → Inv j s
      → length s.items ≤ length kernel + length (all_rules g.productions)
  length-items j s h =
      let fits =
        pigeonhole s.items (universe g kernel) h.valid.once
          (λ i held. Leads-universe g (h.sound i held)) in
      omega (
        arith,
        fits,
        length-append kernel (map first_item (all_rules g.productions)),
        length-map (all_rules g.productions) first_item,
      )

  -- The state holds exactly what the kernel leads to.
  pub record IsClosed (s : State) : Type 0 where
    pub valid : IsValid s
    pub exact : (i : Item) → (has s.items i ≡ true) ↔ Leads g kernel i

  all_led :
      (j : ℕ) (s : State)
      → Inv j s
      → take j s.items ≡ s.items
      → {i : Item} → Leads g kernel i
      → has s.items i ≡ true
  all_led j s h e (start {i} held) = h.kept i held
  all_led j s h e (enter {i} {p} {r} l at member) =
      h.closed i r (rw e (all_led j s h e l)) (rw (at, rules_at) member)

  -- With a round for each item that is still to be read, and one more, the loop ends.
  pub closure_loop_ends :
      (fuel j : ℕ) (s : State)
      → Inv j s
      → length kernel + length (all_rules g.productions) < fuel + j
      → (s' : State) × (closure_loop g fuel j s ≡ some s') × IsClosed s'
  unfolding closure_loop
  closure_loop_ends zero j s h enough = absurd (omega (arith, length-items j s h, h.read))
  closure_loop_ends (suc fuel) j s h enough = elim (Option-cases (get_elem? s.items j)) [
    | inl end ↦ (
      s,
      rw (end, closure_loop),
      record { valid = h.valid; exact = λ i. (h.sound i, all_led j s h (take-all s.items j end)) },
    )
    | inr (i, at) ↦
        let (s', e, inv) =
          closure_loop_ends fuel (suc j) (expand g s i) (Inv-expand j s i at h) (omega arith) in
        (s', rw (at, closure_loop) e, inv)
  ]
