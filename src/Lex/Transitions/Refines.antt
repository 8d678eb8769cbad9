-- ===== src/Lex/Transitions/Refines.antt =====
-- Unless the set of the transitions runs off the table of primes, the loops find or make the transitions that they
-- do on the list alone.
use mathlib.Core.Path.{subst}
use dparser.Prelude.{
  ℕ, suc, ◌≡◌, refl, sym, ap, ◌∙◌, inl, inr, true, false, List, [], ◌∷◌, ◌++◌, Option, none, some,
  arith, ◌==◌, ==_iff, length, get_elem?, lt-length, Bool-cases, Option-cases,
}
use dparser.Util.Hashed.{cleared, set_add_fn}
use dparser.Util.Hashed.Probing.{Sits}
use dparser.Util.Hashed.Laws.{IsHash, IsValid, Adds, cleared-IsValid}
use dparser.Util.Hashed.Adding.{only_one, set_add_fn-Adds}
use dparser.Util.Hashed.Same.{Same, Same->>=, Follows-Same}
use dparser.Lr.{Action}
use dparser.Lex.Subset.{ScanState}
use dparser.Lex.Transitions.{
  Transition, same_actions, trans_eq, find_transition, add_transition, transition_for,
}
use dparser.Lex.Transitions.Search.{
  same_actions_sym, same_actions_trans, same_actions_refl, Differs, found_lem, not_found, old_at,
  last_at, at_either, Differs-concat,
}
use dparser.Lex.Transitions.Hashed.{
  Placed, TransitionsHash, index_sum, trans_hash_fn, trans_cmp_fn, trans_hash_fns, enter_transition,
  row_transitions, build_transitions,
}

index_sum-same : (as' bs : List Action) → same_actions as' bs ≡ true → index_sum as' ≡ index_sum bs
unfolding same_actions
index_sum-same [] [] h = refl
index_sum-same [] (b ∷ bs) h = absurd (cc h)
index_sum-same (a ∷ as') [] h = absurd (cc h)
index_sum-same (a ∷ as') (b ∷ bs) h =
    let first : a.index ≡ b.index = ground (arith, ==_iff a.index b.index) in
    let rest = index_sum-same as' bs (ground arith) in rw (first, rest) refl

trans_hash_fns-IsHash : IsHash trans_hash_fns
unfolding trans_hash_fn trans_cmp_fn
trans_hash_fns-IsHash = record {
  reflexive = λ a. same_actions_refl a.transition.accepts_diff;
  symmetric = λ a b e. same_actions_sym a.transition.accepts_diff b.transition.accepts_diff e;
  transitive = λ a b c e e'.
      same_actions_trans a.transition.accepts_diff b.transition.accepts_diff
        c.transition.accepts_diff e e';
  congruent = λ a b e. index_sum-same a.transition.accepts_diff b.transition.accepts_diff e;
}

-- The set holds the transitions of the list by their positions.
pub record Mirrors (ts : List Transition) (hash : TransitionsHash) : Type 0 where
  pub differs : Differs ts
  pub valid : IsValid trans_hash_fns hash
  pub back : (x : Placed) → Sits hash.v x → get_elem? ts x.position ≡ some x.transition
  pub forth :
      (k : ℕ) (y : Transition)
      → get_elem? ts k ≡ some y
      → Sits hash.v (record { position = k; transition = y })

pub cleared-Mirrors : Mirrors [] cleared
cleared-Mirrors = record {
  differs = λ j k x y e. absurd (cc e);
  valid = cleared-IsValid trans_hash_fns;
  back = λ x (j, e). absurd (cc e);
  forth = λ k s e. absurd (cc e);
}

module _ (ts : List Transition) (hash : TransitionsHash) (x : Transition) (m : Mirrors ts hash)
    (r : TransitionsHash × Placed)
    (a : Adds trans_hash_fns hash (record { position = length ts; transition = x }) r) where
  -- An element of the set that is equal to the transition is the one that was found.
  this_one : (y : Placed) → Sits r.0.v y → trans_eq y.transition x ≡ true → y ≡ r.1
  unfolding trans_cmp_fn
  this_one y at e = only_one trans_hash_fns trans_hash_fns-IsHash r.0 y r.1 a.valid at a.got (
      same_actions_trans y.transition.accepts_diff x.accepts_diff r.1.transition.accepts_diff e
        (same_actions_sym r.1.transition.accepts_diff x.accepts_diff a.equal))

  none_found : (r.1.position == length ts) ≡ true → find_transition ts x ≡ none
  none_found new = elim (Option-cases (find_transition ts x)) [
    | inl nothing ↦ nothing
    | inr (k, found) ↦
        let s = found_lem ts x k found in
        let y : Placed = record { position = k; transition = s.found } in
        let y_is : y ≡ r.1 = this_one y (a.kept y (m.forth k s.found s.at)) s.equal in
        let p : k ≡ length ts =
          ap (λ (q : Placed). q.position) y_is ∙ (==_iff r.1.position (length ts)).0 new in
        absurd (omega (arith, lt-length ts k s.found s.at, p))
  ]

  one_found : (r.1.position == length ts) ≡ false → find_transition ts x ≡ some r.1.position
  unfolding trans_cmp_fn
  one_found old = elim (a.members r.1 a.got) [
    | inr new ↦ absurd (ground (arith, ap (λ (q : Placed). q.position) new))
    | inl sits ↦
        let at = m.back r.1 sits in
        elim (Option-cases (find_transition ts x)) [
          | inl nothing ↦
              absurd (cc (not_found ts x r.1.position r.1.transition nothing at, a.equal))
          | inr (k, found) ↦
              let s = found_lem ts x k found in
              let y : Placed = record { position = k; transition = s.found } in
              let y_is : y ≡ r.1 = this_one y (a.kept y (m.forth k s.found s.at)) s.equal in
              found ∙ ap (λ (q : Placed). some q.position) y_is
        ]
  ]

  old-Mirrors : (r.1.position == length ts) ≡ false → Mirrors ts r.0
  unfolding trans_cmp_fn
  old-Mirrors old = record {
    differs = m.differs;
    valid = a.valid;
    back = λ y at. elim (a.members y at) [
      | inl sits ↦ m.back y sits
      | inr new ↦
          let y_is : y ≡ r.1 =
            this_one y at (
              ap (λ (q : Placed). trans_eq q.transition x) new
              ∙ same_actions_refl x.accepts_diff) in
          absurd (ground (arith, ap (λ (q : Placed). q.position) (sym y_is ∙ new)))
    ];
    forth = λ k y at. a.kept _ (m.forth k y at);
  }

  new-Mirrors : (r.1.position == length ts) ≡ true → Mirrors (ts ++ x ∷ []) r.0
  unfolding trans_cmp_fn
  new-Mirrors new =
      let own : Placed = record { position = length ts; transition = x } in
      let is_own : r.1 ≡ own = elim (a.members r.1 a.got) [
        | inr this ↦ this
        | inl sits ↦
            let here = lt-length ts r.1.position r.1.transition (m.back r.1 sits) in
            absurd (omega (arith, (==_iff r.1.position (length ts)).0 new))
      ] in
      record {
        differs = Differs-concat ts x m.differs (none_found new);
        valid = a.valid;
        back = λ y at. elim (a.members y at) [
          | inl sits ↦ old_at ts x y.transition y.position (m.back y sits)
          | inr this ↦
              ap (λ (q : Placed). get_elem? (ts ++ x ∷ []) q.position) this
              ∙ last_at ts x
              ∙ ap (λ (q : Placed). some q.transition) (sym this)
        ];
        forth = λ k y at. elim (at_either ts x y k at) [
          | inl old ↦ a.kept _ (m.forth k y old)
          | inr (this, last) ↦
              let e : own ≡ record { position = k; transition = y } =
                λ i. record { position = sym last i; transition = this i } in
              subst (Sits r.0.v) (is_own ∙ e) a.got
        ];
      }

-- The call of `set_add_fn` does what the search in the list does.
enter_transition-Same :
    (ts : List Transition) (hash : TransitionsHash) (x : Transition)
    → Mirrors ts hash
    → Same (λ q h. Mirrors q.0 h) (some (add_transition ts x)) (enter_transition ts hash x)
unfolding enter_transition add_transition
enter_transition-Same ts hash x m =
    Follows-Same _ (Adds trans_hash_fns hash (record { position = length ts; transition = x }))
      (λ q h. Mirrors q.0 h) (add_transition ts x)
      (set_add_fn trans_hash_fns hash (record { position = length ts; transition = x })) _
      (set_add_fn-Adds trans_hash_fns trans_hash_fns-IsHash hash _ m.valid)
      (λ r a. elim (Bool-cases (r.1.position == length ts)) [
        | inl new ↦
            rw (new, none_found ts hash x m r a new, add_transition)
              (refl, new-Mirrors ts hash x m r a new)
        | inr old ↦
            rw (old, one_found ts hash x m r a old, add_transition)
              (refl, old-Mirrors ts hash x m r a old)
      ])

module _ (action : ℕ → Action) (lives : List (List ℕ)) where
  row_transitions-Same :
      (ts : List Transition) (hash : TransitionsHash) (s : ℕ) (accepts : List ℕ)
      (chars : List (Option ℕ))
      → Mirrors ts hash
      → Same
          (λ q h. Mirrors q.0 h)
          (some (dparser.Lex.Transitions.row_transitions action lives ts s accepts chars))
          (row_transitions action lives ts hash s accepts chars)
  unfolding row_transitions dparser.Lex.Transitions.row_transitions
  row_transitions-Same ts hash s accepts [] m = (refl, m)
  row_transitions-Same ts hash s accepts (o ∷ chars) m =
      Same->>= (λ q h. Mirrors q.0 h) (λ q h. Mirrors q.0 h)
        (some (add_transition ts (transition_for action lives s accepts o)))
        (enter_transition ts hash (transition_for action lives s accepts o))
        (λ first.
          let rest = dparser.Lex.Transitions.row_transitions action lives first.0 s accepts chars in
          some (rest.0, first.1 ∷ rest.1))
        _ (enter_transition-Same ts hash (transition_for action lives s accepts o) m)
        (λ first h m'.
          Same->>= (λ q h'. Mirrors q.0 h') (λ q h'. Mirrors q.0 h')
            (some (dparser.Lex.Transitions.row_transitions action lives first.0 s accepts chars))
            (row_transitions action lives first.0 h s accepts chars)
            (λ rest. some (rest.0, first.1 ∷ rest.1)) _
            (row_transitions-Same first.0 h s accepts chars m') (λ rest h' m''. (refl, m'')))

  pub build_transitions-Same :
      (ts : List Transition) (hash : TransitionsHash) (s : ℕ) (states : List ScanState)
      → Mirrors ts hash
      → Same
          (λ q h. Mirrors q.0 h)
          (some (dparser.Lex.Transitions.build_transitions action lives ts s states))
          (build_transitions action lives ts hash s states)
  unfolding build_transitions dparser.Lex.Transitions.build_transitions
  build_transitions-Same ts hash s [] m = (refl, m)
  build_transitions-Same ts hash s (ss ∷ states) m =
      Same->>= (λ q h. Mirrors q.0 h) (λ q h. Mirrors q.0 h)
        (some (dparser.Lex.Transitions.row_transitions action lives ts s ss.accepts ss.chars))
        (row_transitions action lives ts hash s ss.accepts ss.chars)
        (λ first.
          let rest =
            dparser.Lex.Transitions.build_transitions action lives first.0 (suc s) states in
          some (rest.0, first.1 ∷ rest.1))
        _ (row_transitions-Same ts hash s ss.accepts ss.chars m)
        (λ first h m'.
          Same->>= (λ q h'. Mirrors q.0 h') (λ q h'. Mirrors q.0 h')
            (some (dparser.Lex.Transitions.build_transitions action lives first.0 (suc s) states))
            (build_transitions action lives first.0 h (suc s) states)
            (λ rest. some (rest.0, first.1 ∷ rest.1)) _
            (build_transitions-Same first.0 h (suc s) states m') (λ rest h' m''. (refl, m'')))
