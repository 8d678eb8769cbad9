-- ===== src/Lr/Hashed/Search.antt =====
-- The hash table of the states stands for their list: where it does not run off the table of primes,
-- `maybe_add_state` finds or adds what a search in the list does.
use mathlib.Core.Path.{subst}
use dparser.Prelude.{
  ℕ, zero, suc, ◌≡◌, refl, sym, ap, ◌∙◌, inl, inr, true, false, List, [], ◌∷◌, ◌++◌, none, some,
  arith, ◌==◌, ==_iff, length, get_elem?, get_or, Bool-cases, Option-cases,
}
use dparser.Util.Hashed.{cleared, set_add_fn}
use dparser.Util.Hashed.Probing.{Sits}
use dparser.Util.Hashed.Laws.{IsHash, IsValid, Adds, cleared-IsValid}
use dparser.Util.Hashed.Adding.{only_one, set_add_fn-Adds}
use dparser.Util.Hashed.Same.{Same, Follows-Same}
use dparser.Lr.{State, items_eq, sum_hashes, find_state}
use dparser.Lr.Closure.Build.{
  items_eq_sound, items_eq_refl, IsTable, find_state_sound, find_state_complete, get_elem?-concat,
  get_elem?-last, IsTable-concat,
}
use dparser.Lr.Gotos.Target.{get_elem?-append, get_elem?-within}
use dparser.Lr.Hashed.{
  Listed, StatesHash, state_hash_fn, state_cmp_fn, state_hash_fns, maybe_add_state,
}

pub state_hash_fns-IsHash : IsHash state_hash_fns
unfolding state_hash_fn state_cmp_fn
state_hash_fns-IsHash = record {
  reflexive = λ a. items_eq_refl a.items;
  symmetric = λ a b e.
      subst (λ q. items_eq q a.items ≡ true) (items_eq_sound a.items b.items e)
        (items_eq_refl a.items);
  transitive =
      λ a b c e e'. subst (λ q. items_eq a.items q ≡ true) (items_eq_sound b.items c.items e') e;
  congruent = λ a b e. ap sum_hashes (items_eq_sound a.items b.items e);
}

-- The hash table holds the states of the list by their positions.
pub record Mirrors (states : List State) (hash : StatesHash) : Type 0 where
  pub table : IsTable states
  pub valid : IsValid state_hash_fns hash
  pub back :
      (x : Listed)
      → Sits hash.v x
      → (s : State) × (get_elem? states x.position ≡ some s) × (s.items ≡ x.items)
  pub forth :
      (k : ℕ) (s : State)
      → get_elem? states k ≡ some s
      → (x : Listed) × Sits hash.v x × (x.items ≡ s.items)

pub cleared-Mirrors : Mirrors [] cleared
cleared-Mirrors = record {
  table = record { numbered = λ k s e. absurd (cc e); unique = λ j k s t e. absurd (cc e) };
  valid = cleared-IsValid state_hash_fns;
  back = λ x (j, e). absurd (cc e);
  forth = λ k s e. absurd (cc e);
}

get_or-at :
    (states : List State) (k : ℕ) (s d : State)
    → get_elem? states k ≡ some s
    → get_or states k d ≡ s
get_or-at [] k s d e = absurd (cc e)
get_or-at (t ∷ states) zero s d e = cc e
get_or-at (t ∷ states) (suc k) s d e = get_or-at states k s d e

module _ (states : List State) (hash : StatesHash) (s : State) (m : Mirrors states hash)
    (r : StatesHash × Listed)
    (a : Adds state_hash_fns hash (record { position = length states; items = s.items }) r) where
  own : Listed
  own = record { position = length states; items = s.items }

  equal_items : r.1.items ≡ s.items
  unfolding state_cmp_fn
  equal_items = items_eq_sound r.1.items s.items a.equal

  -- An element of the table with the items of the state is the one that was found.
  this_one : (x : Listed) → Sits r.0.v x → x.items ≡ s.items → x ≡ r.1
  unfolding state_cmp_fn
  this_one x at e =
      only_one state_hash_fns state_hash_fns-IsHash r.0 x r.1 a.valid at a.got
        (subst (λ q. items_eq x.items q ≡ true) (e ∙ sym equal_items) (items_eq_refl x.items))

  -- The new state has no other with its items.
  pub none_found : (r.1.position == length states) ≡ true → find_state states s.items ≡ none
  none_found new = elim (Option-cases (find_state states s.items)) [
    | inl nothing ↦ nothing
    | inr (ss, found) ↦
        let (same, k, at) = find_state_sound states s.items ss found in
        let (x, sits, items) = m.forth k ss at in
        let x_is : x ≡ r.1 = this_one x (a.kept x sits) (items ∙ same) in
        let (t, at_t, _) = m.back x sits in
        let p : x.position ≡ length states =
          ap (λ (q : Listed). q.position) x_is ∙ (==_iff r.1.position (length states)).0 new in
        absurd (omega (arith, get_elem?-within states x.position t at_t, p))
  ]

  -- Any other one is in the list already, and is the one that the search finds.
  pub one_found :
      (r.1.position == length states) ≡ false
      → (ss : State) × (find_state states s.items ≡ some ss)
        × (get_elem? states r.1.position ≡ some ss)
  one_found old = elim (a.members r.1 a.got) [
    | inr new ↦ absurd (ground (arith, ap (λ (q : Listed). q.position) new))
    | inl sits ↦
        let (t, at_t, items) = m.back r.1 sits in
        elim (Option-cases (find_state states s.items)) [
          | inl nothing ↦
              let other : items_eq t.items s.items ≡ false =
                find_state_complete states s.items r.1.position t nothing at_t in
              absurd (
                cc (
                  subst (λ q. items_eq t.items q ≡ true) (items ∙ equal_items)
                      (items_eq_refl t.items),
                  other,
                ))
          | inr (ss, found) ↦
              let (same, k, at) = find_state_sound states s.items ss found in
              let place : k ≡ r.1.position =
                m.table.unique k r.1.position ss t at at_t (same ∙ sym (items ∙ equal_items)) in
              (ss, found, subst (λ n. get_elem? states n ≡ some ss) place at)
        ]
  ]

  pub old-Mirrors : (r.1.position == length states) ≡ false → Mirrors states r.0
  old-Mirrors old = record {
    table = m.table;
    valid = a.valid;
    back = λ x at. elim (a.members x at) [
      | inl sits ↦ m.back x sits
      | inr new ↦
          let x_is : x ≡ r.1 = this_one x at (ap (λ (q : Listed). q.items) new) in
          absurd (ground (arith, ap (λ (q : Listed). q.position) (sym x_is ∙ new)))
    ];
    forth = λ k t at. let (x, sits, items) = m.forth k t at in (x, a.kept x sits, items);
  }

  pub new-Mirrors :
      (x' : State)
      → x'.items ≡ s.items
      → IsTable (states ++ x' ∷ [])
      → Mirrors (states ++ x' ∷ []) r.0
  new-Mirrors x' items table = record {
    table = table;
    valid = a.valid;
    back = λ x at. elim (a.members x at) [
      | inl sits ↦
          let (t, at_t, e) = m.back x sits in
          (t, get_elem?-append states (x' ∷ []) x.position t at_t, e)
      | inr new ↦ (
        x',
        ap (λ (q : Listed). get_elem? (states ++ x' ∷ []) q.position) new
            ∙ get_elem?-last states x',
        items ∙ sym (ap (λ (q : Listed). q.items) new),
      )
    ];
    forth = λ k t at. elim (get_elem?-concat states x' t k at) [
      | inl old ↦ let (x, sits, e) = m.forth k t old in (x, a.kept x sits, e)
      | inr (_, this) ↦ (r.1, a.got, equal_items ∙ sym items ∙ ap (λ (q : State). q.items) this)
    ];
  }

-- `maybe_add_state` does what the search in the list does.
pub maybe_add_state-Same :
    (states : List State) (hash : StatesHash) (s : State)
    → Mirrors states hash
    → Same
        (λ q h. Mirrors q.0 h)
        (some (dparser.Lr.maybe_add_state states s))
        (maybe_add_state states hash s)
unfolding maybe_add_state dparser.Lr.maybe_add_state
maybe_add_state-Same states hash s m =
    Follows-Same _ (Adds state_hash_fns hash (record { position = length states; items = s.items }))
      (λ q h. Mirrors q.0 h) (dparser.Lr.maybe_add_state states s)
      (set_add_fn state_hash_fns hash (record { position = length states; items = s.items })) _
      (set_add_fn-Adds state_hash_fns state_hash_fns-IsHash hash _ m.valid)
      (λ r a. elim (Bool-cases (r.1.position == length states)) [
        | inl new ↦
            let fresh = none_found states hash s m r a new in
            let x = record s { index = length states } in
            rw (new, fresh, dparser.Lr.maybe_add_state)
              (
                refl,
                new-Mirrors states hash s m r a x refl (IsTable-concat states x m.table refl fresh),
              )
        | inr old ↦
            let (ss, found, at) = one_found states hash s m r a old in
            rw (old, found, dparser.Lr.maybe_add_state)
              (
                ap (λ q. (states, q)) (get_or-at states r.1.position ss s at),
                old-Mirrors states hash s m r a old,
              )
      ])
