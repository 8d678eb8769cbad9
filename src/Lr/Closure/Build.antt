-- ===== src/Lr/Closure/Build.antt =====
-- `build_closure` returns a state of the grammar that holds the closure of the given items.
use mathlib.Core.List.{append-nil}
use mathlib.Core.Path.{subst}
use dparser.Prelude.{
  ℕ, zero, suc, ◌≡◌, ◌↔◌, refl, sym, ap, ◌∙◌, ◌⊎◌, inl, inr, true, false, List, [], ◌∷◌, ◌++◌, none,
  some, arith, length, get_elem?, Bool-cases, Option-cases, has,
}
use dparser.Libc.{Qsort}
use dparser.Libc.Members.{has-qsort}
use dparser.Gram.{Grammar, Item, item_eq_iff, item_Eq}
use dparser.Lr.{
  State, itemcmp, closure_fuel, items_eq, find_state, maybe_add_state, finish_closure,
  build_closure,
}
use dparser.Lr.Closure.{Leads, start, IsValid}
use dparser.Lr.Closure.Loop.{Inv, closure_loop_ends}

pub items_eq_sound : (is js : List Item) → items_eq is js ≡ true → is ≡ js
unfolding items_eq
items_eq_sound [] [] e = refl
items_eq_sound [] (j ∷ js) e = absurd (cc e)
items_eq_sound (i ∷ is) [] e = absurd (cc e)
items_eq_sound (i ∷ is) (j ∷ js) e = ground (arith, items_eq_sound is js, item_eq_iff i j)

pub items_eq_refl : (is : List Item) → items_eq is is ≡ true
unfolding items_eq
items_eq_refl [] = refl
items_eq_refl (i ∷ is) = ground (arith, items_eq_refl is)

-- The states have one state for each item list, each at its index.
abbrev pub At : List State → State → Type 0
At states s = get_elem? states s.index ≡ some s

pub find_state_sound :
    (states : List State) (items : List Item) (s : State)
    → find_state states items ≡ some s
    → (s.items ≡ items) × (k : ℕ) × (get_elem? states k ≡ some s)
unfolding find_state
find_state_sound [] items s e = absurd (cc e)
find_state_sound (t ∷ states) items s e = elim (Bool-cases (items_eq t.items items)) [
  | inl same ↦
      let here : some t ≡ some s = rw (same, find_state) at e in
      let this : t ≡ s = cc in (rw (← this) (items_eq_sound t.items items same), 0, here)
  | inr apart ↦
      let (found, k, at) = find_state_sound states items s (rw (apart, find_state) at e) in
      (found, suc k, at)
]

pub find_state_complete :
    (states : List State) (items : List Item) (k : ℕ) (s : State)
    → find_state states items ≡ none
    → get_elem? states k ≡ some s
    → items_eq s.items items ≡ false
unfolding find_state
find_state_complete [] items k s e at = absurd (cc at)
find_state_complete (t ∷ states) items zero s e at = ground arith
find_state_complete (t ∷ states) items (suc k) s e at =
    ground (arith, find_state_complete states items k s)

-- Each state has its index, and no two states have the same items.
pub record IsTable (states : List State) : Type 0 where
  pub numbered : (k : ℕ) (s : State) → get_elem? states k ≡ some s → s.index ≡ k
  pub unique :
      (j k : ℕ) (s t : State)
      → get_elem? states j ≡ some s
      → get_elem? states k ≡ some t
      → s.items ≡ t.items
      → j ≡ k

pub get_elem?-concat :
    (states : List State) (x s : State) (k : ℕ)
    → get_elem? (states ++ x ∷ []) k ≡ some s
    → (get_elem? states k ≡ some s) ⊎ ((k ≡ length states) × (x ≡ s))
get_elem?-concat [] x s zero e = inr (refl, cc)
get_elem?-concat [] x s (suc k) e = absurd (cc e)
get_elem?-concat (t ∷ states) x s zero e = inl e
get_elem?-concat (t ∷ states) x s (suc k) e = elim (get_elem?-concat states x s k e) [
  | inl old ↦ inl old
  | inr (last, same) ↦ inr (omega arith, same)
]

pub get_elem?-last :
    (states : List State) (x : State) → get_elem? (states ++ x ∷ []) (length states) ≡ some x
get_elem?-last [] x = refl
get_elem?-last (t ∷ states) x = get_elem?-last states x

-- A new state behind a table none of whose states has its items.
pub IsTable-concat :
    (states : List State) (x : State)
    → IsTable states
    → x.index ≡ length states
    → find_state states x.items ≡ none
    → IsTable (states ++ x ∷ [])
IsTable-concat states x h index fresh = record {
  numbered = λ k s at. elim (get_elem?-concat states x s k at) [
    | inl old ↦ h.numbered k s old
    | inr (last, same) ↦ rw (← same) (index ∙ sym last)
  ];
  unique = λ j k s t at at' e. elim (get_elem?-concat states x s j at) [
    | inl old ↦ elim (get_elem?-concat states x t k at') [
      | inl old' ↦ h.unique j k s t old old' e
      | inr (last', same') ↦ absurd (clash j s old (e ∙ sym (ap (λ q. q.items) same')))
    ]
    | inr (last, same) ↦ elim (get_elem?-concat states x t k at') [
      | inl old' ↦ absurd (clash k t old' (sym e ∙ sym (ap (λ q. q.items) same)))
      | inr (last', same') ↦ last ∙ sym last'
    ]
  ];
}
  where
    clash : (k : ℕ) (s : State) → get_elem? states k ≡ some s → s.items ≡ x.items → ⊥
    clash k s at e =
        let apart : items_eq s.items x.items ≡ false =
          find_state_complete states x.items k s fresh at in
        cc (items_eq_refl x.items, rw e at apart)

-- The state that stands for `s`, in a table that keeps its states and their numbers.
pub record Stands (states : List State) (s : State) (r : List State × State) : Type 0 where
  pub table : IsTable r.0
  pub listed : At r.0 r.1
  pub same_items : r.1.items ≡ s.items
  pub appended : (new : List State) × (r.0 ≡ states ++ new)

pub maybe_add_state-Stands :
    (states : List State) (s : State) → IsTable states → Stands states s (maybe_add_state states s)
unfolding maybe_add_state
maybe_add_state-Stands states s h = elim (Option-cases (find_state states s.items)) [
  | inl fresh ↦
      let x = record s { index = length states } in
      rw (fresh, maybe_add_state)
        (record {
          table = IsTable-concat states x h refl fresh;
          listed = get_elem?-last states x;
          same_items = refl;
          appended = (x ∷ [], refl);
        })
  | inr (ss, found) ↦
      let (same, k, at) = find_state_sound states s.items ss found in
      rw (found, maybe_add_state)
        (record {
          table = h;
          listed = subst (λ n. get_elem? states n ≡ some ss) (sym (h.numbered k ss at)) at;
          same_items = same;
          appended = ([], sym (append-nil states));
        })
]

-- For a state with no item twice, `build_closure` ends; the state that it returns stands in the
-- table at its index, holds exactly the items that those of the given state lead to, and is the only
-- one with these items; the states that were there stay as they are.
pub build_closure-Leads :
    (libc : Qsort) (g : Grammar) (states : List State) (s : State)
    → IsTable states
    → IsValid s
    → (r : List State × State) × (build_closure libc g states s ≡ some r)
      × IsTable r.0
      × At r.0 r.1
      × ((i : Item) → (has r.1.items i ≡ true) ↔ Leads g s.items i)
      × (new : List State) × (r.0 ≡ states ++ new)
unfolding build_closure finish_closure
build_closure-Leads libc g states s table valid =
    let (closed, e, c) = closure_loop_ends g s.items (closure_fuel g s) 0 s initial (omega arith) in
    let done = finish_closure libc g closed in
    let r = maybe_add_state states done in
    let st = maybe_add_state-Stands states done table in
    let same =
      λ (i : Item). ap (λ q. has q i) st.same_items ∙ has-qsort libc itemcmp closed.items i in
    (
      r,
      rw (e, build_closure),
      st.table,
      st.listed,
      λ i. (λ held. (c.exact i).0 (sym (same i) ∙ held), λ l. same i ∙ (c.exact i).1 l),
      st.appended.0,
      st.appended.1,
    )
  where
    initial : Inv g s.items 0 s
    initial = record {
      valid = valid;
      sound = λ i held. start held;
      kept = λ i held. held;
      closed = λ i r seen rule. absurd (cc seen);
      read = omega arith;
    }
