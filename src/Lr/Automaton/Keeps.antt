-- ===== src/Lr/Automaton/Keeps.antt =====
-- What a step of `build_new_states` leaves as it was.
use mathlib.Core.Path.{subst}
use dparser.Prelude.{
  ℕ, zero, suc, ◌≤◌, ◌<◌, ◌≡◌, ◌↔◌, refl, sym, ap, ◌∙◌, ◌⊎◌, inl, inr, true, false, List, [], ◌∷◌,
  ◌++◌, Option, none, some, arith, ◌==◌, ==_iff, length, set, get_elem?, get_elem?-set_self,
  get_elem?-set_ne, length-set, Bool-cases, Option-cases, has, nat_eq,
}
use dparser.Gram.{Symbol, Grammar, Item, item_Eq}
use dparser.Lr.{State}
use dparser.Lr.Closure.{Leads}
use dparser.Lr.Gotos.{met}
use dparser.Lr.Gotos.Target.{advanced, get_elem?-append, get_elem?-within}
use dparser.Lr.Automaton.Added.{Added}

-- Where the goto of a state with these items by `x` leads.
pub data Edge (g : Grammar) (states : List State) (items : List Item) (x : Symbol)
    : Option ℕ → Type 0 where
  nowhere : met g x items ≡ false → Edge g states items x none
  leads :
      {t : ℕ} {target : State}
      → get_elem? states t ≡ some target
      → ((i : Item) → (has target.items i ≡ true) ↔ Leads g (advanced g x items) i)
      → Edge g states items x (some t)

-- The states keep their items, and all but state `k` their gotos; new states have none.
pub record Keeps (k : ℕ) (states states' : List State) : Type 0 where
  pub old :
      (j : ℕ) (u : State)
      → get_elem? states j ≡ some u
      → (u' : State) × (get_elem? states' j ≡ some u')
        × (u'.items ≡ u.items)
        × ((k == j) ≡ false → u'.gotos ≡ u.gotos)
  pub fresh :
      (j : ℕ) (u' : State) → get_elem? states' j ≡ some u' → length states ≤ j → u'.gotos ≡ []

pub Edge-Keeps :
    (g : Grammar) (k : ℕ) (states states' : List State) (items : List Item) (x : Symbol)
    (o : Option ℕ)
    → Keeps k states states'
    → Edge g states items x o
    → Edge g states' items x o
Edge-Keeps g k states states' items x none keeps (nowhere h) = nowhere h
Edge-Keeps g k states states' items x (some t) keeps (leads {target = target} at exact) =
    let (target', at', same, _) = keeps.old t target at in
    leads at' (λ i. (
      λ held. (exact i).0 (sym (ap (λ l. has l i) same) ∙ held),
      λ l. ap (λ l. has l i) same ∙ (exact i).1 l,
    ))

pub set_old :
    (states : List State) (k j : ℕ) (v u : State)
    → get_elem? states j ≡ some u
    → ((k ≡ j) × (get_elem? (set states k v) j ≡ some v))
      ⊎ (((k == j) ≡ false) × (get_elem? (set states k v) j ≡ some u))
set_old states k j v u at = elim (Bool-cases (k == j)) [
  | inl self ↦
      let e : k ≡ j = (==_iff k j).0 self in
      inl (
        e,
        subst (λ n. get_elem? (set states k v) n ≡ some v) e
            (get_elem?-set_self states k v (omega (arith, e, get_elem?-within states j u at))),
      )
  | inr other ↦ inr (other, get_elem?-set_ne states v (λ e. ground (arith, e)) ∙ at)
]

pub set_new :
    (states : List State) (k j : ℕ) (s v u' : State)
    → get_elem? states k ≡ some s
    → get_elem? (set states k v) j ≡ some u'
    → ((k ≡ j) × (v ≡ u')) ⊎ (((k == j) ≡ false) × (get_elem? states j ≡ some u'))
set_new states k j s v u' here at = elim (Bool-cases (k == j)) [
  | inl self ↦
      let e : k ≡ j = (==_iff k j).0 self in
      let there = get_elem?-set_self states k v (get_elem?-within states k s here) in
      let there' = subst (λ n. get_elem? (set states k v) n ≡ some v) e there in
      inl (e, cc (there', at))
  | inr other ↦ inr (other, sym (get_elem?-set_ne states v (λ e. ground (arith, e))) ∙ at)
]

-- A new goto of state `k`, which has the items of before.
pub set-Keeps :
    (states : List State) (k : ℕ) (s v : State)
    → get_elem? states k ≡ some s
    → v.items ≡ s.items
    → Keeps k states (set states k v)
set-Keeps states k s v here items = record {
  old = λ j u at. elim (set_old states k j v u at) [
    | inl (e, there) ↦
        let this : s ≡ u = cc (subst (λ n. get_elem? states n ≡ some s) e here, at) in
        (
          v,
          there,
          items ∙ ap (λ (t : State). t.items) this,
          λ apart. absurd (ground (arith, e, apart)),
        )
    | inr (other, there) ↦ (u, there, refl, λ _. refl)
  ];
  fresh = λ j u' at late.
      absurd
        (omega (arith, late, length-set states k v, get_elem?-within (set states k v) j u' at));
}

pub grown-Keeps :
    (g : Grammar) (all : List Item) (k : ℕ) (states : List State) (items : List Item)
    (r : List State × State)
    → Added g all states items r
    → Keeps k states r.0
grown-Keeps g all k states items r added = elim added.grown [
  | inl same ↦ record {
    old = λ j u at. (u, rw same at, refl, λ _. refl);
    fresh =
        λ j u' at late. absurd (omega (arith, late, get_elem?-within r.0 j u' at, ap length same));
  }
  | inr (grown, gotos) ↦ record {
    old = λ j u at. (u, rw grown (get_elem?-append states (r.1 ∷ []) j u at), refl, λ _. refl);
    fresh = λ j u' at late.
        let this = last_of states r.1 u' j (rw grown at at) late in
        ap (λ (t : State). t.gotos) (sym this) ∙ gotos;
  }
]
  where
    last_of :
        (states : List State) (x u : State) (j : ℕ)
        → get_elem? (states ++ x ∷ []) j ≡ some u
        → length states ≤ j
        → x ≡ u
    last_of [] x u zero at late = cc at
    last_of [] x u (suc j) at late = absurd (cc at)
    last_of (t ∷ states) x u zero at late = absurd (omega arith)
    last_of (t ∷ states) x u (suc j) at late = last_of states x u j at (omega arith)

pub Keeps-refl : (k : ℕ) (states : List State) → Keeps k states states
Keeps-refl k states = record {
  old = λ j u at. (u, at, refl, λ _. refl);
  fresh = λ j u at late. absurd (omega (arith, late, get_elem?-within states j u at));
}

pub get_elem?-outside : (xs : List State) (j : ℕ) → get_elem? xs j ≡ none → length xs ≤ j
get_elem?-outside [] j e = omega arith
get_elem?-outside (x ∷ xs) zero e = absurd (cc e)
get_elem?-outside (x ∷ xs) (suc j) e = omega (arith, get_elem?-outside xs j e)

pub Keeps-trans :
    (k : ℕ) (s : State) (states states' states'' : List State)
    → get_elem? states k ≡ some s
    → Keeps k states states'
    → Keeps k states' states''
    → Keeps k states states''
Keeps-trans k s states states' states'' here a b = record {
  old = λ j u at.
      let (u', at', items, gotos) = a.old j u at in
      let (u'', at'', items', gotos') = b.old j u' at' in
      (u'', at'', items' ∙ items, λ apart. gotos' apart ∙ gotos apart);
  fresh = λ j u'' at'' late. elim (Option-cases (get_elem? states' j)) [
    | inl outside ↦ b.fresh j u'' at'' (get_elem?-outside states' j outside)
    | inr (u', at') ↦
        let (v, at_v, _, gotos) = b.old j u' at' in
        let this : v ≡ u'' = cc (at_v, at'') in
        let apart : (k == j) ≡ false =
          later k j (omega (arith, get_elem?-within states k s here, late)) in
        ap (λ (q : State). q.gotos) (sym this) ∙ gotos apart ∙ a.fresh j u' at' late
  ];
}
  where
    later : (k j : ℕ) → k < j → (k == j) ≡ false
    later k j h = ground arith
