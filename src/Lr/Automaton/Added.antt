-- ===== src/Lr/Automaton/Added.antt =====
-- The states behind a call of `build_closure`: those before it, or these and one more without gotos.
use dparser.Prelude.{
  ℕ, zero, suc, ◌≡◌, ◌↔◌, refl, sym, ap, ◌∙◌, ◌⊎◌, inl, inr, true, List, [], ◌∷◌, ◌++◌, some,
  length, get_elem?, Bool-cases, Option-cases, has, distinct, nat_eq,
}
use mathlib.Core.Path.{subst}
use dparser.Libc.{Qsort}
use dparser.Gram.{Grammar, Item, item_Eq}
use dparser.Lr.{
  State, itemcmp, insert_item, insert_rules, expand, closure_loop, closure_fuel, find_state,
  maybe_add_state, finish_closure, build_closure,
}
use dparser.Lr.Closure.{Leads, IsValid, insert_rules-Inserts, rules_at, expand-eq}
use dparser.Libc.Members.{distinct-qsort}
use dparser.Lr.Closure.Build.{IsTable, At, build_closure-Leads}
use dparser.Lr.Automaton.{all_items}
use dparser.Lr.Automaton.Universe.{Leads-all_items}
use dparser.Lr.Automaton.Count.{Fits, AllFit}

pub insert_item-gotos : (s : State) (i : Item) → (insert_item s i).0.gotos ≡ s.gotos
unfolding insert_item
insert_item-gotos s i = elim (Bool-cases (has s.items_hash i)) [
  | inl old ↦ rw old refl
  | inr new ↦ rw new refl
]

insert_rules-gotos : (s : State) (rs : List ℕ) → (insert_rules s rs).gotos ≡ s.gotos
unfolding insert_rules
insert_rules-gotos s [] = refl
insert_rules-gotos s (r ∷ rs) = insert_rules-gotos (insert_item s _).0 rs ∙ insert_item-gotos s _

closure_loop-kept :
    (g : Grammar) (fuel j : ℕ) (s s' : State)
    → closure_loop g fuel j s ≡ some s'
    → IsValid s
    → IsValid s' × (s'.gotos ≡ s.gotos)
unfolding closure_loop
closure_loop-kept g zero j s s' run valid = absurd (cc run)
closure_loop-kept g (suc fuel) j s s' run valid = elim (Option-cases (get_elem? s.items j)) [
  | inl end ↦
      let done : some s ≡ some s' = rw (end, closure_loop) at run in
      let this : s ≡ s' = cc done in
      (subst IsValid this valid, ap (λ (t : State). t.gotos) (sym this))
  | inr (i, at) ↦
      let same = expand-eq g s i in
      let step = insert_rules-Inserts s (rules_at g i) valid in
      let (valid', gotos) =
        closure_loop-kept g fuel (suc j) (expand g s i) s' (rw (at, closure_loop) at run)
          (subst IsValid (sym same) step.valid) in
      (valid', gotos ∙ ap (λ (t : State). t.gotos) same ∙ insert_rules-gotos s (rules_at g i))
]

module _ (libc : Qsort) (g : Grammar) where
  build_closure-grown :
      (states : List State) (s : State) (r : List State × State)
      → build_closure libc g states s ≡ some r
      → IsValid s
      → s.gotos ≡ []
      → (r.0 ≡ states)
        ⊎ ((r.0 ≡ states ++ r.1 ∷ []) × (r.1.gotos ≡ []) × (distinct r.1.items ≡ true))
  unfolding build_closure finish_closure maybe_add_state
  build_closure-grown states s r run valid none_yet =
      elim (Option-cases (closure_loop g (closure_fuel g s) 0 s)) [
        | inl nothing ↦ absurd (cc (rw (nothing, build_closure) at run))
        | inr (closed, e) ↦
            let done = finish_closure libc g closed in
            let (valid', gotos) = closure_loop-kept g (closure_fuel g s) 0 s closed e valid in
            let result : some (maybe_add_state states done) ≡ some r =
              rw (e, build_closure) at run in
            let this : maybe_add_state states done ≡ r = cc result in
            elim (Option-cases (find_state states done.items)) [
              | inr (ss, found) ↦ inl (
                  sym (ap (λ (q : List State × State). q.0) this)
                  ∙ rw (found, maybe_add_state) refl)
              | inl fresh ↦
                  let x = record done { index = length states } in
                  let new : maybe_add_state states done ≡ (states ++ x ∷ [], x) =
                    rw (fresh, maybe_add_state) refl in
                  let that : (states ++ x ∷ [], x) ≡ r = sym new ∙ this in
                  inr (
                    subst (λ (q : List State × State). q.0 ≡ states ++ q.1 ∷ []) that refl,
                    subst (λ (q : List State × State). q.1.gotos ≡ []) that (gotos ∙ none_yet),
                    subst (λ (q : List State × State). distinct q.1.items ≡ true) that
                        (distinct-qsort libc itemcmp closed.items valid'.once),
                  )
            ]
      ]

-- What a call adds to a table whose states hold items of `all`.
pub record Added (g : Grammar) (all : List Item) (states : List State) (items : List Item)
    (r : List State × State) : Type 0 where
  pub table : IsTable r.0
  pub listed : At r.0 r.1
  pub exact : (i : Item) → (has r.1.items i ≡ true) ↔ Leads g items i
  pub fit : AllFit all r.0
  pub grown : (r.0 ≡ states) ⊎ ((r.0 ≡ states ++ r.1 ∷ []) × (r.1.gotos ≡ []))

pub get_elem?-new :
    (states : List State) (x s : State) (k : ℕ)
    → get_elem? (states ++ x ∷ []) k ≡ some s
    → (get_elem? states k ≡ some s) ⊎ (x ≡ s)
get_elem?-new [] x s zero e = inr (cc e)
get_elem?-new [] x s (suc k) e = absurd (cc e)
get_elem?-new (t ∷ states) x s zero e = inl e
get_elem?-new (t ∷ states) x s (suc k) e = get_elem?-new states x s k e

pub build_closure-Added :
    (libc : Qsort) (g : Grammar) (kernel : List Item) (states : List State) (s : State)
    → IsTable states
    → AllFit (all_items g kernel) states
    → IsValid s
    → s.gotos ≡ []
    → ((i : Item) → has s.items i ≡ true → has (all_items g kernel) i ≡ true)
    → (r : List State × State) × (build_closure libc g states s ≡ some r)
      × Added g (all_items g kernel) states s.items r
build_closure-Added libc g kernel states s table fit valid none_yet sub =
    let (r, run, table', listed, exact, _, _) = build_closure-Leads libc g states s table valid in
    let inside = λ (i : Item) (held : has r.1.items i ≡ true).
      Leads-all_items g kernel ((exact i).0 held) sub in
    elim (build_closure-grown libc g states s r run valid none_yet) [
      | inl same ↦ (
        r,
        run,
        record {
          table = table';
          listed = listed;
          exact = exact;
          fit = subst (AllFit (all_items g kernel)) (sym same) fit;
          grown = inl same;
        },
      )
      | inr (added, gotos, once) ↦ (
        r,
        run,
        record {
          table = table';
          listed = listed;
          exact = exact;
          fit = λ k t at. elim (get_elem?-new states r.1 t k (rw added at at)) [
            | inl old ↦ fit k t old
            | inr this ↦
                subst (Fits (all_items g kernel)) this (record { once = once; inside = inside })
          ];
          grown = inr (added, gotos);
        },
      )
    ]
