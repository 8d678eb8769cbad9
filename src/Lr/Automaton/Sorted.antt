-- ===== src/Lr/Automaton/Sorted.antt =====
-- `sort_Gotos` keeps where the gotos lead.
use mathlib.Core.Path.{subst}
use dparser.Prelude.{
  ℕ, zero, suc, ◌≤◌, ◌<◌, ◌≡◌, refl, sym, ap, ◌∙◌, inl, inr, Bool, ◌&&◌, List, [], ◌∷◌, Option,
  none, some, arith, ◌==◌, ==_iff, get_elem?, Bool-cases, Option-cases, nat_eq,
}
use dparser.Libc.{Qsort, count_if}
use dparser.Gram.{Symbol, Grammar, Item, item_Eq}
use dparser.Lr.{Goto, State}
use dparser.Lr.Actions.{goto_state}
use dparser.Lr.Automaton.Keeps.{Edge, nowhere, leads}
use dparser.Lr.Automaton.Visit.{by, count_of_none}
use dparser.Lr.Gotos.{gotocmp, sort_gotos}
use dparser.Lr.Automaton.Loop.{Visited}

-- The goto by `x` to state `t`
abbrev leads_to : Symbol → ℕ → Goto → Bool
leads_to x t q = by x q && q.state == t

count_leads :
    (x : Symbol) (t : ℕ) (gotos : List Goto) → count_if (leads_to x t) gotos ≤ count_if (by x) gotos
count_leads x t [] = omega arith
count_leads x t (q ∷ gotos) = ground (arith, count_leads x t gotos)

goto_of_count :
    (gotos : List Goto) (x : Symbol) (t : ℕ)
    → count_if (by x) gotos ≤ 1
    → 0 < count_if (leads_to x t) gotos
    → goto_state gotos x ≡ some t
unfolding goto_state
goto_of_count [] x t one h = absurd (omega arith)
goto_of_count (q ∷ gotos) x t one h = elim (Bool-cases (by x q)) [
  | inl here ↦
      let rest = count_leads x t gotos in
      let this : q.state ≡ t = (==_iff q.state t).0 (ground (arith, rest, one, h, here)) in
      rw (here, goto_state) (ap some this)
  | inr other ↦
      rw (other, goto_state)
        (goto_of_count gotos x t (ground (arith, one, other)) (ground (arith, h, other)))
]

count_of_goto :
    (gotos : List Goto) (x : Symbol) (t : ℕ)
    → goto_state gotos x ≡ some t
    → 0 < count_if (leads_to x t) gotos
unfolding goto_state
count_of_goto [] x t e = absurd (cc e)
count_of_goto (q ∷ gotos) x t e = elim (Bool-cases (by x q)) [
  | inl here ↦
      let found : some q.state ≡ some t = rw (here, goto_state) at e in
      let this : q.state ≡ t = cc found in ground (arith, here, ==_iff q.state t, this)
  | inr other ↦
      let rest = count_of_goto gotos x t (rw (other, goto_state) at e) in
      ground (arith, rest, other)
]

none_of_count :
    (gotos : List Goto) (x : Symbol) → count_if (by x) gotos ≡ 0 → goto_state gotos x ≡ none
unfolding goto_state
none_of_count [] x h = refl
none_of_count (q ∷ gotos) x h = elim (Bool-cases (by x q)) [
  | inl here ↦ absurd (ground (arith, h, here))
  | inr other ↦ rw (other, goto_state) (none_of_count gotos x (ground (arith, h, other)))
]

module _ (libc : Qsort) (g : Grammar) where
  abbrev sorted : List Goto → List Goto
  sorted gotos = libc.qsort Goto gotocmp gotos

  goto_state-qsort :
      (gotos : List Goto) (x : Symbol)
      → count_if (by x) gotos ≤ 1
      → goto_state (sorted gotos) x ≡ goto_state gotos x
  goto_state-qsort gotos x one = elim (Option-cases (goto_state gotos x)) [
    | inl nothing ↦
        none_of_count (sorted gotos) x
          (libc.qsort-count Goto gotocmp (by x) gotos ∙ count_of_none gotos x nothing)
        ∙ sym nothing
    | inr (t, found) ↦
        goto_of_count (sorted gotos) x t (omega (arith, libc.qsort-count Goto gotocmp (by x) gotos))
          (omega (
            arith,
            libc.qsort-count Goto gotocmp (leads_to x t) gotos,
            count_of_goto gotos x t found,
          ))
        ∙ sym found
  ]

  abbrev pub sorted_state : State → State
  sorted_state s = record s { gotos = sorted s.gotos }

  pub at_sorted :
      (states : List State) (k : ℕ) (s : State)
      → get_elem? states k ≡ some s
      → get_elem? (sort_gotos libc g states) k ≡ some (sorted_state s)
  unfolding sort_gotos
  at_sorted [] k s e = absurd (cc e)
  at_sorted (t ∷ states) zero s e = let this : t ≡ s = cc e in ap (λ q. some (sorted_state q)) this
  at_sorted (t ∷ states) (suc k) s e = at_sorted states k s e

  before_sorted :
      (states : List State) (k : ℕ) (s' : State)
      → get_elem? (sort_gotos libc g states) k ≡ some s'
      → (s : State) × (get_elem? states k ≡ some s) × (sorted_state s ≡ s')
  unfolding sort_gotos
  before_sorted [] k s' e = absurd (cc e)
  before_sorted (t ∷ states) zero s' e = (t, refl, cc e)
  before_sorted (t ∷ states) (suc k) s' e = before_sorted states k s' e

  sorted-Edge :
      (states : List State) (items : List Item) (x : Symbol) (o : Option ℕ)
      → Edge g states items x o
      → Edge g (sort_gotos libc g states) items x o
  sorted-Edge states items x none (nowhere h) = nowhere h
  sorted-Edge states items x (some t) (leads {target = target} at exact) =
      leads (at_sorted states t target at) exact

  -- Every state has its gotos, also behind the sort.
  abbrev pub AllEdges : List State → Type 0
  AllEdges states =
      (k : ℕ) (s : State) (x : Symbol)
      → get_elem? states k ≡ some s
      → Edge g states s.items x (goto_state s.gotos x)

  pub sort_gotos-AllEdges :
      (states : List State)
      → ((k : ℕ) (s : State) → get_elem? states k ≡ some s → Visited g states s)
      → AllEdges (sort_gotos libc g states)
  sort_gotos-AllEdges states h k s' x at =
      let (s, at_s, this) = before_sorted states k s' at in
      let v = h k s at_s in
      subst (λ (q : State). Edge g (sort_gotos libc g states) q.items x (goto_state q.gotos x)) this
        (subst (λ o. Edge g (sort_gotos libc g states) s.items x o)
          (sym (goto_state-qsort s.gotos x (v.unique x)))
          (sorted-Edge states s.items x (goto_state s.gotos x) (v.edges x)))
