-- ===== src/Lr/Automaton/Language.antt =====
-- The runs of the automaton: the items behind the symbols that were read.
use mathlib.Core.Path.{subst}
use dparser.Prelude.{
  ℕ, ◌≡◌, ◌↔◌, refl, ap, ◌∙◌, inl, inr, true, false, ◌&&◌, List, [], ◌∷◌, Option, none, some, arith,
  get_elem?, Bool-cases, Option-cases, has, nat_eq,
}
use dparser.Libc.{Qsort}
use dparser.Gram.{
  Symbol, Grammar, Item, nterm, symbol_at, symbol_eq, symbol_eq_iff, item_eq, item_eq_iff, item_Eq,
  rules_of,
}
use dparser.Lr.{State, next_elem, first_item}
use dparser.Lr.Closure.{Leads, start, enter}
use dparser.Lr.Actions.{goto_state}
use dparser.Lr.Gotos.{stands_before, met}
use dparser.Lr.Gotos.Target.{advanced}
use dparser.Lr.Automaton.Keeps.{Edge, nowhere, leads}
use dparser.Lr.Automaton.Sorted.{AllEdges}

-- The items that are reached behind some symbols, of which the list has the last one first: from the
-- first item, by moving behind a symbol that is read, and into the rules of a production.
pub data After (g : Grammar) (first : Item) : List Symbol → Item → Type 0 where
  begins : After g first [] first
  enters :
      {w : List Symbol} {i : Item} {p r : ℕ}
      → After g first w i
      → symbol_at g i ≡ some (nterm p)
      → has (rules_of g p) r ≡ true
      → After g first w (first_item r)
  moves :
      {w : List Symbol} {i : Item} {x : Symbol}
      → After g first w i
      → symbol_at g i ≡ some x
      → After g first (x ∷ w) (next_elem g i)

-- The state behind some symbols, from the first state on.
abbrev pub state_after : List State → List Symbol → Option ℕ
state_after states [] = some 0
state_after states (x ∷ w) = elim (state_after states w) [
  | none ↦ none
  | some k ↦ elim (get_elem? states k) [ none ↦ none | some s ↦ goto_state s.gotos x ]
]

-- What the outcome says of the symbols.
pub data Ends (g : Grammar) (first : Item) (states : List State) (w : List Symbol)
    : Option ℕ → Type 0 where
  dead : ((i : Item) → After g first w i → ⊥) → Ends g first states w none
  alive :
      {k : ℕ} {s : State}
      → get_elem? states k ≡ some s
      → ((i : Item) → (has s.items i ≡ true) ↔ After g first w i)
      → Ends g first states w (some k)

module _ (g : Grammar) where
  stands_of : (x : Symbol) (i : Item) → symbol_at g i ≡ some x → stands_before g x i ≡ true
  unfolding stands_before
  stands_of x i e = rw (e, stands_before) ((symbol_eq_iff x x).1 refl)

  symbol_of : (x : Symbol) (i : Item) → stands_before g x i ≡ true → symbol_at g i ≡ some x
  unfolding stands_before
  symbol_of x i h = elim (Option-cases (symbol_at g i)) [
    | inl end ↦ absurd (cc (rw (end, stands_before) at h))
    | inr (y, at) ↦
        let same : symbol_eq y x ≡ true = rw (at, stands_before) at h in
        at ∙ ap some ((symbol_eq_iff y x).0 same)
  ]

  has-advanced :
      (x : Symbol) (items : List Item) (i : Item)
      → has items i ≡ true
      → stands_before g x i ≡ true
      → has (advanced g x items) (next_elem g i) ≡ true
  has-advanced x [] i held stands = absurd (cc held)
  has-advanced x (j ∷ items) i held stands = elim (Bool-cases (item_eq j i)) [
    | inl here ↦
        let this : j ≡ i = (item_eq_iff j i).0 here in
        let stands_j : stands_before g x j ≡ true = ap (stands_before g x) this ∙ stands in
        let next = (item_eq_iff (next_elem g j) (next_elem g i)).1 (ap (next_elem g) this) in
        ground (arith, stands_j, next)
    | inr other ↦
        let rest = has-advanced x items i (ground (arith, held, other)) stands in
        ground (arith, rest)
  ]

  advanced_from :
      (x : Symbol) (items : List Item) (j : Item)
      → has (advanced g x items) j ≡ true
      → (i : Item) × (has items i ≡ true) × (stands_before g x i ≡ true) × (next_elem g i ≡ j)
  advanced_from x [] j h = absurd (cc h)
  advanced_from x (i ∷ items) j h =
      elim (Bool-cases (stands_before g x i && item_eq (next_elem g i) j)) [
        | inl here ↦ (
          i,
          ground (arith, item_eq_iff i i),
          ground arith,
          (item_eq_iff (next_elem g i) j).0 (ground arith),
        )
        | inr other ↦
            let (k, held, stands, e) = advanced_from x items j (ground (arith, h, other)) in
            (k, ground (arith, held), stands, e)
      ]

  met_of :
      (x : Symbol) (items : List Item) (i : Item)
      → has items i ≡ true
      → stands_before g x i ≡ true
      → met g x items ≡ true
  unfolding met
  met_of x [] i held stands = absurd (cc held)
  met_of x (j ∷ items) i held stands = elim (Bool-cases (item_eq j i)) [
    | inl here ↦
        let stands_j : stands_before g x j ≡ true =
          ap (stands_before g x) ((item_eq_iff j i).0 here) ∙ stands in
        ground arith
    | inr other ↦ ground (arith, met_of x items i (ground (arith, held, other)) stands)
  ]

  module _ (first : Item) where
    pub Leads-After : {i : Item} → Leads g (first ∷ []) i → After g first [] i
    Leads-After (start {i} held) =
        subst (After g first []) ((item_eq_iff first i).0 (ground (arith, held))) begins
    Leads-After (enter l at member) = enters (Leads-After l) at member

    pub After-Leads :
        {w : List Symbol} {i : Item} → After g first w i → w ≡ [] → Leads g (first ∷ []) i
    After-Leads begins e = start (ground (arith, item_eq_iff first first))
    After-Leads (enters a at member) e = enter (After-Leads a e) at member
    After-Leads (moves a at) e = absurd (cc e)

    module _ (items : List Item) (w : List Symbol)
        (exact : (i : Item) → (has items i ≡ true) ↔ After g first w i) where
      Leads-After-moved :
          (x : Symbol) {i : Item} → Leads g (advanced g x items) i → After g first (x ∷ w) i
      Leads-After-moved x (start {i} held) =
          let (j, member, stands, e) = advanced_from x items i held in
          subst (After g first (x ∷ w)) e (moves ((exact j).0 member) (symbol_of x j stands))
      Leads-After-moved x (enter l at member) = enters (Leads-After-moved x l) at member

      After-moved-Leads :
          (x : Symbol) {v : List Symbol} {i : Item}
          → After g first v i
          → v ≡ x ∷ w
          → Leads g (advanced g x items) i
      After-moved-Leads x begins e = absurd (cc e)
      After-moved-Leads x (enters a at member) e = enter (After-moved-Leads x a e) at member
      After-moved-Leads x (moves {w = u} {i = j} {x = y} a at) e =
          let symbol : y ≡ x = cc e in
          let rest : u ≡ w = cc e in
          let member = (exact j).1 (subst (λ l. After g first l j) rest a) in
          start (has-advanced x items j member (stands_of x j (at ∙ ap some symbol)))

      After-nowhere :
          (x : Symbol) {v : List Symbol} {i : Item}
          → met g x items ≡ false
          → After g first v i
          → v ≡ x ∷ w
          → ⊥
      After-nowhere x no_item begins e = cc e
      After-nowhere x no_item (enters a at member) e = After-nowhere x no_item a e
      After-nowhere x no_item (moves {w = u} {i = j} {x = y} a at) e =
          let symbol : y ≡ x = cc e in
          let rest : u ≡ w = cc e in
          let member = (exact j).1 (subst (λ l. After g first l j) rest a) in
          cc (met_of x items j member (stands_of x j (at ∙ ap some symbol)), no_item)

    After-dead :
        (w : List Symbol) (x : Symbol) {v : List Symbol} {i : Item}
        → ((j : Item) → After g first w j → ⊥)
        → After g first v i
        → v ≡ x ∷ w
        → ⊥
    After-dead w x none_there begins e = cc e
    After-dead w x none_there (enters a at member) e = After-dead w x none_there a e
    After-dead w x none_there (moves {w = u} {i = j} a at) e =
        let rest : u ≡ w = cc e in none_there j (subst (λ l. After g first l j) rest a)

    Ends-goto :
        (states : List State) (w : List Symbol) (x : Symbol) (items : List Item) (o : Option ℕ)
        → ((i : Item) → (has items i ≡ true) ↔ After g first w i)
        → Edge g states items x o
        → Ends g first states (x ∷ w) o
    Ends-goto states w x items none exact (nowhere h) =
        dead (λ i a. After-nowhere items w exact x h a refl)
    Ends-goto states w x items (some t) exact (leads at edge) = alive at (λ i. (
      λ held. Leads-After-moved items w exact x ((edge i).0 held),
      λ a. (edge i).1 (After-moved-Leads items w exact x a refl),
    ))

    Ends-step :
        (libc : Qsort) (states : List State) (w : List Symbol) (x : Symbol) (o : Option ℕ)
        → AllEdges libc g states
        → Ends g first states w o
        → Ends g first states (x ∷ w) (elim o [
          | none ↦ none
          | some k ↦ elim (get_elem? states k) [ none ↦ none | some s ↦ goto_state s.gotos x ]
        ])
    Ends-step libc states w x none edges (dead h) = dead (λ i a. After-dead w x h a refl)
    Ends-step libc states w x (some k) edges (alive {s = s} at exact) =
        rw at (Ends-goto states w x s.items (goto_state s.gotos x) exact (edges k s x at))

    pub state_after-Ends :
        (libc : Qsort) (states : List State) (s : State)
        → AllEdges libc g states
        → get_elem? states 0 ≡ some s
        → ((i : Item) → (has s.items i ≡ true) ↔ Leads g (first ∷ []) i)
        → (w : List Symbol) → Ends g first states w (state_after states w)
    state_after-Ends libc states s edges at exact [] =
        alive at
          (λ i. (λ held. Leads-After ((exact i).0 held), λ a. (exact i).1 (After-Leads a refl)))
    state_after-Ends libc states s edges at exact (x ∷ w) =
        Ends-step libc states w x (state_after states w) edges
          (state_after-Ends libc states s edges at exact w)
