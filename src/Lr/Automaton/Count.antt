-- ===== src/Lr/Automaton/Count.antt =====
-- There are no more states than lists of different items.
use mathlib.Core.Path.{subst}
use dparser.Prelude.{
  ◌↔◌, or_left, or_right, ℕ, zero, suc, ◌+◌, ◌*◌, ◌≤◌, ◌≡◌, refl, sym, ap, ◌∙◌, inl, inr, true,
  List, [], ◌∷◌, ◌++◌, map, some, arith, length, get_elem?, length-append, length-map, Bool-cases,
  Eq, has, distinct, has-append, pigeonhole, nat_eq,
}
use dparser.Gram.{Item, item_eq, item_eq_iff, item_Eq}
use dparser.Lr.{State, items_eq}
use dparser.Lr.Closure.Build.{IsTable, items_eq_sound, items_eq_refl}
use dparser.Lr.Automaton.{list_count}

items_eq_iff : (is js : List Item) → (items_eq is js ≡ true) ↔ (is ≡ js)
items_eq_iff is js = (items_eq_sound is js, λ e. ap (items_eq is) (sym e) ∙ items_eq_refl is)

instance abbrev items_Eq : Eq (List Item)
items_Eq = record { beq = items_eq; beq_iff = items_eq_iff }

-- The lists of at most `k` elements of `all`.
abbrev each : List Item → List (List Item) → List (List Item)
each [] lists = []
each (i ∷ all) lists = map (λ l. i ∷ l) lists ++ each all lists

abbrev lists_of : List Item → ℕ → List (List Item)
lists_of all zero = [] ∷ []
lists_of all (suc k) = [] ∷ each all (lists_of all k)

length-each :
    (all : List Item) (lists : List (List Item))
    → length (each all lists) ≡ length all * length lists
length-each [] lists = omega arith
length-each (i ∷ all) lists =
    length-append (map (λ l. i ∷ l) lists) (each all lists)
    ∙ ap (λ n. n + length (each all lists)) (length-map lists (λ l. i ∷ l))
    ∙ ap (λ n. length lists + n) (length-each all lists)
    ∙ sym (suc_mul (length all) (length lists))
  where
    suc_mul : (a b : ℕ) → suc a * b ≡ b + a * b
    suc_mul a b = omega arith

length-lists_of : (all : List Item) (k : ℕ) → length (lists_of all k) ≡ list_count (length all) k
length-lists_of all zero = refl
length-lists_of all (suc k) =
    ap suc (length-each all (lists_of all k) ∙ ap (λ n. length all * n) (length-lists_of all k))
    ∙ omega arith

has-map-cons :
    (i : Item) (lists : List (List Item)) (l : List Item)
    → has lists l ≡ true
    → has (map (λ q. i ∷ q) lists) (i ∷ l) ≡ true
unfolding items_eq
has-map-cons i [] l h = absurd (cc h)
has-map-cons i (q ∷ lists) l h = ground (arith, has-map-cons i lists l, item_eq_iff i i)

has-each :
    (all : List Item) (lists : List (List Item)) (i : Item) (l : List Item)
    → has all i ≡ true
    → has lists l ≡ true
    → has (each all lists) (i ∷ l) ≡ true
has-each [] lists i l h held = absurd (cc h)
has-each (j ∷ all) lists i l h held =
    let split = has-append (map (λ q. j ∷ q) lists) (each all lists) (i ∷ l) in
    elim (Bool-cases (item_eq j i)) [
      | inl here ↦
          let this : j ≡ i = (item_eq_iff j i).0 here in
          let first =
            subst (λ k. has (map (λ q. k ∷ q) lists) (i ∷ l) ≡ true) (sym this)
              (has-map-cons i lists l held) in
          or_left _ _ _ split first
      | inr other ↦ or_right _ _ _ split (has-each all lists i l (ground (arith, h, other)) held)
    ]

has-lists_of :
    (all : List Item) (k : ℕ) (l : List Item)
    → ((i : Item) → has l i ≡ true → has all i ≡ true)
    → length l ≤ k
    → has (lists_of all k) l ≡ true
unfolding items_eq
has-lists_of all zero [] sub small = refl
has-lists_of all (suc k) [] sub small = refl
has-lists_of all zero (i ∷ l) sub small = absurd (omega arith)
has-lists_of all (suc k) (i ∷ l) sub small =
    has-each all (lists_of all k) i l (sub i (ground (arith, item_eq_iff i i)))
      (has-lists_of all k l (λ j held. sub j (ground (arith, held))) (omega arith))

-- What is kept of each state: its items are different, and some of `all`.
pub record Fits (all : List Item) (s : State) : Type 0 where
  pub once : distinct s.items ≡ true
  pub inside : (i : Item) → has s.items i ≡ true → has all i ≡ true

abbrev pub AllFit : List Item → List State → Type 0
AllFit all states = (k : ℕ) (s : State) → get_elem? states k ≡ some s → Fits all s

abbrev all_lists : List State → List (List Item)
all_lists states = map (λ (s : State). s.items) states

at_list :
    (states : List State) (l : List Item)
    → has (all_lists states) l ≡ true
    → (k : ℕ) × (s : State) × (get_elem? states k ≡ some s) × (s.items ≡ l)
at_list [] l h = absurd (cc h)
at_list (s ∷ states) l h = elim (Bool-cases (items_eq s.items l)) [
  | inl here ↦ (0, s, refl, items_eq_sound s.items l here)
  | inr other ↦ let (k, t, at, e) = at_list states l (ground (arith, h, other)) in (suc k, t, at, e)
]

distinct_of_unique :
    (states : List State)
    → ((j k : ℕ) (s t : State)
        → get_elem? states j ≡ some s
        → get_elem? states k ≡ some t
        → s.items ≡ t.items
        → j ≡ k)
    → distinct (all_lists states) ≡ true
distinct_of_unique [] unique = refl
distinct_of_unique (s ∷ states) unique =
    let rest =
      distinct_of_unique states
        (λ j k t u at at' e. omega (arith, unique (suc j) (suc k) t u at at' e)) in
    elim (Bool-cases (has (all_lists states) s.items)) [
      | inr fresh ↦ ground (arith, rest, fresh)
      | inl again ↦
          let (k, t, at, e) = at_list states s.items again in
          absurd (omega (arith, unique 0 (suc k) s t refl at (sym e)))
    ]

pub length-states :
    (all : List Item) (states : List State)
    → IsTable states
    → AllFit all states
    → length states ≤ list_count (length all) (length all)
length-states all states table fit = omega (
  arith,
  length-map states (λ (s : State). s.items),
  length-lists_of all (length all),
  pigeonhole (all_lists states) (lists_of all (length all)) (distinct_of_unique states table.unique)
      (λ l held.
        let (k, s, at, e) = at_list states l held in
        let f = fit k s at in
        subst (λ q. has (lists_of all (length all)) q ≡ true) e
          (has-lists_of all (length all) s.items f.inside
            (pigeonhole s.items all f.once f.inside))),
)
