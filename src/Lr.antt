-- ===== src/Lr.antt =====
-- lr.c: the LR(0) states. This file has the states and the closure of an item set (`build_closure` and
-- what it calls), and its children the actions, the gotos and the hints of the states.
-- Items and states compare by their numbers, where the program compares pointers; the set `items_hash` is a list
-- without repetitions here. `qsort` is a parameter. `find_state`, `maybe_add_state` and `build_closure` of this
-- file are the specification on the list of states; with the hash table `states_hash` they stand in Lr/Hashed.
pub mod Closure
pub mod Actions
pub mod Gotos
pub mod Hints
pub mod Automaton
pub mod Hashed
use Prim.Native.Nat.{compare, Ordering}
use dparser.Prelude.{
  ℕ, zero, suc, ◌+◌, ◌*◌, ◌%◌, ◌^◌, Bool, true, false, ◌&&◌, ◌||◌, List, [], ◌∷◌, ◌++◌, Option,
  none, some, ltb, leb, ◌==◌, if◌then◌else◌, length, set, get_elem?, Eq, has,
}
use dparser.Libc.{Qsort}
use dparser.Gram.{
  Symbol, Rule, Grammar, Production, Item, nterm, term, rule_of, rules_of, symbol_at, item_eq,
  item_Eq,
}

pub data ActionKind : Type 0 where
  accept shift reduce shift_trailing : ActionKind

-- `term`, `rule` and `state` are `none` for NULL.
pub record Action : Type 0 where
  pub kind : ActionKind
  pub term : Option ℕ
  pub rule : Option ℕ
  pub state : Option ℕ
  pub index : ℕ

pub record Hint : Type 0 where
  pub depth : ℕ
  pub state : Option ℕ
  pub rule : ℕ

pub record Goto : Type 0 where
  pub elem : Symbol
  pub state : ℕ

pub record State : Type 0 where
  pub index : ℕ
  pub hash : ℕ
  pub items : List Item
  pub items_hash : List Item
  pub gotos : List Goto
  pub shift_actions : List Action
  pub reduce_actions : List Action
  pub right_epsilon_hints : List Hint
  pub error_recovery_hints : List Hint
  pub accept : Bool

abbrev pub new_state : State
new_state = record {
  index = 0;
  hash = 0;
  items = [];
  items_hash = [];
  gotos = [];
  shift_actions = [];
  reduce_actions = [];
  right_epsilon_hints = [];
  error_recovery_hints = [];
  accept = false;
}

-- `item_hash` is computed in 32 bits.
unfoldable pub item_hash : Item → ℕ
item_hash i = (i.rule * 256 + i.index) % 2 ^ 32

unfoldable pub itemcmp : Item → Item → Ordering
itemcmp i j = compare (item_hash i) (item_hash j)

unfoldable pub insert_item : State → Item → State × Bool
insert_item s i =
    if has s.items_hash i
    then (s, false)
    else (record s { items_hash = i ∷ s.items_hash; items = s.items ++ i ∷ [] }, true)

-- The element behind an item that is not at its end.
unfoldable pub next_elem : Grammar → Item → Item
next_elem g i =
    let n = length (rule_of g i.rule).elems in
    if leb n (i.index + 1) then record i { index = n } else record i { index = i.index + 1 }

-- The first item of a rule: its first element, or its end if it has none.
abbrev pub first_item : ℕ → Item
first_item r = record { rule = r; index = 0 }

unfoldable pub insert_rules : State → List ℕ → State
insert_rules s [] = s
insert_rules s (r ∷ rs) = insert_rules (insert_item s (first_item r)).0 rs

-- The body of the loop of `build_closure`.
unfoldable pub expand : Grammar → State → Item → State
expand g s i = elim (symbol_at g i) [
  | none ↦ s
  | some x ↦ elim x [ nterm p ↦ insert_rules s (rules_of g p) | term _ ↦ s ]
]

-- `for (j = 0; j < s->items.n; j++)`, where the body may add items.
unfoldable pub closure_loop : Grammar → ℕ → ℕ → State → Option State
closure_loop g zero j s = none
closure_loop g (suc fuel) j s = elim (get_elem? s.items j) [
  | none ↦ some s
  | some i ↦ closure_loop g fuel (suc j) (expand g s i)
]

unfoldable pub sum_hashes : List Item → ℕ
sum_hashes [] = 0
sum_hashes (i ∷ is) = (item_hash i + sum_hashes is) % 2 ^ 64

-- Rounds that are enough for the loop: one for each item that a state can get, and one to stop.
abbrev pub all_rules : List Production → List ℕ
all_rules [] = []
all_rules (p ∷ ps) = p.rules ++ all_rules ps

abbrev pub closure_fuel : Grammar → State → ℕ
closure_fuel g s = suc (length s.items + length (all_rules g.productions))

-- `state_cmp_fn`: the states have the same items.
unfoldable pub items_eq : List Item → List Item → Bool
items_eq [] [] = true
items_eq [] (j ∷ js) = false
items_eq (i ∷ is) [] = false
items_eq (i ∷ is) (j ∷ js) = item_eq i j && items_eq is js

-- The state with the given items, if there is one.
unfoldable pub find_state : List State → List Item → Option State
find_state [] items = none
find_state (s ∷ states) items = if items_eq s.items items then some s else find_state states items

-- The states of the grammar and the state that stands for `s`.
unfoldable pub maybe_add_state : List State → State → List State × State
maybe_add_state states s = elim (find_state states s.items) [
  | some ss ↦ (states, ss)
  | none ↦ (let s' = record s { index = length states } in (states ++ s' ∷ [], s'))
]

module _ (libc : Qsort) (g : Grammar) where
  -- The items of a closed state, sorted, with their hash.
  unfoldable pub finish_closure : State → State
  finish_closure s =
      let items = libc.qsort Item itemcmp s.items in
      record s { items = items; hash = sum_hashes items }

  unfoldable pub build_closure : List State → State → Option (List State × State)
  build_closure states s = elim (closure_loop g (closure_fuel g s) 0 s) [
    | none ↦ none
    | some closed ↦ some (maybe_add_state states (finish_closure closed))
  ]
