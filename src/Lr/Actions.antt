-- ===== src/Lr/Actions.antt =====
-- lr.c (`new_Action`, `add_action`, `actioncmp`, `sort_VecAction`, `build_actions`, `goto_State`): the
-- shift and reduce actions of the LR(0) states.
-- `term` and `rule` are set wherever the comparison reads them; NULL reads as 0 there.
pub mod Keys
pub mod Acts
use Prim.Native.Nat.{compare, Ordering}
use dparser.Prelude.{
  ℕ, ◌+◌, ◌%◌, ◌^◌, Bool, true, false, not, ◌&&◌, ◌||◌, List, [], ◌∷◌, ◌++◌, Option, none, some,
  ◌==◌, if◌then◌else◌,
}
use dparser.Libc.{Qsort}
use dparser.Gram.{Symbol, Grammar, Item, nterm, term, rule_of, symbol_at, symbol_eq}
use dparser.Lr.{ActionKind, Action, Goto, State, accept, shift, reduce, shift_trailing}

-- `g->actions` and `g->action_count`
pub record Numbering : Type 0 where
  pub actions : List Action
  pub action_count : ℕ

abbrev pub kind_eq : ActionKind → ActionKind → Bool
kind_eq accept accept = true
kind_eq shift shift = true
kind_eq reduce reduce = true
kind_eq shift_trailing shift_trailing = true
kind_eq _ _ = false

-- Two pointers are the same.
abbrev pub same : Option ℕ → Option ℕ → Bool
same none none = true
same none (some b) = false
same (some a) none = false
same (some a) (some b) = a == b

abbrev pub index_of : Option ℕ → ℕ
index_of none = 0
index_of (some n) = n

-- The number by which actions are sorted, in 32 bits.
unfoldable pub action_key : Action → ℕ
action_key a = elim a.kind [
  | shift_trailing ↦ (index_of a.term + 11000000) % 2 ^ 32
  | shift ↦ (index_of a.term + 1000000) % 2 ^ 32
  | reduce ↦ index_of a.rule % 2 ^ 32
  | accept ↦ index_of a.rule % 2 ^ 32
]

unfoldable pub actioncmp : Action → Action → Ordering
actioncmp a b = compare (action_key a) (action_key b)

unfoldable pub new_action :
    Numbering → ActionKind → Option ℕ → Option ℕ → Option ℕ → Numbering × Action
new_action n kind aterm arule astate =
    let a : Action = record {
      kind = kind;
      term = aterm;
      rule = arule;
      state = astate;
      index = n.action_count;
    } in
    (record { actions = n.actions ++ a ∷ []; action_count = n.action_count + 1 }, a)

-- Some action of the list has the rule.
abbrev pub has_rule : List Action → Option ℕ → Bool
has_rule [] r = false
has_rule (a ∷ rest) r = same a.rule r || has_rule rest r

-- Some action of the list has the terminal, the state and the kind.
abbrev pub has_shift : List Action → ActionKind → Option ℕ → Option ℕ → Bool
has_shift [] kind t ss = false
has_shift (a ∷ rest) kind t ss =
    (same a.term t && same a.state ss && kind_eq a.kind kind) || has_shift rest kind t ss

unfoldable pub add_action :
    Numbering × State → ActionKind → Option ℕ → Option ℕ → Option ℕ → Numbering × State
add_action (n, s) akind aterm arule astate =
    let (n', a) = new_action n akind aterm arule astate in
    if kind_eq akind reduce
    then (if has_rule s.reduce_actions arule
        then (n, s)
        else (n', record s { reduce_actions = s.reduce_actions ++ a ∷ [] }))
    else if has_shift s.shift_actions akind aterm astate
    then (n, s)
    else (n', record s { shift_actions = s.shift_actions ++ a ∷ [] })

-- A shift for each goto on the terminal.
unfoldable pub add_shifts : ℕ → List Goto → Numbering × State → Numbering × State
add_shifts t [] x = x
add_shifts t (to ∷ gotos) x =
    add_shifts t gotos
      (if symbol_eq to.elem (term t) then add_action x shift (some t) none (some to.state) else x)

-- The actions for one item of the state.
unfoldable pub add_item_actions : Grammar → Item → Numbering × State → Numbering × State
add_item_actions g i x = elim (symbol_at g i) [
  | some e ↦ elim e [ term t ↦ add_shifts t x.1.gotos x | nterm _ ↦ x ]
  | none ↦
      if not ((rule_of g i.rule).prod == 0)
      then add_action x reduce none (some i.rule) none
      else (x.0, record x.1 { accept = true })
]

unfoldable pub add_items_actions : Grammar → List Item → Numbering × State → Numbering × State
add_items_actions g [] x = x
add_items_actions g (i ∷ items) x = add_items_actions g items (add_item_actions g i x)

unfoldable pub goto_state : List Goto → Symbol → Option ℕ
goto_state [] e = none
goto_state (to ∷ gotos) e = if symbol_eq to.elem e then some to.state else goto_state gotos e

module _ (libc : Qsort) where
  unfoldable pub sort_actions : List Action → List Action
  sort_actions v = libc.qsort Action actioncmp v

  -- The body of the loop over the states.
  unfoldable pub build_state_actions : Grammar → Numbering → State → Numbering × State
  build_state_actions g n s =
      let (n', s') = add_items_actions g s.items (n, s) in
      (
        n',
        record s' {
          shift_actions = sort_actions s'.shift_actions;
          reduce_actions = sort_actions s'.reduce_actions;
        },
      )

  unfoldable pub build_actions : Grammar → Numbering → List State → Numbering × List State
  build_actions g n [] = (n, [])
  build_actions g n (s ∷ states) =
      let (n', s') = build_state_actions g n s in
      let (last, rest) = build_actions g n' states in (last, s' ∷ rest)
