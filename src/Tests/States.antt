-- ===== src/Tests/States.antt =====
-- Actions, gotos and hints of one state of a small grammar.
use dparser.Prelude.{ℕ, ◌≡◌, refl, false, List, [], ◌∷◌, some, none}
use dparser.Libc.Insertion.{insertion}
use dparser.Gram.{Grammar, Production, Item, nterm, term, str}
use dparser.Lr.{State, new_state}
use dparser.Lr.Hashed.{StatesHash}
use dparser.Lr.Actions.{Numbering, build_state_actions}
use dparser.Lr.Actions.Acts.{Acts, build_state_actions-Acts}
use dparser.Lr.Hints.{error_hints}
use dparser.Lr.Hints.Shallowest.{depth_for, least, depth_for-error_hints}

abbrev production : List ℕ → Production
production rules = record { rules = rules; internal = false; elem = none; nullable = none }

-- S : A; A : '(' A ')' | 'x';
abbrev pub nested : Grammar
nested = record {
  productions = production (0 ∷ []) ∷ production (1 ∷ 2 ∷ []) ∷ [];
  rules =
      record { prod = 0; elems = nterm 1 ∷ [] }
      ∷ record { prod = 1; elems = term 0 ∷ nterm 1 ∷ term 1 ∷ [] }
      ∷ record { prod = 1; elems = term 2 ∷ [] }
      ∷ [];
  terminals = str (40 ∷ []) ∷ str (41 ∷ []) ∷ str (120 ∷ []) ∷ [];
}

-- Before ")", behind "x", and at the start of "x".
abbrev items : List Item
items =
    record { rule = 1; index = 2 }
    ∷ record { rule = 2; index = 1 }
    ∷ record { rule = 2; index = 0 }
    ∷ []

abbrev state : State
state = record new_state {
  items = items;
  gotos = record { elem = term 1; state = 3 } ∷ record { elem = term 2; state = 4 } ∷ [];
}

abbrev no_actions : Numbering
no_actions = record { actions = []; action_count = 0 }

build_state_actions-Acts_example :
    Acts insertion nested state (build_state_actions insertion nested no_actions state).1
build_state_actions-Acts_example =
    build_state_actions-Acts insertion nested no_actions state refl refl refl

-- The hash table with the state, whose items have the hash 1283.
abbrev one_hash : StatesHash
one_hash = record {
  n = 7;
  i = 2;
  v = none ∷ none ∷ some (record { position = 0; items = items }) ∷ none ∷ none ∷ none ∷ none ∷ [];
}

depth_for-error_hints_example :
    depth_for nested (41 ∷ []) (error_hints nested items []) ≡ least nested (41 ∷ []) items none
depth_for-error_hints_example = depth_for-error_hints nested (41 ∷ []) items []
