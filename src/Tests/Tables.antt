-- ===== src/Tests/Tables.antt =====
-- A small grammar: its nullable productions, its first state, code points, and action lists.
use dparser.Prelude.{
  ℕ, zero, suc, ◌+◌, ◌≡◌, refl, true, false, not, List, [], ◌∷◌, some, none, arith, has, nat_eq,
}
use dparser.Gram.{Grammar, Production, nterm, term, rules_of, production_of, item_Eq}
use dparser.Gram.Nullable.{
  compute_nullable, empty_rule, closure, basis, pass, visit, set_nullable, nullable_rule,
  all_nullable,
}
use dparser.Gram.Nullable.Laws.{DerivesEmpty, compute_nullable-DerivesEmpty}
use dparser.Gram.Nullable.Ends.{compute_nullable_ends}
use dparser.Gram.Nullable.Misses.{compute_nullable_misses}
use dparser.Gram.Utf8.{utf8_code, decode, decode-utf8_code, utf8_code_alias}
use dparser.Lr.{State, Action, ActionKind, new_state}
use dparser.Lex.Diff.{
  action_diff, action_intersect, has_index, action_diff_lem, action_intersect_lem,
}
use dparser.Scan.Compact.{keep_if}

abbrev plain : List ℕ → Production
plain rules = record { rules = rules; internal = false; elem = none; nullable = none }

-- S : A B; A : ; B : 'x' | A;
abbrev grammar : Grammar
grammar = record {
  productions = plain (0 ∷ []) ∷ plain (1 ∷ []) ∷ plain (2 ∷ 3 ∷ []) ∷ [];
  rules =
      record { prod = 0; elems = nterm 1 ∷ nterm 2 ∷ [] }
      ∷ record { prod = 1; elems = [] }
      ∷ record { prod = 2; elems = term 0 ∷ [] }
      ∷ record { prod = 2; elems = nterm 1 ∷ [] }
      ∷ [];
  terminals = [];
}

-- Only A is marked, though B derives the empty text too.
abbrev marked : Grammar
marked = record grammar {
  productions =
      plain (0 ∷ [])
      ∷ record { rules = 1 ∷ []; internal = false; elem = none; nullable = some 1 }
      ∷ plain (2 ∷ 3 ∷ [])
      ∷ [];
}

mark : compute_nullable grammar ≡ some marked
unfolding compute_nullable empty_rule closure basis pass visit set_nullable nullable_rule
    all_nullable
mark = refl

no_marks : (q : ℕ) → (production_of grammar q).nullable ≡ none
no_marks zero = refl
no_marks (suc zero) = refl
no_marks (suc (suc zero)) = refl
no_marks (suc (suc (suc n))) = refl

compute_nullable-DerivesEmpty_example : DerivesEmpty grammar 1 × (has (rules_of grammar 1) 1 ≡ true)
compute_nullable-DerivesEmpty_example =
    compute_nullable-DerivesEmpty grammar marked 1 1 no_marks mark refl

compute_nullable_ends_example : (g' : Grammar) × (compute_nullable grammar ≡ some g')
compute_nullable_ends_example = compute_nullable_ends grammar

compute_nullable_misses_example : (production_of marked 2).nullable ≡ none
compute_nullable_misses_example =
    compute_nullable_misses grammar marked 2 2 0 (3 ∷ []) [] refl refl (unfold empty_rule in refl)
      refl mark

-- The euro sign
decode-utf8_code_example :
    (bytes : List ℕ) × (utf8_code 0x20ac ≡ some bytes) × (decode bytes ≡ some 0x20ac)
decode-utf8_code_example = decode-utf8_code 0x20ac (omega arith)

utf8_code_alias_example : utf8_code (0x1f600 + 0x200000) ≡ utf8_code 0x1f600
utf8_code_alias_example = utf8_code_alias 0x1f600 (omega arith) (omega arith)

-- The state before S.
abbrev first_state : State
first_state = record new_state {
  items = record { rule = 0; index = 0 } ∷ [];
  items_hash = record { rule = 0; index = 0 } ∷ [];
}

abbrev action : ℕ → Action
action n = record { kind = ActionKind.shift; term = some n; rule = none; state = none; index = n }

action_diff_lem_example :
    action_diff (action 1 ∷ action 2 ∷ []) (action 2 ∷ action 3 ∷ [])
    ≡ keep_if (λ x. not (has_index (action 2 ∷ action 3 ∷ []) x)) (action 1 ∷ action 2 ∷ [])
action_diff_lem_example =
    action_diff_lem (action 1 ∷ action 2 ∷ []) (action 2 ∷ action 3 ∷ []) refl refl

action_intersect_lem_example :
    action_intersect (action 1 ∷ action 2 ∷ []) (action 2 ∷ action 3 ∷ [])
    ≡ keep_if (has_index (action 2 ∷ action 3 ∷ [])) (action 1 ∷ action 2 ∷ [])
action_intersect_lem_example =
    action_intersect_lem (action 1 ∷ action 2 ∷ []) (action 2 ∷ action 3 ∷ []) refl refl
