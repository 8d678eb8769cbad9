-- ===== src/Lr/Hints.antt =====
-- lr.c (`new_Hint`, `hintcmp`, `build_right_epsilon_hints`, `build_error_recovery`): the hints of a
-- state. Strings are compared by their length and, as `strcmp` does, up to the first NUL byte.
pub mod Shallowest
use Prim.Native.Nat.{compare, Ordering}
use dparser.Prelude.{
  ℕ, zero, suc, ◌+◌, ◌-◌, Bool, true, false, not, ◌&&◌, List, [], ◌∷◌, ◌++◌, Option, none, some,
  ltb, ◌==◌, if◌then◌else◌, length, get_elem?, get_or, drop,
}
use dparser.Libc.{Qsort}
use dparser.Libc.Text.{same_string}
use dparser.Gram.{Symbol, Grammar, Term, Item, nterm, term, str, other, rule_of, symbol_at}
use dparser.Gram.Nullable.{all_nullable}
use dparser.Lr.{Hint, State}
use dparser.Lr.Actions.{goto_state}

unfoldable pub hintcmp : Hint → Hint → Ordering
hintcmp i j = elim (compare i.depth j.depth) [
  | Ordering.gt ↦ Ordering.gt
  | Ordering.lt ↦ Ordering.lt
  | Ordering.eq ↦ compare i.rule j.rule
]

-- The state behind some elements, if the gotos lead there.
unfoldable pub goto_along : List State → Option ℕ → List Symbol → Option ℕ
goto_along states ss [] = ss
goto_along states none (e ∷ es) = none
goto_along states (some ss) (e ∷ es) =
    goto_along states (elim (get_elem? states ss) [ none ↦ none | some s ↦ goto_state s.gotos e ])
      es

-- The hint for one item of state `k`.
unfoldable pub right_epsilon_hint : Grammar → List State → ℕ → Item → Option Hint
right_epsilon_hint g states k e =
    let elems = (rule_of g e.rule).elems in
    let rest = drop e.index elems in
    elim (symbol_at g e) [
      | none ↦ none
      | some _ ↦
          if all_nullable g rest
          then elim (goto_along states (some k) rest) [
            | none ↦ none
            | some ss ↦
                some (record { depth = length elems - e.index - 1; state = some ss; rule = e.rule })
          ]
          else none
    ]

unfoldable pub right_epsilon_hints : Grammar → List State → ℕ → List Item → List Hint
right_epsilon_hints g states k [] = []
right_epsilon_hints g states k (e ∷ items) =
    let rest = right_epsilon_hints g states k items in
    elim (right_epsilon_hint g states k e) [ none ↦ rest | some h ↦ h ∷ rest ]

-- The string of the last element, if it is a string and not the only element.
unfoldable pub last_string : Grammar → ℕ → Option (List ℕ)
last_string g r =
    let elems = (rule_of g r).elems in
    if ltb 1 (length elems)
    then elim (get_elem? elems (length elems - 1)) [
      | none ↦ none
      | some e ↦ elim e [
        | nterm _ ↦ none
        | term t ↦ elim (get_elem? g.terminals t) [
          | none ↦ none
          | some x ↦ elim x [ str bytes ↦ some bytes | other ↦ none ]
        ]
      ]
    ]
    else none

-- The hint is for the string.
unfoldable pub hint_for : Grammar → List ℕ → Hint → Bool
hint_for g s h = elim (last_string g h.rule) [ none ↦ false | some t ↦ same_string s t ]

-- The first hint for the string gets the lesser depth; if there is none, one is added.
unfoldable pub add_error_hint : Grammar → List ℕ → ℕ → ℕ → List Hint → List Hint
add_error_hint g s depth r [] = record { depth = depth; state = none; rule = r } ∷ []
add_error_hint g s depth r (h ∷ hs) =
    if hint_for g s h
    then (if ltb depth h.depth then record h { depth = depth } else h) ∷ hs
    else h ∷ add_error_hint g s depth r hs

unfoldable pub error_hints : Grammar → List Item → List Hint → List Hint
error_hints g [] hints = hints
error_hints g (i ∷ items) hints = error_hints g items (elim (last_string g i.rule) [
  | none ↦ hints
  | some s ↦ add_error_hint g s i.index i.rule hints
])

module _ (libc : Qsort) where
  unfoldable pub build_right_epsilon_hints : Grammar → List State → ℕ → State → State
  build_right_epsilon_hints g states k s =
      let hints = s.right_epsilon_hints ++ right_epsilon_hints g states k s.items in
      record s {
        right_epsilon_hints = if ltb 1 (length hints) then libc.qsort Hint hintcmp hints else hints;
      }

  unfoldable pub build_error_recovery : Grammar → State → State
  build_error_recovery g s = record s {
    error_recovery_hints = libc.qsort Hint hintcmp (error_hints g s.items s.error_recovery_hints);
  }
