-- ===== src/Lr/Hints/Shallowest.antt =====
-- The error recovery hints: for each closing string the least depth at which it is awaited.
use dparser.Prelude.{
  ℕ, suc, ◌-◌, ◌≡◌, refl, sym, ap, ◌∙◌, inl, inr, true, false, List, [], ◌∷◌, Option, none, some,
  ltb, if◌then◌else◌, arith, length, get_elem?, Bool-cases, Option-cases,
}
use dparser.Gram.{Symbol, Grammar, Item, nterm, term, str, other, rule_of}
use dparser.Lr.{Hint}
use dparser.Libc.Text.{same_string, same_string_swap, same_string_sym}
use dparser.Lr.Hints.{last_string, hint_for, add_error_hint, error_hints}

-- The least depth, where there is one.
abbrev pub lesser : Option ℕ → ℕ → Option ℕ
lesser none d = some d
lesser (some e) d = some (if ltb d e then d else e)

-- The bytes of a symbol that is a string.
abbrev pub bytes_of : Grammar → Symbol → Option (List ℕ)
bytes_of g (nterm p) = none
bytes_of g (term t) = elim (get_elem? g.terminals t) [
  | none ↦ none
  | some x ↦ elim x [ str bytes ↦ some bytes | other ↦ none ]
]

-- The string that ends two or more elements.
abbrev pub closing : Grammar → List Symbol → Option (List ℕ)
closing g [] = none
closing g (x ∷ []) = none
closing g (x ∷ y ∷ []) = bytes_of g y
closing g (x ∷ y ∷ z ∷ elems) = closing g (y ∷ z ∷ elems)

-- The least depth of the items whose rules have two or more elements and end with the string.
abbrev pub least : Grammar → List ℕ → List Item → Option ℕ → Option ℕ
least g s [] d = d
least g s (i ∷ items) d = least g s items (elim (closing g (rule_of g i.rule).elems) [
  | none ↦ d
  | some t ↦ if same_string s t then lesser d i.index else d
])

-- The depth of the first hint for the string.
abbrev pub depth_for : Grammar → List ℕ → List Hint → Option ℕ
depth_for g s [] = none
depth_for g s (h ∷ hs) = if hint_for g s h then some h.depth else depth_for g s hs

hint_for-some :
    (g : Grammar) (s u : List ℕ) (h : Hint)
    → last_string g h.rule ≡ some u
    → hint_for g s h ≡ same_string s u
unfolding hint_for
hint_for-some g s u h e = rw (e, hint_for) refl

hint_for-none :
    (g : Grammar) (s : List ℕ) (h : Hint) → last_string g h.rule ≡ none → hint_for g s h ≡ false
unfolding hint_for
hint_for-none g s h e = rw (e, hint_for) refl

last_hint :
    (g : Grammar) (s t : List ℕ) (d r : ℕ)
    → last_string g r ≡ some t
    → depth_for g s (add_error_hint g t d r []) ≡ (if same_string s t then some d else none)
unfolding add_error_hint
last_hint g s t d r at =
    rw (hint_for-some g s t (record { depth = d; state = none; rule = r }) at) refl

depth_for-add_error_hint :
    (g : Grammar) (s t : List ℕ) (d r : ℕ) (hints : List Hint)
    → last_string g r ≡ some t
    → depth_for g s (add_error_hint g t d r hints)
      ≡ (if same_string s t then lesser (depth_for g s hints) d else depth_for g s hints)
unfolding add_error_hint
depth_for-add_error_hint g s t d r [] at = last_hint g s t d r at
depth_for-add_error_hint g s t d r (h ∷ hs) at = elim (Option-cases (last_string g h.rule)) [
  | inl without ↦
      rw (hint_for-none g t h without)
        (ground (arith, hint_for-none g s h without, depth_for-add_error_hint g s t d r hs at))
  | inr (u, string) ↦ elim (Bool-cases (same_string t u)) [
    | inl hit ↦
        let found : hint_for g t h ≡ true = hint_for-some g t u h string ∙ hit in
        rw found (
          ground (
            arith,
            hint_for-some g s u h string,
            hint_for-some g s u (record h { depth = d }) string,
            same_string_swap s t u hit,
          ))
    | inr miss ↦
        let other : hint_for g t h ≡ false = hint_for-some g t u h string ∙ miss in
        rw other (
          ground (
            arith,
            hint_for-some g s u h string,
            same_string_sym s t,
            same_string_swap t s u,
            miss,
            depth_for-add_error_hint g s t d r hs at,
          ))
  ]
]

last_element :
    (g : Grammar) (x y : Symbol) (elems : List Symbol)
    → closing g (x ∷ y ∷ elems)
      ≡ (elim (get_elem? (y ∷ elems) (length elems)) [ none ↦ none | some e ↦ bytes_of g e ])
last_element g x y [] = refl
last_element g x y (z ∷ elems) = last_element g y z elems

-- The test on the number of elements and the last one find the string at the end of the list.
last_string-closing : (g : Grammar) (r : ℕ) → last_string g r ≡ closing g (rule_of g r).elems
unfolding last_string
last_string-closing g r = of_elems (rule_of g r).elems
  where
    of_elems :
        (elems : List Symbol)
        → (if ltb 1 (length elems)
            then elim (get_elem? elems (length elems - 1)) [ none ↦ none | some e ↦ bytes_of g e ]
            else none)
          ≡ closing g elems
    of_elems [] = refl
    of_elems (x ∷ []) = refl
    of_elems (x ∷ y ∷ elems) =
        let long : ltb 1 (length (x ∷ y ∷ elems)) ≡ true = ground arith in
        let last : length (x ∷ y ∷ elems) - 1 ≡ suc (length elems) = omega arith in
        rw (long, last) (sym (last_element g x y elems))

-- After the loop over the items, the depth of the first hint for a string is the least of the depth that it had
-- before and of the depths of the items whose rules have two or more elements and end with the string, and there is
-- a hint only if there was one before or there is such an item.
pub depth_for-error_hints :
    (g : Grammar) (s : List ℕ) (items : List Item) (hints : List Hint)
    → depth_for g s (error_hints g items hints) ≡ least g s items (depth_for g s hints)
unfolding error_hints
depth_for-error_hints g s [] hints = refl
depth_for-error_hints g s (i ∷ items) hints = elim (Option-cases (last_string g i.rule)) [
  | inl without ↦
      let ends = sym (last_string-closing g i.rule) ∙ without in
      rw (without, ends, error_hints) (depth_for-error_hints g s items hints)
  | inr (t, string) ↦
      let ends = sym (last_string-closing g i.rule) ∙ string in
      rw (string, ends, error_hints)
        (depth_for-error_hints g s items (add_error_hint g t i.index i.rule hints)
          ∙ ap (least g s items) (depth_for-add_error_hint g s t i.index i.rule hints string))
]
