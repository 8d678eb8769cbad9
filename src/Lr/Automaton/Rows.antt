-- ===== src/Lr/Automaton/Rows.antt =====
-- `build_gotos`: behind it a state has a goto for each element that its items stand before.
use mathlib.Core.Path.{subst}
use mathlib.Core.List.{append-nil, append_assoc}
use dparser.Prelude.{
  ℕ, ◌+◌, ◌≡◌, refl, sym, ap, ◌∙◌, inl, inr, true, false, ◌||◌, List, [], ◌∷◌, ◌++◌, none, some,
  arith, get_elem?, if◌then◌else◌, Bool-cases, Option-cases, nat_eq,
}
use dparser.Libc.{Qsort, count_if}
use dparser.Gram.{Symbol, Grammar, Item, symbol_at, symbol_eq, symbol_eq_iff, item_Eq}
use dparser.Lr.{Goto, State}
use dparser.Lr.Gotos.{stands_before, add_goto, met, build_gotos}
use dparser.Lr.Automaton.Keeps.{Edge, Keeps, Edge-Keeps, Keeps-trans, Keeps-refl}
use dparser.Lr.Automaton.Visit.{
  by, Row, Sound, goto_state-append-none, goto_state-append-some, count-append, count_of_none, all,
  build_state_for-Edge,
}

met-append :
    (g : Grammar) (x : Symbol) (seen : List Item) (i : Item)
    → met g x (seen ++ i ∷ []) ≡ (met g x seen || stands_before g x i)
unfolding met
met-append g x [] i = ground arith
met-append g x (j ∷ seen) i = ground (arith, met-append g x seen i)

met_of_middle :
    (g : Grammar) (x : Symbol) (seen : List Item) (i : Item) (rest : List Item)
    → stands_before g x i ≡ true
    → met g x (seen ++ i ∷ rest) ≡ true
unfolding met
met_of_middle g x [] i rest h = ground (arith, h)
met_of_middle g x (j ∷ seen) i rest h = ground (arith, met_of_middle g x seen i rest h)

stands_before-none :
    (g : Grammar) (y : Symbol) (i : Item) → symbol_at g i ≡ none → stands_before g y i ≡ false
unfolding stands_before
stands_before-none g y i e = rw (e, stands_before) refl

stands_before-some :
    (g : Grammar) (x y : Symbol) (i : Item)
    → symbol_at g i ≡ some x
    → stands_before g y i ≡ symbol_eq x y
unfolding stands_before
stands_before-some g x y i e = rw (e, stands_before) refl

skip-Row :
    (g : Grammar) (states : List State) (k : ℕ) (items seen seen' : List Item)
    → ((y : Symbol) → met g y seen' ≡ met g y seen)
    → Row g states k items seen
    → Row g states k items seen'
skip-Row g states k items seen seen' e row = record {
  source = row.source;
  here = row.here;
  same = row.same;
  edges = λ y h. row.edges y (sym (e y) ∙ h);
  others = λ y h. row.others y (sym (e y) ∙ h);
  unique = row.unique;
}

add-Row :
    (g : Grammar) (states states' : List State) (k : ℕ) (items seen seen' : List Item) (x : Symbol)
    (to : ℕ)
    → ((y : Symbol) → met g y seen' ≡ (met g y seen || symbol_eq x y))
    → met g x seen ≡ false
    → (row : Row g states k items seen) → Keeps k states states'
    → get_elem? states' k ≡ some (add_goto row.source to x)
    → Edge g states' items x (some to)
    → Row g states' k items seen'
unfolding add_goto
add-Row g states states' k items seen seen' x to e fresh row keeps here edge =
    let q : Goto = record { elem = x; state = to } in
    record {
      source = add_goto row.source to x;
      here = here;
      same = row.same;
      edges = λ y h. elim (Bool-cases (met g y seen)) [
        | inl old ↦
            let (t, found, old_edge) = row.edges y old in
            (
              t,
              goto_state-append-some row.source.gotos q y t found,
              Edge-Keeps g k states states' items y (some t) keeps old_edge,
            )
        | inr new ↦
            let this : symbol_eq x y ≡ true = ground (arith, e y) in
            let x_is_y = (symbol_eq_iff x y).0 this in
            (
              to,
              goto_state-append-none row.source.gotos q y (row.others y new) ∙ rw this refl,
              subst (λ z. Edge g states' items z (some to)) x_is_y edge,
            )
      ];
      others = λ y h.
          let old : met g y seen ≡ false = ground (arith, e y) in
          let apart : symbol_eq x y ≡ false = ground (arith, e y) in
          goto_state-append-none row.source.gotos q y (row.others y old) ∙ rw apart refl;
      unique = λ y. elim (Bool-cases (symbol_eq x y)) [
        | inl this ↦
            let none_yet =
              count_of_none row.source.gotos y (
                row.others y (ap (λ z. met g z seen) (sym ((symbol_eq_iff x y).0 this)) ∙ fresh)) in
            let one =
              count-append row.source.gotos q y
              ∙ ap (λ b. count_if (by y) row.source.gotos + (if b then 1 else 0)) this in
            omega (arith, one, none_yet)
        | inr apart ↦
            let same =
              count-append row.source.gotos q y
              ∙ ap (λ b. count_if (by y) row.source.gotos + (if b then 1 else 0)) apart in
            omega (arith, same, row.unique y)
      ];
    }

module _ (libc : Qsort) (g : Grammar) (kernel : List Item) where
  pub build_gotos-Row :
      (k : ℕ) (items rest seen : List Item) (states : List State)
      → items ≡ seen ++ rest
      → Sound (all libc g kernel) states
      → Row g states k items seen
      → (states' : List State) × (build_gotos libc g states k seen rest ≡ some states')
        × Sound (all libc g kernel) states'
        × Keeps k states states'
        × Row g states' k items items
  unfolding build_gotos
  build_gotos-Row k items [] seen states e sound row = (
    states,
    refl,
    sound,
    Keeps-refl k states,
    skip-Row g states k items seen items (λ y. ap (met g y) (e ∙ append-nil seen)) row,
  )
  build_gotos-Row k items (i ∷ rest) seen states e sound row =
      let e' : items ≡ (seen ++ i ∷ []) ++ rest = e ∙ sym (append_assoc seen (i ∷ []) rest) in
      elim (Option-cases (symbol_at g i)) [
        | inl end ↦
            let row' =
              skip-Row g states k items seen (seen ++ i ∷ [])
                (λ y. met-append g y seen i ∙ ground (arith, stands_before-none g y i end)) row in
            rw (end, build_gotos)
              (build_gotos-Row k items rest (seen ++ i ∷ []) states e' sound row')
        | inr (x, at) ↦ elim (Bool-cases (met g x seen)) [
          | inl again ↦
              let row' =
                skip-Row g states k items seen (seen ++ i ∷ [])
                  (λ y. met-append g y seen i ∙ met_again y x seen i at again) row in
              rw (at, again, build_gotos)
                (build_gotos-Row k items rest (seen ++ i ∷ []) states e' sound row')
          | inr fresh ↦
              let stands : met g x row.source.items ≡ true =
                ap (met g x) (row.same ∙ e)
                ∙ met_of_middle g x seen i rest
                    (stands_before-some g x x i at ∙ (symbol_eq_iff x x).1 refl) in
              let (states1, run, sound1, keeps1, to, here1, edge) =
                build_state_for-Edge libc g kernel states k row.source x sound row.here stands in
              let row1 =
                add-Row g states states1 k items seen (seen ++ i ∷ []) x to
                  (λ y.
                    met-append g y seen i
                    ∙ ap (λ b. met g y seen || b) (stands_before-some g x y i at))
                  fresh row keeps1 here1
                  (subst (λ l. Edge g states1 l x (some to)) row.same edge) in
              let (states2, run', sound2, keeps2, row2) =
                build_gotos-Row k items rest (seen ++ i ∷ []) states1 e' sound1 row1 in
              (
                states2,
                rw (at, fresh, build_gotos) (rw row.here (rw run run')),
                sound2,
                Keeps-trans k row.source states states1 states2 row.here keeps1 keeps2,
                row2,
              )
        ]
      ]
    where
      met_again :
          (y x : Symbol) (seen : List Item) (i : Item)
          → symbol_at g i ≡ some x
          → met g x seen ≡ true
          → (met g y seen || stands_before g y i) ≡ met g y seen
      met_again y x seen i at again = elim (Bool-cases (symbol_eq x y)) [
        | inl this ↦
            let held : met g y seen ≡ true =
              ap (λ z. met g z seen) (sym ((symbol_eq_iff x y).0 this)) ∙ again in
            ground (arith, held)
        | inr apart ↦
            let none_here = stands_before-some g x y i at ∙ apart in ground (arith, none_here)
      ]
