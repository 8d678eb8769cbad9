-- ===== src/Lex/Transitions/Search.antt =====
-- The search for an equal transition in the table.
use mathlib.Core.Path.{subst}
use dparser.Prelude.{
  ℕ, zero, suc, ◌≡◌, refl, sym, ap, ◌∙◌, ◌⊎◌, inl, inr, true, false, List, [], ◌∷◌, ◌++◌, none,
  some, arith, ==_iff, length, get_elem?, Bool-cases, Option-cases,
}
use dparser.Lr.{Action}
use dparser.Lex.Transitions.{Transition, same_actions, trans_eq, find_transition}

pub same_actions_sym :
    (as' bs : List Action) → same_actions as' bs ≡ true → same_actions bs as' ≡ true
unfolding same_actions
same_actions_sym [] [] h = refl
same_actions_sym [] (b ∷ bs) h = absurd (cc h)
same_actions_sym (a ∷ as') [] h = absurd (cc h)
same_actions_sym (a ∷ as') (b ∷ bs) h =
    ground (arith, same_actions_sym as' bs, ==_iff a.index b.index, ==_iff b.index a.index)

pub same_actions_trans :
    (as' bs cs : List Action)
    → same_actions as' bs ≡ true
    → same_actions bs cs ≡ true
    → same_actions as' cs ≡ true
unfolding same_actions
same_actions_trans [] [] cs h h' = h'
same_actions_trans [] (b ∷ bs) cs h h' = absurd (cc h)
same_actions_trans (a ∷ as') [] cs h h' = absurd (cc h)
same_actions_trans (a ∷ as') (b ∷ bs) [] h h' = absurd (cc h')
same_actions_trans (a ∷ as') (b ∷ bs) (c ∷ cs) h h' = ground (
  arith,
  same_actions_trans as' bs cs,
  ==_iff a.index b.index,
  ==_iff b.index c.index,
  ==_iff a.index c.index,
)

pub same_actions_refl : (as' : List Action) → same_actions as' as' ≡ true
unfolding same_actions
same_actions_refl [] = refl
same_actions_refl (a ∷ as') = ground (arith, same_actions_refl as', ==_iff a.index a.index)

abbrev pub Differs : List Transition → Type 0
Differs ts =
    (j k : ℕ) (x y : Transition)
    → get_elem? ts j ≡ some x
    → get_elem? ts k ≡ some y
    → trans_eq x y ≡ true
    → j ≡ k

-- Transition `k` is equal to `x`.
pub record Stands (ts : List Transition) (k : ℕ) (x : Transition) : Type 0 where
  pub found : Transition
  pub at : get_elem? ts k ≡ some found
  pub equal : trans_eq found x ≡ true

pub found_lem :
    (ts : List Transition) (x : Transition) (k : ℕ) → find_transition ts x ≡ some k → Stands ts k x
unfolding find_transition
found_lem [] x k e = absurd (cc e)
found_lem (y ∷ ts) x k e = elim (Bool-cases (trans_eq y x)) [
  | inl here ↦
      let this : some 0 ≡ some k = rw (here, find_transition) at e in
      let place : 0 ≡ k = cc this in
      subst (λ n. Stands (y ∷ ts) n x) place (record { found = y; at = refl; equal = here })
  | inr other ↦ elim (Option-cases (find_transition ts x)) [
    | inl nothing ↦
        let no_one : none ≡ some k = rw (other, nothing, find_transition) at e in absurd (cc no_one)
    | inr (n, later) ↦
        let this : some (suc n) ≡ some k = rw (other, later, find_transition) at e in
        let place : suc n ≡ k = cc this in
        let s = found_lem ts x n later in
        subst (λ m. Stands (y ∷ ts) m x) place
          (record { found = s.found; at = s.at; equal = s.equal })
  ]
]

among :
    (z : Transition) (ts : List Transition) (x y : Transition) (k : ℕ)
    → get_elem? (z ∷ ts) k ≡ some y
    → trans_eq z x ≡ false
    → ((j : ℕ) → get_elem? ts j ≡ some y → trans_eq y x ≡ false)
    → trans_eq y x ≡ false
among z ts x y zero at other rest =
    let this : z ≡ y = cc at in ap (λ q. trans_eq q x) (sym this) ∙ other
among z ts x y (suc k) at other rest = rest k at

pub not_found :
    (ts : List Transition) (x : Transition) (k : ℕ) (y : Transition)
    → find_transition ts x ≡ none
    → get_elem? ts k ≡ some y
    → trans_eq y x ≡ false
unfolding find_transition
not_found [] x k y e at = absurd (cc at)
not_found (z ∷ ts) x k y e at = elim (Bool-cases (trans_eq z x)) [
  | inl here ↦ let no_one : some 0 ≡ none = rw (here, find_transition) at e in absurd (cc no_one)
  | inr other ↦ elim (Option-cases (find_transition ts x)) [
    | inr (n, later) ↦
        let no_one : some (suc n) ≡ none = rw (other, later, find_transition) at e in
        absurd (cc no_one)
    | inl nothing ↦ among z ts x y k at other (λ j. not_found ts x j y nothing)
  ]
]

pub old_at :
    (ts : List Transition) (x y : Transition) (k : ℕ)
    → get_elem? ts k ≡ some y
    → get_elem? (ts ++ x ∷ []) k ≡ some y
old_at [] x y k e = absurd (cc e)
old_at (z ∷ ts) x y zero e = e
old_at (z ∷ ts) x y (suc k) e = old_at ts x y k e

pub last_at :
    (ts : List Transition) (x : Transition) → get_elem? (ts ++ x ∷ []) (length ts) ≡ some x
last_at [] x = refl
last_at (z ∷ ts) x = last_at ts x

pub at_either :
    (ts : List Transition) (x y : Transition) (k : ℕ)
    → get_elem? (ts ++ x ∷ []) k ≡ some y
    → (get_elem? ts k ≡ some y) ⊎ ((x ≡ y) × (k ≡ length ts))
at_either [] x y zero e = inr (cc e, refl)
at_either [] x y (suc k) e = absurd (cc e)
at_either (z ∷ ts) x y zero e = inl e
at_either (z ∷ ts) x y (suc k) e = elim (at_either ts x y k e) [
  | inl old ↦ inl old
  | inr (this, last) ↦ inr (this, ap suc last)
]

pub Differs-concat :
    (ts : List Transition) (x : Transition)
    → Differs ts
    → find_transition ts x ≡ none
    → Differs (ts ++ x ∷ [])
Differs-concat ts x d fresh j k y z at at' same = elim (at_either ts x y j at) [
  | inl old ↦ elim (at_either ts x z k at') [
    | inl old' ↦ d j k y z old old' same
    | inr (this, _) ↦
        absurd (cc (not_found ts x j y fresh old, subst (λ q. trans_eq y q ≡ true) (sym this) same))
  ]
  | inr (this, last) ↦ elim (at_either ts x z k at') [
    | inl old' ↦
        let back = same_actions_sym y.accepts_diff z.accepts_diff same in
        absurd
          (cc (not_found ts x k z fresh old', subst (λ q. trans_eq z q ≡ true) (sym this) back))
    | inr (_, last') ↦ last ∙ sym last'
  ]
]
