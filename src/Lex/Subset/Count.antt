-- ===== src/Lex/Subset/Count.antt =====
-- There are no more sets of NFA states than subsets of the automaton.
use mathlib.Core.Path.{subst}
use dparser.Prelude.{
  or_left, or_right, ℕ, zero, suc, ◌+◌, ◌^◌, ◌≤◌, ◌<◌, ◌≡◌, ◌≢◌, refl, inl, inr, true, List, [],
  ◌∷◌, ◌++◌, map, arith, ◌==◌, ==_iff, length, length-append, length-map, Bool-cases, has,
  has-append, pigeonhole, nat_eq,
}
use dparser.Lex.{NfaState}
use dparser.Lex.Closure.{eq_dfa_state}
use dparser.Lex.Closure.Canonical.{rising, has-above}
use dparser.Lex.Subset.Edges.{set_eq, IsSets}

-- The rising lists of numbers from `m` on, below `m + k`.
abbrev sublists : ℕ → ℕ → List (List ℕ)
sublists m zero = [] ∷ []
sublists m (suc k) = map (λ xs. m ∷ xs) (sublists (suc m) k) ++ sublists (suc m) k

length-sublists : (m k : ℕ) → length (sublists m k) ≡ 2 ^ k
length-sublists m zero = refl
length-sublists m (suc k) = omega (
  arith,
  length-append (map (λ xs. m ∷ xs) (sublists (suc m) k)) (sublists (suc m) k),
  length-map (sublists (suc m) k) (λ xs. m ∷ xs),
  length-sublists (suc m) k,
)

has-map-cons :
    (m : ℕ) (xss : List (List ℕ)) (xs : List ℕ)
    → has xss xs ≡ true
    → has (map (λ q. m ∷ q) xss) (m ∷ xs) ≡ true
unfolding eq_dfa_state
has-map-cons m [] xs h = absurd (cc h)
has-map-cons m (ys ∷ xss) xs h = ground (arith, has-map-cons m xss xs, ==_iff m m)

member_above :
    (m x s : ℕ) (xs : List ℕ)
    → m < x
    → ((t : ℕ) → has xs t ≡ true → x < t)
    → has (x ∷ xs) s ≡ true
    → suc m ≤ s
member_above m x s xs below above held = elim (Bool-cases (x == s)) [
  | inl here ↦ omega (arith, (==_iff x s).0 here)
  | inr later ↦ omega (arith, above s (ground (arith, held, later)))
]

has-sublists :
    (m k : ℕ) (xs : List ℕ)
    → rising xs ≡ true
    → ((s : ℕ) → has xs s ≡ true → (m ≤ s) × (s < m + k))
    → has (sublists m k) xs ≡ true
unfolding eq_dfa_state
has-sublists m zero [] up within = refl
has-sublists m zero (x ∷ xs) up within =
    let here = within x (ground (arith, ==_iff x x)) in absurd (omega arith)
has-sublists m (suc k) [] up within =
    let rest = has-sublists (suc m) k [] refl (λ s h. absurd (cc h)) in
    ground (arith, has-append (map (λ q. m ∷ q) (sublists (suc m) k)) (sublists (suc m) k) [])
has-sublists m (suc k) (x ∷ xs) up within =
    let here = within x (ground (arith, ==_iff x x)) in
    let split = has-append (map (λ q. m ∷ q) (sublists (suc m) k)) (sublists (suc m) k) (x ∷ xs) in
    let above = λ (s : ℕ) (h : has xs s ≡ true). has-above x xs s (ground (arith, up)) h in
    let tail = λ (s : ℕ) (h : has xs s ≡ true). within s (ground (arith, h)) in
    elim (Bool-cases (m == x)) [
      | inl first ↦
          let this : m ≡ x = (==_iff m x).0 first in
          let rest =
            has-sublists (suc m) k xs (ground (arith, up))
              (λ s h. (omega (arith, above s h, here.0), omega (arith, (tail s h).1))) in
          let held =
            subst (λ z. has (map (λ q. m ∷ q) (sublists (suc m) k)) (z ∷ xs) ≡ true) this
              (has-map-cons m (sublists (suc m) k) xs rest) in
          or_left _ _ _ split held
      | inr other ↦
          let past : m ≢ x = λ e. cc ((==_iff m x).1 e, other) in
          let next_up = λ (s : ℕ) (h : has (x ∷ xs) s ≡ true).
            member_above m x s xs (omega (arith, here.0, past)) above h in
          let rest =
            has-sublists (suc m) k (x ∷ xs) up
              (λ s h. (next_up s h, omega (arith, (within s h).1))) in
          or_right _ _ _ split rest
    ]

pub length-IsSets :
    (n : List NfaState) (sets : List (List ℕ)) → IsSets n sets → length sets ≤ 2 ^ length n
length-IsSets n sets h = omega (
  arith,
  length-sublists 0 (length n),
  pigeonhole sets (sublists 0 (length n)) h.once (λ z held.
      has-sublists 0 (length n) z (h.ordered z held)
        (λ s member. (omega arith, omega (arith, h.inside z s held member)))),
)
