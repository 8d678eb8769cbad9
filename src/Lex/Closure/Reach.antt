-- ===== src/Lex/Closure/Reach.antt =====
-- `nfa_closure` ends, with exactly the states that are reached.
use mathlib.Core.List.{append-nil, append_assoc}
use dparser.Prelude.{
  ℕ, zero, suc, ◌+◌, ◌≤◌, ◌<◌, ◌≡◌, ◌↔◌, refl, sym, ap, ◌∙◌, inl, inr, true, false, ◌||◌, List, [],
  ◌∷◌, ◌++◌, some, arith, ◌==◌, ==_iff, length, take, get_elem?, length-append, take-grown,
  take-all, lt-length, Bool-cases, Option-cases, has, distinct, has-append, distinct-concat,
  pigeonhole, nat_eq,
}
use dparser.Lex.{NfaState, nfa_at}
use dparser.Lex.Closure.{add_targets, closure_loop}

-- The states that those of `kernel` lead to without reading.
pub data Reaches (n : List NfaState) (kernel : List ℕ) : ℕ → Type 0 where
  start : {s : ℕ} → has kernel s ≡ true → Reaches n kernel s
  along : {s t : ℕ} → Reaches n kernel s → has (nfa_at n s).epsilon t ≡ true → Reaches n kernel t

-- Every edge that reads nothing goes to a state of the automaton.
abbrev pub IsClosed : List NfaState → Type 0
IsClosed n = (s t : ℕ) → has (nfa_at n s).epsilon t ≡ true → t < length n

-- Different states of the automaton.
pub record IsSubset (n : List NfaState) (states : List ℕ) : Type 0 where
  pub once : distinct states ≡ true
  pub inside : (s : ℕ) → has states s ≡ true → s < length n

has-get_elem? : (xs : List ℕ) (i s : ℕ) → get_elem? xs i ≡ some s → has xs s ≡ true
has-get_elem? [] i s e = absurd (cc e)
has-get_elem? (x ∷ xs) zero s e = ground (arith, ==_iff x s)
has-get_elem? (x ∷ xs) (suc i) s e = ground (arith, has-get_elem? xs i s)

abbrev numbers : ℕ → List ℕ
numbers zero = []
numbers (suc n) = n ∷ numbers n

has-numbers : (n s : ℕ) → s < n → has (numbers n) s ≡ true
has-numbers zero s h = absurd (omega arith)
has-numbers (suc n) s h = ground (arith, has-numbers n s, ==_iff n s)

length-numbers : (n : ℕ) → length (numbers n) ≡ n
length-numbers zero = refl
length-numbers (suc n) = ap suc (length-numbers n)

length-subset : (n : List NfaState) (states : List ℕ) → IsSubset n states → length states ≤ length n
length-subset n states h = omega (
  arith,
  length-numbers (length n),
  pigeonhole states (numbers (length n)) h.once
      (λ s held. has-numbers (length n) s (h.inside s held)),
)

-- What the loop over the edges of a state does.
pub record Adds (epsilon states states' : List ℕ) : Type 0 where
  pub once : distinct states' ≡ true
  pub members : (t : ℕ) → has states' t ≡ (has states t || has epsilon t)
  pub grown : (new : List ℕ) × (states' ≡ states ++ new)

pub add_targets-Adds :
    (states epsilon : List ℕ)
    → distinct states ≡ true
    → Adds epsilon states (add_targets states epsilon)
unfolding add_targets
add_targets-Adds states [] d = record {
  once = d;
  members = λ t. ground arith;
  grown = ([], sym (append-nil states));
}
add_targets-Adds states (t ∷ epsilon) d = elim (Bool-cases (has states t)) [
  | inl old ↦
      let rest = add_targets-Adds states epsilon d in
      rw (old, add_targets)
        (record {
          once = rest.once;
          members = λ u. ground (arith, rest.members u, ==_iff t u);
          grown = rest.grown;
        })
  | inr new ↦
      let rest = add_targets-Adds (states ++ t ∷ []) epsilon (distinct-concat states t d new) in
      let (more, e) = rest.grown in
      rw (new, add_targets)
        (record {
          once = rest.once;
          members = λ u. ground (arith, rest.members u, has-append states (t ∷ []) u);
          grown = (t ∷ more, e ∙ append_assoc states (t ∷ []) more);
        })
]

module _ (n : List NfaState) (kernel : List ℕ) where
  -- The loop before state `i` of the list is read.
  record Inv (i : ℕ) (states : List ℕ) : Type 0 where
    subset : IsSubset n states
    sound : (t : ℕ) → has states t ≡ true → Reaches n kernel t
    kept : (t : ℕ) → has kernel t ≡ true → has states t ≡ true
    closed :
        (s t : ℕ)
        → has (take i states) s ≡ true
        → has (nfa_at n s).epsilon t ≡ true
        → has states t ≡ true
    read : i ≤ length states

  Inv-step :
      (i s : ℕ) (states : List ℕ)
      → IsClosed n
      → get_elem? states i ≡ some s
      → Inv i states
      → Inv (suc i) (add_targets states (nfa_at n s).epsilon)
  Inv-step i s states targets at h =
      let epsilon = (nfa_at n s).epsilon in
      let a = add_targets-Adds states epsilon h.subset.once in
      let (new, e) = a.grown in
      let here = has-get_elem? states i s at in
      let before = ap (take (suc i)) e ∙ take-grown states new i s at in
      record {
        subset = record {
          once = a.once;
          inside = λ t held. elim (Bool-cases (has states t)) [
            | inl old ↦ h.subset.inside t old
            | inr fresh ↦ targets s t (ground (arith, a.members t))
          ];
        };
        sound = λ t held. elim (Bool-cases (has states t)) [
          | inl old ↦ h.sound t old
          | inr fresh ↦ along (h.sound s here) (ground (arith, a.members t))
        ];
        kept = λ t held. ground (arith, a.members t, h.kept t);
        closed = λ q t seen edge.
            let split : (has (take i states) q || (s == q || false)) ≡ true =
              sym (has-append (take i states) (s ∷ []) q) ∙ ap (λ l. has l q) (sym before) ∙ seen in
            elim (Bool-cases (has (take i states) q)) [
              | inl earlier ↦ ground (arith, a.members t, h.closed q t earlier edge)
              | inr late ↦
                  let this : s ≡ q = (==_iff s q).0 (ground arith) in
                  let edge' : has epsilon t ≡ true =
                    ap (λ z. has (nfa_at n z).epsilon t) this ∙ edge in
                  ground (arith, a.members t)
            ];
        read = omega (arith, lt-length states i s at, length-append states new, ap length e);
      }

  reached_all :
      (i : ℕ) (states : List ℕ)
      → Inv i states
      → take i states ≡ states
      → {t : ℕ} → Reaches n kernel t
      → has states t ≡ true
  reached_all i states h e (start {s} held) = h.kept s held
  reached_all i states h e (along {s} {t} r edge) =
      h.closed s t (ap (λ l. has l s) e ∙ reached_all i states h e r) edge

  -- Different states of the automaton, and exactly those that the kernel leads to.
  pub record IsClosure (states : List ℕ) : Type 0 where
    pub subset : IsSubset n states
    pub exact : (t : ℕ) → (has states t ≡ true) ↔ Reaches n kernel t

  closure_loop_ends :
      (fuel i : ℕ) (states : List ℕ)
      → IsClosed n
      → Inv i states
      → length n < fuel + i
      → (all : List ℕ) × (closure_loop n fuel i states ≡ some all) × IsClosure all
  unfolding closure_loop
  closure_loop_ends zero i states targets h enough =
      absurd (omega (arith, length-subset n states h.subset, h.read))
  closure_loop_ends (suc fuel) i states targets h enough =
      elim (Option-cases (get_elem? states i)) [
        | inl end ↦ (
          states,
          rw (end, closure_loop) refl,
          record {
            subset = h.subset;
            exact = λ t. (h.sound t, reached_all i states h (take-all states i end));
          },
        )
        | inr (s, at) ↦
            let (all, e, inv) =
              closure_loop_ends fuel (suc i) (add_targets states (nfa_at n s).epsilon) targets
                (Inv-step i s states targets at h) (omega arith) in
            (all, rw (at, closure_loop) e, inv)
      ]

  pub closure_loop-IsClosure :
      IsClosed n
      → IsSubset n kernel
      → (all : List ℕ) × (closure_loop n (suc (length n)) 0 kernel ≡ some all) × IsClosure all
  closure_loop-IsClosure targets h =
      closure_loop_ends (suc (length n)) 0 kernel targets initial (omega arith)
    where
      initial : Inv 0 kernel
      initial = record {
        subset = h;
        sound = λ t held. start held;
        kept = λ t held. held;
        closed = λ s t seen edge. absurd (cc seen);
        read = omega arith;
      }
