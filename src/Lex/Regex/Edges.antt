-- ===== src/Lex/Regex/Edges.antt =====
-- Adding edges and states to an automaton whose edges go to its states keeps that.
use dparser.Prelude.{
  ℕ, zero, suc, ◌≤◌, ◌<◌, ◌≡◌, refl, sym, ap, ◌∙◌, ◌⊎◌, inl, inr, Bool, true, false, not, ◌&&◌,
  ◌||◌, List, [], ◌∷◌, ◌++◌, arith, ◌==◌, ==_iff, length, set, length-append, length-set,
  Bool-cases, has, has-append, nat_eq,
}
use dparser.Lex.{NfaState, blank_nfa, nfa_at, targets, add_epsilon, add_char, add_accept}
use dparser.Lex.Regex.{add_set}
use dparser.Lex.Subset.Edges.{IsNfa}

get_or-set_cases :
    (n : List NfaState) (s q : ℕ) (v : NfaState)
    → (nfa_at (set n s v) q ≡ v) ⊎ (nfa_at (set n s v) q ≡ nfa_at n q)
get_or-set_cases [] s q v = inr refl
get_or-set_cases (x ∷ n) zero zero v = inl refl
get_or-set_cases (x ∷ n) zero (suc q) v = inr refl
get_or-set_cases (x ∷ n) (suc s) zero v = inr refl
get_or-set_cases (x ∷ n) (suc s) (suc q) v = get_or-set_cases n s q v

-- A state whose edges go to the automaton
record IsState (n : List NfaState) (v : NfaState) : Type 0 where
  silent : (t : ℕ) → has v.epsilon t ≡ true → t < length n
  reading : (c t : ℕ) → has (targets v.chars c) t ≡ true → t < length n

at-IsState : (n : List NfaState) (q : ℕ) → IsNfa n → IsState n (nfa_at n q)
at-IsState n q h = record { silent = h.silent q; reading = h.reading q }

set-IsNfa : (n : List NfaState) (s : ℕ) (v : NfaState) → IsNfa n → IsState n v → IsNfa (set n s v)
set-IsNfa n s v h state = record {
  silent = λ q t held. elim (get_or-set_cases n s q v) [
    | inl new ↦ omega (
      arith,
      length-set n s v,
      state.silent t (ap (λ (z : NfaState). has z.epsilon t) (sym new) ∙ held),
    )
    | inr old ↦ omega (
      arith,
      length-set n s v,
      h.silent q t (ap (λ (z : NfaState). has z.epsilon t) (sym old) ∙ held),
    )
  ];
  reading = λ q c t held. elim (get_or-set_cases n s q v) [
    | inl new ↦ omega (
      arith,
      length-set n s v,
      state.reading c t (ap (λ (z : NfaState). has (targets z.chars c) t) (sym new) ∙ held),
    )
    | inr old ↦ omega (
      arith,
      length-set n s v,
      h.reading q c t (ap (λ (z : NfaState). has (targets z.chars c) t) (sym old) ∙ held),
    )
  ];
}

-- The states of `n` are among those of `n'`, which is an automaton.
pub record Extends (n n' : List NfaState) : Type 0 where
  pub nfa : IsNfa n'
  pub size : length n ≤ length n'

pub add_epsilon-Extends :
    (n : List NfaState) (s t : ℕ) → IsNfa n → t < length n → Extends n (add_epsilon n s t)
unfolding add_epsilon
add_epsilon-Extends n s t h below =
    let state = at-IsState n s h in
    record {
      nfa = set-IsNfa n s _ h (record {
        silent = λ u held. elim (Bool-cases (has (nfa_at n s).epsilon u)) [
          | inl old ↦ state.silent u old
          | inr new ↦ omega (
            arith,
            below,
            (==_iff t u).0 (ground (arith, held, new, has-append (nfa_at n s).epsilon (t ∷ []) u)),
          )
        ];
        reading = state.reading;
      });
      size = omega (
        arith,
        length-set n s (record (nfa_at n s) { epsilon = (nfa_at n s).epsilon ++ t ∷ [] }),
      );
    }

has-targets-append :
    (chars : List (ℕ × ℕ)) (b t c u : ℕ)
    → has (targets (chars ++ (b, t) ∷ []) c) u ≡ true
    → has (targets chars c) u ≡ false
    → t ≡ u
has-targets-append [] b t c u held new = ground (arith, held, ==_iff t u)
has-targets-append ((d, x) ∷ chars) b t c u held new = elim (Bool-cases (d == c)) [
  | inl here ↦
      has-targets-append chars b t c u (ground (arith, held, new, here)) (ground (arith, new, here))
  | inr other ↦
      has-targets-append chars b t c u (ground (arith, held, other)) (ground (arith, new, other))
]

pub add_char-Extends :
    (n : List NfaState) (s c t : ℕ) → IsNfa n → t < length n → Extends n (add_char n s c t)
unfolding add_char
add_char-Extends n s c t h below =
    let state = at-IsState n s h in
    record {
      nfa = set-IsNfa n s _ h (record {
        silent = state.silent;
        reading = λ d u held. elim (Bool-cases (has (targets (nfa_at n s).chars d) u)) [
          | inl old ↦ state.reading d u old
          | inr new ↦ omega (arith, below, has-targets-append (nfa_at n s).chars c t d u held new)
        ];
      });
      size = omega (
        arith,
        length-set n s (record (nfa_at n s) { chars = (nfa_at n s).chars ++ (c, t) ∷ [] }),
      );
    }

pub add_accept-Extends : (n : List NfaState) (s a : ℕ) → IsNfa n → Extends n (add_accept n s a)
unfolding add_accept
add_accept-Extends n s a h =
    let state = at-IsState n s h in
    record {
      nfa = set-IsNfa n s _ h (record { silent = state.silent; reading = state.reading });
      size = omega (
        arith,
        length-set n s (record (nfa_at n s) { accepts = (nfa_at n s).accepts ++ a ∷ [] }),
      );
    }

pub nfa_at-new : (n : List NfaState) (q : ℕ) → nfa_at (n ++ blank_nfa ∷ []) q ≡ nfa_at n q
nfa_at-new [] zero = refl
nfa_at-new [] (suc q) = refl
nfa_at-new (x ∷ n) zero = refl
nfa_at-new (x ∷ n) (suc q) = nfa_at-new n q

-- `new_NFAState`
pub new-Extends : (n : List NfaState) → IsNfa n → Extends n (n ++ blank_nfa ∷ [])
new-Extends n h = record {
  nfa = record {
    silent = λ q t held. omega (
      arith,
      length-append n (blank_nfa ∷ []),
      h.silent q t (ap (λ (z : NfaState). has z.epsilon t) (sym (nfa_at-new n q)) ∙ held),
    );
    reading = λ q c t held. omega (
      arith,
      length-append n (blank_nfa ∷ []),
      h.reading q c t
          (ap (λ (z : NfaState). has (targets z.chars c) t) (sym (nfa_at-new n q)) ∙ held),
    );
  };
  size = omega (arith, length-append n (blank_nfa ∷ []));
}

pub Extends-trans : {l m n : List NfaState} → Extends l m → Extends m n → Extends l n
Extends-trans e f = record { nfa = f.nfa; size = omega (arith, e.size, f.size) }

pub add_set-Extends :
    (rest i : ℕ) (reversed : Bool) (mark : List ℕ) (s x : ℕ) (n : List NfaState)
    → IsNfa n
    → x < length n
    → Extends n (add_set rest i reversed mark s x n)
unfolding add_set
add_set-Extends zero i reversed mark s x n h below = record { nfa = h; size = omega arith }
add_set-Extends (suc rest) i reversed mark s x n h below =
    elim (Bool-cases ((not reversed && has mark i) || (reversed && not (has mark i)))) [
      | inl marked ↦
          let e = add_char-Extends n s i x h below in
          rw (marked, add_set)
            (Extends-trans e (
              add_set-Extends rest (suc i) reversed mark s x (add_char n s i x) e.nfa
                (omega (arith, e.size))))
      | inr skip ↦ rw (skip, add_set) (add_set-Extends rest (suc i) reversed mark s x n h below)
    ]
