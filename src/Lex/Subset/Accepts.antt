-- ===== src/Lex/Subset/Accepts.antt =====
-- What a state of the scanner accepts: the actions of the highest priority.
use dparser.Prelude.{
  ℕ, ◌≤◌, ◌≡◌, ◌↔◌, refl, ap, ◌∙◌, inl, inr, true, ◌&&◌, List, [], ◌∷◌, arith, ltb, ◌==◌, ==_iff,
  if◌then◌else◌, Bool-cases, has, has-append, nat_eq,
}
use dparser.Lex.{NfaState, nfa_at}
use dparser.Lex.Subset.{highest_from, with_priority, all_accepts}

pub has-all_accepts :
    (n : List NfaState) (x : List ℕ) (a : ℕ)
    → (has (all_accepts n x) a ≡ true)
      ↔ ((s : ℕ) × (has x s ≡ true) × (has (nfa_at n s).accepts a ≡ true))
unfolding all_accepts
has-all_accepts n [] a = (λ e. absurd (cc e), λ p. absurd (cc p.1))
has-all_accepts n (q ∷ x) a =
    let both = has-append (nfa_at n q).accepts (all_accepts n x) a in
    let rest = has-all_accepts n x a in
    (
      λ held. elim (Bool-cases (has (nfa_at n q).accepts a)) [
        | inl here ↦ (q, ground (arith, ==_iff q q), here)
        | inr other ↦
            let (s, member, accepted) = rest.0 (ground (arith, both)) in
            (s, ground (arith, member), accepted)
      ],
      λ p.
          let (s, member, accepted) = p in
          elim (Bool-cases (q == s)) [
            | inl here ↦
                let this : q ≡ s = (==_iff q s).0 here in
                let accepts : has (nfa_at n q).accepts a ≡ true =
                  ap (λ z. has (nfa_at n z).accepts a) this ∙ accepted in
                both ∙ ground arith
            | inr other ↦
                let later : has (all_accepts n x) a ≡ true =
                  rest.1 (s, ground (arith, member, other), accepted) in
                both ∙ ground arith
          ],
    )

module _ (priority : ℕ → ℕ) where
  highest_above :
      (h : ℕ) (accepts : List ℕ)
      → (h ≤ highest_from priority h accepts)
        × ((a : ℕ) → has accepts a ≡ true → priority a ≤ highest_from priority h accepts)
  unfolding highest_from
  highest_above h [] = (omega arith, λ a held. absurd (cc held))
  highest_above h (b ∷ accepts) =
      let next = if ltb h (priority b) then priority b else h in
      let grows : (h ≤ next) × (priority b ≤ next) = ground arith in
      let (above, all) = highest_above next accepts in
      (
        omega (arith, above, grows.0),
        λ a held. elim (Bool-cases (b == a)) [
          | inl here ↦ omega (arith, above, grows.1, ap priority ((==_iff b a).0 here))
          | inr later ↦ all a (ground (arith, held, later))
        ],
      )

  highest_least :
      (h m : ℕ) (accepts : List ℕ)
      → h ≤ m
      → ((a : ℕ) → has accepts a ≡ true → priority a ≤ m)
      → highest_from priority h accepts ≤ m
  unfolding highest_from
  highest_least h m [] start all = start
  highest_least h m (b ∷ accepts) start all =
      let here = all b (ground (arith, ==_iff b b)) in
      highest_least (if ltb h (priority b) then priority b else h) m accepts (ground arith)
        (λ a held. all a (ground (arith, held)))

  has-with_priority :
      (h : ℕ) (accepts : List ℕ) (a : ℕ)
      → has (with_priority priority h accepts) a ≡ (has accepts a && priority a == h)
  unfolding with_priority
  has-with_priority h [] a = refl
  has-with_priority h (b ∷ accepts) a = ground (arith, has-with_priority h accepts a, ==_iff b a)

  -- An action that is accepted, of those with the highest priority.
  pub record IsBest (accepts : ℕ → Type 0) (a : ℕ) : Type 0 where
    pub accepted : accepts a
    pub highest : (b : ℕ) → accepts b → priority b ≤ priority a

  pub IsBest-same : (P Q : ℕ → Type 0) (a : ℕ) → ((b : ℕ) → P b ↔ Q b) → IsBest P a → IsBest Q a
  IsBest-same P Q a same best = record {
    accepted = (same a).0 best.accepted;
    highest = λ b q. best.highest b ((same b).1 q);
  }

  pub with_priority-IsBest :
      (accepts : List ℕ) (a : ℕ)
      → (has (with_priority priority (highest_from priority 0 accepts) accepts) a ≡ true)
        ↔ IsBest (λ b. has accepts b ≡ true) a
  with_priority-IsBest accepts a =
      let h = highest_from priority 0 accepts in
      let both = has-with_priority h accepts a in
      let (_, all) = highest_above 0 accepts in
      (
        λ held.
            let top : priority a ≡ h = (==_iff (priority a) h).0 (ground (arith, both)) in
            record {
              accepted = ground (arith, both);
              highest = λ b there. omega (arith, all b there, top);
            },
        λ best.
            let least = highest_least 0 (priority a) accepts (omega arith) best.highest in
            let this = all a best.accepted in
            let top : (priority a == h) ≡ true =
              (==_iff (priority a) h).1 (omega (arith, least, this)) in
            let accepted = best.accepted in both ∙ ground arith,
      )
