-- ===== src/Lex/Liveness/Rounds.antt =====
-- The visits of a round: the live actions stay right, and a visit that changes something misses less.
use mathlib.Core.Path.{subst}
use dparser.Prelude.{
  ℕ, zero, suc, ◌+◌, ◌≤◌, ◌<◌, ◌≡◌, refl, sym, ap, ◌∙◌, inl, inr, Bool, true, false, ◌||◌, List, [],
  ◌∷◌, Option, none, some, arith, ◌==◌, ==_iff, length, length-set, set, get_elem?, Bool-cases, has,
  nat_eq,
}
use dparser.Lex.Subset.{ScanState}
use dparser.Lex.Liveness.{set_union, live_of, visit_char, visit_chars, every_accept}
use dparser.Lex.Liveness.Grows.{set_union-Adds, missing-set_union, bit, total, total-set}
use dparser.Lex.Liveness.Reach.{Live, onwards, Live-every_accept}

pub live_of-set_self :
    (lives : List (List ℕ)) (s : ℕ) (v : List ℕ) → s < length lives → live_of (set lives s v) s ≡ v
live_of-set_self [] s v h = absurd (omega arith)
live_of-set_self (l ∷ lives) zero v h = refl
live_of-set_self (l ∷ lives) (suc s) v h = live_of-set_self lives s v (omega arith)

pub live_of-set_ne :
    (lives : List (List ℕ)) (s i : ℕ) (v : List ℕ)
    → (s == i) ≡ false
    → live_of (set lives s v) i ≡ live_of lives i
live_of-set_ne [] s i v h = refl
live_of-set_ne (l ∷ lives) zero zero v h = absurd (cc h)
live_of-set_ne (l ∷ lives) zero (suc i) v h = refl
live_of-set_ne (l ∷ lives) (suc s) zero v h = refl
live_of-set_ne (l ∷ lives) (suc s) (suc i) v h = live_of-set_ne lives s i v (ground (arith, h))

set_same : (lives : List (List ℕ)) (s : ℕ) → set lives s (live_of lives s) ≡ lives
set_same [] s = refl
set_same (l ∷ lives) zero = refl
set_same (l ∷ lives) (suc s) = ap (λ q. l ∷ q) (set_same lives s)

-- What is live in `t` is live in `s`.
abbrev pub Within : List (List ℕ) → ℕ → ℕ → Type 0
Within lives s t = (a : ℕ) → has (live_of lives t) a ≡ true → has (live_of lives s) a ≡ true

-- The live actions are accepted in a state that is reached.
abbrev pub Good : List ScanState → List (List ℕ) → Type 0
Good states lives = (i a : ℕ) → has (live_of lives i) a ≡ true → Live states i a

-- What a visit does; one that changes nothing has found that `closed` holds.
pub record Step (states : List ScanState) (lives : List (List ℕ)) (closed : Type 0)
    (r : List (List ℕ) × Bool) : Type 0 where
  pub good : Good states r.0
  pub size : length r.0 ≡ length lives
  pub grows : (i a : ℕ) → has (live_of lives i) a ≡ true → has (live_of r.0 i) a ≡ true
  pub still : r.1 ≡ false → (r.0 ≡ lives) × closed
  pub fewer : total (every_accept states) r.0 + bit r.1 ≤ total (every_accept states) lives

module _ (states : List ScanState) where
  pub nothing_done :
      (lives : List (List ℕ)) (closed : Type 0)
      → Good states lives
      → closed
      → Step states lives closed (lives, false)
  nothing_done lives closed good c = record {
    good = good;
    size = refl;
    grows = λ i a h. h;
    still = λ _. (refl, c);
    fewer = omega arith;
  }

  -- A visit after another one.
  pub Step-then :
      (lives : List (List ℕ)) (closed later : Type 0) (p q : List (List ℕ) × Bool)
      → Step states lives closed p
      → Step states p.0 later q
      → Step states lives ((p.0 ≡ lives) × closed × later) (q.0, p.1 || q.1)
  Step-then lives closed later p q first next = record {
    good = next.good;
    size = next.size ∙ first.size;
    grows = λ i a h. next.grows i a (first.grows i a h);
    still = λ h.
        let (same, c) = first.still (ground arith) in
        let (same', l) = next.still (ground arith) in (same' ∙ same, (same, c, l));
    fewer = ground (arith, first.fewer, next.fewer);
  }

  pub Step-weaken :
      (lives : List (List ℕ)) (closed other : Type 0) (r : List (List ℕ) × Bool)
      → (closed → other)
      → Step states lives closed r
      → Step states lives other r
  Step-weaken lives closed other r f step = record {
    good = step.good;
    size = step.size;
    grows = step.grows;
    still = λ h. let (same, c) = step.still h in (same, f c);
    fewer = step.fewer;
  }

  module _ (s : ℕ) (ss : ScanState) (at : get_elem? states s ≡ some ss) where
    -- The state that byte `c` leads to has no more live actions.
    abbrev Closed : List (List ℕ) → Option ℕ → Type 0
    Closed lives o = (t : ℕ) → o ≡ some t → Within lives s t

    merge-Step :
        (lives : List (List ℕ)) (c t : ℕ)
        → s < length lives
        → get_elem? ss.chars c ≡ some (some t)
        → Good states lives
        → Step states lives (Within lives s t) (
          set lives s (set_union (live_of lives s) (live_of lives t)).0,
          (set_union (live_of lives s) (live_of lives t)).1,
        )
    merge-Step lives c t below to good =
        let u = set_union-Adds (live_of lives s) (live_of lives t) in
        let v = (set_union (live_of lives s) (live_of lives t)).0 in
        let from : (a : ℕ) → has (live_of lives t) a ≡ true → Live states s a = λ a held.
          let l = good t a held in
          record {
            goal = l.goal;
            state = l.state;
            reaches = onwards c at to l.reaches;
            at_goal = l.at_goal;
            accepts = l.accepts;
          } in
        record {
          good = λ i a held. elim (Bool-cases (s == i)) [
            | inl self ↦
                let e : s ≡ i = (==_iff s i).0 self in
                let in_v : has v a ≡ true =
                  ap (λ l. has l a)
                    (sym (live_of-set_self lives s v below) ∙ ap (live_of (set lives s v)) e)
                  ∙ held in
                subst (λ k. Live states k a) e
                  (elim (Bool-cases (has (live_of lives s) a)) [
                    | inl old ↦ good s a old
                    | inr new ↦ from a (ground (arith, sym (u.members a) ∙ in_v, new))
                  ])
            | inr other ↦
                good i a (ap (λ l. has l a) (sym (live_of-set_ne lives s i v other)) ∙ held)
          ];
          size = length-set lives s v;
          grows = λ i a held. elim (Bool-cases (s == i)) [
            | inl self ↦
                let e : s ≡ i = (==_iff s i).0 self in
                let before : has (live_of lives s) a ≡ true =
                  ap (λ k. has (live_of lives k) a) e ∙ held in
                ap (λ l. has l a)
                  (ap (live_of (set lives s v)) (sym e) ∙ live_of-set_self lives s v below)
                ∙ u.members a
                ∙ ground arith
            | inr other ↦ ap (λ l. has l a) (live_of-set_ne lives s i v other) ∙ held
          ];
          still =
              λ h. let (same, sub) = u.same h in (ap (set lives s) same ∙ set_same lives s, sub);
          fewer =
              total-set (every_accept states) lives s v
                (bit (set_union (live_of lives s) (live_of lives t)).1)
                (missing-set_union (every_accept states) (live_of lives s) (live_of lives t)
                  (λ a held. Live-every_accept states t a (good t a held)))
                below;
        }

    visit_char-Step :
        (lives : List (List ℕ)) (c : ℕ) (o : Option ℕ)
        → s < length lives
        → get_elem? ss.chars c ≡ some o
        → Good states lives
        → Step states lives (Closed lives o) (visit_char lives s o)
    unfolding visit_char
    visit_char-Step lives c none below to good =
        nothing_done lives (Closed lives none) good (λ t e. absurd (cc e))
    visit_char-Step lives c (some t) below to good = elim (Bool-cases (s == t)) [
      | inl self ↦ rw self (
          nothing_done lives (Closed lives (some t)) good (λ k e a held.
            let here : t ≡ k = cc e in
            ap (λ q. has (live_of lives q) a) ((==_iff s t).0 self ∙ here) ∙ held))
      | inr other ↦ rw other (
          Step-weaken lives (Within lives s t) (Closed lives (some t)) _
            (λ within k e. let here : t ≡ k = cc e in subst (Within lives s) here within)
            (merge-Step lives c t below to good))
    ]

    -- The bytes `c` and above, of which `chars` are the states.
    pub visit_chars-Step :
        (lives : List (List ℕ)) (c : ℕ) (chars : List (Option ℕ))
        → s < length lives
        → ((k : ℕ) → get_elem? ss.chars (c + k) ≡ get_elem? chars k)
        → Good states lives
        → Step states lives
            ((k : ℕ) (o : Option ℕ) → get_elem? chars k ≡ some o → Closed lives o)
            (visit_chars lives s chars)
    unfolding visit_chars
    visit_chars-Step lives c [] below these good =
        nothing_done lives _ good (λ k o e. absurd (cc e))
    visit_chars-Step lives c (o ∷ chars) below these good =
        let first =
          visit_char-Step lives c o below (ap (get_elem? ss.chars) (add_zero c) ∙ these 0) good in
        let r = visit_char lives s o in
        let rest =
          visit_chars-Step r.0 (suc c) chars (omega (arith, first.size))
            (λ k. ap (get_elem? ss.chars) (add_suc c k) ∙ these (suc k)) first.good in
        Step-weaken lives _ _ _ (λ all k o' e. pick r.0 all k o' e)
          (Step-then lives (Closed lives o) _ r (visit_chars r.0 s chars) first rest)
      where
        add_zero : (c : ℕ) → c ≡ c + 0
        add_zero c = omega arith

        add_suc : (c k : ℕ) → suc c + k ≡ c + suc k
        add_suc c k = omega arith

        pick :
            (lives' : List (List ℕ))
            → (lives' ≡ lives)
              × Closed lives o
              × ((k : ℕ) (q : Option ℕ) → get_elem? chars k ≡ some q → Closed lives' q)
            → (k : ℕ) (o' : Option ℕ) → get_elem? (o ∷ chars) k ≡ some o'
            → Closed lives o'
        pick lives' (same, now, rest) zero o' e =
            let this : o ≡ o' = cc e in subst (Closed lives) this now
        pick lives' (same, now, rest) (suc k) o' e = subst (λ l. Closed l o') same (rest k o' e)
