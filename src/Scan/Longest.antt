-- ===== src/Scan/Longest.antt =====
-- The scanner finds the longest match, and counts lines and columns.
use dparser.Prelude.{
  ℕ, zero, suc, ◌-◌, ◌≤◌, ◌<◌, ◌≡◌, refl, ◌⊎◌, inl, inr, true, false, List, [], ◌∷◌, Option, none,
  some, arith, ◌==◌, if◌then◌else◌, length, take, Bool-cases,
}
use dparser.Scan.{Loc, State, Vars, row, entry, accepts, next_loc, advance, scan_loop}

-- The position behind some bytes.
abbrev pub locate : Loc → List ℕ → Loc
locate loc [] = loc
locate loc (c ∷ cs) = locate (next_loc loc c) cs

-- The state of the automaton behind some bytes, if it gets so far.
unfoldable pub run : State → ℕ → List ℕ → Option ℕ
run ps state [] = some state
run ps state (c ∷ cs) =
    let more = run ps (entry (row ps state).scanner_block c - 1) cs in
    if entry (row ps state).scanner_block c == 0 then none else more

-- After `k` bytes of `input` the last accepting state was passed, or no byte led to one.
pub record IsLongest (ps : State) (state : ℕ) (input : List ℕ) (x x' : Vars) (k : ℕ) : Type 0 where
  pub within : k ≤ length input
  pub here :
      (0 < k
        → (run ps state (take k input) ≡ some x'.last)
          × (accepts ps x'.last ≡ true)
          × (x'.last_loc ≡ locate x.loc (take k input)))
  pub unmoved : (k ≡ 0 → (x'.last ≡ x.last) × (x'.last_loc ≡ x.last_loc))
  pub none_later :
      (m q : ℕ)
      → k < m
      → m ≤ length input
      → run ps state (take m input) ≡ some q
      → accepts ps q ≡ false

-- A byte that the automaton takes, before a match in the rest or before none.
module _ (ps : State) (c : ℕ) (rest : List ℕ) (state : ℕ) (x x' : Vars) where
  abbrev next : ℕ
  next = entry (row ps state).scanner_block c - 1

  module _ (go : (entry (row ps state).scanner_block c == 0) ≡ false) where
    later :
        (k m q : ℕ)
        → IsLongest ps next rest (advance ps next c x) x' k
        → suc k < m
        → m ≤ length (c ∷ rest)
        → run ps state (take m (c ∷ rest)) ≡ some q
        → accepts ps q ≡ false
    unfolding run
    later k zero q h lt le e = absurd (omega arith)
    later k (suc m) q h lt le e = h.none_later m q (omega arith) (omega arith) (rw (go, run) at e)

    match_in_rest :
        (k : ℕ)
        → IsLongest ps next rest (advance ps next c x) x' (suc k)
        → IsLongest ps state (c ∷ rest) x x' (suc (suc k))
    unfolding run advance
    match_in_rest k h =
        let (reached, accepted, located) = h.here (omega arith) in
        record {
          within = omega (arith, h.within);
          here = λ _. (rw (go, run) reached, accepted, located);
          unmoved = λ e. absurd (omega arith);
          none_later = λ m q. later (suc k) m q h;
        }

    match_here :
        accepts ps next ≡ true
        → IsLongest ps next rest (advance ps next c x) x' 0
        → IsLongest ps state (c ∷ rest) x x' 1
    unfolding run advance
    match_here accepted h =
        let (last, loc) = h.unmoved refl in
        let last' : x'.last ≡ next = ground arith in
        record {
          within = omega arith;
          here = λ _. (rw (go, run, last'), rw last' accepted, ground arith);
          unmoved = λ e. absurd (omega arith);
          none_later = λ m q. later 0 m q h;
        }

    no_match :
        accepts ps next ≡ false
        → IsLongest ps next rest (advance ps next c x) x' 0
        → IsLongest ps state (c ∷ rest) x x' 0
    unfolding run advance
    no_match rejected h = record {
      within = omega arith;
      here = λ e. absurd (omega arith);
      unmoved = λ _. let (last, loc) = h.unmoved refl in (ground arith, ground arith);
      none_later = none_from_here;
    }
      where
        none_from_here :
            (m q : ℕ)
            → 0 < m
            → m ≤ length (c ∷ rest)
            → run ps state (take m (c ∷ rest)) ≡ some q
            → accepts ps q ≡ false
        none_from_here zero q lt le e = absurd (omega arith)
        none_from_here (suc zero) q lt le e =
            let same : next ≡ q = ground arith in rw (← same) rejected
        none_from_here (suc (suc m)) q lt le e = later 0 (suc (suc m)) q h (omega arith) le e

  stopped :
      (entry (row ps state).scanner_block c == 0) ≡ true
      → x ≡ x'
      → IsLongest ps state (c ∷ rest) x x' 0
  unfolding run
  stopped stop same = record {
    within = omega arith;
    here = λ e. absurd (omega arith);
    unmoved = λ _. (ground arith, ground arith);
    none_later = later_none;
  }
    where
      later_none :
          (m q : ℕ)
          → 0 < m
          → m ≤ length (c ∷ rest)
          → run ps state (take m (c ∷ rest)) ≡ some q
          → accepts ps q ≡ false
      later_none zero q lt le e = absurd (omega arith)
      later_none (suc m) q lt le e = absurd (cc (rw (stop, run) at e))

-- The loop ends with the last accepting state on its way, and with the position behind it.
pub scan_loop-IsLongest :
    (ps : State) (input : List ℕ) (state : ℕ) (x x' : Vars)
    → scan_loop ps input state x ≡ some x'
    → (k : ℕ) × IsLongest ps state input x x' k
unfolding scan_loop
scan_loop-IsLongest ps [] state x x' e = absurd (cc e)
scan_loop-IsLongest ps (c ∷ rest) state x x' e =
    elim (Bool-cases (entry (row ps state).scanner_block c == 0)) [
      | inl stop ↦
          let stays : some x ≡ some x' = rw (stop, scan_loop) at e in
          (0, stopped ps c rest state x x' stop (cc))
      | inr go ↦
          let q = entry (row ps state).scanner_block c - 1 in
          let (k, h) =
            scan_loop-IsLongest ps rest q (advance ps q c x) x' (rw (go, scan_loop) at e) in
          continue go (Bool-cases (accepts ps q)) k h
    ]
  where
    continue :
        (entry (row ps state).scanner_block c == 0) ≡ false
        → (accepts ps (entry (row ps state).scanner_block c - 1) ≡ true)
          ⊎ (accepts ps (entry (row ps state).scanner_block c - 1) ≡ false)
        → (k : ℕ)
        → IsLongest ps
            (entry (row ps state).scanner_block c - 1)
            rest
            (advance ps (entry (row ps state).scanner_block c - 1) c x)
            x'
            k
        → (j : ℕ) × IsLongest ps state (c ∷ rest) x x' j
    continue go a (suc k) h = (suc (suc k), match_in_rest ps c rest state x x' go k h)
    continue go (inl accepted) zero h = (1, match_here ps c rest state x x' go accepted h)
    continue go (inr rejected) zero h = (0, no_match ps c rest state x x' go rejected h)
