-- ===== src/Lex/Subset/Scanner.antt =====
-- `nfa_to_scanner`: the scanner accepts, behind each text, what the automaton accepts with the highest
-- priority.
use dparser.Prelude.{
  ℕ, zero, suc, ◌<◌, ◌≡◌, ◌↔◌, refl, ap, true, List, [], ◌∷◌, map, Option, none, some, arith,
  ==_iff, length, get_elem?, has, nat_eq,
}
use dparser.Libc.{Qsort}
use dparser.Lex.{NfaState, nfa_at}
use dparser.Lex.Subset.{all_accepts, ScanState, scan_state, dfa_to_scanner, nfa_to_scanner}
use dparser.Lex.Subset.Edges.{IsNfa}
use dparser.Lex.Subset.Start.{build_dfa-Ends}
use dparser.Lex.Subset.Language.{Reads, Matches, Ends, unread, ends, run, is_bytes}
use dparser.Lex.Subset.Accepts.{has-all_accepts, IsBest, IsBest-same, with_priority-IsBest}

abbrev pub all_chars : List ScanState → List (List (Option ℕ))
all_chars states = map (λ (ss : ScanState). ss.chars) states

-- The automaton accepts the action behind the text.
abbrev pub Accepts : List NfaState → ℕ → List ℕ → ℕ → Type 0
Accepts n s w a = (t : ℕ) × Reads n s w t × (has (nfa_at n t).accepts a ≡ true)

-- What the scanner says of a text, by the state in which it is behind the text.
pub data Answer (n : List NfaState) (priority : ℕ → ℕ) (s : ℕ) (states : List ScanState)
    (w : List ℕ) : Option ℕ → Type 0 where
  rejects : ((t : ℕ) → Reads n s w t → ⊥) → Answer n priority s states w none
  accepts :
      {j : ℕ} {ss : ScanState}
      → get_elem? states j ≡ some ss
      → ((a : ℕ) → (has ss.accepts a ≡ true) ↔ IsBest priority (Accepts n s w) a)
      → Answer n priority s states w (some j)

module _ (n : List NfaState) (priority : ℕ → ℕ) where
  all_chars-dfa_to_scanner :
      (i : ℕ) (sets : List (List ℕ)) (rows : List (List (Option ℕ)))
      → length rows ≡ length sets
      → all_chars (dfa_to_scanner n priority i sets rows) ≡ rows
  unfolding dfa_to_scanner scan_state
  all_chars-dfa_to_scanner i [] [] e = refl
  all_chars-dfa_to_scanner i [] (chars ∷ rows) e = absurd (omega arith)
  all_chars-dfa_to_scanner i (x ∷ sets) [] e = absurd (omega arith)
  all_chars-dfa_to_scanner i (x ∷ sets) (chars ∷ rows) e =
      ap (λ l. chars ∷ l) (all_chars-dfa_to_scanner (suc i) sets rows (omega arith))

  -- The scan state at the place of a set accepts the best of what the set accepts.
  dfa_to_scanner-IsBest :
      (i j : ℕ) (sets : List (List ℕ)) (rows : List (List (Option ℕ))) (x : List ℕ)
      → length rows ≡ length sets
      → get_elem? sets j ≡ some x
      → (ss : ScanState) × (get_elem? (dfa_to_scanner n priority i sets rows) j ≡ some ss)
        × ((a : ℕ)
            → (has ss.accepts a ≡ true) ↔ IsBest priority (λ b. has (all_accepts n x) b ≡ true) a)
  unfolding dfa_to_scanner scan_state
  dfa_to_scanner-IsBest i j [] rows x e at = absurd (cc at)
  dfa_to_scanner-IsBest i j (y ∷ sets) [] x e at = absurd (omega arith)
  dfa_to_scanner-IsBest i zero (y ∷ sets) (chars ∷ rows) x e at =
      let this : y ≡ x = cc at in
      (
        scan_state n priority i x chars,
        ap (λ z. some (scan_state n priority i z chars)) this,
        λ a. with_priority-IsBest priority (all_accepts n x) a,
      )
  dfa_to_scanner-IsBest i (suc j) (y ∷ sets) (chars ∷ rows) x e at =
      dfa_to_scanner-IsBest (suc i) j sets rows x (omega arith) at

  -- The states of a set that a text leads to accept what the automaton accepts behind the text.
  Accepts-same :
      (s : ℕ) (w z : List ℕ) (b : ℕ)
      → ((t : ℕ) → (has z t ≡ true) ↔ Matches n (s ∷ []) w t)
      → (has (all_accepts n z) b ≡ true) ↔ Accepts n s w b
  Accepts-same s w z b exact = (
    λ held.
        let (t, member, accepted) = (has-all_accepts n z b).0 held in
        let (q, first, r) = (exact t).0 member in
        let this : s ≡ q = (==_iff s q).0 (ground (arith, first)) in (t, rw this r, accepted),
    λ p.
        let (t, r, accepted) = p in
        (has-all_accepts n z b).1 (t, (exact t).1 (s, ground (arith, ==_iff s s), r), accepted),
  )

  answer :
      (s : ℕ) (sets : List (List ℕ)) (rows : List (List (Option ℕ))) (w : List ℕ) (o : Option ℕ)
      → length rows ≡ length sets
      → Ends n sets rows (s ∷ []) w o
      → Answer n priority s (dfa_to_scanner n priority 0 sets rows) w o
  answer s sets rows w none e (unread h) = rejects (λ t r. h t (s, ground (arith, ==_iff s s), r))
  answer s sets rows w (some j) e (ends {z = z} at exact) =
      let (ss, there, best) = dfa_to_scanner-IsBest 0 j sets rows z e at in
      let same = λ (b : ℕ). Accepts-same s w z b exact in
      accepts there (λ a. (
        λ held.
            IsBest-same priority (λ b. has (all_accepts n z) b ≡ true) (Accepts n s w) a same
              ((best a).0 held),
        λ p. (best a).1 (
            IsBest-same priority (Accepts n s w) (λ b. has (all_accepts n z) b ≡ true) a
              (λ b. ((same b).1, (same b).0)) p),
      ))

-- On an automaton whose edges go to its states, `nfa_to_scanner` ends, and a run of the scanner over a
-- text from its first state stops where the automaton cannot read the text, and otherwise ends in a
-- state that accepts, of the actions of the automaton behind the text, those of the highest priority.
pub nfa_to_scanner-Answer :
    (libc : Qsort) (n : List NfaState) (priority : ℕ → ℕ) (s : ℕ)
    → IsNfa n
    → s < length n
    → (states : List ScanState) × (nfa_to_scanner libc n priority s ≡ some states)
      × ((w : List ℕ)
          → is_bytes w ≡ true
          → Answer n priority s states w (run (all_chars states) 0 w))
unfolding nfa_to_scanner
nfa_to_scanner-Answer libc n priority s h below =
    let (r, built, full, all) = build_dfa-Ends libc n s h below in
    let states = dfa_to_scanner n priority 0 r.0 r.1 in
    (
      states,
      rw (built, nfa_to_scanner) refl,
      λ w bytes.
          rw (all_chars-dfa_to_scanner n priority 0 r.0 r.1 full)
            (answer n priority s r.0 r.1 w (run r.1 0 w) full (all w bytes)),
    )
