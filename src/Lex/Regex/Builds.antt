-- ===== src/Lex/Regex/Builds.antt =====
-- What one byte of a regular expression adds to the automaton.
use dparser.Prelude.{
  ℕ, suc, ◌≤◌, ◌<◌, inl, inr, Bool, true, false, not, ◌||◌, List, [], ◌∷◌, ◌++◌, arith, ◌==◌,
  if◌then◌else◌, length, length-append, Bool-cases, nat_eq,
}
use dparser.Libc.{Ctype}
use dparser.Lex.{NfaState, blank_nfa, add_char}
use dparser.Lex.Brackets.{Parsed, next, read_set}
use dparser.Lex.Regex.{Vars, Built, enter, fold_case, add_plain, add_class, read_class}
use dparser.Lex.Regex.Edges.{
  Extends, add_epsilon-Extends, add_char-Extends, new-Extends, Extends-trans, add_set-Extends,
}
use dparser.Lex.Regex.Outcome.{
  Ok, ok, fails, overruns, Ok-bind, Behind, next-Behind, Within, read_set-Within,
}
use dparser.Lex.Subset.Edges.{IsNfa}

-- The automaton was extended, and the text behind is shorter.
pub record Result (n : List NfaState) (m : ℕ) (b : Built) : Type 0 where
  pub extends : Extends n b.nfas
  pub shorter : length b.reg < m

-- The variables point to states of the automaton `n` with more states.
pub record Fits (n : List NfaState) (m : ℕ) (v : Vars) : Type 0 where
  pub extends : Extends n v.nfas
  pub p_below : v.p < length v.nfas
  pub s_below : v.s < length v.nfas
  pub shorter : length v.reg < m

pub Result-of :
    {n n' : List NfaState} {m m' : ℕ} {x : Parsed Built}
    → Extends n n'
    → m' ≤ m
    → Ok (Result n' m') x
    → Ok (Result n m) x
Result-of e le (ok r) =
    ok (record { extends = Extends-trans e r.extends; shorter = omega (arith, r.shorter) })
Result-of e le fails = fails
Result-of e le overruns = overruns

-- The rest of the loop does well on shorter texts.
abbrev pub RestBuilds : (ℕ → ℕ → Vars → Parsed Built) → ℕ → Type 0
RestBuilds rest m =
    (n : List NfaState) (pp nn : ℕ) (v : Vars)
    → Fits n m v
    → pp < length v.nfas
    → nn < length v.nfas
    → Ok (Result n (length v.reg)) (rest pp nn v)

pub enter-Fits :
    (n : List NfaState) (reg : List ℕ) (pp m : ℕ) (b : Bool)
    → IsNfa n
    → length reg < m
    → Fits n m (enter n reg pp b)
unfolding enter
enter-Fits n reg pp m b h less =
    let new = new-Extends n h in
    let below : length n < length (n ++ blank_nfa ∷ []) =
      omega (arith, length-append n (blank_nfa ∷ [])) in
    let e = add_epsilon-Extends (n ++ blank_nfa ∷ []) pp (length n) new.nfa below in
    record {
      extends = Extends-trans new e;
      p_below = omega (arith, below, e.size);
      s_below = omega (arith, below, e.size);
      shorter = less;
    }

module _ (ctype : Ctype) (ignore_case : Bool) (trailing : ℕ) where
  pub add_plain-Fits :
      (v : Vars) (reg : List ℕ) (c m : ℕ)
      → IsNfa v.nfas
      → v.s < length v.nfas
      → length reg < m
      → Fits v.nfas m (add_plain ctype ignore_case trailing v reg c)
  unfolding add_plain
  add_plain-Fits v reg c m h s_below less =
      let x = length v.nfas in
      let n = v.nfas ++ blank_nfa ∷ [] in
      let new = new-Extends v.nfas h in
      let below : x < length n = omega (arith, length-append v.nfas (blank_nfa ∷ [])) in
      elim (Bool-cases (not ignore_case || not (ctype.isalpha c))) [
        | inl one ↦
            let e = add_char-Extends n v.s c x new.nfa below in
            rw (one, add_plain)
              (record {
                extends = Extends-trans new e;
                p_below = omega (arith, s_below, new.size, e.size);
                s_below = omega (arith, below, e.size);
                shorter = less;
              })
        | inr both ↦
            let e = add_char-Extends n v.s (ctype.tolower c) x new.nfa below in
            let f =
              add_char-Extends (add_char n v.s (ctype.tolower c) x) v.s (ctype.toupper c) x e.nfa
                (omega (arith, below, e.size)) in
            rw (both, add_plain)
              (record {
                extends = Extends-trans new (Extends-trans e f);
                p_below = omega (arith, s_below, new.size, e.size, f.size);
                s_below = omega (arith, below, e.size, f.size);
                shorter = less;
              })
      ]

  add_class-Fits :
      (v : Vars) (reversed : Bool) (mark reg : List ℕ) (m : ℕ)
      → IsNfa v.nfas
      → v.s < length v.nfas
      → length reg < m
      → Fits v.nfas m (add_class ctype ignore_case trailing v reversed mark reg)
  unfolding add_class
  add_class-Fits v reversed mark reg m h s_below less =
      let n = v.nfas ++ blank_nfa ∷ [] in
      let new = new-Extends v.nfas h in
      let below : length v.nfas < length n = omega (arith, length-append v.nfas (blank_nfa ∷ [])) in
      let e =
        add_set-Extends 255 1 reversed
          (if ignore_case then fold_case ctype ignore_case trailing 255 1 mark else mark) v.s
          (length v.nfas) n new.nfa below in
      record {
        extends = Extends-trans new e;
        p_below = omega (arith, s_below, new.size, e.size);
        s_below = omega (arith, below, e.size);
        shorter = less;
      }

  pub read_class-Fits :
      (v : Vars) (reg : List ℕ) (m : ℕ)
      → IsNfa v.nfas
      → v.s < length v.nfas
      → length reg < m
      → Ok (Fits v.nfas m) (read_class ctype ignore_case trailing v reg)
  unfolding read_class
  read_class-Fits v reg m h s_below less =
      Ok-bind (Behind reg) (Fits v.nfas m) (next reg) _ (next-Behind reg) (λ r shorter.
        let reversed = r.0 == 94 in
        let reg' = if reversed then r.1 else reg in
        let no_longer : length reg' ≤ length reg = skipped reversed r.1 reg (omega arith) in
        Ok-bind (Within (length reg')) (Fits v.nfas m) (read_set (suc (length reg')) reg' 255 []) _
          (read_set-Within (suc (length reg')) reg' 255 [] (omega arith))
          (λ q within. ok (add_class-Fits v reversed q.0 q.1 m h s_below (omega arith))))
    where
      skipped :
          (b : Bool) (r reg : List ℕ)
          → length r ≤ length reg
          → length (if b then r else reg) ≤ length reg
      skipped true r reg h = h
      skipped false r reg h = omega arith
