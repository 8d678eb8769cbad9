-- ===== src/Lex/Regex/Total.antt =====
-- `build_regex_nfa` ends: it fails, reads behind the text, or builds an automaton.
use dparser.Prelude.{
  ℕ, zero, suc, ◌<◌, inl, inr, Bool, false, List, [], ◌∷◌, ◌++◌, arith, ◌==◌, length, length-append,
  Bool-cases, nat_eq,
}
use dparser.Libc.{Ctype}
use dparser.Lex.{NfaState, blank_nfa, add_epsilon}
use dparser.Lex.Brackets.{Parsed, next}
use dparser.Lex.Regex.{
  Token, token, ends, opens, closes, bar, class, opt, star, plus, slash, escape, plain, Vars, Built,
  enter, finish, read_class, regex_byte, regex_loop, build_regex_nfa,
}
use dparser.Lex.Regex.Edges.{
  Extends, add_epsilon-Extends, add_accept-Extends, new-Extends, Extends-trans,
}
use dparser.Lex.Regex.Outcome.{Ok, ok, fails, Ok-bind, Behind, next-Behind}
use dparser.Lex.Regex.Builds.{
  Result, Result-of, Fits, RestBuilds, enter-Fits, add_plain-Fits, read_class-Fits,
}
use dparser.Lex.Subset.Edges.{IsNfa}

self-Extends : (n : List NfaState) → IsNfa n → Extends n n
self-Extends n h = record { nfa = h; size = omega arith }

-- The loop goes on from an automaton `n'` between that of the start and that of the variables.
goes_on :
    (rest : ℕ → ℕ → Vars → Parsed Built) (n n' : List NfaState) (m pp nn : ℕ) (v : Vars)
    → RestBuilds rest m
    → Extends n n'
    → pp < length n'
    → nn < length n'
    → Fits n' m v
    → Ok (Result n m) (rest pp nn v)
goes_on rest n n' m pp nn v h e pp_below nn_below fits = Result-of e (omega (arith, fits.shorter)) (
    h n' pp nn v fits (omega (arith, pp_below, fits.extends.size))
      (omega (arith, nn_below, fits.extends.size)))

-- With other edges of the states that there are.
moved-Fits :
    (n n' : List NfaState) (m p s : ℕ) (reg : List ℕ) (b : Bool)
    → Extends n n'
    → p < length n
    → s < length n
    → length reg < m
    → Fits n m (record { nfas = n'; reg = reg; p = p; s = s; has_trailing = b })
moved-Fits n n' m p s reg b e p_below s_below less = record {
  extends = e;
  p_below = omega (arith, p_below, e.size);
  s_below = omega (arith, s_below, e.size);
  shorter = less;
}

module _ (ctype : Ctype) (ignore_case : Bool) (trailing : ℕ) where
  regex_byte-Result :
      (rest : ℕ → ℕ → Vars → Parsed Built) (k : Token) (c : ℕ) (reg : List ℕ) (pp nn : ℕ) (v : Vars)
      (m : ℕ)
      → RestBuilds rest m
      → IsNfa v.nfas
      → v.p < length v.nfas
      → v.s < length v.nfas
      → pp < length v.nfas
      → nn < length v.nfas
      → length reg < m
      → Ok (Result v.nfas m) (regex_byte ctype ignore_case trailing rest k c reg pp nn v)
  unfolding regex_byte finish
  regex_byte-Result rest ends c reg pp nn v m h nfa p s pb nb less =
      ok (record { extends = add_epsilon-Extends v.nfas v.s nn nfa nb; shorter = less })
  regex_byte-Result rest closes c reg pp nn v m h nfa p s pb nb less =
      ok (record { extends = add_epsilon-Extends v.nfas v.s nn nfa nb; shorter = less })
  regex_byte-Result rest opens c reg pp nn v m h nfa p s pb nb less =
      let x = length v.nfas in
      let n = v.nfas ++ blank_nfa ∷ [] in
      let new = new-Extends v.nfas nfa in
      let x_below : x < length n = omega (arith, length-append v.nfas (blank_nfa ∷ [])) in
      let group = enter n reg v.s false in
      Ok-bind (Result n m) (Result v.nfas m) (rest v.s x group) _
        (goes_on rest n n m v.s x group h (self-Extends n new.nfa) (omega (arith, s, new.size))
          x_below (enter-Fits n reg v.s m false new.nfa less))
        (λ b r.
          goes_on rest v.nfas n m pp nn _ h new (omega (arith, pb, new.size))
            (omega (arith, nb, new.size))
            (moved-Fits n b.nfas m v.s x b.reg _ r.extends (omega (arith, s, new.size)) x_below
              r.shorter))
  regex_byte-Result rest bar c reg pp nn v m h nfa p s pb nb less =
      let e = add_epsilon-Extends v.nfas v.s nn nfa nb in
      let n = add_epsilon v.nfas v.s nn in
      goes_on rest v.nfas n m pp nn _ h e (omega (arith, pb, e.size)) (omega (arith, nb, e.size))
        (enter-Fits n reg pp m v.has_trailing e.nfa less)
  regex_byte-Result rest class c reg pp nn v m h nfa p s pb nb less =
      Ok-bind (Fits v.nfas m) (Result v.nfas m) (read_class ctype ignore_case trailing v reg) _
        (read_class-Fits ctype ignore_case trailing v reg m nfa s less)
        (λ w fits. goes_on rest v.nfas v.nfas m pp nn w h (self-Extends v.nfas nfa) pb nb fits)
  regex_byte-Result rest opt c reg pp nn v m h nfa p s pb nb less =
      goes_on rest v.nfas v.nfas m pp nn _ h (self-Extends v.nfas nfa) pb nb
        (moved-Fits v.nfas _ m v.p v.s reg _ (add_epsilon-Extends v.nfas v.p v.s nfa s) p s less)
  regex_byte-Result rest star c reg pp nn v m h nfa p s pb nb less =
      let e = add_epsilon-Extends v.nfas v.p v.s nfa s in
      let f =
        add_epsilon-Extends (add_epsilon v.nfas v.p v.s) v.s v.p e.nfa (omega (arith, p, e.size)) in
      goes_on rest v.nfas v.nfas m pp nn _ h (self-Extends v.nfas nfa) pb nb
        (moved-Fits v.nfas _ m v.p v.s reg _ (Extends-trans e f) p s less)
  regex_byte-Result rest plus c reg pp nn v m h nfa p s pb nb less =
      goes_on rest v.nfas v.nfas m pp nn _ h (self-Extends v.nfas nfa) pb nb
        (moved-Fits v.nfas _ m v.p v.s reg _ (add_epsilon-Extends v.nfas v.s v.p nfa p) p s less)
  regex_byte-Result rest slash c reg pp nn v m h nfa p s pb nb less =
      goes_on rest v.nfas v.nfas m pp nn _ h (self-Extends v.nfas nfa) pb nb
        (moved-Fits v.nfas _ m v.p v.s reg _ (add_accept-Extends v.nfas v.s trailing nfa) p s less)
  regex_byte-Result rest escape c reg pp nn v m h nfa p s pb nb less =
      Ok-bind (Behind reg) (Result v.nfas m) (next reg) _ (next-Behind reg) (λ q shorter.
        elim (Bool-cases (q.0 == 0)) [
          | inl zero_byte ↦ rw zero_byte fails
          | inr other ↦ rw other (
              goes_on rest v.nfas v.nfas m pp nn _ h (self-Extends v.nfas nfa) pb nb
                (add_plain-Fits ctype ignore_case trailing v q.1 q.0 m nfa s (omega arith)))
        ])
  regex_byte-Result rest plain c reg pp nn v m h nfa p s pb nb less =
      goes_on rest v.nfas v.nfas m pp nn _ h (self-Extends v.nfas nfa) pb nb
        (add_plain-Fits ctype ignore_case trailing v reg c m nfa s less)

  regex_loop-Result :
      (fuel : ℕ) (n : List NfaState) (pp nn : ℕ) (v : Vars)
      → Fits n fuel v
      → pp < length v.nfas
      → nn < length v.nfas
      → Ok (Result n (length v.reg)) (regex_loop ctype ignore_case trailing fuel pp nn v)
  unfolding regex_loop
  regex_loop-Result zero n pp nn v fits pb nb = absurd (omega (arith, fits.shorter))
  regex_loop-Result (suc fuel) n pp nn v fits pb nb = Result-of fits.extends (omega arith) (
      Ok-bind (Behind v.reg) (Result v.nfas (length v.reg)) (next v.reg) _ (next-Behind v.reg)
        (λ r shorter.
          regex_byte-Result (λ pp' nn' v'. regex_loop ctype ignore_case trailing fuel pp' nn' v')
            (token r.0) r.0 r.1 pp nn v (length v.reg)
            (λ n' pp' nn' v' fits' pb' nb'.
              regex_loop-Result fuel n' pp' nn' v'
                (record {
                  extends = fits'.extends;
                  p_below = fits'.p_below;
                  s_below = fits'.s_below;
                  shorter = omega (arith, fits'.shorter, fits.shorter);
                })
                pb' nb')
            fits.extends.nfa fits.p_below fits.s_below pb nb (omega arith)))

  -- On an automaton whose edges go to its states, and two of these, `build_regex_nfa` ends for every
  -- text, also one without its NUL byte: it fails, or reads behind the text, or gives an automaton with
  -- at least these states whose edges go to its states, and a text that is a shorter rest.
  pub build_regex_nfa-Result :
      (nfas : List NfaState) (reg : List ℕ) (pp nn : ℕ)
      → IsNfa nfas
      → pp < length nfas
      → nn < length nfas
      → Ok (Result nfas (length reg)) (build_regex_nfa ctype ignore_case trailing nfas reg pp nn)
  unfolding build_regex_nfa enter
  build_regex_nfa-Result nfas reg pp nn h pb nb =
      let fits = enter-Fits nfas reg pp (suc (length reg)) false h (omega arith) in
      regex_loop-Result (suc (length reg)) nfas pp nn (enter nfas reg pp false) fits
        (omega (arith, pb, fits.extends.size)) (omega (arith, nb, fits.extends.size))
