-- ===== src/Lex/Regex/Groups.antt =====
-- A group that is not closed.
use dparser.Prelude.{
  ℕ, zero, suc, ◌<◌, ◌≡◌, refl, Bool, false, ◌||◌, List, [], ◌∷◌, ◌++◌, arith, length,
  length-append,
}
use dparser.Libc.{Ctype}
use dparser.Lex.{NfaState, blank_nfa, add_epsilon}
use dparser.Lex.Brackets.{done, overrun, ◌>>=◌, next}
use dparser.Lex.Regex.{
  token, plain, Vars, Built, enter, finish, add_plain, regex_byte, regex_loop, build_regex_nfa,
}

-- Every byte stands for itself.
abbrev pub Plain : List ℕ → Type 0
Plain [] = Unit
Plain (c ∷ w) = (token c ≡ plain) × Plain w

module _ (ctype : Ctype) (ignore_case : Bool) (trailing : ℕ) where
  -- A text of such bytes is read up to its end.
  regex_loop-Plain :
      (fuel pp nn : ℕ) (w : List ℕ) (v : Vars)
      → Plain w
      → v.reg ≡ w ++ 0 ∷ []
      → length w < fuel
      → (b : Built) × (regex_loop ctype ignore_case trailing fuel pp nn v ≡ done b) × (b.reg ≡ [])
  unfolding regex_loop next ◌>>=◌ regex_byte finish token add_plain
  regex_loop-Plain zero pp nn w v h at enough = absurd (omega arith)
  regex_loop-Plain (suc fuel) pp nn [] v h at enough = (
    record { nfas = add_epsilon v.nfas v.s nn; reg = []; has_trailing = v.has_trailing },
    rw (at, regex_loop) refl,
    refl,
  )
  regex_loop-Plain (suc fuel) pp nn (c ∷ w) v h at enough =
      let (b, e, end) =
        regex_loop-Plain fuel pp nn w (add_plain ctype ignore_case trailing v (w ++ 0 ∷ []) c) h.1
          refl (omega arith) in
      (b, rw (at, h.0, regex_loop) e, end)

  empty_loop :
      (fuel pp nn : ℕ) (v : Vars)
      → 0 < fuel
      → v.reg ≡ []
      → regex_loop ctype ignore_case trailing fuel pp nn v ≡ overrun
  unfolding regex_loop next ◌>>=◌
  empty_loop zero pp nn v h at = absurd (omega arith)
  empty_loop (suc fuel) pp nn v h at = rw (at, regex_loop) refl

  open_loop :
      (fuel pp nn : ℕ) (w : List ℕ) (v : Vars)
      → Plain w
      → v.reg ≡ 40 ∷ w ++ 0 ∷ []
      → length w < fuel
      → regex_loop ctype ignore_case trailing (suc fuel) pp nn v ≡ overrun
  unfolding regex_loop next ◌>>=◌ regex_byte token enter
  open_loop fuel pp nn w v h at enough =
      let x = length v.nfas in
      let group = enter (v.nfas ++ blank_nfa ∷ []) (w ++ 0 ∷ []) v.s false in
      let (b, inner, end) = regex_loop-Plain fuel v.s x w group h refl enough in
      let after : Vars = record {
        nfas = b.nfas;
        reg = b.reg;
        p = v.s;
        s = x;
        has_trailing = b.has_trailing || v.has_trailing;
      } in
      rw (at, regex_loop) (rw inner (empty_loop fuel pp nn after (omega arith) end))

  -- On a text that begins with "(", goes on with bytes that stand for themselves and ends,
  -- `build_regex_nfa` reads behind the NUL byte of the text.
  pub build_regex_nfa_overruns :
      (nfas : List NfaState) (pp nn : ℕ) (w : List ℕ)
      → Plain w
      → build_regex_nfa ctype ignore_case trailing nfas (40 ∷ w ++ 0 ∷ []) pp nn ≡ overrun
  unfolding build_regex_nfa enter
  build_regex_nfa_overruns nfas pp nn w h =
      open_loop (length (40 ∷ w ++ 0 ∷ [])) pp nn w (enter nfas (40 ∷ w ++ 0 ∷ []) pp false) h refl
        (omega (arith, length-append w (0 ∷ [])))
