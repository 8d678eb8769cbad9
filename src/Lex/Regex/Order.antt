-- ===== src/Lex/Regex/Order.antt =====
-- Two repetitions, one behind the other.
use dparser.Prelude.{ℕ, ◌≡◌, refl, true, false, List, [], ◌∷◌, arith, ==_iff, has, nat_eq}
use dparser.Libc.{Ctype}
use dparser.Lex.{NfaState, blank_nfa, targets, add_epsilon, add_char}
use dparser.Lex.Brackets.{done, ◌>>=◌, next}
use dparser.Lex.Regex.{
  token, plain, Built, enter, finish, add_plain, regex_byte, regex_loop, build_regex_nfa,
}
use dparser.Lex.Subset.Language.{Reads, stop, silent, read}

-- The automaton of two bytes, each of them repeated, between the states 0 and 1.
abbrev pub two_stars : ℕ → ℕ → List NfaState
two_stars c d =
    record blank_nfa { epsilon = 2 ∷ [] }
    ∷ blank_nfa
    ∷ record { chars = (c, 3) ∷ []; epsilon = 3 ∷ []; accepts = [] }
    ∷ record { chars = (d, 4) ∷ []; epsilon = 2 ∷ 4 ∷ []; accepts = [] }
    ∷ record { chars = []; epsilon = 3 ∷ 1 ∷ []; accepts = [] }
    ∷ []

one_target : (c t : ℕ) → has (targets ((c, t) ∷ []) c) t ≡ true
one_target c t = ground (arith, ==_iff c c, ==_iff t t)

-- For bytes `c` and `d` that stand for themselves, the automaton of the expression `c*d*` reads the
-- text of `d` and then `c`.
pub build_regex_nfa_out_of_order :
    (ctype : Ctype) (trailing c d : ℕ)
    → token c ≡ plain
    → token d ≡ plain
    → (b : Built) × (build_regex_nfa ctype false trailing
          (blank_nfa ∷ blank_nfa ∷ [])
          (c ∷ 42 ∷ d ∷ 42 ∷ 0 ∷ [])
          0
          1
        ≡ done b)
      × Reads b.nfas 0 (d ∷ c ∷ []) 1
unfolding build_regex_nfa regex_loop next ◌>>=◌ regex_byte token enter finish add_plain add_epsilon
    add_char
build_regex_nfa_out_of_order ctype trailing c d h k = (
  record { nfas = two_stars c d; reg = []; has_trailing = false },
  rw (h, k, regex_loop) refl,
  silent {t = 2} refl (
      silent {t = 3} refl (
        read {t = 4} (one_target d 4) (
          silent {t = 3} refl (
            silent {t = 2} refl
              (read {t = 3} (one_target c 3) (silent {t = 4} refl (silent {t = 1} refl stop))))))),
)
