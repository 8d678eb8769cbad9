-- ===== src/Tests/Expressions.antt =====
-- The automata of small regular expressions.
use dparser.Prelude.{
  ℕ, zero, suc, ◌+◌, ◌-◌, ◌<◌, ◌≡◌, refl, true, false, ◌&&◌, ◌||◌, List, [], ◌∷◌, arith, leb, has,
  nat_eq, if◌then◌else◌,
}
use dparser.Libc.{Ctype}
use dparser.Lex.{NfaState, blank_nfa, nfa_at, targets}
use dparser.Lex.Brackets.{done, overrun}
use dparser.Lex.Regex.{token, plain, Built, build_regex_nfa}
use dparser.Lex.Regex.Outcome.{Ok}
use dparser.Lex.Regex.Builds.{Result}
use dparser.Lex.Regex.Total.{build_regex_nfa-Result}
use dparser.Lex.Regex.Groups.{build_regex_nfa_overruns}
use dparser.Lex.Regex.Order.{build_regex_nfa_out_of_order}
use dparser.Lex.Subset.Edges.{IsNfa}
use dparser.Lex.Subset.Language.{Reads}

abbrev pub ascii : Ctype
ascii = record {
  isalpha = λ c. (leb 65 c && leb c 90) || (leb 97 c && leb c 122);
  islower = λ c. leb 97 c && leb c 122;
  toupper = λ c. if leb 97 c && leb c 122 then c - 32 else c;
  tolower = λ c. if leb 65 c && leb c 90 then c + 32 else c;
}

abbrev two_states : List NfaState
two_states = blank_nfa ∷ blank_nfa ∷ []

two_states-IsNfa : IsNfa two_states
two_states-IsNfa = record { silent = silent; reading = reading }
  where
    silent : (s t : ℕ) → has (nfa_at two_states s).epsilon t ≡ true → t < 2
    silent zero t held = absurd (cc held)
    silent (suc zero) t held = absurd (cc held)
    silent (suc (suc s)) t held = absurd (cc held)

    reading : (s c t : ℕ) → has (targets (nfa_at two_states s).chars c) t ≡ true → t < 2
    reading zero c t held = absurd (cc held)
    reading (suc zero) c t held = absurd (cc held)
    reading (suc (suc s)) c t held = absurd (cc held)

a_is_plain : token 97 ≡ plain
unfolding token
a_is_plain = refl

b_is_plain : token 98 ≡ plain
unfolding token
b_is_plain = refl

-- "[a-c]+(x|y)"
build_regex_nfa-Result_example : Ok (Result two_states 12) (
    build_regex_nfa ascii true 9 two_states
      (91 ∷ 97 ∷ 45 ∷ 99 ∷ 93 ∷ 43 ∷ 40 ∷ 120 ∷ 124 ∷ 121 ∷ 41 ∷ 0 ∷ [])
      0
      1)
build_regex_nfa-Result_example =
    build_regex_nfa-Result ascii true 9 two_states
      (91 ∷ 97 ∷ 45 ∷ 99 ∷ 93 ∷ 43 ∷ 40 ∷ 120 ∷ 124 ∷ 121 ∷ 41 ∷ 0 ∷ []) 0 1 two_states-IsNfa
      (omega arith) (omega arith)

-- "(ab"
build_regex_nfa_overruns_example :
    build_regex_nfa ascii false 9 two_states (40 ∷ 97 ∷ 98 ∷ 0 ∷ []) 0 1 ≡ overrun
build_regex_nfa_overruns_example =
    build_regex_nfa_overruns ascii false 9 two_states 0 1 (97 ∷ 98 ∷ [])
      (a_is_plain, (b_is_plain, tt))

-- "a*b*"
build_regex_nfa_out_of_order_example :
    (b : Built) × (build_regex_nfa ascii false 9 two_states (97 ∷ 42 ∷ 98 ∷ 42 ∷ 0 ∷ []) 0 1
      ≡ done b)
    × Reads b.nfas 0 (98 ∷ 97 ∷ []) 1
build_regex_nfa_out_of_order_example =
    build_regex_nfa_out_of_order ascii 9 97 98 a_is_plain b_is_plain
