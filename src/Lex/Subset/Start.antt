-- ===== src/Lex/Subset/Start.antt =====
-- The construction from the first set on: it ends, and its runs read what the automaton reads.
use mathlib.Core.Path.{subst}
use dparser.Prelude.{
  ℕ, suc, ◌^◌, ◌<◌, ◌≡◌, ◌↔◌, refl, ap, ◌∙◌, true, List, [], ◌∷◌, Option, some, arith, ==_iff,
  length, get_elem?, has, nat_eq,
}
use dparser.Libc.{Qsort}
use dparser.Lex.{NfaState}
use dparser.Lex.Closure.Reach.{Reaches, IsSubset}
use dparser.Lex.Closure.Canonical.{rising, eq_dfa_state_iff, nfa_closure-Reaches}
use dparser.Lex.Subset.{build_dfa}
use dparser.Lex.Subset.Edges.{set_eq, IsNfa, IsSets, reached_inside}
use dparser.Lex.Subset.Loop.{dfa_loop-IsBuilt}
use dparser.Lex.Subset.Language.{
  Matches-closure, IsSilent-closure, Ends, Ends-as, run, run-Ends, is_bytes,
}

closure-IsSets :
    (n : List NfaState) (kernel z : List ℕ)
    → IsNfa n
    → IsSubset n kernel
    → rising z ≡ true
    → ((t : ℕ) → (has z t ≡ true) ↔ Reaches n kernel t)
    → IsSets n (z ∷ [])
closure-IsSets n kernel z h sub up exact = record {
  once = refl;
  ordered = λ y held. subst (λ q. rising q ≡ true) (only y held) up;
  inside = λ y s held member.
      reached_inside n kernel s h sub ((exact s).0 (ap (λ q. has q s) (only y held) ∙ member));
}
  where
    only : (y : List ℕ) → has (z ∷ []) y ≡ true → z ≡ y
    only y held = (eq_dfa_state_iff z y).0 (ground (arith, held))

-- The construction ends, and a run of its automaton ends where the given one can.
pub build_dfa-Ends :
    (libc : Qsort) (n : List NfaState) (s : ℕ)
    → IsNfa n
    → s < length n
    → (r : List (List ℕ) × List (List (Option ℕ))) × (build_dfa libc n s ≡ some r)
      × (length r.1 ≡ length r.0)
      × ((w : List ℕ) → is_bytes w ≡ true → Ends n r.0 r.1 (s ∷ []) w (run r.1 0 w))
unfolding build_dfa
build_dfa-Ends libc n s h below =
    let kernel = s ∷ [] in
    let sub : IsSubset n kernel = record {
      once = refl;
      inside = λ t held. omega (arith, (==_iff s t).0 (ground (arith, held)));
    } in
    let (z, closed, up, exact) = nfa_closure-Reaches libc n kernel h.silent sub in
    let (r, run_loop, built) =
      dfa_loop-IsBuilt libc n (suc (2 ^ length n)) (z ∷ []) [] h
        (record {
          valid = closure-IsSets n kernel z h sub up exact;
          edges = λ k c x chars at row_at b. absurd (cc row_at);
          visited = omega arith;
        })
        (omega arith) in
    let (new, grown) = built.grown in
    (
      r,
      rw (closed, build_dfa) run_loop,
      built.full,
      λ w bytes.
          Ends-as n r.0 r.1 kernel z w w (run r.1 0 w) (λ t. Matches-closure n z kernel w t exact)
            (run-Ends n r.0 r.1 built.dfa built.full w 0 z bytes (ap (λ l. get_elem? l 0) grown)
              (IsSilent-closure n z kernel exact)),
    )
