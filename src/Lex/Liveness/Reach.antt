-- ===== src/Lex/Liveness/Reach.antt =====
-- The actions that are accepted in some state that a state reaches.
use dparser.Prelude.{
  ℕ, zero, suc, ◌≡◌, ap, ◌∙◌, true, List, [], ◌∷◌, some, arith, get_elem?, has, has-append, nat_eq,
}
use dparser.Lex.Subset.{ScanState}
use dparser.Lex.Liveness.{every_accept}

-- State `i` reaches state `j` by some bytes.
pub data Reaches (states : List ScanState) : ℕ → ℕ → Type 0 where
  here : (i : ℕ) → Reaches states i i
  onwards :
      {i j t : ℕ} {ss : ScanState} (c : ℕ)
      → get_elem? states i ≡ some ss
      → get_elem? ss.chars c ≡ some (some t)
      → Reaches states t j
      → Reaches states i j

pub record Live (states : List ScanState) (i a : ℕ) : Type 0 where
  pub goal : ℕ
  pub state : ScanState
  pub reaches : Reaches states i goal
  pub at_goal : get_elem? states goal ≡ some state
  pub accepts : has state.accepts a ≡ true

accepts-every_accept :
    (states : List ScanState) (j : ℕ) (ss : ScanState) (a : ℕ)
    → get_elem? states j ≡ some ss
    → has ss.accepts a ≡ true
    → has (every_accept states) a ≡ true
accepts-every_accept [] j ss a at h = absurd (cc at)
accepts-every_accept (s ∷ states) zero ss a at h =
    let this : s ≡ ss = cc at in
    let own : has s.accepts a ≡ true = ap (λ (q : ScanState). has q.accepts a) this ∙ h in
    has-append s.accepts (every_accept states) a ∙ ground arith
accepts-every_accept (s ∷ states) (suc j) ss a at h =
    let rest = accepts-every_accept states j ss a at h in
    has-append s.accepts (every_accept states) a ∙ ground (arith, rest)

pub Live-every_accept :
    (states : List ScanState) (i a : ℕ) → Live states i a → has (every_accept states) a ≡ true
Live-every_accept states i a l = accepts-every_accept states l.goal l.state a l.at_goal l.accepts
