-- ===== src/Lex/Diff.antt =====
-- lex.c (`action_diff`, `action_intersect`): the difference and the intersection of two lists of
-- actions by a merge on the action's index.
-- The gotos of the C loops only skip tests that have just been made: a round looks at both heads.
use dparser.Prelude.{
  ℕ, ◌<◌, ◌≡◌, refl, sym, ap, Bool, true, false, not, ◌&&◌, ◌||◌, List, [], ◌∷◌, arith, ltb, ◌==◌,
  if◌then◌else◌,
}
use dparser.Lr.{Action}
use dparser.Scan.Compact.{keep_if}

unfoldable pub action_diff : List Action → List Action → List Action
action_diff [] c = []
action_diff (b ∷ bs) [] = b ∷ bs
action_diff (b ∷ bs) (c ∷ cs) =
    let both = action_diff bs cs in
    let only_b = action_diff bs (c ∷ cs) in
    let only_c = action_diff (b ∷ bs) cs in
    if b.index == c.index then both else if ltb b.index c.index then b ∷ only_b else only_c

unfoldable pub action_intersect : List Action → List Action → List Action
action_intersect [] c = []
action_intersect (b ∷ bs) [] = []
action_intersect (b ∷ bs) (c ∷ cs) =
    let both = action_intersect bs cs in
    let only_b = action_intersect bs (c ∷ cs) in
    let only_c = action_intersect (b ∷ bs) cs in
    if b.index == c.index then b ∷ both else if ltb b.index c.index then only_b else only_c

-- An action of the list has the same index.
abbrev pub has_index : List Action → Action → Bool
has_index [] a = false
has_index (c ∷ cs) a = c.index == a.index || has_index cs a

-- The indices rise.
abbrev pub all_above : ℕ → List Action → Bool
all_above n [] = true
all_above n (a ∷ rest) = ltb n a.index && all_above n rest

abbrev pub rising : List Action → Bool
rising [] = true
rising (a ∷ rest) = all_above a.index rest && rising rest

absent_below :
    (n : ℕ) (cs : List Action) (a : Action)
    → all_above n cs ≡ true
    → ltb n a.index ≡ false
    → has_index cs a ≡ false
absent_below n [] a h k = refl
absent_below n (c ∷ cs) a h k = ground (arith, absent_below n cs a)

-- A head of the second list that is below all of the first one makes no difference.
skip_head :
    (c : Action) (cs bs : List Action)
    → all_above c.index bs ≡ true
    → (keep_if (λ x. not (has_index (c ∷ cs) x)) bs ≡ keep_if (λ x. not (has_index cs x)) bs)
      × (keep_if (has_index (c ∷ cs)) bs ≡ keep_if (has_index cs) bs)
skip_head c cs [] h = (refl, refl)
skip_head c cs (b ∷ bs) h = ground (arith, skip_head c cs bs)

pub above_trans :
    (m n : ℕ) (rest : List Action) → m < n → all_above n rest ≡ true → all_above m rest ≡ true
above_trans m n [] lt h = refl
above_trans m n (a ∷ rest) lt h = ground (arith, above_trans m n rest)

keep_every : (bs : List Action) → bs ≡ keep_if (λ x. not (has_index [] x)) bs
keep_every [] = refl
keep_every (b ∷ bs) = ap (λ q. b ∷ q) (keep_every bs)

keep_no_one : (bs : List Action) → keep_if (has_index []) bs ≡ []
keep_no_one [] = refl
keep_no_one (b ∷ bs) = keep_no_one bs

-- On lists whose indices rise, `action_diff` keeps of the first list what is not in the second one.
pub action_diff_lem :
    (b c : List Action)
    → rising b ≡ true
    → rising c ≡ true
    → action_diff b c ≡ keep_if (λ x. not (has_index c x)) b
unfolding action_diff
action_diff_lem [] c hb hc = refl
action_diff_lem (b ∷ bs) [] hb hc = keep_every (b ∷ bs)
action_diff_lem (b ∷ bs) (c ∷ cs) hb hc = ground (
  arith,
  action_diff_lem bs cs,
  action_diff_lem bs (c ∷ cs),
  action_diff_lem (b ∷ bs) cs,
  skip_head c cs bs,
  absent_below c.index cs b,
  absent_below b.index cs b,
  above_trans b.index c.index cs,
  above_trans c.index b.index bs,
)

-- On lists whose indices rise, `action_intersect` keeps of the first list what is in the second one.
pub action_intersect_lem :
    (b c : List Action)
    → rising b ≡ true
    → rising c ≡ true
    → action_intersect b c ≡ keep_if (has_index c) b
unfolding action_intersect
action_intersect_lem [] c hb hc = refl
action_intersect_lem (b ∷ bs) [] hb hc = sym (keep_no_one (b ∷ bs))
action_intersect_lem (b ∷ bs) (c ∷ cs) hb hc = ground (
  arith,
  action_intersect_lem bs cs,
  action_intersect_lem bs (c ∷ cs),
  action_intersect_lem (b ∷ bs) cs,
  skip_head c cs bs,
  absent_below c.index cs b,
  absent_below b.index cs b,
  above_trans b.index c.index cs,
  above_trans c.index b.index bs,
)
