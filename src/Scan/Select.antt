-- ===== src/Scan/Select.antt =====
-- Which results `scan_buffer` returns, against a specification on lists.
use mathlib.Core.List.{append-nil, append_assoc}
use dparser.Prelude.{
  ℕ, zero, suc, ◌≤◌, ◌≡◌, refl, sym, ap, ◌∙◌, inl, inr, Bool, true, false, not, ◌||◌, ◌&&◌, List,
  [], ◌∷◌, ◌++◌, some, arith, ltb, ◌==◌, if◌then◌else◌, length, take, drop, get_elem?,
  take-append-drop, Bool-cases, Option-cases,
}
use dparser.Scan.{
  ShiftResult, find_longest, compact_back, keeps_longest, keeps_short, select, scan_longest,
  scan_mixed,
}
use dparser.Scan.Compact.{
  keep_if, keep_if-append, take-suc, get_elem?-none, compact_lem, compact_back_lem,
}

abbrev pub reaches : ℕ → List ShiftResult → Bool
reaches end_s [] = true
reaches end_s (r ∷ rs) = not (ltb r.loc.s end_s) && reaches end_s rs

-- The longest suffix whose results all reach `end_s`.
abbrev pub last_group : ℕ → List ShiftResult → List ShiftResult
last_group end_s [] = []
last_group end_s (r ∷ rs) = if reaches end_s (r ∷ rs) then r ∷ rs else last_group end_s rs

abbrev pub any_longest : List ShiftResult → Bool
any_longest [] = false
any_longest (r ∷ rs) = r.shift.shift_kind == scan_longest || any_longest rs

-- Where the longest matches are asked for, or one of the last group asks for it, those that end where
-- the last result ends and those with trailing context; in the mixed mode without such a shift, all
-- but the shifts that want to be longest; otherwise all.
pub select_lists : ℕ → ℕ → List ShiftResult → List ShiftResult
select_lists scan_kind end_s rs =
    if scan_kind == scan_longest || (scan_kind == scan_mixed && any_longest (last_group end_s rs))
    then keep_if (keeps_longest end_s) rs
    else if scan_kind == scan_mixed
    then keep_if keeps_short rs
    else rs

reaches-concat :
    (end_s : ℕ) (rs : List ShiftResult) (r : ShiftResult)
    → reaches end_s (rs ++ r ∷ []) ≡ (reaches end_s rs && not (ltb r.loc.s end_s))
reaches-concat end_s [] r = ground arith
reaches-concat end_s (q ∷ rs) r = ground (arith, reaches-concat end_s rs r)

last_group-concat :
    (end_s : ℕ) (rs : List ShiftResult) (r : ShiftResult)
    → last_group end_s (rs ++ r ∷ [])
      ≡ (if ltb r.loc.s end_s then [] else last_group end_s rs ++ r ∷ [])
last_group-concat end_s [] r = ground arith
last_group-concat end_s (q ∷ rs) r =
    ground (arith, last_group-concat end_s rs r, reaches-concat end_s rs r)

any_longest-concat :
    (rs : List ShiftResult) (r : ShiftResult)
    → any_longest (rs ++ r ∷ []) ≡ ((r.shift.shift_kind == scan_longest) || any_longest rs)
any_longest-concat [] r = ground arith
any_longest-concat (q ∷ rs) r = ground (arith, any_longest-concat rs r)

-- The loop over the first `i` results, against the last group of these.
module _ (end_s : ℕ) (rs : List ShiftResult) where
  record IsSplit (i : ℕ) : Type 0 where
    at_end : (find_longest end_s i rs).1 ≡ any_longest (last_group end_s (take i rs))
    parts : take (find_longest end_s i rs).0 rs ++ last_group end_s (take i rs) ≡ take i rs
    within : (find_longest end_s i rs).0 ≤ i

  group_of_short :
      (i : ℕ) (r : ShiftResult)
      → get_elem? rs i ≡ some r
      → ltb r.loc.s end_s ≡ true
      → last_group end_s (take (suc i) rs) ≡ []
  group_of_short i r at short =
      rw (take-suc rs i r at) (last_group-concat end_s (take i rs) r ∙ rw short)

  group_of_long :
      (i : ℕ) (r : ShiftResult)
      → get_elem? rs i ≡ some r
      → ltb r.loc.s end_s ≡ false
      → last_group end_s (take (suc i) rs) ≡ last_group end_s (take i rs) ++ r ∷ []
  group_of_long i r at long =
      rw (take-suc rs i r at) (last_group-concat end_s (take i rs) r ∙ rw long)

  find_longest-IsSplit : (i : ℕ) → i ≤ length rs → IsSplit i
  unfolding find_longest
  find_longest-IsSplit zero len = record { at_end = refl; parts = refl; within = omega arith }
  find_longest-IsSplit (suc i) len = elim (Option-cases (get_elem? rs i)) [
    | inl end ↦ absurd (omega (arith, get_elem?-none rs i end))
    | inr (r, at) ↦ elim (Bool-cases (ltb r.loc.s end_s)) [
      | inl short ↦
          let found : find_longest end_s (suc i) rs ≡ (suc i, false) =
            rw (at, find_longest) (rw short) in
          let group = group_of_short i r at short in
          record {
            at_end = rw (found, group);
            parts = rw (found, group) (append-nil _);
            within = rw found (omega arith);
          }
      | inr long ↦
          let h = find_longest-IsSplit i (omega arith) in
          let group = group_of_long i r at long in
          let rest = find_longest end_s i rs in
          let found : find_longest end_s (suc i) rs
              ≡ (rest.0, (r.shift.shift_kind == scan_longest) || rest.1) =
            rw (at, find_longest) (rw long) in
          record {
            at_end = rw (found, group, any_longest-concat, h.at_end);
            parts =
                rw (found, group)
                  (sym (append_assoc (take rest.0 rs) _ (r ∷ []))
                    ∙ ap (λ q. q ++ r ∷ []) h.parts
                    ∙ sym (take-suc rs i r at));
            within = rw found (omega (arith, h.within));
          }
    ]
  ]

module _ {ℓ} {A : Type ℓ} where
  append_cancel : (xs : List A) {ys zs : List A} → xs ++ ys ≡ xs ++ zs → ys ≡ zs
  append_cancel [] e = e
  append_cancel (x ∷ xs) e = append_cancel xs (cc)

  take-length : (xs : List A) → take (length xs) xs ≡ xs
  take-length [] = refl
  take-length (x ∷ xs) = ap (λ q. x ∷ q) (take-length xs)

keeps_all_short : (rs : List ShiftResult) → any_longest rs ≡ false → keep_if keeps_short rs ≡ rs
unfolding keeps_short
keeps_all_short [] h = refl
keeps_all_short (r ∷ rs) h = ground (arith, keeps_all_short rs)

-- In the mixed mode without a shift of the last group that wants to be longest, the in-place loop
-- leaves what the filter leaves.
short_results :
    (end_s : ℕ) (rs : List ShiftResult)
    → any_longest (last_group end_s rs) ≡ false
    → (let left = (find_longest end_s (length rs) rs).0 in
        drop (compact_back keeps_short left left rs).0 (compact_back keeps_short left left rs).1)
      ≡ keep_if keeps_short rs
short_results end_s rs none_long =
    let h = find_longest-IsSplit end_s rs (length rs) (omega arith) in
    let left = (find_longest end_s (length rs) rs).0 in
    let parts : take left rs ++ last_group end_s rs ≡ rs = rw take-length at h.parts in
    let group : drop left rs ≡ last_group end_s rs =
      append_cancel (take left rs) (take-append-drop left rs ∙ sym parts) in
    compact_back_lem keeps_short left rs h.within
    ∙ ap (λ q. keep_if keeps_short (take left rs) ++ q)
        (group ∙ sym (keeps_all_short (last_group end_s rs) none_long))
    ∙ sym (keep_if-append keeps_short (take left rs) (last_group end_s rs))
    ∙ ap (keep_if keeps_short) parts

-- The in-place loops at the end of `scan_buffer` select what the specification on lists selects.
pub select_lem :
    (scan_kind end_s : ℕ) (rs : List ShiftResult)
    → select scan_kind end_s rs ≡ select_lists scan_kind end_s rs
unfolding select select_lists
select_lem scan_kind end_s rs =
    let h = find_longest-IsSplit end_s rs (length rs) (omega arith) in
    let flag : (find_longest end_s (length rs) rs).1 ≡ any_longest (last_group end_s rs) =
      rw take-length at h.at_end in
    ground (arith, flag, compact_lem (keeps_longest end_s) rs, short_results end_s rs)
