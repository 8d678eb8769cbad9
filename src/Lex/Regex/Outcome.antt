-- ===== src/Lex/Regex/Outcome.antt =====
-- The outcomes of a read, and the loop over a set in brackets: it ends, behind a part of the text.
use dparser.Prelude.{
  ℕ, zero, suc, ◌≤◌, ◌<◌, ◌≡◌, refl, inl, inr, List, [], ◌∷◌, arith, ◌==◌, length, Bool-cases,
  nat_eq,
}
use dparser.Lex.Brackets.{
  Parsed, done, failed, overrun, starved, ◌>>=◌, next, SetToken, set_token, set_ends, set_close,
  set_dash, set_escape, set_plain, mark_range, SetLoop, set_range, set_dashed, set_byte, read_set,
}

-- The outcome is not the end of the fuel, and a result has the property.
pub data Ok {A : Type 0} (P : A → Type 0) : Parsed A → Type 0 where
  ok : {a : A} → P a → Ok P (done a)
  fails : Ok P failed
  overruns : Ok P overrun

pub Ok-bind :
    {A B : Type 0} (P : A → Type 0) (Q : B → Type 0) (m : Parsed A) (f : A → Parsed B)
    → Ok P m
    → ((a : A) → P a → Ok Q (f a))
    → Ok Q (m >>= f)
unfolding ◌>>=◌
Ok-bind P Q (done a) f (ok p) k = k a p
Ok-bind P Q failed f fails k = fails
Ok-bind P Q overrun f overruns k = overruns
Ok-bind P Q starved f h k = elim h [ ]

-- A text that is shorter by a byte.
abbrev pub Behind : List ℕ → ℕ × List ℕ → Type 0
Behind reg r = length reg ≡ suc (length r.1)

pub next-Behind : (reg : List ℕ) → Ok (Behind reg) (next reg)
unfolding next
next-Behind [] = overruns
next-Behind (c ∷ reg) = ok refl

-- A text that is no longer.
abbrev pub Within : ℕ → List ℕ × List ℕ → Type 0
Within m r = length r.1 ≤ m

Within-mono :
    {m m' : ℕ} {x : Parsed (List ℕ × List ℕ)} → m ≤ m' → Ok (Within m) x → Ok (Within m') x
Within-mono le (ok h) = ok (omega arith)
Within-mono le fails = fails
Within-mono le overruns = overruns

-- The rest of the loop does well with shorter texts.
abbrev RestWithin : SetLoop → ℕ → Type 0
RestWithin rest m =
    (reg : List ℕ) (pc : ℕ) (mark : List ℕ)
    → length reg < m
    → Ok (Within (length reg)) (rest reg pc mark)

set_range-Within :
    (rest : SetLoop) (q : ℕ × List ℕ) (pc : ℕ) (mark : List ℕ) (m : ℕ)
    → RestWithin rest m
    → length q.1 < m
    → Ok (Within m) (set_range rest q pc mark)
unfolding set_range
set_range-Within rest (c, reg) pc mark m h less = elim (Bool-cases (c == 0)) [
  | inl zero_byte ↦ rw (zero_byte, set_range) fails
  | inr other ↦
      rw (other, set_range) (Within-mono (omega arith) (h reg pc (mark_range pc c mark) less))
]

set_dashed-Within :
    (rest : SetLoop) (k : SetToken) (q : ℕ × List ℕ) (pc : ℕ) (mark : List ℕ) (m : ℕ)
    → RestWithin rest m
    → length q.1 < m
    → Ok (Within m) (set_dashed rest k q pc mark)
unfolding set_dashed
set_dashed-Within rest set_ends (c, reg) pc mark m h less = fails
set_dashed-Within rest set_close (c, reg) pc mark m h less = ok (omega arith)
set_dashed-Within rest set_escape (c, reg) pc mark m h less =
    Ok-bind (Behind reg) (Within m) (next reg) _ (next-Behind reg)
      (λ q shorter. set_range-Within rest q pc mark m h (omega arith))
set_dashed-Within rest set_dash (c, reg) pc mark m h less =
    set_range-Within rest (c, reg) pc mark m h less
set_dashed-Within rest set_plain (c, reg) pc mark m h less =
    set_range-Within rest (c, reg) pc mark m h less

set_byte-Within :
    (rest : SetLoop) (k : SetToken) (r : ℕ × List ℕ) (pc : ℕ) (mark : List ℕ) (m : ℕ)
    → RestWithin rest m
    → length r.1 < m
    → Ok (Within m) (set_byte rest k r pc mark)
unfolding set_byte
set_byte-Within rest set_ends (c, reg) pc mark m h less = ok (omega arith)
set_byte-Within rest set_close (c, reg) pc mark m h less = ok (omega arith)
set_byte-Within rest set_dash (c, reg) pc mark m h less = elim (Bool-cases (pc == 255)) [
  | inl first ↦ rw (first, set_byte) (Within-mono (omega arith) (h reg 45 (45 ∷ mark) less))
  | inr later ↦
      rw (later, set_byte)
        (Ok-bind (Behind reg) (Within m) (next reg) _ (next-Behind reg)
          (λ q shorter. set_dashed-Within rest (set_token q.0) q pc mark m h (omega arith)))
]
set_byte-Within rest set_escape (c, reg) pc mark m h less =
    Ok-bind (Behind reg) (Within m) (next reg) _ (next-Behind reg)
      (λ q shorter. Within-mono (omega arith) (h q.1 q.0 (q.0 ∷ mark) (omega arith)))
set_byte-Within rest set_plain (c, reg) pc mark m h less =
    Within-mono (omega arith) (h reg c (c ∷ mark) less)

pub read_set-Within :
    (fuel : ℕ) (reg : List ℕ) (pc : ℕ) (mark : List ℕ)
    → length reg < fuel
    → Ok (Within (length reg)) (read_set fuel reg pc mark)
unfolding read_set
read_set-Within zero reg pc mark enough = absurd (omega arith)
read_set-Within (suc fuel) reg pc mark enough =
    Ok-bind (Behind reg) (Within (length reg)) (next reg) _ (next-Behind reg) (λ r shorter.
      set_byte-Within (λ reg' pc' mark'. read_set fuel reg' pc' mark') (set_token r.0) r pc mark
        (length reg) (λ reg' pc' mark' less. read_set-Within fuel reg' pc' mark' (omega arith))
        (omega arith))
