-- ===== src/Symtab/Buckets.antt =====
-- The hash table of the outermost scope: a symbol that was added is found in its bucket, also after
-- the table has grown.
use mathlib.Core.List.{append-nil, append_assoc}
use dparser.Prelude.{
  ℕ, zero, suc, ◌+◌, ◌%◌, ◌<◌, ◌≡◌, refl, sym, ap, ◌∙◌, inl, inr, Bool, true, false, ◌&&◌, ◌||◌,
  List, [], ◌∷◌, ◌++◌, arith, ltb, ◌==◌, ==_iff, if◌then◌else◌, length, set, get_or, replicate,
  length-set, length-replicate, Bool-cases, has, has-append, nat_eq,
}
use dparser.Symtab.{SymHash, push, drain, push_all, symhash_add}

get_or-set :
    (buckets : List (List ℕ)) (i j : ℕ) (b : List ℕ)
    → i < length buckets
    → get_or (set buckets i b) j [] ≡ (if j == i then b else get_or buckets j [])
get_or-set [] i j b h = elim h [ ]
get_or-set (x ∷ v) zero zero b h = refl
get_or-set (x ∷ v) zero (suc j) b h = ground arith
get_or-set (x ∷ v) (suc i) zero b h = ground arith
get_or-set (x ∷ v) (suc i) (suc j) b h = ground (arith, get_or-set v i j b)

get_or-replicate : (n j : ℕ) → get_or {A = List ℕ} (replicate n []) j [] ≡ []
get_or-replicate zero j = refl
get_or-replicate (suc n) zero = refl
get_or-replicate (suc n) (suc j) = get_or-replicate n j

length-push : (buckets : List (List ℕ)) (h x : ℕ) → length (push buckets h x) ≡ length buckets
unfolding push
length-push buckets h x = length-set buckets h _

get_or-push :
    (buckets : List (List ℕ)) (h x j : ℕ)
    → h < length buckets
    → get_or (push buckets h x) j []
      ≡ (if j == h then x ∷ get_or buckets j [] else get_or buckets j [])
unfolding push
get_or-push buckets h x j p = ground (arith, get_or-set buckets h j (x ∷ get_or buckets h []))

split_if :
    (b : Bool) (x : ℕ) (xs : List ℕ) → (if b then x ∷ xs else xs) ≡ (if b then x ∷ [] else []) ++ xs
split_if true x xs = refl
split_if false x xs = refl

module _ (hash_of : ℕ → ℕ) where
  -- The elements that go to a bucket, the last one first.
  abbrev pub reversed_for : ℕ → ℕ → List ℕ → List ℕ
  reversed_for n j [] = []
  reversed_for n j (x ∷ xs) = reversed_for n j xs ++ (if j == hash_of x % n then x ∷ [] else [])

  length-push_all :
      (buckets : List (List ℕ)) (xs : List ℕ)
      → length (push_all hash_of buckets xs) ≡ length buckets
  unfolding push_all
  length-push_all buckets [] = refl
  length-push_all buckets (x ∷ xs) =
      length-push_all (push buckets (hash_of x % length buckets) x) xs
      ∙ length-push buckets (hash_of x % length buckets) x

  get_or-push_all :
      (n : ℕ) (buckets : List (List ℕ)) (xs : List ℕ) (j : ℕ)
      → 0 < n
      → length buckets ≡ n
      → get_or (push_all hash_of buckets xs) j [] ≡ reversed_for n j xs ++ get_or buckets j []
  unfolding push_all
  get_or-push_all n buckets [] j p len = refl
  get_or-push_all n buckets (x ∷ xs) j p len =
      let h = hash_of x % length buckets in
      get_or-push_all n (push buckets h x) xs j p (length-push buckets h x ∙ len)
      ∙ ap (λ q. reversed_for n j xs ++ q) (get_or-push buckets h x j (omega arith))
      ∙ ap (λ q. reversed_for n j xs ++ q) (split_if (j == h) x (get_or buckets j []))
      ∙ sym (append_assoc (reversed_for n j xs) _ (get_or buckets j []))
      ∙ ap
          (λ k.
            (reversed_for n j xs ++ (if j == hash_of x % k then x ∷ [] else []))
            ++ get_or buckets j [])
          len

  has-reversed_for :
      (n j : ℕ) (xs : List ℕ) (y : ℕ)
      → has (reversed_for n j xs) y ≡ (has xs y && j == hash_of y % n)
  has-reversed_for n j [] y = refl
  has-reversed_for n j (x ∷ xs) y =
      has-append (reversed_for n j xs) _ y ∙ ground (arith, has-reversed_for n j xs y, ==_iff x y)

  -- A table whose symbols stand in the buckets of their hashes.
  pub record IsHashed (sh : SymHash) : Type 0 where
    pub room : 0 < length sh.syms
    pub grows : 0 < sh.grow
    pub placed :
        (j y : ℕ) → has (get_or sh.syms j []) y ≡ true → (j == hash_of y % length sh.syms) ≡ true

  -- The symbol is in the bucket that a search reads.
  abbrev pub in_table : SymHash → ℕ → Bool
  in_table sh y = has (get_or sh.syms (hash_of y % length sh.syms) []) y

  has_of_drain :
      (buckets : List (List ℕ)) (y : ℕ)
      → has (drain buckets) y ≡ true
      → (j : ℕ) × (has (get_or buckets j []) y ≡ true)
  unfolding drain
  has_of_drain [] y h = absurd (cc h)
  has_of_drain (b ∷ buckets) y h = elim (Bool-cases (has b y)) [
    | inl here ↦ (0, here)
    | inr other ↦
        let (j, e) = has_of_drain buckets y (ground (arith, has-append b (drain buckets) y)) in
        (suc j, e)
  ]

  drain_of_has :
      (buckets : List (List ℕ)) (j y : ℕ)
      → has (get_or buckets j []) y ≡ true
      → has (drain buckets) y ≡ true
  unfolding drain
  drain_of_has [] j y h = absurd (cc h)
  drain_of_has (b ∷ buckets) zero y h = ground (arith, has-append b (drain buckets) y)
  drain_of_has (b ∷ buckets) (suc j) y h =
      ground (arith, has-append b (drain buckets) y, drain_of_has buckets j y h)

  pushed-IsHashed :
      (sh : SymHash) (s : ℕ)
      → IsHashed sh
      → IsHashed
          (record sh { index = sh.index + 1; syms = push sh.syms (hash_of s % length sh.syms) s })
  pushed-IsHashed sh s h =
      let k = hash_of s % length sh.syms in
      let len = length-push sh.syms k s in
      record {
        room = omega (arith, h.room);
        grows = h.grows;
        placed = λ j y held. rw len (
            ground (
              arith,
              h.placed j y,
              ==_iff s y,
              ==_iff j k,
              rw (get_or-push sh.syms k s j (omega (arith, h.room))) at held,
            ));
      }

  has-drain : (sh : SymHash) (y : ℕ) → IsHashed sh → has (drain sh.syms) y ≡ in_table sh y
  has-drain sh y h = elim (Bool-cases (has (drain sh.syms) y)) [
    | inl held ↦
        let (j, here) = has_of_drain sh.syms y held in
        let e : j ≡ hash_of y % length sh.syms = (==_iff _ _).0 (h.placed j y here) in
        held ∙ sym (rw e at here)
    | inr absent ↦ elim (Bool-cases (in_table sh y)) [
      | inl here ↦ absurd (cc (drain_of_has sh.syms (hash_of y % length sh.syms) y here, absent))
      | inr nowhere ↦ absent ∙ sym nowhere
    ]
  ]

  -- The table with `n` buckets to which the symbols move.
  abbrev rebuilt : ℕ → List ℕ → List (List ℕ)
  rebuilt n xs = push_all hash_of (replicate n []) xs

  rebuilt-bucket :
      (n : ℕ) (xs : List ℕ) (j : ℕ) → 0 < n → get_or (rebuilt n xs) j [] ≡ reversed_for n j xs
  rebuilt-bucket n xs j p =
      get_or-push_all n (replicate n []) xs j p (length-replicate n [])
      ∙ ap (λ q. reversed_for n j xs ++ q) (get_or-replicate n j)
      ∙ append-nil (reversed_for n j xs)

  length-rebuilt : (n : ℕ) (xs : List ℕ) → length (rebuilt n xs) ≡ n
  length-rebuilt n xs = length-push_all (replicate n []) xs ∙ length-replicate n []

  in_table-pushed :
      (sh : SymHash) (s y : ℕ)
      → IsHashed sh
      → in_table
          (record sh { index = sh.index + 1; syms = push sh.syms (hash_of s % length sh.syms) s })
          y
        ≡ (s == y || in_table sh y)
  in_table-pushed sh s y h =
      let k = hash_of s % length sh.syms in
      rw
        (
          length-push sh.syms k s,
          get_or-push sh.syms k s (hash_of y % length sh.syms) (omega (arith, h.room)),
        )
        (ground (arith, ==_iff s y, ==_iff (hash_of y % length sh.syms) k))

  -- In a table whose symbols stand in the buckets of their hashes, `symhash_add` keeps that, and the bucket of the
  -- hash of a symbol holds the symbol if and only if it is the one added or its bucket held it before, also when the
  -- table grows. Nothing is said of the order in a bucket.
  pub symhash_add-IsHashed :
      (sh : SymHash) (s y : ℕ)
      → IsHashed sh
      → IsHashed (symhash_add hash_of sh s)
        × (in_table (symhash_add hash_of sh s) y ≡ (s == y || in_table sh y))
  unfolding symhash_add
  symhash_add-IsHashed sh s y h =
      let pushed = record sh {
        index = sh.index + 1;
        syms = push sh.syms (hash_of s % length sh.syms) s;
      } in
      let v = pushed.syms in
      let k = pushed-IsHashed sh s h in
      elim (Bool-cases (ltb sh.grow (sh.index + 1))) [
        | inr stays ↦ rw stays (k, in_table-pushed sh s y h)
        | inl full ↦ rw full (
          record {
            room = rw (length-rebuilt sh.grow (drain v)) h.grows;
            grows = omega arith;
            placed = λ j z held.
                let at : has (reversed_for sh.grow j (drain v)) z ≡ true =
                  rw (rebuilt-bucket sh.grow (drain v) j h.grows) at held in
                rw (length-rebuilt sh.grow (drain v))
                  (ground (arith, has-reversed_for sh.grow j (drain v) z));
          },
          rw (length-rebuilt sh.grow (drain v)) (
              rw (rebuilt-bucket sh.grow (drain v) (hash_of y % sh.grow) h.grows) (
                ground (
                  arith,
                  has-reversed_for sh.grow (hash_of y % sh.grow) (drain v) y,
                  ==_iff (hash_of y % sh.grow) (hash_of y % sh.grow),
                  has-drain pushed y k,
                  in_table-pushed sh s y h,
                ))),
        )
      ]

  -- Where the table grows, each new bucket has its symbols in the reverse of the order in which the
  -- old buckets held them: a newer symbol no longer stands before an older one of its name.
  pub symhash_add_reverses :
      (sh : SymHash) (s j : ℕ)
      → 0 < sh.grow
      → sh.grow < sh.index + 1
      → get_or (symhash_add hash_of sh s).syms j []
        ≡ reversed_for sh.grow j (drain (push sh.syms (hash_of s % length sh.syms) s))
  unfolding symhash_add
  symhash_add_reverses sh s j p full =
      let grown : ltb sh.grow (sh.index + 1) ≡ true = ground arith in
      rw grown (rebuilt-bucket sh.grow (drain (push sh.syms (hash_of s % length sh.syms) s)) j p)
