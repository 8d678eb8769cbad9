-- ===== src/Lex/Strings/Tree.antt =====
-- The automaton of strings is a tree: each state has the text that leads to it.
use mathlib.Core.List.{append_assoc, append-nil}
use dparser.Prelude.{
  ℕ, ◌≤◌, ◌<◌, ◌≡◌, refl, sym, ap, ◌∙◌, inl, inr, true, false, ◌&&◌, List, [], ◌∷◌, ◌++◌, arith,
  ◌==◌, leb, ==_iff, if◌then◌else◌, length, length-append, Bool-cases, has, nat_eq,
}
use dparser.Libc.{Ctype}
use dparser.Lex.{NfaState, blank_nfa, nfa_at, targets}
use dparser.Lex.Subset.Edges.{IsNfa}
use dparser.Lex.Subset.Language.{Reads, stop, read, silent}
use dparser.Lex.Regex.Edges.{new-Extends, add_char-Extends}
use dparser.Lex.Strings.{step_byte, walk}
use dparser.Lex.Strings.Grown.{
  nfa_at_outside, has_edge, grown, has_edge-grown, grown_accepts, grown_epsilon,
}

-- Each state has a text, which grows along the edges.
pub record IsTree (n : List NfaState) (label : ℕ → List ℕ) : Type 0 where
  pub nfa : IsNfa n
  pub begun : 0 < length n
  pub root : label 0 ≡ []
  pub quiet : (s t : ℕ) → has (nfa_at n s).epsilon t ≡ false
  pub edges : (s c t : ℕ) → has_edge n s c t ≡ true → label t ≡ label s ++ c ∷ []

-- From state `nn`, the tree leads to state `r.1` by the text `w`.
pub record Walks (n : List NfaState) (label : ℕ → List ℕ) (nn : ℕ) (w : List ℕ)
    (r : List NfaState × ℕ) : Type 0 where
  pub label' : ℕ → List ℕ
  pub tree : IsTree r.0 label'
  pub below : r.1 < length r.0
  pub same : (s : ℕ) → s < length n → label' s ≡ label s
  pub size : length n ≤ length r.0
  pub accepts : (s : ℕ) → (nfa_at r.0 s).accepts ≡ (nfa_at n s).accepts
  pub grows : (s c t : ℕ) → has_edge n s c t ≡ true → has_edge r.0 s c t ≡ true
  pub reads : Reads r.0 nn w r.1
  pub ends : label' r.1 ≡ label nn ++ w

-- The text of the new state, besides the others.
abbrev with_new : (ℕ → List ℕ) → ℕ → List ℕ → ℕ → List ℕ
with_new label new w s = if new == s then w else label s

module _ (n : List NfaState) (label : ℕ → List ℕ) (tree : IsTree n label) (nn c : ℕ)
    (below : nn < length n) where
  abbrev label_new : ℕ → List ℕ
  label_new = with_new label (length n) (label nn ++ c ∷ [])

  label_old : (s : ℕ) → s < length n → label_new s ≡ label s
  label_old s h = ground (arith, h)

  label_last : label_new (length n) ≡ label nn ++ c ∷ []
  label_last = ground (arith, ==_iff (length n) (length n))

  edge_inside : (s d t : ℕ) → has_edge n s d t ≡ true → s < length n
  edge_inside s d t h = elim (Bool-cases (leb (length n) s)) [
    | inl outside ↦ absurd (
        cc (
          ap (λ (v : NfaState). has (targets v.chars d) t)
            (sym (nfa_at_outside n s (ground (arith, outside))))
          ∙ h))
    | inr inside ↦ ground (arith, inside)
  ]

  new_edges :
      (s d t : ℕ) → has_edge (grown n nn c) s d t ≡ true → label_new t ≡ label_new s ++ d ∷ []
  new_edges s d t h = elim (Bool-cases (has_edge n s d t)) [
    | inl old ↦
        label_old t (tree.nfa.reading s d t old)
        ∙ tree.edges s d t old
        ∙ ap (λ l. l ++ d ∷ []) (sym (label_old s (edge_inside s d t old)))
    | inr new ↦
        let here : (nn == s && c == d && length n == t) ≡ true =
          ground (arith, sym (has_edge-grown n nn c below s d t) ∙ h, new) in
        let e : nn ≡ s = (==_iff nn s).0 (ground (arith, here)) in
        let e' : c ≡ d = (==_iff c d).0 (ground (arith, here)) in
        let e'' : length n ≡ t = (==_iff (length n) t).0 (ground (arith, here)) in
        ap label_new (sym e'')
        ∙ label_last
        ∙ ap (λ l. l ++ c ∷ []) (sym (label_old nn below))
        ∙ ap (λ q. label_new q ++ c ∷ []) e
        ∙ ap (λ q. label_new s ++ q ∷ []) e'
  ]

  step_byte-Walks : Walks n label nn (c ∷ []) (step_byte n nn c)
  unfolding step_byte
  step_byte-Walks = by (targets (nfa_at n nn).chars c) refl
    where
      by :
          (ts : List ℕ)
          → targets (nfa_at n nn).chars c ≡ ts
          → Walks n label nn
              (c ∷ [])
              (elim ts [ [] ↦ (grown n nn c, length n) | nnn ∷ _ ↦ (n, nnn) ])
      by (t ∷ ts) e =
          let edge : has_edge n nn c t ≡ true = ap (λ l. has l t) e ∙ ground (arith, ==_iff t t) in
          record {
            label' = label;
            tree = tree;
            below = tree.nfa.reading nn c t edge;
            same = λ s h. refl;
            size = omega arith;
            accepts = λ s. refl;
            grows = λ s d u h. h;
            reads = read edge stop;
            ends = tree.edges nn c t edge;
          }
      by [] e =
          let new = new-Extends n tree.nfa in
          let size = length-append n (blank_nfa ∷ []) in
          let more =
            add_char-Extends (n ++ blank_nfa ∷ []) nn c (length n) new.nfa (omega (arith, size)) in
          record {
            label' = label_new;
            tree = record {
              nfa = more.nfa;
              begun = omega (arith, more.size, size);
              root = label_old 0 tree.begun ∙ tree.root;
              quiet = λ s t. ap (λ l. has l t) (grown_epsilon n nn c below s) ∙ tree.quiet s t;
              edges = new_edges;
            };
            below = omega (arith, more.size, size);
            same = label_old;
            size = omega (arith, more.size, size);
            accepts = grown_accepts n nn c below;
            grows = λ s d t h. has_edge-grown n nn c below s d t ∙ ground (arith, h);
            reads =
                read
                  (has_edge-grown n nn c below nn c (length n)
                    ∙ ground (arith, ==_iff nn nn, ==_iff c c, ==_iff (length n) (length n)))
                  stop;
            ends = label_last;
          }

pub Reads-grows :
    {n n' : List NfaState} {label : ℕ → List ℕ}
    → IsTree n label
    → ((s c t : ℕ) → has_edge n s c t ≡ true → has_edge n' s c t ≡ true)
    → {s t : ℕ} {w : List ℕ} → Reads n s w t
    → Reads n' s w t
Reads-grows tree grows stop = stop
Reads-grows tree grows (silent {s} {t} edge more) = absurd (cc (tree.quiet s t, edge))
Reads-grows tree grows (read {s} {t} {u} {c} edge more) =
    read (grows s c t edge) (Reads-grows tree grows more)

pub label_behind :
    {n : List NfaState} {label : ℕ → List ℕ}
    → IsTree n label
    → {s t : ℕ} {w : List ℕ} → Reads n s w t
    → label t ≡ label s ++ w
label_behind {label = label} tree (stop {s}) = sym (append-nil (label s))
label_behind tree (silent {s} {t} edge more) = absurd (cc (tree.quiet s t, edge))
label_behind {label = label} tree (read {s} {t} {u} {c} {w} edge more) =
    label_behind tree more
    ∙ ap (λ l. l ++ w) (tree.edges s c t edge)
    ∙ append_assoc (label s) (c ∷ []) w

Reads-append :
    {n : List NfaState} {s t u : ℕ} {v w : List ℕ}
    → Reads n s v t
    → Reads n t w u
    → Reads n s (v ++ w) u
Reads-append stop more = more
Reads-append (silent edge first) more = silent edge (Reads-append first more)
Reads-append (read edge first) more = read edge (Reads-append first more)

pub walk-Walks :
    (ctype : Ctype) (n : List NfaState) (label : ℕ → List ℕ) (nn : ℕ) (w : List ℕ)
    → IsTree n label
    → nn < length n
    → Walks n label nn w (walk ctype false n nn w)
unfolding walk
walk-Walks ctype n label nn [] tree below = record {
  label' = label;
  tree = tree;
  below = below;
  same = λ s h. refl;
  size = omega arith;
  accepts = λ s. refl;
  grows = λ s c t h. h;
  reads = stop;
  ends = sym (append-nil (label nn));
}
walk-Walks ctype n label nn (c ∷ w) tree below =
    let first = step_byte-Walks n label tree nn c below in
    let r = step_byte n nn c in
    let rest = walk-Walks ctype r.0 first.label' r.1 w first.tree first.below in
    record {
      label' = rest.label';
      tree = rest.tree;
      below = rest.below;
      same = λ s h. rest.same s (omega (arith, h, first.size)) ∙ first.same s h;
      size = omega (arith, first.size, rest.size);
      accepts = λ s. rest.accepts s ∙ first.accepts s;
      grows = λ s d t h. rest.grows s d t (first.grows s d t h);
      reads = Reads-append (Reads-grows first.tree rest.grows first.reads) rest.reads;
      ends = rest.ends ∙ ap (λ l. l ++ w) first.ends ∙ append_assoc (label nn) (c ∷ []) w;
    }
