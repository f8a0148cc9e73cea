-- ===== src/Matrix/Fill/Permutes.antt =====
-- The whole elimination gives every node one number.
use tcad_webapp.Prelude.{
  ℕ, zero, suc, ◌+◌, ◌-◌, ◌<◌, ◌≤◌, ◌≡◌, ◌≢◌, refl, ap, sym, ◌∙◌, subst, true, [], length, ◌==◌,
  arith, Bool-cases, inl, inr, some,
}
use tcad_webapp.Dbase.Impurity.{update}
use tcad_webapp.Dbase.Neigh.Distinct.{has}
use tcad_webapp.Matrix.Fill.{
  int_zero, Elimination, seek, join_all, eliminate, eliminate_all, start_elimination, min_ia_fill,
}
use tcad_webapp.Matrix.Fill.Degrees.{length-le, IsGraph, IsCounted}
use tcad_webapp.Matrix.Fill.Order.{IsOrdered, IsOrdered-next, IsPermutation, IsOrdered-done}
use tcad_webapp.Matrix.Fill.Steps.{
  seek-found, Kept, join_all-Kept, join_all-IsCounted, join_all-IsGraph, has-read_links,
  length-read_links, read_links-IsDistinct,
}

-- The state with `r` nodes remaining, of which the next gets the number `s`.
record IsElimination (nn r s : ℕ) (st : Elimination) (order : ℕ → ℕ) : Type 0 where
  ordered : IsOrdered nn r s st.remaining st.reorder order
  size : st.nremain ≡ r
  graph : IsGraph nn st
  counted : (k : ℕ) → k < r → IsCounted st (st.remaining k)

module _ (nn r s : ℕ) (st : Elimination) (order : ℕ → ℕ)
    (e : IsElimination nn (suc r) s st order) where
  found : ℕ
  found = (seek st (suc r) 0 (int_zero + (nn + 1)) st.besti).1

  found-lt : found < suc r
  unfolding found
  found-lt =
      let node = e.ordered.inside 0 (omega arith) in
      let degree =
        length-le nn (st.nbrs (st.remaining 0)) (e.graph.distinct (st.remaining 0) node)
          (e.graph.inside (st.remaining 0) node) in
      seek-found st r (int_zero + (nn + 1)) st.besti
        (omega (arith, e.counted 0 (omega arith), degree))

  -- The state in which the joins start.
  taken : Elimination
  taken = record st {
    besti = found;
    obestn = some (seek st (suc r) 0 (int_zero + (nn + 1)) st.besti).0;
    nremain = r;
    remaining = update st.remaining found (st.remaining r);
    reorder = update st.reorder (st.remaining found) s;
  }

  best : ℕ
  best = st.remaining found

  after : Elimination
  after = join_all best (st.nbrs best) (st.nbrs best) taken

  best-lt : best < nn
  unfolding best
  best-lt = e.ordered.inside found found-lt

  taken-IsGraph : IsGraph nn taken
  unfolding taken
  taken-IsGraph = record {
    distinct = e.graph.distinct;
    inside = e.graph.inside;
    clear = e.graph.clear;
  }

  after-IsGraph : IsGraph nn after
  unfolding after
  after-IsGraph =
      let b = e.graph.inside best best-lt in
      join_all-IsGraph best (st.nbrs best) (st.nbrs best) taken nn (e.graph.distinct best best-lt) b
        b taken-IsGraph

  next-IsOrdered : IsOrdered nn r (suc s) taken.remaining taken.reorder (update order s best)
  unfolding taken best
  next-IsOrdered = IsOrdered-next nn r s found st.remaining st.reorder order found-lt e.ordered

  -- One elimination, where the number of the nodes that remain is known.
  eliminate-after : eliminate nn s st ≡ record after {
    nbrs = update after.nbrs best [];
    total = length (after.nbrs best) + after.total;
  }
  unfolding eliminate after taken best found
  eliminate-after =
      let less : st.nremain - 1 ≡ r = omega (arith, e.size) in
      ap
        (λ (n : ℕ × ℕ).
          let i = (seek st n.0 0 (int_zero + (nn + 1)) st.besti) in
          let b = st.remaining i.1 in
          let st1 : Elimination = record st {
            besti = i.1;
            obestn = some i.0;
            nremain = n.1;
            remaining = update st.remaining i.1 (st.remaining n.1);
            reorder = update st.reorder b s;
          } in
          let st2 = join_all b (st.nbrs b) (st.nbrs b) st1 in
          record st2 { nbrs = update st2.nbrs b []; total = length (st2.nbrs b) + st2.total })
        (λ i. (e.size i, less i))

  emptied-IsGraph : IsGraph nn (eliminate nn s st)
  unfolding has
  emptied-IsGraph = subst (IsGraph nn) (sym eliminate-after) record {
    distinct = λ i k. elim (Bool-cases (i == best)) [
      | inl q ↦ rw q tt
      | inr q ↦ rw q (after-IsGraph.distinct i k)
    ];
    inside = λ i k. elim (Bool-cases (i == best)) [
      | inl q ↦ rw q (λ a h. absurd (cc))
      | inr q ↦ rw q (after-IsGraph.inside i k)
    ];
    clear = after-IsGraph.clear;
  }

  kept : Kept taken after
  unfolding after
  kept = join_all-Kept best (st.nbrs best) (st.nbrs best) taken

  -- The degrees of those that remain, after the joins.
  after-IsCounted : (k : ℕ) → k < r → IsCounted after (taken.remaining k)
  unfolding after taken
  after-IsCounted k l =
      join_all-IsCounted best (st.nbrs best) (st.nbrs best) taken (taken.remaining k)
        (elim (Bool-cases (k == found)) [
          | inl q ↦ rw q (e.counted r (omega arith))
          | inr q ↦ rw q (e.counted k (omega arith))
        ])

  remaining-ne : (k : ℕ) → k < r → taken.remaining k ≢ best
  remaining-ne k l q =
      let self : (s == s) ≡ true = ground arith in
      let gone : taken.remaining k ≢ update order s best s =
        (next-IsOrdered.inverse s (omega arith)).2 k l in
      gone (rw self q)

  emptied-IsCounted :
      (k : ℕ) → k < r → IsCounted (eliminate nn s st) ((eliminate nn s st).remaining k)
  emptied-IsCounted k l =
      subst (λ (t : Elimination). IsCounted t (t.remaining k)) (sym eliminate-after)
        (elim (Bool-cases (after.remaining k == best)) [
          | inl q ↦
              absurd
                (remaining-ne k l (ap (λ (f : ℕ → ℕ). f k) (sym kept.remaining) ∙ (ground arith)))
          | inr q ↦ rw q (
              subst (λ (f : ℕ → ℕ). IsCounted after (f k)) (sym kept.remaining)
                (after-IsCounted k l))
        ])

  emptied-IsOrdered :
      IsOrdered nn r
        (suc s)
        (eliminate nn s st).remaining
        (eliminate nn s st).reorder
        (update order s best)
  emptied-IsOrdered =
      subst
        (λ (t : Elimination). IsOrdered nn r (suc s) t.remaining t.reorder (update order s best))
        (sym eliminate-after)
        (subst (λ (f : ℕ → ℕ). IsOrdered nn r (suc s) f after.reorder (update order s best))
          (sym kept.remaining)
          (subst (λ (f : ℕ → ℕ). IsOrdered nn r (suc s) taken.remaining f (update order s best))
            (sym kept.reorder) next-IsOrdered))

  next-IsElimination : IsElimination nn r (suc s) (eliminate nn s st) (update order s best)
  unfolding taken
  next-IsElimination = record {
    ordered = emptied-IsOrdered;
    size = ap (λ (t : Elimination). t.nremain) eliminate-after ∙ kept.nremain;
    graph = emptied-IsGraph;
    counted = emptied-IsCounted;
  }

all-IsPermutation :
    (nn r s : ℕ) (st : Elimination) (order : ℕ → ℕ)
    → s + r ≡ nn
    → IsElimination nn r s st order
    → IsPermutation nn (eliminate_all nn r s st).reorder
unfolding eliminate_all
all-IsPermutation nn zero s st order q e =
    let all : s ≡ nn = omega (arith, q) in
    IsOrdered-done nn st.remaining st.reorder order
      (subst (λ s. IsOrdered nn 0 s st.remaining st.reorder order) all e.ordered)
all-IsPermutation nn (suc r) s st order q e =
    all-IsPermutation nn r (suc s) (eliminate nn s st) (update order s (best nn r s st order e))
      (omega (arith, q)) (next-IsElimination nn r s st order e)

-- `ia` describes the rows of a matrix of `nn` nodes: row `i` stands from `ia[i]` to `ia[i+1]`, and
-- has different columns, each one a node.
pub record IsMatrixMap (nn : ℕ) (ia : ℕ → ℕ) : Type 0 where
  pub first : ia 0 ≡ nn + 1
  pub columns : (i j : ℕ) → i < nn → ia i ≤ j → j < ia (suc i) → ia j < nn
  pub apart :
      (i k m : ℕ)
      → i < nn
      → ia i ≤ k
      → k < ia (suc i)
      → ia i ≤ m
      → m < ia (suc i)
      → ia k ≡ ia m
      → k ≡ m

module _ (nn : ℕ) (ia reorder : ℕ → ℕ) (besti : ℕ) (h : IsMatrixMap nn ia) where
  start_elimination-IsElimination :
      IsElimination nn nn 0 (start_elimination ia reorder besti) (λ t. t)
  unfolding has
  start_elimination-IsElimination = record {
    ordered = record {
      inside = λ i l. l;
      apart = λ i j l k q. q;
      each = λ k l. inl (k, l, refl);
      inverse = λ t l. absurd (omega arith);
    };
    size = omega (arith, h.first);
    graph = record {
      distinct = λ i l.
          read_links-IsDistinct ia (ia (suc i) - ia i) (ia i) []
            (λ k m a b c e q. h.apart i k m l a (omega arith) c (omega arith) q) (λ k a b. refl) tt;
      inside = λ i l a q. elim (has-read_links ia (ia (suc i) - ia i) (ia i) [] a q) [
        | inl n ↦ cc
        | inr (k, b, c, e) ↦ subst (λ a. a < nn) e (h.columns i k l b (omega arith))
      ];
      clear = λ a. refl;
    };
    counted = λ k l. omega (arith, length-read_links ia (ia (suc k) - ia k) (ia k) []);
  }

  -- For rows of different columns the order that comes out is a permutation of the nodes: each node
  -- gets one number below their count, and each number one node.
  pub min_ia_fill-IsPermutation : IsPermutation nn (min_ia_fill ia reorder besti).0
  unfolding min_ia_fill
  min_ia_fill-IsPermutation =
      let count : ia 0 - 1 ≡ nn = omega (arith, h.first) in
      subst
        (λ m. IsPermutation nn (eliminate_all m m 0 (start_elimination ia reorder besti)).reorder)
        (sym count)
        (all-IsPermutation nn nn 0 (start_elimination ia reorder besti) (λ t. t) (omega arith)
          start_elimination-IsElimination)
