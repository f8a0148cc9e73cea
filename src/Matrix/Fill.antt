-- ===== src/Matrix/Fill.antt =====
-- math/min_fill.c: min_ia_fill in two dimensions, which eliminates the nodes in the order of their
-- degrees. The linked lists of neighbours are lists; the storage that they are taken from, the
-- message and the self-test at the end are left out.
pub mod Degrees
pub mod Order
pub mod Permutes
pub mod Steps
use tcad_webapp.Prelude.{
  ℕ, zero, suc, ◌+◌, ◌-◌, Bool, true, false, not, ◌||◌, ◌&&◌, Option, none, some, List, [], ◌∷◌,
  length, ◌==◌, ltb, leb, if◌then◌else◌,
}
use tcad_webapp.Dbase.Impurity.{update}
use tcad_webapp.Dbase.ListStr.Items.{erase}

-- The `int` 0: an `int` that may be negative is a number with 2 ^ 31 added to it.
abbrev pub int_zero : ℕ
int_zero = 2147483648

-- `nbrs[i].n` and `nbrs[i].v`, which is an `int`, the mask, the nodes that remain, and the result so far. `obestn` is
-- -1 for `none`; `besti` keeps its value where the search finds nothing.
pub record Elimination : Type 0 where
  pub nbrs : ℕ → List ℕ
  pub v : ℕ → ℕ
  pub mask : ℕ → ℕ
  pub remaining : ℕ → ℕ
  pub nremain : ℕ
  pub reorder : ℕ → ℕ
  pub besti : ℕ
  pub obestn : Option ℕ
  pub total : ℕ

-- `bestn <= Obestn`.
abbrev pub at_most : ℕ → Option ℕ → Bool
at_most n none = false
at_most n (some m) = leb n m

-- The search over `n` places from `i` on: `bestn` and `besti`.
unfoldable pub seek : Elimination → ℕ → ℕ → ℕ → ℕ → ℕ × ℕ
seek st zero i bestn besti = (bestn, besti)
seek st (suc n) i bestn besti =
    let nnb = st.v (st.remaining i) in
    let rest = seek st n (suc i) nnb i in
    let skip = seek st n (suc i) bestn besti in
    if ltb nnb bestn then (if at_most nnb st.obestn then (nnb, i) else rest) else skip

-- The mask over a list.
unfoldable pub set_mask : List ℕ → ℕ → (ℕ → ℕ) → ℕ → ℕ
set_mask [] b mask = mask
set_mask (q ∷ qs) b mask = set_mask qs b (update mask q b)

-- New entries in front of the list of `work`, and its count.
unfoldable pub union : List ℕ → (ℕ → ℕ) → List ℕ × ℕ → List ℕ × ℕ
union [] mask w = w
union (q ∷ qs) mask w = union qs mask (if mask q == 0 then (q ∷ w.0, suc w.1) else w)

-- The neighbour `work` of `best`, whose list is `bestl`.
unfoldable pub join_node : ℕ → List ℕ → ℕ → Elimination → Elimination
unfolding set_mask union
join_node best bestl work st =
    let mask = set_mask (st.nbrs work) 1 st.mask in
    let w = union bestl mask (erase best (st.nbrs work), st.v work - 1) in
    record st {
      nbrs = update st.nbrs work w.0;
      v = update st.v work w.1;
      mask = set_mask w.0 0 (update mask best 0);
      obestn = elim st.obestn [ none ↦ none | some m ↦ some (if ltb w.1 m then w.1 else m) ];
    }

-- The loop over the neighbours of `best`.
unfoldable pub join_all : ℕ → List ℕ → List ℕ → Elimination → Elimination
unfolding join_node
join_all best bestl [] st = st
join_all best bestl (work ∷ ps) st =
    join_all best bestl ps (if work == best then st else join_node best bestl work st)

-- One elimination: the node is taken off the remaining ones and gets the number `step`.
unfoldable pub eliminate : ℕ → ℕ → Elimination → Elimination
unfolding seek join_all
eliminate nn step st =
    let found = seek st st.nremain 0 (int_zero + (nn + 1)) st.besti in
    let best = st.remaining found.1 in
    let last = st.nremain - 1 in
    let st1 : Elimination = record st {
      besti = found.1;
      obestn = some found.0;
      nremain = last;
      remaining = update st.remaining found.1 (st.remaining last);
      reorder = update st.reorder best step;
    } in
    let st2 = join_all best (st.nbrs best) (st.nbrs best) st1 in
    record st2 { nbrs = update st2.nbrs best []; total = length (st2.nbrs best) + st2.total }

-- `n` eliminations from `step` on.
unfoldable pub eliminate_all : ℕ → ℕ → ℕ → Elimination → Elimination
unfolding eliminate
eliminate_all nn zero step st = st
eliminate_all nn (suc n) step st = eliminate_all nn n (suc step) (eliminate nn step st)

-- Between `ia[in]` and `ia[in+1]`; each new link comes to the front.
unfoldable pub read_links : (ℕ → ℕ) → ℕ → ℕ → List ℕ → List ℕ
read_links ia zero j ls = ls
read_links ia (suc n) j ls = read_links ia n (suc j) (ia j ∷ ls)

abbrev pub start_elimination : (ℕ → ℕ) → (reorder : ℕ → ℕ) → (besti : ℕ) → Elimination
start_elimination ia reorder besti = record {
  nbrs = λ i. read_links ia (ia (suc i) - ia i) (ia i) [];
  v = λ i. int_zero + (ia (suc i) - ia i);
  mask = λ i. 0;
  remaining = λ i. i;
  nremain = ia 0 - 1;
  reorder = reorder;
  besti = besti;
  obestn = none;
  total = 0;
}

-- `reorder` and the value that is returned. `besti` is what the variable holds at first.
unfoldable pub min_ia_fill : (ℕ → ℕ) → (reorder : ℕ → ℕ) → (besti : ℕ) → (ℕ → ℕ) × ℕ
unfolding eliminate_all read_links
min_ia_fill ia reorder besti =
    let nn = ia 0 - 1 in
    let st = eliminate_all nn nn 0 (start_elimination ia reorder besti) in
    (st.reorder, st.total - nn)
