-- ===== src/Dbase/Neigh.antt =====
-- dbase/neigh.c: the neighbours of a node, sorted and without duplicates; clean_list and
-- get_connect of math/symb.c.
pub mod Distinct
pub mod Connect
use mathlib.Core.Option
use tcad_webapp.Dbase.ListStr.{to_short}
use tcad_webapp.Prelude.{
  ℕ, zero, suc, ◌+◌, ◌≡◌, Bool, true, false, Option, none, some, List, [], ◌∷◌, ◌++◌, map, length,
  get_elem?, ltb, ◌==◌, if◌then◌else◌,
}

-- The inner loop with `taken[i]` in `x`, over the entries after it: what stands in `taken[i]` in
-- the end, and the entries.
unfoldable pub exchange : ℕ → List ℕ → ℕ × List ℕ
exchange x [] = (x, [])
exchange x (y ∷ ys) =
    let (m, r) = exchange (if ltb y x then y else x) ys in (m, (if ltb y x then x else y) ∷ r)

-- The outer loop, over as many entries as are left.
unfoldable pub sort : ℕ → List ℕ → List ℕ
unfolding exchange
sort zero xs = xs
sort (suc n) [] = []
sort (suc n) (x ∷ xs) = let (m, r) = exchange x xs in m ∷ sort n r

-- `taken[1 .. ndup)` behind the last entry that was kept.
unfoldable pub keep_distinct : ℕ → List ℕ → List ℕ
keep_distinct last [] = []
keep_distinct last (x ∷ xs) = if x == last then keep_distinct last xs else x ∷ keep_distinct x xs

-- `taken[0 .. *num)`, and `*num`, which is 1 also for an empty list.
unfoldable pub compact : List ℕ → ℕ × List ℕ
unfolding keep_distinct
compact [] = (1, [])
compact (x ∷ xs) = (suc (length (keep_distinct x xs)), x ∷ keep_distinct x xs)

unfoldable pub elim_dups : List ℕ → ℕ × List ℕ
unfolding sort compact
elim_dups taken = compact (sort (length taken) taken)

-- `clean_list` of math/symb.c has the same text over `short`.
unfoldable pub clean_list : List ℕ → ℕ × List ℕ
unfolding sort compact
clean_list taken = compact (sort (length taken) taken)

-- What the routine reads of the mesh.
pub record Mesh : Type 0 where
  pub pt_nd : ℕ → ℕ
  pub nd_pt : ℕ → List ℕ
  pub tri_nd : ℕ → List ℕ
  pub vert_tri : ℕ → List ℕ

unfoldable pub vertices : Mesh → List ℕ → List ℕ
vertices m [] = []
vertices m (t ∷ ts) = m.vert_tri t ++ vertices m ts

-- The static `neigh_list[0 .. num_neigh)`, `num_neigh` and `work_nd`.
pub record Cache : Type 0 where
  pub list : List ℕ
  pub num : ℕ
  pub work_nd : ℕ

-- Every entry that is stored before the duplicates go.
unfoldable pub candidates : Mesh → ℕ → List ℕ
unfolding vertices
candidates m n = m.nd_pt (m.pt_nd n) ++ vertices m (m.tri_nd n)

-- The number of neighbours, and the new cache; `none` is a write past the 200 entries of
-- `neigh_list`.
unfoldable pub num_neigh_nd : Mesh → ℕ → Option (ℕ × Cache)
unfolding elim_dups candidates
num_neigh_nd m n =
    let (num, list) = elim_dups (candidates m n) in
    if ltb 200 (length (candidates m n))
    then none
    else some (num, record { list = list; num = num; work_nd = n })

abbrev pub entry : ℕ → Option (ℕ × Cache) → Option (Option ℕ × Cache)
entry i none = none
entry i (some (num, c)) = some (get_elem? c.list i, c)

-- `none` in the pair is a read of an entry that was not stored for this node.
unfoldable pub neigh_nd : Mesh → Cache → ℕ → ℕ → Option (Option ℕ × Cache)
unfolding num_neigh_nd
neigh_nd m c n i = entry i (if n == c.work_nd then some (c.num, c) else num_neigh_nd m n)

-- What is stored in `taken[i]`, a `short`.
abbrev pub put_short :
    Option ℕ → Option (List (Option ℕ) × Cache) → Option (List (Option ℕ) × Cache)
put_short x none = none
put_short x (some (xs, c)) = some (Option.map to_short x ∷ xs, c)

abbrev pub copy_on :
    Option (Option ℕ × Cache)
    → (Cache → Option (List (Option ℕ) × Cache))
    → Option (List (Option ℕ) × Cache)
copy_on none f = none
copy_on (some (x, c)) f = put_short x (f c)

-- `for(i = 0; i < *num; i++) taken[i] = neigh_nd(ind, i);`
unfoldable pub copy : Mesh → Cache → ℕ → ℕ → ℕ → Option (List (Option ℕ) × Cache)
unfolding neigh_nd
copy m c ind i zero = some ([], c)
copy m c ind i (suc n) = copy_on (neigh_nd m c ind i) (λ c'. copy m c' ind (suc i) n)

abbrev pub copy_all : Mesh → ℕ → Option (ℕ × Cache) → Option (List (Option ℕ) × Cache)
copy_all m ind none = none
copy_all m ind (some (num, c)) = copy m c ind 0 num

unfoldable pub get_connect : Mesh → ℕ → Option (List (Option ℕ) × Cache)
unfolding num_neigh_nd copy
get_connect m ind = copy_all m ind (num_neigh_nd m ind)
