-- ===== src/Dbase/Tests.antt =====
-- Small lists, a mesh of one triangle and a table of two solution variables.
use tcad_webapp.Prelude.{
  ℕ, ◌≡◌, ◌≢◌, ◌<◌, ◌≤◌, ◌↔◌, ◌⊎◌, refl, true, false, none, some, List, [], ◌∷◌, ◌++◌, map, length,
  ◌==◌, if◌then◌else◌, arith, inl,
}
use tcad_webapp.Dbase.ListStr.{Cell, ListStr, FitsShort, add_list, sub_list, sub_nd_pt, ok, panic}
use tcad_webapp.Dbase.ListStr.Items.{
  stored, Represents, contains, erase, add_list-Represents, sub_list-erase, sub_list-panic,
}
use tcad_webapp.Dbase.ListStr.Bounds.{add_list-FitsShort}
use tcad_webapp.Dbase.ListStr.Points.{sub_nd_pt-erase}
use tcad_webapp.Dbase.Neigh.{Mesh, Cache, candidates, get_connect}
use tcad_webapp.Dbase.Neigh.Distinct.{IsIncreasing, has}
use tcad_webapp.Dbase.Neigh.Connect.{get_connect-IsIncreasing}
use tcad_webapp.Dbase.Waste.{Grid, outer, waste}
use tcad_webapp.Dbase.Waste.Links.{IsConsistent, IsRenumbered, waste-IsRenumbered}
use tcad_webapp.Dbase.Impurity.{Solution, add_impurity, lose_impurity}
use tcad_webapp.Dbase.Impurity.Tables.{IsInverse, value, add_impurity-IsInverse}
use tcad_webapp.Dbase.Impurity.Lose.{lose_impurity-IsInverse}
use tcad_webapp.Dbase.Nodes.{Db, empty_list, max_mat, make_nodes, node_to_tri}
use tcad_webapp.Dbase.Nodes.Buckets.{triangles_of, node_to_tri-Represents}
use tcad_webapp.Dbase.Nodes.Materials.{HasNodes, wanted, chosen, make_nodes-HasNodes}

abbrev two : ListStr
two = record { num = 2; all = 3; list = some 7 ∷ some 4 ∷ none ∷ [] }

two-Represents : Represents two (7 ∷ 4 ∷ [])
two-Represents = record { spare = none ∷ []; cells = refl; count = refl; size = refl }

has_seven : contains 7 (7 ∷ 4 ∷ []) ≡ true
unfolding contains
has_seven = refl

no_nine : contains 9 (7 ∷ 4 ∷ []) ≡ false
unfolding contains
no_nine = refl

add_list-Represents_example : Represents (add_list two 9) (7 ∷ 4 ∷ 9 ∷ [])
add_list-Represents_example =
    add_list-Represents two (7 ∷ 4 ∷ []) 9 (omega arith, omega arith) (inl (omega arith))
      two-Represents

add_list-FitsShort_example : FitsShort (add_list two 9) ↔ ((2 < 3) ⊎ (3 ≤ 32757))
add_list-FitsShort_example = add_list-FitsShort two 9 (omega arith) (omega arith, omega arith)

sub_list-erase_example :
    (num : ℕ) × (list : List Cell) × (sub_list two 7 ≡ ok (num, list))
    × Represents (record two { num = num; list = list }) (erase 7 (7 ∷ 4 ∷ []))
sub_list-erase_example = sub_list-erase two (7 ∷ 4 ∷ []) 7 two-Represents has_seven

missing_nine : sub_list two 9 ≡ panic
missing_nine = sub_list-panic two (7 ∷ 4 ∷ []) 9 two-Represents no_nine

taken_seven :
    sub_nd_pt 7 2 (some 7 ∷ some 4 ∷ none ∷ [])
    ≡ ok (1, stored (erase 7 (7 ∷ 4 ∷ [])) ++ (none ∷ none ∷ []))
taken_seven = sub_nd_pt-erase 7 (7 ∷ 4 ∷ []) none [] has_seven

abbrev triangle : Mesh
triangle = record {
  pt_nd = λ n. n;
  nd_pt = λ p. p ∷ [];
  tri_nd = λ n. 0 ∷ [];
  vert_tri = λ t. 2 ∷ 0 ∷ 1 ∷ [];
}

candidates-ne : candidates triangle 1 ≢ []
unfolding candidates
candidates-ne e = cc e

candidates_small : (a : ℕ) → has a (candidates triangle 1) ≡ true → a ≤ 32767
unfolding candidates has
candidates_small a h = ground (arith, h)

get_connect-IsIncreasing_example :
    (list : List ℕ) × (c : Cache) × (get_connect triangle 1 ≡ some (map some list, c))
    × IsIncreasing list
    × ((a : ℕ) → has a list ≡ has a (candidates triangle 1))
    × (c.num ≡ length list)
unfolding candidates
get_connect-IsIncreasing_example =
    get_connect-IsIncreasing triangle 1 candidates-ne (omega arith) candidates_small

-- Impurity 5 in slot 0, at two nodes.
abbrev doped : Solution ℕ
doped = record {
  nn = 2;
  mater = λ i. 0;
  n_imp = 1;
  soltoimp = λ s. if s == 0 then some 5 else none;
  imptosol = λ k. if k == 5 then some 0 else none;
  sol = λ i s. 3;
}

doped-IsInverse : IsInverse doped
doped-IsInverse = record {
  used = λ s h. (5, ground arith, ground arith);
  back = λ k s h. ground arith;
}

add_impurity-IsInverse_example : IsInverse (add_impurity 8 6 none doped)
add_impurity-IsInverse_example = add_impurity-IsInverse 8 6 none doped doped-IsInverse

lose_impurity-IsInverse_example :
    (st' : Solution ℕ) × (lose_impurity 5 doped ≡ some st')
    × IsInverse st'
    × (st'.imptosol 5 ≡ none)
    × ((k i : ℕ) → k ≢ 5 → i < 2 → value st' k i ≡ value doped k i)
lose_impurity-IsInverse_example = lose_impurity-IsInverse 5 doped doped-IsInverse

-- Two triangles, nodes, points and regions, of which the first are dead.
abbrev pair : Grid
pair = record {
  ne = 2;
  nn = 2;
  np = 2;
  nreg = 2;
  tri = λ k.
      some (record { killed = k == 0; nd = 1 ∷ []; nb = outer 1 ∷ []; regnum = 1; neighb = true });
  nd = λ k. some (record { killed = k == 0; pt = 1 });
  pt = λ k. some (record { killed = k == 0; nd = 1 ∷ [] });
  reg = λ k. some (k == 0);
  need_waste = true;
  neigh_dirty = false;
}

pair-IsConsistent : IsConsistent pair
pair-IsConsistent = record {
  tri_of =
      λ k. record { killed = k == 0; nd = 1 ∷ []; nb = outer 1 ∷ []; regnum = 1; neighb = true };
  nd_of = λ k. record { killed = k == 0; pt = 1 };
  pt_of = λ k. record { killed = k == 0; nd = 1 ∷ [] };
  reg_of = λ k. k == 0;
  tris = λ k l. refl;
  nds = λ k l. refl;
  pts = λ k l. refl;
  regs = λ k l. refl;
  tri_nd = λ k l d. (omega arith, refl, tt);
  tri_reg = λ k l d. (omega arith, refl);
  nd_pt = λ k l d. (omega arith, refl);
  pt_nd = λ k l d. (omega arith, refl, tt);
}

waste-IsRenumbered_example :
    (g' : Grid) × (waste pair ≡ some g') × IsRenumbered pair pair-IsConsistent g'
waste-IsRenumbered_example = waste-IsRenumbered pair pair-IsConsistent

-- Four points with one node each, and two triangles of the materials 3 and 1.
abbrev square : Db
square = record {
  np = 4;
  nn = 4;
  ne = 2;
  pt_nn = λ p. 7;
  pt_nd = λ p i. 9;
  is_surf = λ p. p == 0;
  is_back = λ p. p == 3;
  nd = λ n. record { pt = n; mater = 3; ltri = empty_list; edg = empty_list; nd2tri = false };
  mat_tri = λ t. if t == 0 then 3 else 1;
  vert = λ t. if t == 0 then 0 ∷ 1 ∷ 2 ∷ [] else 1 ∷ 2 ∷ 3 ∷ [];
  nd2tri_dirty = false;
  nd2edg_dirty = false;
}

make_nodes-HasNodes_example : HasNodes (make_nodes square) 1 (chosen (wanted square 1) max_mat 0)
make_nodes-HasNodes_example = make_nodes-HasNodes square 1 (omega arith)

square_small : length (triangles_of (λ t. false) square.vert 1 square.ne 0) ≤ 32758
unfolding triangles_of
square_small = omega arith

node_to_tri-Represents_example :
    Represents
      ((node_to_tri (λ t. false) square).nd 1).ltri
      (triangles_of (λ t. false) square.vert 1 square.ne 0)
node_to_tri-Represents_example =
    node_to_tri-Represents (λ t. false) square 1 (omega arith) square_small
