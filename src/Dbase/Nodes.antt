-- ===== src/Dbase/Nodes.antt =====
-- dbase/node.c: the nodes at the points of the mesh; pt_to_node of dbase/point.c.
pub mod Made
pub mod Materials
pub mod Buckets
use tcad_webapp.Prelude.{
  ℕ, zero, suc, ◌+◌, Bool, true, false, not, ◌||◌, ◌&&◌, List, [], ◌∷◌, ◌==◌, ltb, if◌then◌else◌,
}
use tcad_webapp.Dbase.Impurity.{update}
use tcad_webapp.Dbase.ListStr.{ListStr, add_list, dis_list}

-- `struct nd_str`; `nd2tri` is the flag ND2TRI. The step and the time of its creation are left out.
pub record NdStr : Type 0 where
  pub pt : ℕ
  pub mater : ℕ
  pub ltri : ListStr
  pub edg : ListStr
  pub nd2tri : Bool

-- The points, nodes and triangles. `pt_nn p` and `pt_nd p i` are `pt[p]->nn` and `pt[p]->nd[i]`;
-- `vert t` are the vertices of a triangle, which are points before make_nodes is called.
pub record Db : Type 0 where
  pub np : ℕ
  pub nn : ℕ
  pub ne : ℕ
  pub pt_nn : ℕ → ℕ
  pub pt_nd : ℕ → ℕ → ℕ
  pub is_surf : ℕ → Bool
  pub is_back : ℕ → Bool
  pub nd : ℕ → NdStr
  pub mat_tri : ℕ → ℕ
  pub vert : ℕ → List ℕ
  pub nd2tri_dirty : Bool
  pub nd2edg_dirty : Bool

abbrev pub max_mat : ℕ
max_mat = 10

abbrev pub gas : ℕ
gas = 0

abbrev pub empty_list : ListStr
empty_list = record { num = 0; all = 0; list = [] }

abbrev pub set_nd : (ℕ → ℕ → ℕ) → ℕ → ℕ → ℕ → ℕ → ℕ → ℕ
set_nd f p i v q j = if q == p && j == i then v else f q j

-- `add_nd_pt(p, n)`.
abbrev pub add_nd_pt : ℕ → ℕ → Db → Db
add_nd_pt p n g = record g {
  pt_nd = set_nd g.pt_nd p (g.pt_nn p) n;
  pt_nn = update g.pt_nn p (suc (g.pt_nn p));
}

-- alloc_nd and mk_nd: a node of point `p` and material `m`; the solution values are left out.
unfoldable pub mk_nd : ℕ → ℕ → Db → Db
mk_nd p m g = add_nd_pt p g.nn (record g {
  nd =
      update g.nd g.nn
        (record { pt = p; mater = m; ltri = empty_list; edg = empty_list; nd2tri = false });
  nn = suc g.nn;
  nd2tri_dirty = true;
  nd2edg_dirty = true;
})

-- Pass 0 over the entries: `n` points from `p` on; the inner loop sets those below MAXMAT.
unfoldable pub clear_marks : Db → ℕ → ℕ → (ℕ → ℕ → ℕ) → ℕ → ℕ → ℕ
clear_marks g zero p nd = nd
clear_marks g (suc n) p nd = clear_marks g n (suc p) (λ q j.
    if q == p && ltb j max_mat
    then (if j == gas && (g.is_surf p || g.is_back p) then 1 else 0)
    else nd q j)

-- Pass 1: the vertices of one triangle, and `n` triangles from `t` on.
unfoldable pub mark_points : ℕ → List ℕ → (ℕ → ℕ → ℕ) → ℕ → ℕ → ℕ
mark_points mat [] nd = nd
mark_points mat (p ∷ ps) nd = mark_points mat ps (set_nd nd p mat 1)

unfoldable pub mark_all : Db → ℕ → ℕ → (ℕ → ℕ → ℕ) → ℕ → ℕ → ℕ
unfolding mark_points
mark_all g zero t nd = nd
mark_all g (suc n) t nd = mark_all g n (suc t) (mark_points (g.mat_tri t) (g.vert t) nd)

-- Pass 2: `n` materials from `i` on at point `p`, and `n` points from `p` on.
unfoldable pub make_at : ℕ → ℕ → ℕ → Db → Db
unfolding mk_nd
make_at zero i p g = g
make_at (suc n) i p g = make_at n (suc i) p (if g.pt_nd p i == 0 then g else mk_nd p i g)

unfoldable pub make_all : ℕ → ℕ → Db → Db
unfolding make_at
make_all zero p g = g
make_all (suc n) p g =
    make_all n (suc p) (make_at max_mat 0 p (record g { pt_nn = update g.pt_nn p 0 }))

unfoldable pub make_nodes : Db → Db
unfolding clear_marks mark_all make_all
make_nodes g =
    make_all g.np 0 (record g { pt_nd = mark_all g g.ne 0 (clear_marks g g.np 0 g.pt_nd); nn = 0 })

-- `add_tri_nd(n, t)`.
abbrev pub add_tri_nd : ℕ → ℕ → (ℕ → NdStr) → ℕ → NdStr
add_tri_nd n t nd = update nd n (record (nd n) { ltri = add_list (nd n).ltri t })

unfoldable pub add_vertices : List ℕ → ℕ → (ℕ → NdStr) → ℕ → NdStr
add_vertices [] t nd = nd
add_vertices (n ∷ ns) t nd = add_vertices ns t (add_tri_nd n t nd)

-- `n` triangles from `t` on. `next_tri` passes over the triangles for which `skip` is true, but the
-- loop starts at triangle 0 whatever that is.
unfoldable pub add_triangles : (ℕ → Bool) → (ℕ → List ℕ) → ℕ → ℕ → (ℕ → NdStr) → ℕ → NdStr
unfolding add_vertices
add_triangles skip vert zero t nd = nd
add_triangles skip vert (suc n) t nd =
    add_triangles skip vert n (suc t)
      (if skip t && not (t == 0) then nd else add_vertices (vert t) t nd)

abbrev pub dis_ltri : ℕ → (ℕ → NdStr) → ℕ → NdStr
dis_ltri nn nd n = if ltb n nn then record (nd n) { ltri = dis_list (nd n).ltri } else nd n

abbrev pub flag_ltri : ℕ → (ℕ → NdStr) → ℕ → NdStr
flag_ltri nn nd n = if ltb n nn then record (nd n) { nd2tri = true } else nd n

unfoldable pub node_to_tri : (ℕ → Bool) → Db → Db
unfolding add_triangles
node_to_tri skip g = record g {
  nd = flag_ltri g.nn (add_triangles skip g.vert g.ne 0 (dis_ltri g.nn g.nd));
}

-- `n` nodes from `i` on.
unfoldable pub add_nodes : ℕ → ℕ → Db → Db
add_nodes zero i g = g
add_nodes (suc n) i g = add_nodes n (suc i) (add_nd_pt (g.nd i).pt i g)

unfoldable pub pt_to_node : Db → Db
unfolding add_nodes
pt_to_node g = add_nodes g.nn 0 (record g { pt_nn = λ p. if ltb p g.np then 0 else g.pt_nn p })
