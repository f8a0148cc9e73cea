-- ===== src/Geom/Tests.antt =====
-- Two triangles that share the edge between the points 1 and 2.
use tcad_webapp.Prelude.{true, false, [], ◌∷◌, ◌==◌, if◌then◌else◌, arith}
use tcad_webapp.Dbase.Nodes.{Db, empty_list}
use tcad_webapp.Geom.{tnabor, corner}
use tcad_webapp.Geom.Edge.{Describes, tnabor-Describes}

abbrev pair : Db
pair = record {
  np = 4;
  nn = 4;
  ne = 2;
  pt_nn = λ p. 1;
  pt_nd = λ p i. p;
  is_surf = λ p. false;
  is_back = λ p. false;
  nd = λ n. record { pt = n; mater = 3; ltri = empty_list; edg = empty_list; nd2tri = false };
  mat_tri = λ t. 3;
  vert = λ t. if t == 0 then 0 ∷ 1 ∷ 2 ∷ [] else 1 ∷ 2 ∷ 3 ∷ [];
  nd2tri_dirty = false;
  nd2edg_dirty = false;
}

tnabor-Describes_example : Describes (corner pair 0) (corner pair 1) (tnabor true pair 0 1)
tnabor-Describes_example =
    tnabor-Describes pair 0 1 (λ e. omega (arith, e), λ e. omega (arith, e), λ e. omega (arith, e))
      (λ e. omega (arith, e), λ e. omega (arith, e), λ e. omega (arith, e))
