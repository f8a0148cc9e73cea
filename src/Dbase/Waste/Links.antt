-- ===== src/Dbase/Waste/Links.antt =====
-- On a consistent mesh waste ends, and the objects that are left point at one another as before.
use tcad_webapp.Prelude.{ℕ, ◌<◌, ◌≡◌, refl, Bool, false, Option, some, List, map, arith}
use tcad_webapp.Dbase.Waste.{
  Numbered, Tri, Node, Point, Grid, renumber, renumber_links, fix_tri, fix_node, fix_point, fix_all,
  fix_up, finished, start, waste,
}
use tcad_webapp.Dbase.Waste.Compact.{IsCompacted, compact-IsCompacted}
use tcad_webapp.Dbase.Waste.Ends.{kept_from, fix_all_ends, renumber_ends, AllLive}

-- The objects of the mesh, and that the live ones only point at live ones.
pub record IsConsistent (g : Grid) : Type 0 where
  pub tri_of : ℕ → Tri
  pub nd_of : ℕ → Node
  pub pt_of : ℕ → Point
  pub reg_of : ℕ → Bool
  pub tris : (k : ℕ) → k < g.ne → g.tri k ≡ some (tri_of k)
  pub nds : (k : ℕ) → k < g.nn → g.nd k ≡ some (nd_of k)
  pub pts : (k : ℕ) → k < g.np → g.pt k ≡ some (pt_of k)
  pub regs : (k : ℕ) → k < g.nreg → g.reg k ≡ some (reg_of k)
  pub tri_nd :
      (k : ℕ)
      → k < g.ne
      → (tri_of k).killed ≡ false
      → AllLive g.nn (λ x. (nd_of x).killed) (tri_of k).nd
  pub tri_reg :
      (k : ℕ)
      → k < g.ne
      → (tri_of k).killed ≡ false
      → ((tri_of k).regnum < g.nreg) × (reg_of (tri_of k).regnum ≡ false)
  pub nd_pt :
      (k : ℕ)
      → k < g.nn
      → (nd_of k).killed ≡ false
      → ((nd_of k).pt < g.np) × ((pt_of (nd_of k).pt).killed ≡ false)
  pub pt_nd :
      (k : ℕ)
      → k < g.np
      → (pt_of k).killed ≡ false
      → AllLive g.nn (λ x. (nd_of x).killed) (pt_of k).nd

-- The mesh that is left, under new numbers of the triangles, nodes, points and regions.
pub record IsRenumbered (g : Grid) (s : IsConsistent g) (g' : Grid) : Type 0 where
  pub new_tri : ℕ → Option ℕ
  pub new_nd : ℕ → Option ℕ
  pub new_pt : ℕ → Option ℕ
  pub new_reg : ℕ → Option ℕ
  pub tris :
      (k : ℕ)
      → k < g.ne
      → (s.tri_of k).killed ≡ false
      → (m : ℕ) × (t : Tri) × (m < g'.ne)
        × (new_tri k ≡ some m)
        × (g'.tri m ≡ some t)
        × (map new_nd (s.tri_of k).nd ≡ map some t.nd)
        × (new_reg (s.tri_of k).regnum ≡ some t.regnum)
  pub nds :
      (k : ℕ)
      → k < g.nn
      → (s.nd_of k).killed ≡ false
      → (m : ℕ) × (x : Node) × (m < g'.nn)
        × (new_nd k ≡ some m)
        × (g'.nd m ≡ some x)
        × (new_pt (s.nd_of k).pt ≡ some x.pt)
  pub pts :
      (k : ℕ)
      → k < g.np
      → (s.pt_of k).killed ≡ false
      → (m : ℕ) × (x : Point) × (m < g'.np)
        × (new_pt k ≡ some m)
        × (g'.pt m ≡ some x)
        × (map new_nd (s.pt_of k).nd ≡ map some x.nd)

-- One array, removed from and fixed: each object that was not dead stands fixed at its new number.
array_ends :
    {A : Type 0} (dead : A → Bool) (obj : ℕ → A) (n : ℕ) (c : Numbered A) (fix : A → Option A)
    → IsCompacted dead obj n n c
    → ((k : ℕ) → k < n → dead (obj k) ≡ false → (y : A) × (fix (obj k) ≡ some y))
    → (arr : ℕ → Option A) × (fix_all fix c.count 0 c.at_ptr ≡ some arr)
      × ((k : ℕ) (y : A)
          → k < n
          → dead (obj k) ≡ false
          → fix (obj k) ≡ some y
          → (m : ℕ) × (m < c.count) × (c.new k ≡ some m) × (arr m ≡ some y))
array_ends dead obj n c fix s h =
    let (arr, r, low, high) = fix_all_ends fix c.count 0 c.at_ptr (λ m a b.
      let (k, l, e, f) = kept_from dead obj n c s m (omega arith) in
      let (y, q) = h k l e in (obj k, y, f, q)) in
    (
      arr,
      r,
      λ k y l e q.
          let (m, a, b, f) = s.moved k l e in
          (m, a, b, high m (obj k) y (omega arith) (omega arith) f q),
    )

new_number :
    {A : Type 0} (dead : A → Bool) (obj : ℕ → A) (n : ℕ) (c : Numbered A)
    → IsCompacted dead obj n n c
    → (k : ℕ) → k < n
    → dead (obj k) ≡ false
    → (m : ℕ) × (c.new k ≡ some m)
new_number dead obj n c s k l e = let (m, a, b, f) = s.moved k l e in (m, b)

fix_tri_ends :
    (new_nd new_tri new_reg : ℕ → Option ℕ) (t : Tri) (ns : List ℕ) (q : ℕ)
    → renumber new_nd t.nd ≡ some ns
    → new_reg t.regnum ≡ some q
    → (t' : Tri) × (fix_tri new_nd new_tri new_reg t ≡ some t') × (t'.nd ≡ ns) × (t'.regnum ≡ q)
unfolding fix_tri
fix_tri_ends new_nd new_tri new_reg t ns q e f = (
  record t {
    nd = ns;
    nb = (renumber_links new_tri t.nb t.neighb).0;
    regnum = q;
    neighb = (renumber_links new_tri t.nb t.neighb).1;
  },
  rw (fix_tri, e, f) refl,
  refl,
  refl,
)

-- Each fix of a live object ends.
module _ (g : Grid) (s : IsConsistent g) (e : Numbered Tri) (n : Numbered Node) (p : Numbered Point)
    (r : Numbered Bool) (se : IsCompacted (λ t. t.killed) s.tri_of g.ne g.ne e)
    (sn : IsCompacted (λ x. x.killed) s.nd_of g.nn g.nn n)
    (sp : IsCompacted (λ x. x.killed) s.pt_of g.np g.np p)
    (sr : IsCompacted (λ x. x) s.reg_of g.nreg g.nreg r) where
  tri_ends :
      (k : ℕ)
      → k < g.ne
      → (s.tri_of k).killed ≡ false
      → (t : Tri) × (fix_tri n.new e.new r.new (s.tri_of k) ≡ some t)
        × (map n.new (s.tri_of k).nd ≡ map some t.nd)
        × (r.new (s.tri_of k).regnum ≡ some t.regnum)
  tri_ends k l d =
      let (ns, f, q) =
        renumber_ends g.nn (λ x. (s.nd_of x).killed) n.new (s.tri_of k).nd
          (new_number (λ x. x.killed) s.nd_of g.nn n sn) (s.tri_nd k l d) in
      let (a, b) = s.tri_reg k l d in
      let (m, h) = new_number (λ x. x) s.reg_of g.nreg r sr (s.tri_of k).regnum a b in
      let (t, c, u, v) = fix_tri_ends n.new e.new r.new (s.tri_of k) ns m f h in
      (t, c, cc (q, u), cc (h, v))

  nd_ends :
      (k : ℕ)
      → k < g.nn
      → (s.nd_of k).killed ≡ false
      → (x : Node) × (fix_node p.new (s.nd_of k) ≡ some x) × (p.new (s.nd_of k).pt ≡ some x.pt)
  unfolding fix_node
  nd_ends k l d =
      let (a, b) = s.nd_pt k l d in
      let (m, h) = new_number (λ x. x.killed) s.pt_of g.np p sp (s.nd_of k).pt a b in
      (record (s.nd_of k) { pt = m }, rw (fix_node, h) refl, h)

  pt_ends :
      (k : ℕ)
      → k < g.np
      → (s.pt_of k).killed ≡ false
      → (x : Point) × (fix_point n.new (s.pt_of k) ≡ some x)
        × (map n.new (s.pt_of k).nd ≡ map some x.nd)
  unfolding fix_point
  pt_ends k l d =
      let (ns, f, q) =
        renumber_ends g.nn (λ x. (s.nd_of x).killed) n.new (s.pt_of k).nd
          (new_number (λ x. x.killed) s.nd_of g.nn n sn) (s.pt_nd k l d) in
      (record (s.pt_of k) { nd = ns }, rw (fix_point, f) refl, q)

  fix_up-IsRenumbered : (g' : Grid) × (fix_up g e n p r ≡ some g') × IsRenumbered g s g'
  unfolding fix_up
  fix_up-IsRenumbered =
      let (tri, rt, ht) =
        array_ends (λ t. t.killed) s.tri_of g.ne e (fix_tri n.new e.new r.new) se
          (λ k l d. let (t, c, u, v) = tri_ends k l d in (t, c)) in
      let (nd, rn, hn) =
        array_ends (λ x. x.killed) s.nd_of g.nn n (fix_node p.new) sn
          (λ k l d. let (x, c, u) = nd_ends k l d in (x, c)) in
      let (pt, rp, hp) =
        array_ends (λ x. x.killed) s.pt_of g.np p (fix_point n.new) sp
          (λ k l d. let (x, c, u) = pt_ends k l d in (x, c)) in
      (
        finished g e n p r tri nd pt,
        rw (fix_up, rt, rn, rp) refl,
        record {
          new_tri = e.new;
          new_nd = n.new;
          new_pt = p.new;
          new_reg = r.new;
          tris = λ k l d.
              let (t, c, u, v) = tri_ends k l d in
              let (m, a, b, h) = ht k t l d c in (m, t, a, b, h, u, v);
          nds = λ k l d.
              let (x, c, u) = nd_ends k l d in
              let (m, a, b, h) = hn k x l d c in (m, x, a, b, h, u);
          pts = λ k l d.
              let (x, c, u) = pt_ends k l d in
              let (m, a, b, h) = hp k x l d c in (m, x, a, b, h, u);
        },
      )

-- Where every live triangle, node and point refers to live objects of the mesh only, waste ends with
-- no panic and no null pointer read; each live object stands under a new number below the new count,
-- and its nodes, point and region are the old ones under their new numbers.
pub waste-IsRenumbered :
    (g : Grid) (s : IsConsistent g) → (g' : Grid) × (waste g ≡ some g') × IsRenumbered g s g'
unfolding waste
waste-IsRenumbered g s =
    let (e, re, se) = compact-IsCompacted (λ t. t.killed) s.tri_of g.ne (start g.tri) refl s.tris in
    let (n, rn, sn) = compact-IsCompacted (λ x. x.killed) s.nd_of g.nn (start g.nd) refl s.nds in
    let (p, rp, sp) = compact-IsCompacted (λ x. x.killed) s.pt_of g.np (start g.pt) refl s.pts in
    let (r, rr, sr) = compact-IsCompacted (λ x. x) s.reg_of g.nreg (start g.reg) refl s.regs in
    let (g', rg, h) = fix_up-IsRenumbered g s e n p r se sn sp sr in
    (g', rw (waste, re, rn, rp, rr) rg, h)
