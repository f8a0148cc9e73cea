-- ===== src/Dbase/Waste.antt =====
-- dbase/dispose.c: waste, which removes the dead objects and renumbers what is left.
pub mod Compact
pub mod Ends
pub mod Links
use mathlib.Core.Option
use tcad_webapp.Prelude.{
  ℕ, zero, suc, ◌+◌, Bool, true, false, Option, none, some, List, [], ◌∷◌, ◌==◌, not, ◌&&◌,
  if◌then◌else◌,
}
use tcad_webapp.Dbase.Impurity.{update}

-- An array of pointers with its new count, and the array of new numbers; -1 and NULL are `none`, and so
-- is what lies outside of an array.
pub record Numbered (A : Type 0) : Type 0 where
  pub count : ℕ
  pub new : ℕ → Option ℕ
  pub at_ptr : ℕ → Option A

module _ {A : Type 0} (dead : A → Bool) where
  -- One turn: the object is freed, or moved to the next free place.
  unfoldable pub keep : ℕ → A → Numbered A → Numbered A
  keep i x c =
      if dead x
      then record c { new = update c.new i none; at_ptr = update c.at_ptr i none }
      else record c {
        new = update c.new i (some c.count);
        at_ptr = update (update c.at_ptr i none) c.count (some x);
        count = suc c.count;
      }

  -- `n` turns from index `i` on; `none` is a read through a null pointer.
  unfoldable pub compact : ℕ → ℕ → Numbered A → Option (Numbered A)
  unfolding keep
  compact zero i c = some c
  compact (suc n) i c = elim (c.at_ptr i) [ none ↦ none | some x ↦ compact n (suc i) (keep i x c) ]

-- A neighbour: a triangle, or -(n + 1) for a boundary.
pub data Link : Type 0 where
  inner outer : ℕ → Link

-- What waste reads and writes of the objects; `neighb` and `killed` are the flags NEIGHB and
-- KILL_ME. A region only has the latter.
pub record Tri : Type 0 where
  pub killed : Bool
  pub nd : List ℕ
  pub nb : List Link
  pub regnum : ℕ
  pub neighb : Bool

pub record Node : Type 0 where
  pub killed : Bool
  pub pt : ℕ

pub record Point : Type 0 where
  pub killed : Bool
  pub nd : List ℕ

-- `nb[j] > 0`: the neighbour 0 is left as it is.
unfoldable pub renumber_link : (ℕ → Option ℕ) → Link → Bool → Link × Bool
renumber_link new_tri (outer n) flag = (outer n, flag)
renumber_link new_tri (inner zero) flag = (inner zero, flag)
renumber_link new_tri (inner (suc n)) flag = elim (new_tri (suc n)) [
  | none ↦ (outer 0, false)
  | some k ↦ (inner k, flag)
]

unfoldable pub renumber_links : (ℕ → Option ℕ) → List Link → Bool → List Link × Bool
unfolding renumber_link
renumber_links new_tri [] flag = ([], flag)
renumber_links new_tri (l ∷ ls) flag =
    let (l', flag') = renumber_link new_tri l flag in
    let (ls', flag'') = renumber_links new_tri ls flag' in (l' ∷ ls', flag'')

-- `none` is the panic on a pointer to a dead object.
unfoldable pub renumber : (ℕ → Option ℕ) → List ℕ → Option (List ℕ)
renumber new [] = some []
renumber new (x ∷ xs) = elim (new x) [
  | none ↦ none
  | some k ↦ Option.map (λ ys. k ∷ ys) (renumber new xs)
]

unfoldable pub fix_tri : (new_nd new_tri new_reg : ℕ → Option ℕ) → Tri → Option Tri
unfolding renumber renumber_links
fix_tri new_nd new_tri new_reg t = elim (renumber new_nd t.nd) [
  | none ↦ none
  | some nd ↦
      let (nb, flag) = renumber_links new_tri t.nb t.neighb in
      Option.map (λ r. record t { nd = nd; nb = nb; regnum = r; neighb = flag }) (new_reg t.regnum)
]

unfoldable pub fix_node : (ℕ → Option ℕ) → Node → Option Node
fix_node new_pt x = Option.map (λ p. record x { pt = p }) (new_pt x.pt)

unfoldable pub fix_point : (ℕ → Option ℕ) → Point → Option Point
unfolding renumber
fix_point new_nd x = Option.map (λ ns. record x { nd = ns }) (renumber new_nd x.nd)

-- A loop over the objects that are left, `n` turns from index `i` on.
unfoldable pub fix_all :
    {A : Type 0} → (A → Option A) → ℕ → ℕ → (ℕ → Option A) → Option (ℕ → Option A)
fix_all fix zero i arr = some arr
fix_all fix (suc n) i arr = elim (arr i) [
  | none ↦ none
  | some x ↦ elim (fix x) [ none ↦ none | some y ↦ fix_all fix n (suc i) (update arr i (some y)) ]
]

-- The counts and arrays of the mesh.
pub record Grid : Type 0 where
  pub ne : ℕ
  pub nn : ℕ
  pub np : ℕ
  pub nreg : ℕ
  pub tri : ℕ → Option Tri
  pub nd : ℕ → Option Node
  pub pt : ℕ → Option Point
  pub reg : ℕ → Option Bool
  pub need_waste : Bool
  pub neigh_dirty : Bool

-- The arrays of new numbers start as what `malloc` left, which is not read before it is written.
abbrev pub start : {A : Type 0} → (ℕ → Option A) → Numbered A
start arr = record { count = 0; new = λ k. none; at_ptr = arr }

abbrev pub finished :
    Grid
    → Numbered Tri
    → Numbered Node
    → Numbered Point
    → Numbered Bool
    → (ℕ → Option Tri)
    → (ℕ → Option Node)
    → (ℕ → Option Point)
    → Grid
finished g e n p r tri nd pt = record {
  ne = e.count;
  nn = n.count;
  np = p.count;
  nreg = r.count;
  tri = tri;
  nd = nd;
  pt = pt;
  reg = r.at_ptr;
  need_waste = false;
  neigh_dirty = if e.count == 0 then g.neigh_dirty else true;
}

-- The four removals, and then the pointers; `none` is a panic or a read through a null pointer.
unfoldable pub fix_up :
    Grid → Numbered Tri → Numbered Node → Numbered Point → Numbered Bool → Option Grid
unfolding fix_tri fix_node fix_point fix_all
fix_up g e n p r = elim (fix_all (fix_tri n.new e.new r.new) e.count 0 e.at_ptr) [
  | none ↦ none
  | some tri ↦ elim (fix_all (fix_node p.new) n.count 0 n.at_ptr) [
    | none ↦ none
    | some nd ↦
        Option.map (finished g e n p r tri nd) (fix_all (fix_point n.new) p.count 0 p.at_ptr)
  ]
]

unfoldable pub waste : Grid → Option Grid
unfolding compact fix_up
waste g = elim (compact (λ t. t.killed) g.ne 0 (start g.tri)) [
  | none ↦ none
  | some e ↦ elim (compact (λ x. x.killed) g.nn 0 (start g.nd)) [
    | none ↦ none
    | some n ↦ elim (compact (λ x. x.killed) g.np 0 (start g.pt)) [
      | none ↦ none
      | some p ↦ elim (compact (λ x. x) g.nreg 0 (start g.reg)) [
        | none ↦ none
        | some r ↦ fix_up g e n p r
      ]
    ]
  ]
]

-- `ne != 0 && np != 0 && nn != 0`.
unfoldable pub mesh_valid : Grid → Bool
mesh_valid g = not (g.ne == 0) && (not (g.np == 0) && not (g.nn == 0))

unfoldable pub mesh_invalidate : Grid → Grid
mesh_invalidate g = record g { ne = 0; np = 0; nn = 0 }
