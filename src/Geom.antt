-- ===== src/Geom.antt =====
-- geom/tnabor.c: whether two triangles share an edge, in two dimensions and in one.
pub mod Corner
pub mod Edge
mod Tests
use tcad_webapp.Prelude.{
  ℕ, ◌+◌, ◌-◌, Bool, true, false, ◌||◌, Option, none, some, List, [], ◌∷◌, ◌++◌, get_or, ◌==◌, ltb,
  if◌then◌else◌,
}
use tcad_webapp.Dbase.Nodes.{Db, NdStr}

-- What tnabor returns: FALSE, or TRUE with `*ke` and `*kn`, which are `none` below zero; or a write
-- outside of `a[2][2]`.
pub data Neighbor : Type 0 where
  apart overrun : Neighbor
  shares : Option ℕ → Option ℕ → Neighbor

-- `nd[ tri[ t]->nd[ k]]->pt`.
abbrev pub corner : Db → ℕ → ℕ → ℕ
corner g t k = (g.nd (get_or (g.vert t) k 0)).pt

-- One test, and the three for a corner `i` with the point `p`.
abbrev pub note : Bool → ℕ → ℕ → List (ℕ × ℕ)
note b i j = if b then (i, j) ∷ [] else []

abbrev pub row : ℕ → ℕ → (ℕ → ℕ) → List (ℕ × ℕ)
row p i q = note (p == q 0) i 0 ++ (note (p == q 1) i 1 ++ note (p == q 2) i 2)

-- `3 - i - j`.
abbrev pub third : ℕ → ℕ → Option ℕ
third i j = if ltb 3 (i + j) then none else some (3 - (i + j))

abbrev pub decide : List (ℕ × ℕ) → Neighbor
decide [] = apart
decide (x ∷ []) = apart
decide (x ∷ y ∷ []) = shares (third x.0 y.0) (third x.1 y.1)
decide (x ∷ y ∷ z ∷ l) = overrun

-- The case TWOD, over the points of the corners.
unfoldable pub match_corners : (ℕ → ℕ) → (ℕ → ℕ) → Neighbor
match_corners p q = decide (row (p 0) 0 q ++ (row (p 1) 1 q ++ row (p 2) 2 q))

-- The case ONED.
unfoldable pub match_ends : (ℕ → ℕ) → (ℕ → ℕ) → Neighbor
match_ends p q =
    if p 1 == q 1
    then shares (some 0) (some 0)
    else if p 1 == q 0
    then shares (some 0) (some 1)
    else if p 0 == q 1
    then shares (some 1) (some 0)
    else if p 0 == q 0
    then shares (some 1) (some 1)
    else apart

unfoldable pub tnabor : Bool → Db → ℕ → ℕ → Neighbor
unfolding match_corners match_ends
tnabor two_dimensions g ie in_ =
    if two_dimensions
    then match_corners (corner g ie) (corner g in_)
    else match_ends (corner g ie) (corner g in_)
