-- ===== src/Dbase/Remove.antt =====
-- dbase/remove.c: rem_1nd, which removes a node, with sub_nd_pt of dbase/list.c.
pub mod Homed
pub mod Removed
pub mod Taken
mod Tests
use tcad_webapp.Prelude.{
  ℕ, zero, suc, Bool, true, false, ◌&&◌, not, Option, none, some, List, [], ◌∷◌, length, ◌==◌, ltb,
  if◌then◌else◌,
}
use tcad_webapp.Dbase.ListStr.Items.{contains, erase}
use tcad_webapp.Dbase.Impurity.{update}
use tcad_webapp.Dbase.Nodes.{gas, max_mat}

-- What rem_1nd reads and writes of nodes and points; `killed` is the flag KILL_ME.
pub record NodePart : Type 0 where
  pub killed : Bool
  pub pt : ℕ
  pub mater : ℕ

pub record PointPart : Type 0 where
  pub killed : Bool
  pub nd : List ℕ

pub record Places : Type 0 where
  pub nd : ℕ → NodePart
  pub pt : ℕ → PointPart
  pub need_waste : Bool

-- The nodes of the point that are left; `none` is the panic of sub_nd_pt on a node that the point has
-- not got, or its read past the end of a full array.
unfoldable pub take_out : ℕ → List ℕ → Option (List ℕ)
unfolding contains erase
take_out n xs = if contains n xs && ltb (length xs) max_mat then some (erase n xs) else none

abbrev pub set_nodes : ℕ → List ℕ → Places → Places
set_nodes p xs m = record m { pt = update m.pt p (record { killed = (m.pt p).killed; nd = xs }) }

-- `fing_nd` and `fing_pt`.
abbrev pub kill_nd : ℕ → Places → Places
kill_nd n m = record m {
  nd = update m.nd n (record { killed = true; pt = (m.nd n).pt; mater = (m.nd n).mater });
  need_waste = true;
}

abbrev pub kill_pt : ℕ → Places → Places
kill_pt p m = record m {
  pt = update m.pt p (record { killed = true; nd = (m.pt p).nd });
  need_waste = true;
}

-- Where no node is left, or only one of gas; `rem` is rem_1nd.
abbrev pub clear_point : (ℕ → Places → Option Places) → ℕ → List ℕ → Places → Option Places
clear_point rem p [] m = some (kill_pt p m)
clear_point rem p (n1 ∷ []) m = if (m.nd n1).mater == gas then rem n1 m else some m
clear_point rem p (n1 ∷ n2 ∷ ns) m = some m

-- Where `xs` is left of the nodes of the point.
abbrev pub leave : (ℕ → Places → Option Places) → ℕ → ℕ → Option (List ℕ) → Places → Option Places
leave rem n p none m = none
leave rem n p (some xs) m = clear_point rem p xs (kill_nd n (set_nodes p xs m))

-- `depth` bounds how often rem_1nd calls itself.
unfoldable pub rem_within : ℕ → ℕ → Places → Option Places
unfolding take_out
rem_within zero n m = none
rem_within (suc depth) n m =
    let rest = leave (rem_within depth) n (m.nd n).pt (take_out n (m.pt (m.nd n).pt).nd) m in
    if (m.nd n).killed then some m else rest

-- A node of gas that was left alone leaves no node behind.
unfoldable pub rem_1nd : ℕ → Places → Option Places
unfolding rem_within
rem_1nd n m = rem_within 2 n m
