-- ===== src/Expr/Vector.antt =====
-- check/vector.c: get_solval, and the arrays of eval_vec of check/eval.c. An array has an entry for each node,
-- which is `none` where nothing was written; a read of such an entry is `undefined`.
pub mod Rough
pub mod Run
pub mod Points
pub mod Kernels
pub mod Values
pub mod Pointwise
pub mod Unread
mod Tests
use tcad_webapp.Prelude.{
  ℕ, suc, Bool, true, false, not, ◌||◌, ◌&&◌, Option, none, some, List, [], ◌∷◌, map, get_elem?,
  ◌==◌, if◌then◌else◌,
}
use tcad_webapp.Expr.Token.{
  Ival, above, below, Label, op1, op2, op3, fn, vfn, solval, rconst, string, VecStr, null, node,
}
use tcad_webapp.Expr.Eval.{Reals, is_null}

-- `nd[i]`: its solution values, and the coordinates of its point.
pub record SolNode (F : Type 0) : Type 0 where
  pub sol : List F
  pub x : F
  pub y : F

-- The `nn` nodes and the table `imptosol`, in which -1 is `none`.
pub record Fields (F : Type 0) : Type 0 where
  pub nodes : List (SolNode F)
  pub imptosol : ℕ → Option ℕ

pub data VecError : Type 0 where
  two_arguments string_value not_available not_impurity : VecError

-- NULL and the array, a message, or undefined behaviour.
pub data VecResult (F : Type 0) : Type 0 where
  stored : List (Option F) → VecResult F
  refused : VecError → VecResult F
  undefined : VecResult F

-- An edge of a node: the node at its other end, `cpl_edg` and `len_edg`.
pub record Edge (F : Type 0) : Type 0 where
  pub other : ℕ
  pub cpl : F
  pub len : F

-- `>` of two floats, the edges of the nodes, what `cord[which]` reads of the point of a node (3 and
-- 4 lie behind its MAXDIM entries, in the initial coordinates), read_data with the column (2 where none is given) and what is in
-- the array, init_pseudo with comp_mat, and the values that the physical models give.
pub record VectorOps (F : Type 0) : Type 0 where
  pub greater : F → F → Bool
  pub edges : ℕ → List (Edge F)
  pub cord : ℕ → ℕ → F
  pub read_data : List ℕ → Option F → List (Option F) → List (Option F)
  pub pseudo : Fields F → Fields F
  pub derived : Ival → Fields F → SolNode F → F

module _ {F : Type 0} where
  abbrev pub vec_then : VecResult F → (List (Option F) → VecResult F) → VecResult F
  vec_then (stored a) k = k a
  vec_then (refused e) k = refused e
  vec_then undefined k = undefined

  abbrev pub put_entry : Option F → VecResult F → VecResult F
  put_entry v r = vec_then r (λ a. stored (v ∷ a))

  -- `for(i = 0; i < nn; i++) val[i] = f(rval[i]);`.
  unfoldable pub each_entry : (F → F) → List (Option F) → VecResult F
  each_entry f [] = stored []
  each_entry f (none ∷ a) = undefined
  each_entry f (some v ∷ a) = put_entry (some (f v)) (each_entry f a)

  unfoldable pub each_pair : (F → F → F) → List (Option F) → List (Option F) → VecResult F
  each_pair f (some v ∷ a) (some w ∷ b) = put_entry (some (f v w)) (each_pair f a b)
  each_pair f (none ∷ a) (w ∷ b) = undefined
  each_pair f (some v ∷ a) (none ∷ b) = undefined
  each_pair f [] b = stored []
  each_pair f (v ∷ a) [] = stored []

  -- An array from `malloc`.
  abbrev pub fresh_array : List (SolNode F) → List (Option F)
  fresh_array nodes = map (λ n. none) nodes

  -- The entries, all of which are read.
  unfoldable pub read_all : List (Option F) → Option (List F)
  read_all [] = some []
  read_all (none ∷ a) = none
  read_all (some v ∷ a) = elim (read_all a) [ none ↦ none | some vs ↦ some (v ∷ vs) ]

  -- `for(i = 0; i < nn; i++) val[ i ] = sol_nd(i, index);`, where -1 and what lies behind the end of
  -- `sol` are no index.
  unfoldable pub copy_sol : Option ℕ → List (SolNode F) → VecResult F
  copy_sol index [] = stored []
  copy_sol none (n ∷ ns) = undefined
  copy_sol (some s) (n ∷ ns) = elim (get_elem? n.sol s) [
    | none ↦ undefined
    | some v ↦ put_entry (some v) (copy_sol (some s) ns)
  ]

  abbrev pub copy_available : Option ℕ → List (SolNode F) → VecResult F
  copy_available none nodes = refused not_available
  copy_available (some s) nodes = copy_sol (some s) nodes

-- The result with the nodes and the table as they are afterwards.
abbrev pub Stateful : Type 0 → Type 0
Stateful F = VecResult F × Fields F

abbrev pub run_then :
    {F : Type 0} → Stateful F → (List (Option F) → Fields F → Stateful F) → Stateful F
run_then (stored a, s) k = k a s
run_then (refused e, s) k = (refused e, s)
run_then (undefined, s) k = (undefined, s)

-- The impurities whose solution is copied: arsenic, boron and so on.
abbrev pub stored_kinds : List ℕ
stored_kinds =
    2 ∷ 5 ∷ 25 ∷ 4 ∷ 3 ∷ 8 ∷ 9 ∷ 12 ∷ 13 ∷ 15 ∷ 16 ∷ 17 ∷ 18 ∷ 24 ∷ 31 ∷ 33 ∷ 35 ∷ 37 ∷ 39 ∷ 41 ∷ 43
    ∷ 45 ∷ 47 ∷ []

unfoldable pub one_of : List ℕ → ℕ → Bool
one_of [] n = false
one_of (k ∷ ks) n = k == n || one_of ks n

-- The impurity whose solution is the active portion.
abbrev pub active_of : Ival → Option ℕ
active_of (below n) = none
active_of (above n) =
    if n == 2
    then some 20
    else if n == 4
    then some 22
    else if n == 3
    then some 21
    else if n == 5
    then some 23
    else if one_of (31 ∷ 33 ∷ 35 ∷ 37 ∷ 39 ∷ 41 ∷ 43 ∷ 45 ∷ 47 ∷ []) n
    then some (suc n)
    else none

module _ (r : Reals) (v : VectorOps r.F) where
  open r use {F}

  abbrev pub all_entries : (SolNode F → F) → List (SolNode F) → List (Option F)
  all_entries f nodes = map (λ n. some (f n)) nodes

  -- What a physical model gives, where it is computed after init_pseudo and comp_mat or not.
  abbrev pub derived_values : Ival → Bool → Fields F → Stateful F
  derived_values i refresh s =
      let s' = if refresh then v.pseudo s else s in
      (stored (all_entries (v.derived i s') s'.nodes), s')

  abbrev pub carrier : ℕ → Option ℕ → Fields F → Stateful F
  carrier n none s = derived_values (above n) true s
  carrier n (some k) s = (copy_sol (some k) s.nodes, s)

  abbrev pub refreshed : ℕ → Fields F → Stateful F
  refreshed n s = (copy_available (s.imptosol n) s.nodes, s)

  -- O2 is 10 and H2O is 11.
  abbrev pub oxidant : (ℕ → Option ℕ) → Option ℕ
  oxidant imptosol = elim (imptosol 10) [ none ↦ imptosol 11 | some k ↦ some k ]

  unfoldable pub get_solval : Ival → Fields F → Stateful F
  unfolding copy_sol one_of
  get_solval (above n) s =
      if one_of stored_kinds n
      then (copy_available (s.imptosol n) s.nodes, s)
      else if n == 0 || n == 1 || n == 14
      then refreshed n (v.pseudo s)
      else if n == 6 || n == 7
      then carrier n (s.imptosol n) s
      else (stored (all_entries (λ n. r.zero_value) s.nodes), s)
  get_solval (below n) s =
      if n == 3
      then (copy_available (oxidant s.imptosol) s.nodes, s)
      else if n == 6 || n == 7
      then derived_values (below n) true s
      else if one_of (5 ∷ 10 ∷ 11 ∷ 12 ∷ 13 ∷ []) n
      then derived_values (below n) false s
      else if n == 1
      then (stored (all_entries (λ n. n.x) s.nodes), s)
      else if n == 2
      then (stored (all_entries (λ n. n.y) s.nodes), s)
      else (stored (all_entries (λ n. r.zero_value) s.nodes), s)
