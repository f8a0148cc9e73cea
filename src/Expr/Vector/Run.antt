-- ===== src/Expr/Vector/Run.antt =====
-- check/eval.c: eval_vec; check/vector.c: vfunc.
use tcad_webapp.Prelude.{
  Bool, ◌||◌, Option, none, some, List, [], ◌∷◌, map, length, ◌==◌, if◌then◌else◌,
}
use tcad_webapp.Expr.Token.{
  Ival, above, below, Label, op1, op2, op3, fn, vfn, solval, rconst, string, VecStr, null, node,
}
use tcad_webapp.Expr.Vector.Rough.{rough_from}
use tcad_webapp.Expr.Eval.{Reals, is_null}
use tcad_webapp.Expr.Vector.{
  SolNode, Fields, VectorOps, VecResult, stored, refused, undefined, two_arguments, string_value,
  not_impurity, vec_then, each_entry, each_pair, fresh_array, read_all, copy_sol, Stateful,
  run_then, active_of, all_entries, get_solval,
}

-- The subscript of a vector function, whose arguments are not evaluated.
abbrev pub vfn_of : {F : Type 0} → Label F → Option Ival
vfn_of (vfn i) = some i
vfn_of _ = none

abbrev pub solval_of : {F : Type 0} → Label F → Option Ival
solval_of (solval i) = some i
solval_of _ = none

module _ (r : Reals) (v : VectorOps r.F) where
  open r use {F, neg, is_pos, is_neg}

  abbrev pub magnitude : F → F
  magnitude x = if is_neg x then neg x else x

  -- The greatest magnitude, from `cmax` on.
  unfoldable pub greatest : F → List F → F
  greatest cmax [] = cmax
  greatest cmax (x ∷ xs) = greatest (if v.greater (magnitude x) cmax then magnitude x else cmax) xs

  abbrev pub scaled : F → List F → List F
  scaled cmax xs = if is_pos cmax || is_neg cmax then map (λ x. r.div x cmax) xs else xs

  abbrev pub of_all : Option (List F) → (List F → List F) → VecResult F
  of_all none f = undefined
  of_all (some xs) f = stored (map (λ x. some x) (f xs))

  -- The active portion of the solution value that the argument names.
  abbrev pub active : VecStr F → Fields F → VecResult F
  active null s = undefined
  active (node (solval i) a b) s = elim (active_of i) [
    | none ↦ refused not_impurity
    | some imp ↦ copy_sol (s.imptosol imp) s.nodes
  ]
  active (node _ a b) s = refused not_impurity

  -- The file of one or two arguments; the other cases print a message and leave `val`.
  abbrev pub file_column : Option (Label F) → Option (Label F) → List (Option F) → VecResult F
  file_column none none val = undefined
  file_column none (some (string name)) val = stored (v.read_data name none val)
  file_column none (some l) val = stored val
  file_column (some (string name)) none val = undefined
  file_column (some (string name)) (some (rconst x)) val = stored (v.read_data name (some x) val)
  file_column (some (string name)) (some l) val = stored val
  file_column (some l) right val = stored val

  abbrev pub label_of : VecStr F → Option (Label F)
  label_of null = none
  label_of (node l a b) = some l

  -- `val` is read and written.
  unfoldable pub vfunc : List (Option F) → Ival → VecStr F → VecStr F → Fields F → VecResult F
  unfolding greatest read_all copy_sol rough_from
  vfunc val (below n) left right s = stored val
  vfunc val (above n) left right s =
      if n == 1
      then active right s
      else if n == 2
      then of_all (read_all val) (λ xs. scaled (greatest r.zero_value xs) xs)
      else if n == 3 || n == 4
      then rough_from r v n val 0 (length s.nodes)
      else if n == 5
      then file_column (label_of left) (label_of right) val
      else stored val

  -- `*lval` and `*rval`, and the value for all nodes.
  abbrev pub interpolated :
      Ival → List (Option F) → List (Option F) → List (SolNode F) → VecResult F
  interpolated i (some x ∷ a) (some y ∷ b) nodes =
      stored (all_entries r v (λ n. r.sol_interp i x y) nodes)
  interpolated i _ _ nodes = undefined

  -- The inner switch; any other function leaves the array as it is.
  unfoldable pub vec_function :
      Ival → Bool → List (Option F) → List (Option F) → List (SolNode F) → VecResult F
  unfolding each_entry
  vec_function (above n) missing lval rval nodes =
      if n == 1
      then each_entry r.log10 rval
      else if n == 2
      then each_entry r.log rval
      else if n == 3
      then each_entry r.exp rval
      else if n == 4
      then each_entry r.erf rval
      else if n == 5
      then each_entry r.erfc rval
      else if n == 6
      then each_entry (λ x. if is_pos x then x else neg x) rval
      else if n == 7
      then each_entry r.sqrt rval
      else if n == 8
      then each_entry
          (λ x. if is_pos x then r.plus_one else if is_neg x then r.minus_one else r.zero_value)
          rval
      else stored (fresh_array nodes)
  vec_function (below n) missing lval rval nodes =
      if n == 1 || n == 2 || n == 9
      then (if missing then refused two_arguments else interpolated (below n) lval rval nodes)
      else stored (fresh_array nodes)

  -- The switch on the type, but for solution values and vector functions.
  unfoldable pub eval_entries :
      Label F → Bool → Bool → List (Option F) → List (Option F) → List (SolNode F) → VecResult F
  unfolding each_entry each_pair vec_function
  eval_entries (op1 c) no_left no_right lval rval nodes =
      if no_left
      then (if c == b'+'
          then each_entry (λ x. x) rval
          else if c == b'-'
          then each_entry neg rval
          else stored (fresh_array nodes))
      else if c == b'+'
      then each_pair r.add lval rval
      else if c == b'-'
      then each_pair r.sub lval rval
      else stored (fresh_array nodes)
  eval_entries (op2 c) no_left no_right lval rval nodes =
      if c == b'*'
      then each_pair r.mul lval rval
      else if c == b'/'
      then each_pair r.div lval rval
      else stored (fresh_array nodes)
  eval_entries (op3 c) no_left no_right lval rval nodes =
      if c == b'^' then each_pair r.pow lval rval else stored (fresh_array nodes)
  eval_entries (fn i) no_left no_right lval rval nodes =
      vec_function i (no_left || no_right) lval rval nodes
  eval_entries (rconst x) no_left no_right lval rval nodes = stored (all_entries r v (λ n. x) nodes)
  eval_entries (string s) no_left no_right lval rval nodes = refused string_value
  eval_entries _ no_left no_right lval rval nodes = stored (fresh_array nodes)

  abbrev pub eval_label :
      Label F → Bool → Bool → List (Option F) → List (Option F) → Fields F → Stateful F
  eval_label l no_left no_right lval rval s = elim (solval_of l) [
    | some i ↦ get_solval r v i s
    | none ↦ (eval_entries l no_left no_right lval rval s.nodes, s)
  ]

  -- A child that is not there leaves its array as `malloc` gave it, and so do both under a vector
  -- function, which works on such an array; it is copied to `val`.
  unfoldable pub eval_child : VecStr F → Fields F → Stateful F
  unfolding vfunc eval_entries get_solval each_entry
  eval_child null s = (stored (fresh_array s.nodes), s)
  eval_child (node l a b) s = elim (vfn_of l) [
    | some i ↦ (vec_then (vfunc (fresh_array s.nodes) i a b s) (each_entry (λ x. x)), s)
    | none ↦ run_then (eval_child a s) λ lval s'.
        run_then (eval_child b s') λ rval s''. eval_label l (is_null a) (is_null b) lval rval s''
  ]

  unfoldable pub eval_vec : VecStr F → Fields F → Stateful F
  unfolding eval_child
  eval_vec null s = (undefined, s)
  eval_vec (node l a b) s = eval_child (node l a b) s
