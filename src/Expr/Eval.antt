-- ===== src/Expr/Eval.antt =====
-- check/eval.c: `eval_real` and `islogexp`; check/lexical.c: `single_char`.
use tcad_webapp.Prelude.{ℕ, Bool, true, false, Option, none, some, if◌then◌else◌, ◌==◌, ◌||◌}
use tcad_webapp.Expr.Token.{
  Ival, above, below, Label, op1, op2, op3, fn, vfn, solval, rconst, string, lpar, rpar, comma, eoi,
  VecStr, null, node,
}

-- `float`, the mathematical library and what `eval_real` calls of misc/sint.c.
pub record Reals : Type 1 where
  pub F : Type 0
  pub neg : F → F
  pub log10 : F → F
  pub log : F → F
  pub exp : F → F
  pub erf : F → F
  pub erfc : F → F
  pub sqrt : F → F
  pub add : F → F → F
  pub sub : F → F → F
  pub mul : F → F → F
  pub div : F → F → F
  pub pow : F → F → F
  pub is_pos : F → Bool
  pub is_neg : F → Bool
  pub plus_one : F
  pub minus_one : F
  pub zero_value : F
  pub sol_interp : Ival → F → F → F
  pub interface : Ival → F → F

pub data EvalError : Type 0 where
  two_arguments vector_value string_value : EvalError

-- `written v`: NULL is returned, and `*val` is `v` or was not assigned. `undefined` is a read of a
-- variable that was not assigned, or of a null pointer.
pub data Evaluated (F : Type 0) : Type 0 where
  written : Option F → Evaluated F
  failed : EvalError → Evaluated F
  undefined : Evaluated F

module _ {F : Type 0} where
  abbrev pub and_then : Evaluated F → (Option F → Evaluated F) → Evaluated F
  and_then (written v) k = k v
  and_then (failed e) k = failed e
  and_then undefined k = undefined

  abbrev pub with_value : Option F → (F → F) → Evaluated F
  with_value (some v) f = written (some (f v))
  with_value none f = undefined

  abbrev pub with_values : Option F → Option F → (F → F → F) → Evaluated F
  with_values (some v) (some w) f = written (some (f v w))
  with_values _ _ f = undefined

  abbrev pub is_null : VecStr F → Bool
  is_null null = true
  is_null (node _ _ _) = false

  unfoldable pub islogexp : VecStr F → Bool
  islogexp (node (fn (above n)) _ _) = n == 1
  islogexp _ = false

  -- The single characters, by their codes; `none` is the return value -1.
  unfoldable pub single_char : ℕ → Option (Label F)
  single_char c =
      if c == b'^'
      then some (op3 c)
      else if c == b','
      then some comma
      else if c == b'*' || c == b'/'
      then some (op2 c)
      else if c == b'('
      then some lpar
      else if c == b')'
      then some rpar
      else if c == b'+' || c == b'-'
      then some (op1 c)
      else if c == 0
      then some eoi
      else none

module _ (r : Reals) where
  open r use {F, neg, add, sub, mul, div, pow, is_pos, is_neg}

  abbrev absolute : F → F
  absolute v = if is_pos v then v else neg v

  abbrev sign_of : F → F
  sign_of v = if is_pos v then r.plus_one else if is_neg v then r.minus_one else r.zero_value

  -- The inner switch, over `expr->value.ival`. LOG10 to SIGN are 1 to 8; X, Y and Z are -2, -3
  -- and -10; any other number is that of an interface between two materials.
  unfoldable pub eval_function : Ival → Bool → Option F → Option F → Evaluated F
  eval_function (above n) missing lval rval =
      if n == 1
      then with_value rval r.log10
      else if n == 2
      then with_value rval r.log
      else if n == 3
      then with_value rval r.exp
      else if n == 4
      then with_value rval r.erf
      else if n == 5
      then with_value rval r.erfc
      else if n == 6
      then with_value rval absolute
      else if n == 7
      then with_value rval r.sqrt
      else if n == 8
      then with_value rval sign_of
      else with_value rval (r.interface (above n))
  eval_function (below n) missing lval rval =
      if n == 1 || n == 2 || n == 9
      then (if missing
          then failed two_arguments
          else with_values lval rval (r.sol_interp (below n)))
      else with_value rval (r.interface (below n))

  -- The outer switch, over `expr->type`.
  unfoldable pub eval_node : Label F → Bool → Bool → Option F → Option F → Evaluated F
  unfolding eval_function
  eval_node (op1 c) no_left no_right lval rval =
      if no_left
      then (if c == b'+'
          then with_value rval (λ v. v)
          else if c == b'-'
          then with_value rval neg
          else written none)
      else if c == b'+'
      then with_values lval rval add
      else if c == b'-'
      then with_values lval rval sub
      else written none
  eval_node (op2 c) no_left no_right lval rval =
      if c == b'*'
      then with_values lval rval mul
      else if c == b'/'
      then with_values lval rval div
      else written none
  eval_node (op3 c) no_left no_right lval rval =
      if c == b'^' then with_values lval rval pow else written none
  eval_node (fn i) no_left no_right lval rval = eval_function i (no_left || no_right) lval rval
  eval_node (rconst v) no_left no_right lval rval = written (some v)
  eval_node (vfn i) no_left no_right lval rval = failed vector_value
  eval_node (solval i) no_left no_right lval rval = failed vector_value
  eval_node (string s) no_left no_right lval rval = failed string_value
  eval_node _ no_left no_right lval rval = written none

  -- A child that is not there leaves its variable unassigned.
  unfoldable pub eval_kid : VecStr F → Evaluated F
  unfolding eval_node
  eval_kid null = written none
  eval_kid (node l a b) =
      and_then (eval_kid a)
        λ lval. and_then (eval_kid b) λ rval. eval_node l (is_null a) (is_null b) lval rval

  unfoldable pub eval_real : VecStr F → Evaluated F
  unfolding eval_kid
  eval_real null = undefined
  eval_real (node l a b) = eval_kid (node l a b)
