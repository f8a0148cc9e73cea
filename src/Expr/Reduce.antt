-- ===== src/Expr/Reduce.antt =====
-- check/reduce.c: one reduction of the stack and the input token.
use tcad_webapp.Prelude.{Bool, true, false, Option, none, some, [], ◌∷◌, if◌then◌else◌}
use tcad_webapp.Expr.Token.{
  Label, op1, op2, op3, fn, vfn, solval, rconst, string, lpar, rpar, comma, eoi, topstk, blank,
  VecStr, null, node, TokStr, expr, tok, Stack, bval,
}

-- What a call of `reduce` leaves: TRUE with the new input token and stack, FALSE with nothing
-- changed, or a read through a null pointer.
pub data Step (F : Type 0) : Type 0 where
  again : TokStr F → Stack F → Step F
  stop : Step F
  fault : Step F

module _ {F : Type 0} where
  -- The two children are read from tokens of type EXPR; `none` is any other read of `bval`.
  abbrev with_kids : Label F → Option (VecStr F) → Option (VecStr F) → Option (TokStr F)
  with_kids l (some a) (some b) = some (expr (node l a b))
  with_kids l _ _ = none

  -- The label of `tmp` in the case EXPR is that of `b`.
  abbrev operator_kids :
      Option (TokStr F) → Option (VecStr F) → Option (VecStr F) → Option (TokStr F)
  operator_kids (some (tok l)) a c = with_kids l a c
  operator_kids _ a c = none

  abbrev function_kids : Label F → Option (TokStr F) → Option (TokStr F) → Option (TokStr F)
  function_kids l b none = with_kids l (some null) (bval b)
  function_kids l b (some c) = with_kids l (bval b) (bval (some c))

  -- The token that `expr_reduce(a, b, c, d)` stores in `d`.
  unfoldable pub expr_reduce : TokStr F → Option (TokStr F) → Option (TokStr F) → Option (TokStr F)
  expr_reduce (tok (fn i)) b c = function_kids (fn i) b c
  expr_reduce (tok (vfn i)) b c = function_kids (vfn i) b c
  expr_reduce (tok (op1 o)) b c = with_kids (op1 o) (some null) (bval b)
  expr_reduce (expr t) b c = operator_kids b (some t) (bval c)
  expr_reduce (tok (rconst v)) b c = some (expr (node (rconst v) null null))
  expr_reduce (tok (string s)) b c = some (expr (node (string s) null null))
  expr_reduce (tok (solval i)) b c = some (expr (node (solval i) null null))
  expr_reduce (tok _) b c = some (expr (node blank null null))

  -- `expr_reduce(…, &input_token)` above the stack `st`.
  abbrev to_input : Option (TokStr F) → Stack F → Step F
  to_input (some d) st = again d st
  to_input none st = fault

  -- `expr_reduce(…, old)` with the input token kept.
  abbrev to_stack : TokStr F → Option (TokStr F) → Stack F → Step F
  to_stack input (some d) st = again input (d ∷ st)
  to_stack input none st = fault

  -- The types before a unary operator: OP1|OP2|OP3|TOPSTK|FN|VFN|LPAR.
  abbrev pub before_unary : TokStr F → Bool
  before_unary (tok (op1 _)) = true
  before_unary (tok (op2 _)) = true
  before_unary (tok (op3 _)) = true
  before_unary (tok topstk) = true
  before_unary (tok (fn _)) = true
  before_unary (tok (vfn _)) = true
  before_unary (tok lpar) = true
  before_unary _ = false

  abbrev pub is_function : TokStr F → Bool
  is_function (tok (fn _)) = true
  is_function (tok (vfn _)) = true
  is_function _ = false

  -- The case EXPR of the input token.
  unfoldable pub reduce_expr : VecStr F → Stack F → Step F
  unfolding expr_reduce
  reduce_expr t (tok (op1 o) ∷ []) = fault
  reduce_expr t (tok (op1 o) ∷ prev ∷ st) =
      if before_unary prev
      then to_input (expr_reduce (tok (op1 o)) (some (expr t)) none) (prev ∷ st)
      else stop
  reduce_expr t (tok (op3 o) ∷ []) = fault
  reduce_expr t (tok (op3 o) ∷ expr l ∷ st) =
      to_input (expr_reduce (expr l) (some (tok (op3 o))) (some (expr t))) st
  reduce_expr t _ = stop

  -- expr op2 expr, before a token OP2.
  unfoldable pub reduce_op2 : TokStr F → Stack F → Step F
  unfolding expr_reduce
  reduce_op2 input (expr r ∷ []) = fault
  reduce_op2 input (expr r ∷ tok (op2 o) ∷ []) = fault
  reduce_op2 input (expr r ∷ tok (op2 o) ∷ expr l ∷ st) =
      to_stack input (expr_reduce (expr l) (some (tok (op2 o))) (some (expr r))) st
  reduce_op2 input _ = stop

  -- expr op1 expr and expr op2 expr, before OP1, EOI or RPAR. Where neither stands on the stack,
  -- `rest` says what becomes of it.
  unfoldable pub reduce_binary : TokStr F → Stack F → Step F → Step F
  unfolding expr_reduce
  reduce_binary input (expr r ∷ []) rest = fault
  reduce_binary input (expr r ∷ tok (op1 o) ∷ []) rest = fault
  reduce_binary input (expr r ∷ tok (op2 o) ∷ []) rest = fault
  reduce_binary input (expr r ∷ tok (op1 o) ∷ expr l ∷ st) rest =
      to_stack input (expr_reduce (expr l) (some (tok (op1 o))) (some (expr r))) st
  reduce_binary input (expr r ∷ tok (op2 o) ∷ expr l ∷ st) rest =
      to_stack input (expr_reduce (expr l) (some (tok (op2 o))) (some (expr r))) st
  reduce_binary input _ rest = rest

  -- The functions of two and of one argument and the parentheses, before RPAR.
  unfoldable pub reduce_paren : Stack F → Step F
  unfolding expr_reduce
  reduce_paren (expr r ∷ []) = fault
  reduce_paren (expr r ∷ tok comma ∷ []) = fault
  reduce_paren (expr r ∷ tok comma ∷ expr l ∷ []) = fault
  reduce_paren (expr r ∷ tok comma ∷ expr l ∷ tok lpar ∷ []) = fault
  reduce_paren (expr r ∷ tok comma ∷ expr l ∷ tok lpar ∷ f ∷ st) =
      if is_function f then to_input (expr_reduce f (some (expr l)) (some (expr r))) st else stop
  reduce_paren (expr r ∷ tok lpar ∷ []) = fault
  reduce_paren (expr r ∷ tok lpar ∷ f ∷ st) =
      if is_function f
      then to_input (expr_reduce f (some (expr r)) none) st
      else again (expr r) (f ∷ st)
  reduce_paren _ = stop

  unfoldable pub reduce : TokStr F → Stack F → Step F
  unfolding expr_reduce reduce_expr reduce_op2 reduce_binary reduce_paren
  reduce (tok (string s)) st = to_input (expr_reduce (tok (string s)) none none) st
  reduce (tok (rconst v)) st = to_input (expr_reduce (tok (rconst v)) none none) st
  reduce (tok (solval i)) st = to_input (expr_reduce (tok (solval i)) none none) st
  reduce (expr t) st = reduce_expr t st
  reduce (tok (op2 o)) st = reduce_op2 (tok (op2 o)) st
  reduce (tok eoi) st = reduce_binary (tok eoi) st stop
  reduce (tok (op1 o)) st = reduce_binary (tok (op1 o)) st stop
  reduce (tok rpar) st = reduce_binary (tok rpar) st (reduce_paren st)
  reduce (tok _) st = stop
