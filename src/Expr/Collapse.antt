-- ===== src/Expr/Collapse.antt =====
-- The stack behind a product and behind a sum, and what a following operator makes of it.
use tcad_webapp.Prelude.{ℕ, ◌≡◌, refl, ◌∙◌, false, ◌∷◌}
use tcad_webapp.Expr.Token.{Label, op1, op2, rpar, eoi, VecStr, node, TokStr, expr, tok, Stack}
use tcad_webapp.Expr.Reduce.{again, reduce}
use tcad_webapp.Expr.Parse.{settle, detect_error}
use tcad_webapp.Expr.Progress.{IsBased, IsBased-push}
use tcad_webapp.Expr.Settle.{settle-again}
use tcad_webapp.Expr.Resume.{known_expr}
use tcad_webapp.Expr.Syntax.{Product, one, times, Sum, term, plus, tree_power, tree_product, tree}

-- The last operand of a product, and the last product of a sum, are not reduced yet.
unfoldable pub product_stack : {F : Type 0} → Product F → Stack F → Stack F
product_stack (one p) st = expr (tree_power p) ∷ st
product_stack (times q c p) st = expr (tree_power p) ∷ tok (op2 c) ∷ expr (tree_product q) ∷ st

unfoldable pub sum_stack : {F : Type 0} → Sum F → Stack F → Stack F
sum_stack (term q) st = product_stack q st
sum_stack (plus s c q) st = product_stack q (tok (op1 c) ∷ expr (tree s) ∷ st)

-- OP1, EOI and RPAR make a tree of a sum and of a product.
pub record IsCloser {F : Type 0} (l : Label F) : Type 0 where
  pub sums :
      (o : ℕ) (t u : VecStr F) (st : Stack F)
      → reduce (tok l) (expr u ∷ tok (op1 o) ∷ expr t ∷ st)
        ≡ again (tok l) (expr (node (op1 o) t u) ∷ st)
  pub products :
      (o : ℕ) (t u : VecStr F) (st : Stack F)
      → reduce (tok l) (expr u ∷ tok (op2 o) ∷ expr t ∷ st)
        ≡ again (tok l) (expr (node (op2 o) t u) ∷ st)

module _ {F : Type 0} where
  pub rpar-IsCloser : IsCloser {F = F} rpar
  unfolding reduce
  rpar-IsCloser = record { sums = λ o t u st. refl; products = λ o t u st. refl }

  pub eoi-IsCloser : IsCloser {F = F} eoi
  unfolding reduce
  eoi-IsCloser = record { sums = λ o t u st. refl; products = λ o t u st. refl }

  pub op1-IsCloser : (c : ℕ) → IsCloser {F = F} (op1 c)
  unfolding reduce
  op1-IsCloser c = record { sums = λ o t u st. refl; products = λ o t u st. refl }

  pub product_stack-IsBased :
      (q : Product F) (st : Stack F) → IsBased st → IsBased (product_stack q st)
  unfolding product_stack
  product_stack-IsBased (one p) st h = IsBased-push (expr (tree_power p)) st h
  product_stack-IsBased (times q c p) st h = IsBased-push (expr (tree_product q)) st h

  pub sum_stack-IsBased : (s : Sum F) (st : Stack F) → IsBased st → IsBased (sum_stack s st)
  unfolding sum_stack
  sum_stack-IsBased (term q) st h = product_stack-IsBased q st h
  sum_stack-IsBased (plus s c q) st h =
      product_stack-IsBased q (tok (op1 c) ∷ expr (tree s) ∷ st) (IsBased-push (expr (tree s)) st h)

  pub known_product :
      (i : TokStr F) (q : Product F) (st : Stack F) → detect_error i (product_stack q st) ≡ false
  unfolding product_stack
  known_product i (one p) st = known_expr i (tree_power p) st
  known_product i (times q c p) st =
      known_expr i (tree_power p) (tok (op2 c) ∷ expr (tree_product q) ∷ st)

  pub known_sum :
      (i : TokStr F) (s : Sum F) (st : Stack F) → detect_error i (sum_stack s st) ≡ false
  unfolding sum_stack
  known_sum i (term q) st = known_product i q st
  known_sum i (plus s c q) st = known_product i q (tok (op1 c) ∷ expr (tree s) ∷ st)

  pub settle-product_op2 :
      (o : ℕ) (q : Product F) (st : Stack F)
      → IsBased st
      → settle (tok (op2 o)) (product_stack q st)
        ≡ settle (tok (op2 o)) (expr (tree_product q) ∷ st)
  unfolding product_stack tree_product reduce
  settle-product_op2 o (one p) st h = refl
  settle-product_op2 o (times q c p) st h =
      settle-again (tok (op2 o)) (expr (tree_power p) ∷ tok (op2 c) ∷ expr (tree_product q) ∷ st)
        (IsBased-push (expr (tree_product q)) st h) refl

  module _ {l : Label F} (closer : IsCloser l) where
    pub settle-product :
        (q : Product F) (st : Stack F)
        → IsBased st
        → settle (tok l) (product_stack q st) ≡ settle (tok l) (expr (tree_product q) ∷ st)
    unfolding product_stack tree_product
    settle-product (one p) st h = refl
    settle-product (times q c p) st h =
        settle-again (tok l) (expr (tree_power p) ∷ tok (op2 c) ∷ expr (tree_product q) ∷ st)
          (IsBased-push (expr (tree_product q)) st h)
          (closer.products c (tree_product q) (tree_power p) st)

    -- Left to right: a product first, then the sum that it ends.
    pub settle-sum :
        (s : Sum F) (st : Stack F)
        → IsBased st
        → settle (tok l) (sum_stack s st) ≡ settle (tok l) (expr (tree s) ∷ st)
    unfolding sum_stack tree
    settle-sum (term q) st h = settle-product q st h
    settle-sum (plus s c q) st h =
        let b = IsBased-push (expr (tree s)) st h in
        settle-product q (tok (op1 c) ∷ expr (tree s) ∷ st) b
        ∙ settle-again (tok l) (expr (tree_product q) ∷ tok (op1 c) ∷ expr (tree s) ∷ st) b
            (closer.sums c (tree s) (tree_product q) st)
