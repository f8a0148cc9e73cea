-- ===== src/Expr/Progress.antt =====
-- One reduction above the bottom mark: no null pointer is read, the mark stays, and a measure falls.
use tcad_webapp.Prelude.{ℕ, suc, ◌≤◌, ◌<◌, ◌≡◌, ◌≢◌, inl, inr, [], ◌∷◌, arith, length, Bool-cases}
use tcad_webapp.Expr.Token.{
  Label, op1, op2, op3, fn, vfn, solval, rconst, string, lpar, rpar, comma, eoi, topstk, VecStr,
  TokStr, expr, tok, Stack,
}
use tcad_webapp.Expr.Reduce.{
  Step, again, stop, fault, expr_reduce, before_unary, reduce_expr, reduce_op2, reduce_binary,
  reduce_paren, reduce,
}

module _ {F : Type 0} where
  -- `stack[0]` is TOPSTK.
  abbrev pub IsBased : Stack F → Type 0
  IsBased [] = ⊥
  IsBased (t ∷ []) = t ≡ tok topstk
  IsBased (t ∷ x ∷ st) = IsBased (x ∷ st)

  -- How many reductions may still come, at most.
  abbrev pub weight : TokStr F → Stack F → ℕ
  weight (expr _) st = length st
  weight (tok _) st = suc (length st)

  abbrev pub Safe : TokStr F → Stack F → Step F → Type 0
  Safe i st fault = ⊥
  Safe i st stop = Unit
  Safe i st (again i' st') = IsBased st' × (weight i' st' < weight i st) × (length st' ≤ length st)

  pub IsBased-push : (t : TokStr F) (st : Stack F) → IsBased st → IsBased (t ∷ st)
  IsBased-push t [] h = absurd h
  IsBased-push t (x ∷ st) h = h

  pub IsBased-tail : (t : TokStr F) (st : Stack F) → t ≢ tok topstk → IsBased (t ∷ st) → IsBased st
  IsBased-tail t [] ne h = absurd (ne h)
  IsBased-tail t (x ∷ st) ne h = h

  reduce_expr-Safe :
      (t : VecStr F) (st : Stack F) → IsBased st → Safe (expr t) st (reduce_expr t st)
  unfolding reduce_expr expr_reduce
  reduce_expr-Safe t [] h = absurd h
  reduce_expr-Safe t (tok (op1 o) ∷ []) h = cc
  reduce_expr-Safe t (tok (op1 o) ∷ prev ∷ st) h = elim (Bool-cases (before_unary prev)) [
    | inl e ↦ rw e (h, omega arith, omega arith)
    | inr e ↦ rw e tt
  ]
  reduce_expr-Safe t (tok (op3 o) ∷ []) h = cc
  reduce_expr-Safe t (tok (op3 o) ∷ expr l ∷ st) h =
      (IsBased-tail (expr l) st (λ e. cc) h, omega arith, omega arith)
  reduce_expr-Safe t _ h = tt

  -- What a reduction of the stack below an input token does.
  to_stack-Safe :
      (l : Label F) (a b c : TokStr F) (d : TokStr F) (st : Stack F)
      → c ≢ tok topstk
      → IsBased (a ∷ b ∷ c ∷ st)
      → Safe (tok l) (a ∷ b ∷ c ∷ st) (again (tok l) (d ∷ st))
  to_stack-Safe l a b c d [] ne h = absurd (ne h)
  to_stack-Safe l a b c d (x ∷ st) ne h = (h, omega arith, omega arith)

  reduce_op2-Safe :
      (o : ℕ) (st : Stack F) → IsBased st → Safe (tok (op2 o)) st (reduce_op2 (tok (op2 o)) st)
  unfolding reduce_op2 expr_reduce
  reduce_op2-Safe o (expr r ∷ []) h = cc
  reduce_op2-Safe o (expr r ∷ tok (op2 p) ∷ []) h = cc
  reduce_op2-Safe o (expr r ∷ tok (op2 p) ∷ expr l ∷ st) h =
      to_stack-Safe (op2 o) (expr r) (tok (op2 p)) (expr l) _ st (λ e. cc) h
  reduce_op2-Safe o _ h = tt

  module _ (i : Label F) where
    reduce_binary-Safe :
        (st : Stack F) (rest : Step F)
        → IsBased st
        → Safe (tok i) st rest
        → Safe (tok i) st (reduce_binary (tok i) st rest)
    unfolding reduce_binary
    reduce_binary-Safe (expr r ∷ []) rest h k = cc
    reduce_binary-Safe (expr r ∷ tok (op1 o) ∷ []) rest h k = cc
    reduce_binary-Safe (expr r ∷ tok (op2 o) ∷ []) rest h k = cc
    reduce_binary-Safe (expr r ∷ tok (op1 o) ∷ expr l ∷ st) rest h k =
        to_stack-Safe i (expr r) (tok (op1 o)) (expr l) _ st (λ e. cc) h
    reduce_binary-Safe (expr r ∷ tok (op2 o) ∷ expr l ∷ st) rest h k =
        to_stack-Safe i (expr r) (tok (op2 o)) (expr l) _ st (λ e. cc) h
    reduce_binary-Safe _ rest h k = k

  reduce_paren-Safe : (st : Stack F) → IsBased st → Safe (tok rpar) st (reduce_paren st)
  unfolding reduce_paren
  reduce_paren-Safe (expr r ∷ []) h = cc
  reduce_paren-Safe (expr r ∷ tok comma ∷ []) h = cc
  reduce_paren-Safe (expr r ∷ tok comma ∷ expr l ∷ []) h = cc
  reduce_paren-Safe (expr r ∷ tok comma ∷ expr l ∷ tok lpar ∷ []) h = cc
  reduce_paren-Safe (expr r ∷ tok comma ∷ expr l ∷ tok lpar ∷ tok (fn i) ∷ st) h =
      (IsBased-tail (tok (fn i)) st (λ e. cc) h, omega arith, omega arith)
  reduce_paren-Safe (expr r ∷ tok comma ∷ expr l ∷ tok lpar ∷ tok (vfn i) ∷ st) h =
      (IsBased-tail (tok (vfn i)) st (λ e. cc) h, omega arith, omega arith)
  reduce_paren-Safe (expr r ∷ tok comma ∷ expr l ∷ tok lpar ∷ f ∷ st) h = tt
  reduce_paren-Safe (expr r ∷ tok lpar ∷ []) h = cc
  reduce_paren-Safe (expr r ∷ tok lpar ∷ tok (fn i) ∷ st) h =
      (IsBased-tail (tok (fn i)) st (λ e. cc) h, omega arith, omega arith)
  reduce_paren-Safe (expr r ∷ tok lpar ∷ tok (vfn i) ∷ st) h =
      (IsBased-tail (tok (vfn i)) st (λ e. cc) h, omega arith, omega arith)
  reduce_paren-Safe (expr r ∷ tok lpar ∷ f ∷ st) h = (h, omega arith, omega arith)
  reduce_paren-Safe _ h = tt

  -- Above TOPSTK `reduce` reads through no null pointer.
  pub reduce-Safe : (i : TokStr F) (st : Stack F) → IsBased st → Safe i st (reduce i st)
  unfolding reduce
  reduce-Safe (tok (string s)) st h = (h, omega arith, omega arith)
  reduce-Safe (tok (rconst v)) st h = (h, omega arith, omega arith)
  reduce-Safe (tok (solval i)) st h = (h, omega arith, omega arith)
  reduce-Safe (expr t) st h = reduce_expr-Safe t st h
  reduce-Safe (tok (op2 o)) st h = reduce_op2-Safe o st h
  reduce-Safe (tok eoi) st h = reduce_binary-Safe eoi st stop h tt
  reduce-Safe (tok (op1 o)) st h = reduce_binary-Safe (op1 o) st stop h tt
  reduce-Safe (tok rpar) st h =
      reduce_binary-Safe rpar st (reduce_paren st) h (reduce_paren-Safe st h)
  reduce-Safe (tok _) st h = tt
