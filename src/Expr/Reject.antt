-- ===== src/Expr/Reject.antt =====
-- An expression that the grammar derives and `parse_expr` refuses.
use tcad_webapp.Prelude.{
  ℕ, ◌<◌, ◌≡◌, refl, ◌∙◌, true, false, List, [], ◌∷◌, ◌++◌, arith, length, ltb, lt→ltb,
}
use tcad_webapp.Expr.Token.{Label, lpar, rpar, comma, eoi, topstk, VecStr, expr, tok, Stack}
use tcad_webapp.Expr.Grammar.{IsFunction}
use tcad_webapp.Expr.Reduce.{stop, reduce}
use tcad_webapp.Expr.Parse.{grammar_error, finish, feed, run, parse_expr}
use tcad_webapp.Expr.Progress.{IsBased-push}
use tcad_webapp.Expr.Safety.{detect_error-false}
use tcad_webapp.Expr.Settle.{settle-stop}
use tcad_webapp.Expr.Syntax.{Product, one, times, Sum, plus, print, tree, signed, IsPlain}
use tcad_webapp.Expr.Context.{at_start, in_paren, at_comma}
use tcad_webapp.Expr.Resume.{boundless, resume-stop, run-push, run-boundless}
use tcad_webapp.Expr.Collapse.{product_stack, sum_stack, known_sum, sum_stack-IsBased}
use tcad_webapp.Expr.Complete.{call-push, close, reads}

module _ {F : Type 0} where
  -- Below the second argument stands the operator of the first, not the parenthesis.
  stuck_call :
      (s : Sum F) (c : ℕ) (q : Product F) (t : VecStr F) (st : Stack F)
      → reduce (tok rpar) (expr t ∷ tok comma ∷ sum_stack (plus s c q) st) ≡ stop
  unfolding reduce sum_stack product_stack
  stuck_call s c (one p) t st = refl
  stuck_call s c (times q o p) t st = refl

  -- A closing parenthesis that stays on the stack is the end.
  finish_paren : (st : Stack F) → run boundless [] (tok rpar ∷ st) ≡ grammar_error
  unfolding run feed finish reduce
  finish_paren st = rw (
    detect_error-false {F = F} (tok eoi) (tok rpar) st (λ z. cc),
    settle-stop (tok eoi) (tok rpar ∷ st) refl,
  )

  abbrev pub call_of : Label F → Sum F → Sum F → List (Label F)
  call_of f s u = f ∷ lpar ∷ (print s ++ (comma ∷ (print u ++ (rpar ∷ []))))

  -- A call of two arguments whose first is a sum of two or more products is refused with the
  -- grammar error, where the call has fewer than 99 tokens, the second argument begins with no
  -- sign, and every call of two that stands in the arguments has a first argument that is neither a
  -- sum nor a product and a second that begins with no sign.
  pub parse_expr-call_sum :
      (f : Label F) (s : Sum F) (c : ℕ) (q : Product F) (u : Sum F)
      → IsFunction f
      → IsPlain (plus s c q)
      → IsPlain u
      → signed u ≡ false
      → length (call_of f (plus s c q) u) < 99
      → parse_expr (call_of f (plus s c q) u) ≡ grammar_error
  unfolding parse_expr reduce
  parse_expr-call_sum f s c q u k h h' g small =
      let bottom : Stack F = tok topstk ∷ [] in
      let st : Stack F = tok lpar ∷ tok f ∷ bottom in
      let first = sum_stack (plus s c q) st in
      let based = sum_stack-IsBased (plus s c q) st refl in
      let second = print u ++ (rpar ∷ []) in
      run-boundless (λ n. ltb n 100) (call_of f (plus s c q) u) bottom refl
        (λ k p. lt→ltb k 100 (omega arith))
      ∙ call-push f (print (plus s c q) ++ (comma ∷ second)) bottom k at_start.products.powers.atoms
      ∙ reads (plus s c q) (comma ∷ second) st true (in_paren (tok f ∷ bottom) refl) (λ _. refl) h
      ∙ run-push comma second first (known_sum (tok comma) (plus s c q) st) refl
      ∙ reads u (rpar ∷ []) (tok comma ∷ first) false (at_comma first based) (λ e. cc) h'
      ∙ close u [] (tok comma ∷ first) (IsBased-push (tok comma) first based)
      ∙ resume-stop (tok rpar) [] (expr (tree u) ∷ tok comma ∷ first) (stuck_call s c q (tree u) st)
      ∙ finish_paren (expr (tree u) ∷ tok comma ∷ first)
