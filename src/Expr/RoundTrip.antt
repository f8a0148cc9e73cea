-- ===== src/Expr/RoundTrip.antt =====
-- From the tokens of an expression back to its tree, and the bound on the stack.
use tcad_webapp.Prelude.{
  ℕ, zero, suc, ◌+◌, ◌<◌, ◌≤◌, ◌≡◌, refl, sym, ◌∙◌, ap, true, List, [], ◌∷◌, arith, length,
  append-nil, ltb, lt→ltb, ◌≢◌, Bool-cases, inl, inr, tests,
}
use tcad_webapp.Expr.Token.{Label, lpar, eoi, topstk, TokStr, expr, tok, Stack, tok_type}
use tcad_webapp.Expr.Reduce.{reduce}
use tcad_webapp.Expr.Parse.{parsed, crash, finish, feed, run, parse_expr}
use tcad_webapp.Expr.Safety.{detect_error-false}
use tcad_webapp.Expr.Settle.{settle-stop}
use tcad_webapp.Expr.Syntax.{Sum, print, tree, IsPlain}
use tcad_webapp.Expr.Context.{at_start}
use tcad_webapp.Expr.Resume.{boundless, run-boundless}
use tcad_webapp.Expr.Collapse.{sum_stack, eoi-IsCloser, known_sum, settle-sum}
use tcad_webapp.Expr.Complete.{reads}

-- Some number of open parentheses.
abbrev pub parens : {F : Type 0} → ℕ → List (Label F) → List (Label F)
parens zero ls = ls
parens (suc n) ls = lpar ∷ parens n ls

module _ {F : Type 0} where
  -- The end of input after a sum at the bottom of the stack.
  finish_sum : (s : Sum F) → run boundless [] (sum_stack s (tok topstk ∷ [])) ≡ parsed (tree s)
  unfolding run feed finish reduce
  finish_sum s =
      let st = sum_stack s (tok topstk ∷ []) in
      let settled = settle-sum eoi-IsCloser s (tok topstk ∷ []) refl in
      rw (
        known_sum (tok eoi) s (tok topstk ∷ []),
        settled,
        settle-stop (tok eoi) (expr (tree s) ∷ tok topstk ∷ []) refl,
      )

  -- The tokens of an expression of fewer than 99 tokens are parsed to the tree that precedence and
  -- left association give it. Of the two arguments of a call the first is neither a sum nor a
  -- product, and the second does not begin with a sign.
  pub parse_expr-print :
      (s : Sum F) → IsPlain s → length (print s) < 99 → parse_expr (print s) ≡ parsed (tree s)
  unfolding parse_expr
  parse_expr-print s h small =
      run-boundless (λ n. ltb n 100) (print s) (tok topstk ∷ []) refl
        (λ k p. lt→ltb k 100 (omega arith))
      ∙ ap (λ ls. run boundless ls (tok topstk ∷ [])) (sym (append-nil (print s)))
      ∙ reads s [] (tok topstk ∷ []) true at_start (λ _. refl) h
      ∙ finish_sum s

  run-parens :
      (n : ℕ) (ls : List (Label F)) (top : TokStr F) (st : Stack F)
      → tok_type top ≢ 0
      → length (top ∷ st) ≤ 100
      → 100 < length (top ∷ st) + n
      → run (λ k. ltb k 100) (parens n ls) (top ∷ st) ≡ crash
  unfolding run feed reduce
  run-parens zero ls top st k p q = absurd (omega arith)
  run-parens (suc n) ls top st k p q =
      rw (detect_error-false (tok lpar) top st k, settle-stop {F = F} (tok lpar) (top ∷ st) refl)
        (elim (Bool-cases (ltb (length (top ∷ st)) 100)) [
          | inl e ↦
              rw e (run-parens n ls (tok lpar) (top ∷ st) (λ z. cc) (omega tests) (omega arith))
          | inr e ↦ rw e
        ])

  -- A hundred open parentheses, whatever follows them, are written past the end of `stack`.
  pub parse_expr-parens : (n : ℕ) (ls : List (Label F)) → 100 ≤ n → parse_expr (parens n ls) ≡ crash
  unfolding parse_expr
  parse_expr-parens n ls h = run-parens n ls (tok topstk) [] (λ z. cc) (omega arith) (omega arith)
