-- ===== src/Expr/Lexical/Value.antt =====
-- From the characters of an arithmetic expression to its value.
use tcad_webapp.Prelude.{◌<◌, ◌≤◌, ◌≡◌, ◌∙◌, some, List, map, length}
use tcad_webapp.Expr.Token.{VecStr}
use tcad_webapp.Expr.Parse.{parsed}
use tcad_webapp.Expr.Syntax.{Sum, print, IsPlain}
use tcad_webapp.Expr.Eval.{Reals, written, eval_real}
use tcad_webapp.Expr.Arith.{value, parse_expr-eval_real}
use tcad_webapp.Expr.Lexical.{Scanner, parse_text}
use tcad_webapp.Expr.Lexical.Pieces.{Piece, text, AllPieces, meaning}
use tcad_webapp.Expr.Lexical.Spelled.{parse_text-map}

module _ (r : Reals) (c : Scanner r.F) where
  -- A text of at most 255 characters that spells the tokens of an arithmetic expression, each with
  -- a blank behind it, is parsed, and what is parsed has the value of the expression: a sign first,
  -- then `^`, then `*` and `/`, then `+` and `-`, from left to right. The expression has fewer than
  -- 99 tokens, and no more than 255 characters stand in memory between the closing 0 of the text
  -- and the next. A number is spelled with digits, a point with digits behind it, or both, and an
  -- exponent where there is one. A name has printable characters that end no word, and begins with
  -- no digit and no point.
  pub parse_text-eval_real :
      (s : Sum r.F) (v : r.F) (ps : List Piece)
      → IsPlain s
      → length (print s) < 99
      → value r s ≡ some v
      → AllPieces c ps
      → map (meaning c) ps ≡ print s
      → length (text ps) ≤ 255
      → length c.behind ≤ 255
      → (t : VecStr r.F) × (parse_text c (text ps) ≡ parsed t) × (eval_real r t ≡ written (some v))
  parse_text-eval_real s v ps h small e a q k b =
      let (t, x, y) = parse_expr-eval_real r s v h small e in
      (t, parse_text-map c s ps a q k b ∙ x, y)
