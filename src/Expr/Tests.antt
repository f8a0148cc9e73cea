-- ===== src/Expr/Tests.antt =====
-- Runs of the parser and the evaluator, and their theorems at concrete inputs.
use tcad_webapp.Prelude.{ℕ, ◌<◌, ◌≤◌, ◌≡◌, refl, inl, false, some, List, [], ◌∷◌, arith, length}
use tcad_webapp.Expr.Token.{
  above, Label, op1, op2, fn, rconst, lpar, rpar, comma, topstk, VecStr, null, node, TokStr, expr,
  tok, Stack,
}
use tcad_webapp.Expr.Grammar.{real, scalar, Derives}
use tcad_webapp.Expr.Reduce.{stop, reduce}
use tcad_webapp.Expr.Parse.{
  parsed, grammar_error, crash, settled, detect_error, reduce_while, settle, finish, feed, run,
  parse_expr,
}
use tcad_webapp.Expr.Progress.{IsBased}
use tcad_webapp.Expr.Settle.{settle_rests}
use tcad_webapp.Expr.Sound.Parse.{parse_expr-Derives}
use tcad_webapp.Expr.Syntax.{
  leaf, sign, group, Power, base, raise, one, times, Sum, term, plus, print_atom, print, tree,
  PlainAtom, IsPlain,
}
use tcad_webapp.Expr.RoundTrip.{parse_expr-print, parse_expr-parens, parens}
use tcad_webapp.Expr.Reject.{call_of, parse_expr-call_sum}
use tcad_webapp.Expr.Sample.{whole}
use tcad_webapp.Expr.Eval.{written, eval_real}
use tcad_webapp.Expr.Value.{IsDefined, eval_real-IsDefined}
use tcad_webapp.Expr.Arith.{value, parse_expr-eval_real}

-- 1 + 2 * 3
abbrev sample : List (Label ℕ)
sample = rconst 1 ∷ op1 b'+' ∷ rconst 2 ∷ op2 b'*' ∷ rconst 3 ∷ []

abbrev number : ℕ → VecStr ℕ
number n = node (rconst n) null null

abbrev sample_tree : VecStr ℕ
sample_tree = node (op1 b'+') (number 1) (node (op2 b'*') (number 2) (number 3))

sample-parsed : parse_expr sample ≡ parsed sample_tree
unfolding parse_expr run feed settle reduce_while reduce finish detect_error
sample-parsed = refl

-- A function name before an operand without parentheses, and a sign in a second argument.
refused :
    (parse_expr {F = ℕ} (fn (above 1) ∷ rconst 2 ∷ []) ≡ grammar_error)
    × (parse_expr {F = ℕ} (fn (above 6) ∷ lpar ∷ rconst 2 ∷ comma ∷ op1 b'-' ∷ rconst 3 ∷ rpar ∷ [])
        ≡ grammar_error)
unfolding parse_expr run feed settle reduce_while reduce finish detect_error
refused = (refl, refl)

-- Two operands with nothing between them are no error until the end of the input.
two_operands : detect_error (tok (rconst 2)) (expr (number 1) ∷ tok topstk ∷ []) ≡ false
unfolding detect_error
two_operands = refl

parse_expr-Derives_example : Derives sample sample_tree
parse_expr-Derives_example = parse_expr-Derives sample sample-parsed

abbrev constant : ℕ → Power ℕ
constant n = base (leaf (rconst n) (real n))

-- - 4 ^ 2 * (1 + 2) - 5
abbrev source : Sum ℕ
source =
    plus
      (term (
        times
          (one
            (raise (base (sign b'-' (leaf (rconst 4) (real 4)))) b'^' (leaf (rconst 2) (real 2))))
          b'*' (base (group (plus (term (one (constant 1))) b'+' (one (constant 2)))))))
      b'-' (one (constant 5))

source-IsPlain : IsPlain source
unfolding IsPlain PlainAtom
source-IsPlain = ((((tt, tt), ((tt, tt)))), tt)

source_small : length (print source) < 99
unfolding print print_atom
source_small = omega arith

parse_expr-print_example : parse_expr (print source) ≡ parsed (tree source)
parse_expr-print_example = parse_expr-print source source-IsPlain source_small

parse_expr-parens_example : parse_expr (parens 200 sample) ≡ crash
parse_expr-parens_example = parse_expr-parens 200 sample (omega arith)

abbrev one_term : ℕ → Sum ℕ
one_term n = term (one (constant n))

call_small :
    length (call_of (fn (above 6)) (plus (one_term 1) b'+' (one (constant 2))) (one_term 3)) < 99
unfolding print print_atom
call_small = omega arith

sum-IsPlain : IsPlain (plus (one_term 1) b'+' (one (constant 2)))
unfolding IsPlain PlainAtom
sum-IsPlain = (tt, tt)

term-IsPlain : IsPlain (one_term 3)
unfolding IsPlain PlainAtom
term-IsPlain = tt

-- abs(1 + 2, 3)
parse_expr-call_sum_example :
    parse_expr (call_of (fn (above 6)) (plus (one_term 1) b'+' (one (constant 2))) (one_term 3))
    ≡ grammar_error
parse_expr-call_sum_example =
    parse_expr-call_sum (fn (above 6)) (one_term 1) b'+' (one (constant 2)) (one_term 3)
      (scalar (above 6)) sum-IsPlain term-IsPlain refl call_small

abbrev stacked : Stack ℕ
stacked = expr (number 2) ∷ tok (op2 b'*') ∷ expr (number 1) ∷ tok topstk ∷ []

settle_rests_example :
    (i' : TokStr ℕ) × (st' : Stack ℕ) × (settle (tok rpar) stacked ≡ settled i' st')
    × (reduce i' st' ≡ stop)
    × IsBased st'
    × (length st' ≤ 4)
settle_rests_example = settle_rests (tok rpar) stacked refl

eval_real-IsDefined_example : IsDefined (eval_real whole sample_tree)
eval_real-IsDefined_example =
    eval_real-IsDefined whole sample (tt, (inl refl, (tt, (inl refl, (tt, tt))))) sample-parsed

value-source : value whole source ≡ some 19
unfolding value
value-source = refl

parse_expr-eval_real_example :
    (t : VecStr ℕ) × (parse_expr (print source) ≡ parsed t)
    × (eval_real whole t ≡ written (some 19))
parse_expr-eval_real_example =
    parse_expr-eval_real whole source 19 source-IsPlain source_small value-source
