-- ===== src/Expr/Parse.antt =====
-- check/parse.c: the error test, the loop over the tokens and the final test.
use tcad_webapp.Prelude.{
  ℕ, zero, suc, Bool, true, false, not, List, [], ◌∷◌, if◌then◌else◌, ltb, ◌==◌, length, bit_and,
}
use tcad_webapp.Expr.Token.{Label, eoi, topstk, VecStr, TokStr, expr, tok, Stack, tok_type}
use tcad_webapp.Expr.Reduce.{again, stop, fault, reduce}

-- What `parse_expr` ends with: the tree, its error message, or undefined behaviour (a null pointer
-- read, a write past `stack`). `no_fuel` is of the model: see `settle`.
pub data Outcome (F : Type 0) : Type 0 where
  parsed : VecStr F → Outcome F
  grammar_error crash no_fuel : Outcome F

-- `while (reduce());`: the reduced input token and stack. Every reduction but that of an operand
-- to an expression shortens the stack, and an expression stays one, so `suc (suc (length st))`
-- calls are enough.
pub data Settled (F : Type 0) : Type 0 where
  settled : TokStr F → Stack F → Settled F
  faulted exhausted : Settled F

-- `! a` in C, of an int.
abbrev lnot : ℕ → ℕ
lnot a = if a == 0 then 1 else 0

module _ {F : Type 0} where
  -- `! type & mask` as C reads it: `(! type) & mask`.
  abbrev not_type_and : TokStr F → ℕ → Bool
  not_type_and t mask = not (bit_and (lnot (tok_type t)) mask == 0)

  abbrev is_expr : Stack F → Bool
  is_expr [] = false
  is_expr (t ∷ _) = tok_type t == 0x0001

  -- The masks: after OP1 VFN|FN|LPAR|RCONST|SOLVAL, after TOPSTK, OP3, OP2, COM, LPAR, VFN and FN
  -- also OP1, after an operand and RPAR EOI|RPAR|OP1|OP2|OP3.
  unfoldable pub detect_error : TokStr F → Stack F → Bool
  detect_error input [] = true
  detect_error input (top ∷ below) =
      let code = tok_type top in
      if code == 0x0002
      then (if not_type_and input 0x01b8
          then (if tok_type input == 0x0002 then not (is_expr below) else true)
          else false)
      else if not (bit_and code 0x1a3c == 0)
      then not_type_and input 0x01ba
      else if not (bit_and code 0x21c1 == 0)
      then not_type_and input 0x0c46
      else not (code == 0x0400)

  unfoldable pub reduce_while : ℕ → TokStr F → Stack F → Settled F
  reduce_while zero input st = exhausted
  reduce_while (suc fuel) input st = elim (reduce input st) [
    | again input' st' ↦ reduce_while fuel input' st'
    | stop ↦ settled input st
    | fault ↦ faulted
  ]

  unfoldable pub settle : TokStr F → Stack F → Settled F
  settle input st = reduce_while (suc (suc (length st))) input st

  -- `stack[++st_pnt] = input_token`, where `fits` says whether the index is within the array.
  abbrev pub push : (ℕ → Bool) → Settled F → (Stack F → Outcome F) → Outcome F
  push fits (settled input st) next = if fits (length st) then next (input ∷ st) else crash
  push fits faulted next = crash
  push fits exhausted next = no_fuel

  -- The test after the loop: `stack[0 .. 2]` is TOPSTK, EXPR, EOI.
  unfoldable pub finish : Stack F → Outcome F
  finish (tok eoi ∷ expr t ∷ tok topstk ∷ []) = parsed t
  finish _ = grammar_error

  -- One turn of the loop.
  unfoldable pub feed : (ℕ → Bool) → TokStr F → Stack F → (Stack F → Outcome F) → Outcome F
  feed fits input st next =
      if detect_error input st then grammar_error else push fits (settle input st) next

  -- The loop, over the tokens that `lexical` returns before EOI.
  unfoldable pub run : (ℕ → Bool) → List (Label F) → Stack F → Outcome F
  run fits [] st = feed fits (tok eoi) st finish
  run fits (l ∷ ls) st = feed fits (tok l) st (run fits ls)

  -- STACK_DEPTH is 100.
  unfoldable pub parse_expr : List (Label F) → Outcome F
  parse_expr ls = run (λ n. ltb n 100) ls (tok topstk ∷ [])
