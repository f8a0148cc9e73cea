-- ===== src/Expr/Safety.antt =====
-- The whole loop of `parse_expr`: what its error test answers, and that it comes to an answer.
use tcad_webapp.Prelude.{
  ℕ, suc, ◌+◌, ◌≤◌, ◌<◌, ◌≡◌, refl, ◌≢◌, Bool, true, false, List, [], ◌∷◌, arith, length, lt→ltb,
  ltb, Bool-cases, inl, inr,
}
use tcad_webapp.Expr.Token.{Label, op1, op2, eoi, topstk, TokStr, expr, tok, Stack, tok_type}
use tcad_webapp.Expr.Parse.{
  Outcome, parsed, grammar_error, crash, no_fuel, detect_error, finish, feed, run, parse_expr,
}
use tcad_webapp.Expr.Progress.{IsBased, IsBased-push}
use tcad_webapp.Expr.Settle.{settle_rests}

module _ {F : Type 0} where
  -- Whatever token follows a token of a known type, the error test passes it.
  pub detect_error-false :
      (input top : TokStr F) (st : Stack F)
      → tok_type top ≢ 0
      → detect_error input (top ∷ st) ≡ false
  unfolding detect_error
  detect_error-false (expr t) top st h = ground (arith)
  detect_error-false (tok (op1 o)) top st h = ground (arith)
  detect_error-false (tok (op2 o)) top st h = ground (arith)
  detect_error-false _ top st h = ground (arith)

  -- The parser comes back with a tree or with its error message.
  abbrev pub IsAnswer : Outcome F → Type 0
  IsAnswer (parsed t) = Unit
  IsAnswer grammar_error = Unit
  IsAnswer crash = ⊥
  IsAnswer no_fuel = ⊥

  finish-IsAnswer : (st : Stack F) → IsAnswer (finish st)
  unfolding finish
  finish-IsAnswer (tok eoi ∷ expr t ∷ tok topstk ∷ []) = tt
  finish-IsAnswer _ = tt

  feed-IsAnswer :
      (fits : ℕ → Bool) (i : TokStr F) (st : Stack F) (next : Stack F → Outcome F)
      → IsBased st
      → ((k : ℕ) → k ≤ length st → fits k ≡ true)
      → ((st' : Stack F) → IsBased st' → length st' ≤ suc (length st) → IsAnswer (next st'))
      → IsAnswer (feed fits i st next)
  unfolding feed
  feed-IsAnswer fits i st next b room go = elim (Bool-cases (detect_error i st)) [
    | inl e ↦ rw e tt
    | inr e ↦
        let (i', st', r, s, b', l) = settle_rests i st b in
        rw (e, r, room (length st') l) (go (i' ∷ st') (IsBased-push i' st' b') (omega arith))
  ]

  run-IsAnswer :
      (fits : ℕ → Bool) (ls : List (Label F)) (st : Stack F)
      → IsBased st
      → ((k : ℕ) → k ≤ length st + length ls → fits k ≡ true)
      → IsAnswer (run fits ls st)
  unfolding run
  run-IsAnswer fits [] st b room =
      feed-IsAnswer fits (tok eoi) st finish b (λ k h. room k (omega arith))
        (λ st' _ _. finish-IsAnswer st')
  run-IsAnswer fits (l ∷ ls) st b room =
      feed-IsAnswer fits (tok l) st (run fits ls) b (λ k h. room k (omega arith))
        (λ st' b' h. run-IsAnswer fits ls st' b' (λ k p. room k (omega arith)))

  -- On fewer than 99 tokens the parser comes back: no null pointer is read, `stack` is not
  -- overrun, and the loops end.
  pub parse_expr-IsAnswer : (ls : List (Label F)) → length ls < 99 → IsAnswer (parse_expr ls)
  unfolding parse_expr
  parse_expr-IsAnswer ls h =
      run-IsAnswer (λ n. ltb n 100) ls (tok topstk ∷ []) refl (λ k p. lt→ltb k 100 (omega arith))
