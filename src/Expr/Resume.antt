-- ===== src/Expr/Resume.antt =====
-- The loop of `parse_expr` with no bound on the stack, one token and one reduction at a time.
use tcad_webapp.Prelude.{
  ℕ, ◌+◌, ◌≤◌, ◌≡◌, refl, ◌∙◌, Bool, true, false, List, [], ◌∷◌, Bool-cases, inl, inr, arith,
  length,
}
use tcad_webapp.Expr.Token.{
  Label, fn, vfn, lpar, rpar, comma, eoi, VecStr, null, node, TokStr, expr, tok, Stack,
}
use tcad_webapp.Expr.Reduce.{again, stop, reduce}
use tcad_webapp.Expr.Grammar.{IsOperand, real, solution, text, IsFunction, scalar, vector}
use tcad_webapp.Expr.Parse.{Outcome, detect_error, settle, push, feed, run}
use tcad_webapp.Expr.Progress.{IsBased, IsBased-push}
use tcad_webapp.Expr.Settle.{settle-again, settle-stop, settle_rests}
use tcad_webapp.Expr.Safety.{detect_error-false}

-- The array is never full.
abbrev pub boundless : ℕ → Bool
boundless n = true

module _ {F : Type 0} where
  -- The reductions of an input token, its push, and the tokens that follow.
  unfoldable pub resume : TokStr F → List (Label F) → Stack F → Outcome F
  resume i ls st = push boundless (settle i st) (run boundless ls)

  pub resume-again :
      (i : TokStr F) (ls : List (Label F)) (st : Stack F) {i' : TokStr F} {st' : Stack F}
      → IsBased st
      → reduce i st ≡ again i' st'
      → resume i ls st ≡ resume i' ls st'
  unfolding resume
  resume-again i ls st b e = rw (settle-again i st b e)

  pub resume-stop :
      (i : TokStr F) (ls : List (Label F)) (st : Stack F)
      → reduce i st ≡ stop
      → resume i ls st ≡ run boundless ls (i ∷ st)
  unfolding resume
  resume-stop i ls st e = rw (settle-stop i st e)

  pub run-resume :
      (l : Label F) (ls : List (Label F)) (st : Stack F)
      → detect_error (tok l) st ≡ false
      → run boundless (l ∷ ls) st ≡ resume (tok l) ls st
  unfolding run feed resume
  run-resume l ls st e = rw e

  -- A token that is pushed as it is.
  pub run-push :
      (l : Label F) (ls : List (Label F)) (st : Stack F)
      → detect_error (tok l) st ≡ false
      → reduce (tok l) st ≡ stop
      → run boundless (l ∷ ls) st ≡ run boundless ls (tok l ∷ st)
  run-push l ls st e s = run-resume l ls st e ∙ resume-stop (tok l) ls st s

  -- After an expression and after the tokens before an argument.
  pub known_expr :
      (i : TokStr F) (t : VecStr F) (st : Stack F) → detect_error i (expr t ∷ st) ≡ false
  known_expr i t st = detect_error-false i (expr t) st (λ e. cc)

  pub reduce-operand :
      (l : Label F) (st : Stack F)
      → IsOperand l
      → reduce (tok l) st ≡ again (expr (node l null null)) st
  unfolding reduce
  reduce-operand l st (real v) = refl
  reduce-operand l st (solution i) = refl
  reduce-operand l st (text s) = refl

  pub reduce-function : (l : Label F) (st : Stack F) → IsFunction l → reduce (tok l) st ≡ stop
  unfolding reduce
  reduce-function l st (scalar i) = refl
  reduce-function l st (vector i) = refl

  pub known_function :
      (i : TokStr F) (f : Label F) (st : Stack F)
      → IsFunction f
      → detect_error i (tok f ∷ st) ≡ false
  known_function i f st (scalar n) = detect_error-false i (tok (fn n)) st (λ e. cc)
  known_function i f st (vector n) = detect_error-false i (tok (vfn n)) st (λ e. cc)

  pub reduce-call :
      (f : Label F) (t : VecStr F) (st : Stack F)
      → IsFunction f
      → reduce (tok rpar) (expr t ∷ tok lpar ∷ tok f ∷ st) ≡ again (expr (node f null t)) st
  unfolding reduce
  reduce-call f t st (scalar i) = refl
  reduce-call f t st (vector i) = refl

  pub reduce-call_two :
      (f : Label F) (t u : VecStr F) (st : Stack F)
      → IsFunction f
      → reduce (tok rpar) (expr u ∷ tok comma ∷ expr t ∷ tok lpar ∷ tok f ∷ st)
        ≡ again (expr (node f t u)) st
  unfolding reduce
  reduce-call_two f t u st (scalar i) = refl
  reduce-call_two f t u st (vector i) = refl

  -- Where every index that is reached fits, the bound does not show.
  pub run-boundless :
      (fits : ℕ → Bool) (ls : List (Label F)) (st : Stack F)
      → IsBased st
      → ((k : ℕ) → k ≤ length st + length ls → fits k ≡ true)
      → run fits ls st ≡ run boundless ls st
  unfolding run feed
  run-boundless fits [] st b room = elim (Bool-cases (detect_error (tok eoi) st)) [
    | inl e ↦ rw e
    | inr e ↦
        let (i', st', r, s, b', l) = settle_rests (tok eoi) st b in
        rw (e, r, room (length st') (omega arith))
  ]
  run-boundless fits (l ∷ ls) st b room = elim (Bool-cases (detect_error (tok l) st)) [
    | inl e ↦ rw e
    | inr e ↦
        let (i', st', r, s, b', q) = settle_rests (tok l) st b in
        rw (e, r, room (length st') (omega arith))
          (run-boundless fits ls (i' ∷ st') (IsBased-push i' st' b') (λ k p. room k (omega arith)))
  ]
