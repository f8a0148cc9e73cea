-- ===== src/Expr/Settle.antt =====
-- The loop `while (reduce());`: it ends, and it may be followed one reduction at a time.
use tcad_webapp.Prelude.{ℕ, zero, suc, ◌≤◌, ◌<◌, ◌≡◌, refl, ◌⊎◌, inl, inr, subst, arith, length}
use tcad_webapp.Expr.Token.{TokStr, Stack}
use tcad_webapp.Expr.Reduce.{Step, again, stop, fault, reduce}
use tcad_webapp.Expr.Parse.{Settled, settled, reduce_while, settle}
use tcad_webapp.Expr.Progress.{IsBased, weight, Safe, reduce-Safe}

module _ {F : Type 0} where
  -- What `reduce` may answer above the bottom mark.
  Step-cases :
      (r : Step F) → (r ≡ stop) ⊎ (r ≡ fault) ⊎ ((i : TokStr F) × (st : Stack F) × (r ≡ again i st))
  Step-cases stop = inl refl
  Step-cases fault = inr (inl refl)
  Step-cases (again i st) = inr (inr (i, st, refl))

  abbrev Moves : TokStr F → Stack F → Type 0
  Moves i st =
      (i' : TokStr F) × (st' : Stack F) × (reduce i st ≡ again i' st')
      × IsBased st'
      × (weight i' st' < weight i st)
      × (length st' ≤ length st)

  reduce-cases : (i : TokStr F) (st : Stack F) → IsBased st → (reduce i st ≡ stop) ⊎ Moves i st
  reduce-cases i st h = elim (Step-cases (reduce i st)) [
    | inl e ↦ inl e
    | inr (inl e) ↦ absurd (subst (Safe i st) e (reduce-Safe i st h))
    | inr (inr (i', st', e)) ↦
        let (b, w, l) = subst (Safe i st) e (reduce-Safe i st h) in inr (i', st', e, b, w, l)
  ]

  -- Two amounts of fuel above the weight give the same.
  reduce_while_enough :
      (f g : ℕ) (i : TokStr F) (st : Stack F)
      → IsBased st
      → weight i st < f
      → weight i st < g
      → reduce_while f i st ≡ reduce_while g i st
  unfolding reduce_while
  reduce_while_enough zero g i st b p q = elim p [ ]
  reduce_while_enough (suc f) zero i st b p q = elim q [ ]
  reduce_while_enough (suc f) (suc g) i st b p q = elim (reduce-cases i st b) [
    | inl e ↦ rw (e, reduce_while)
    | inr (i', st', e, b', w, l) ↦
        rw (e, reduce_while) (reduce_while_enough f g i' st' b' (omega arith) (omega arith))
  ]

  weight-le : (i : TokStr F) (st : Stack F) → weight i st ≤ suc (length st)
  weight-le (TokStr.expr t) st = omega arith
  weight-le (TokStr.tok l) st = omega arith

  pub settle-again :
      (i : TokStr F) (st : Stack F) {i' : TokStr F} {st' : Stack F}
      → IsBased st
      → reduce i st ≡ again i' st'
      → settle i st ≡ settle i' st'
  unfolding settle reduce_while
  settle-again i st {i'} {st'} b e =
      let (b', w, l) = subst (Safe i st) e (reduce-Safe i st b) in
      rw (e, reduce_while)
        (reduce_while_enough (suc (length st)) (suc (suc (length st'))) i' st' b'
          (omega (arith, weight-le i st)) (omega (arith, weight-le i' st')))

  pub settle-stop : (i : TokStr F) (st : Stack F) → reduce i st ≡ stop → settle i st ≡ settled i st
  unfolding settle reduce_while
  settle-stop i st e = rw (e, reduce_while)

  abbrev Rests : TokStr F → Stack F → Settled F → Type 0
  Rests i st r =
      (i' : TokStr F) × (st' : Stack F) × (r ≡ settled i' st')
      × (reduce i' st' ≡ stop)
      × IsBased st'
      × (length st' ≤ length st)

  reduce_while-Rests :
      (f : ℕ) (i : TokStr F) (st : Stack F)
      → IsBased st
      → weight i st < f
      → Rests i st (reduce_while f i st)
  unfolding reduce_while
  reduce_while-Rests zero i st b p = elim p [ ]
  reduce_while-Rests (suc f) i st b p = elim (reduce-cases i st b) [
    | inl e ↦ (i, st, (rw (e, reduce_while)), e, b, omega arith)
    | inr (i', st', e, b', w, l) ↦
        let (i'', st'', r, s, b'', l') = reduce_while-Rests f i' st' b' (omega arith) in
        (i'', st'', (rw (e, reduce_while) r), s, b'', omega arith)
  ]

  -- Above the bottom mark the loop ends without a fault, where no reduction is possible, and the
  -- stack is no longer than before.
  pub settle_rests :
      (i : TokStr F) (st : Stack F)
      → IsBased st
      → (i' : TokStr F) × (st' : Stack F) × (settle i st ≡ settled i' st')
        × (reduce i' st' ≡ stop)
        × IsBased st'
        × (length st' ≤ length st)
  unfolding settle
  settle_rests i st b =
      reduce_while-Rests (suc (suc (length st))) i st b (omega (arith, weight-le i st))
