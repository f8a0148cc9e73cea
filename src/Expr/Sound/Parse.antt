-- ===== src/Expr/Sound/Parse.antt =====
-- The reductions keep what the stack stands for, and so does the loop of `parse_expr`.
use mathlib.Core.List.{append_cancel_right}
use tcad_webapp.Prelude.{
  ℕ, zero, suc, ◌≡◌, refl, sym, ◌∙◌, ap, subst, Bool, List, [], ◌∷◌, ◌++◌, Bool-cases, inl, inr,
  append_assoc, length, ltb,
}
use tcad_webapp.Expr.Token.{
  Label, op1, op2, fn, vfn, solval, rconst, string, lpar, rpar, comma, eoi, topstk, VecStr, TokStr,
  expr, tok, Stack,
}
use tcad_webapp.Expr.Reduce.{Step, again, stop, fault, reduce_paren, reduce}
use tcad_webapp.Expr.Grammar.{Derives, operand, real, solution, text, scalar, vector}
use tcad_webapp.Expr.Parse.{
  Outcome, parsed, Settled, settled, faulted, exhausted, reduce_while, settle, push, detect_error,
  finish, feed, run, parse_expr,
}
use tcad_webapp.Expr.Sound.{
  whole, single, Spans, bottom, above, Read, Keeps, tree_of, word_of, pop_tok, pop_tree,
  reduce_expr-Keeps, reduce_binary-Keeps, reduce_op2-Keeps, call-Read, call_two-Read, paren-Read,
}

module _ {F : Type 0} where
  reduce_paren-Keeps :
      (st : Stack F) {us ws : List (Label F)}
      → Spans st us
      → us ++ (rpar ∷ []) ≡ ws
      → Keeps ws (reduce_paren st)
  unfolding reduce_paren
  reduce_paren-Keeps (expr r ∷ []) s e = tt
  reduce_paren-Keeps (expr r ∷ tok comma ∷ []) s e = tt
  reduce_paren-Keeps (expr r ∷ tok comma ∷ expr l ∷ []) s e = tt
  reduce_paren-Keeps (expr r ∷ tok comma ∷ expr l ∷ tok lpar ∷ []) s e = tt
  reduce_paren-Keeps (expr r ∷ tok comma ∷ expr l ∷ tok lpar ∷ tok (fn i) ∷ st) s e =
      call_two-Read (scalar i) s e
  reduce_paren-Keeps (expr r ∷ tok comma ∷ expr l ∷ tok lpar ∷ tok (vfn i) ∷ st) s e =
      call_two-Read (vector i) s e
  reduce_paren-Keeps (expr r ∷ tok comma ∷ expr l ∷ tok lpar ∷ f ∷ st) s e = tt
  reduce_paren-Keeps (expr r ∷ tok lpar ∷ []) s e = tt
  reduce_paren-Keeps (expr r ∷ tok lpar ∷ tok (fn i) ∷ st) s e = call-Read (scalar i) s e
  reduce_paren-Keeps (expr r ∷ tok lpar ∷ tok (vfn i) ∷ st) s e = call-Read (vector i) s e
  reduce_paren-Keeps (expr r ∷ tok lpar ∷ f ∷ st) s e = paren-Read s e
  reduce_paren-Keeps _ s e = tt

  reduce_tok-Keeps :
      (l : Label F) (st : Stack F) {us ws : List (Label F)}
      → Spans st us
      → us ++ (l ∷ []) ≡ ws
      → Keeps ws (reduce (tok l) st)
  unfolding reduce
  reduce_tok-Keeps (string t) st {us} s e =
      (us, string t ∷ [], s, whole (operand (string t) (text t)), e)
  reduce_tok-Keeps (rconst v) st {us} s e =
      (us, rconst v ∷ [], s, whole (operand (rconst v) (real v)), e)
  reduce_tok-Keeps (solval i) st {us} s e =
      (us, solval i ∷ [], s, whole (operand (solval i) (solution i)), e)
  reduce_tok-Keeps (op2 o) st s e = reduce_op2-Keeps o st s e
  reduce_tok-Keeps eoi st s e = reduce_binary-Keeps eoi st stop s e tt
  reduce_tok-Keeps (op1 o) st s e = reduce_binary-Keeps (op1 o) st stop s e tt
  reduce_tok-Keeps rpar st s e =
      reduce_binary-Keeps rpar st (reduce_paren st) s e (reduce_paren-Keeps st s e)
  reduce_tok-Keeps _ st s e = tt

  reduce-Keeps :
      (i : TokStr F) (st : Stack F) {ws : List (Label F)} → Read st i ws → Keeps ws (reduce i st)
  reduce-Keeps (expr t) st (us, ls, s, c, e) =
      unfold reduce in reduce_expr-Keeps t st s (tree_of c) e
  reduce-Keeps (tok l) st {ws} (us, ls, s, c, e) =
      reduce_tok-Keeps l st s (subst (λ x. us ++ x ≡ ws) (word_of c) e)

  abbrev Rest : List (Label F) → Settled F → Type 0
  Rest ws (settled i st) = Read st i ws
  Rest ws faulted = Unit
  Rest ws exhausted = Unit

  reduce_while-Rest :
      (f : ℕ) (i : TokStr F) (st : Stack F) {ws : List (Label F)}
      → Read st i ws
      → Rest ws (reduce_while f i st)
  unfolding reduce_while
  reduce_while-Rest zero i st r = tt
  reduce_while-Rest (suc f) i st {ws} r =
      after (reduce i st) (reduce-Keeps i st r) (λ i' st'. reduce_while-Rest f i' st')
    where
      after :
          (s : Step F)
          → Keeps ws s
          → ((i' : TokStr F) (st' : Stack F) → Read st' i' ws → Rest ws (reduce_while f i' st'))
          → Rest ws (elim s [
            | again i' st' ↦ reduce_while f i' st'
            | stop ↦ settled i st
            | fault ↦ faulted
          ])
      after (again i' st') k ih = ih i' st' k
      after stop k ih = r
      after fault k ih = tt

  settle-Rest :
      (i : TokStr F) (st : Stack F) {ws : List (Label F)} → Read st i ws → Rest ws (settle i st)
  unfolding settle
  settle-Rest i st r = reduce_while-Rest (suc (suc (length st))) i st r

  -- The stack after a token that did not stop the loop.
  feed-Spans :
      (fits : ℕ → Bool) (l : Label F) (st : Stack F) (next : Stack F → Outcome F)
      {us : List (Label F)} {t : VecStr F}
      → Spans st us
      → feed fits (tok l) st next ≡ parsed t
      → (st' : Stack F) × Spans st' (us ++ (l ∷ [])) × (next st' ≡ parsed t)
  unfolding feed
  feed-Spans fits l st next {us} {t} s e = elim (Bool-cases (detect_error (tok l) st)) [
    | inl d ↦ absurd (cc (rw d at e))
    | inr d ↦
        after (settle (tok l) st) (settle-Rest (tok l) st (us, l ∷ [], s, single l, refl))
          (rw d at e)
  ]
    where
      after :
          (r : Settled F)
          → Rest (us ++ (l ∷ [])) r
          → push fits r next ≡ parsed t
          → (st' : Stack F) × Spans st' (us ++ (l ∷ [])) × (next st' ≡ parsed t)
      after (settled i st') (vs, ls, s', c, q) h = elim (Bool-cases (fits (length st'))) [
        | inl b ↦ (i ∷ st', subst (Spans (i ∷ st')) q (above s' c), rw b at h)
        | inr b ↦ absurd (cc (rw b at h))
      ]
      after faulted k h = absurd (cc h)
      after exhausted k h = absurd (cc h)

  -- The tokens between the marks TOPSTK and EOI are derived.
  abbrev Framed : List (Label F) → VecStr F → Type 0
  Framed ws t = (vs : List (Label F)) × Derives vs t × (ws ≡ topstk ∷ (vs ++ (eoi ∷ [])))

  finish-Framed :
      (st : Stack F) {ws : List (Label F)} {t : VecStr F}
      → Spans st ws
      → finish st ≡ parsed t
      → Framed ws t
  unfolding finish
  finish-Framed (tok eoi ∷ expr r ∷ tok topstk ∷ []) {ws} s h =
      let (us, s1, e1) = pop_tok s in
      let (vs, ls, s2, d, e2) = pop_tree s1 in
      let (xs, s3, e3) = pop_tok s2 in
      let none_left : xs ≡ [] = Spans-nil s3 in
      (
        ls,
        subst (Derives ls) (cc h) d,
        sym e1
            ∙ ap (λ y. y ++ (eoi ∷ [])) (sym e2)
            ∙ ap (λ y. (y ++ ls) ++ (eoi ∷ [])) (sym e3)
            ∙ ap (λ y. ((y ++ (topstk ∷ [])) ++ ls) ++ (eoi ∷ [])) none_left,
      )
    where
      Spans-nil : {ys : List (Label F)} → Spans [] ys → ys ≡ []
      Spans-nil bottom = refl
  finish-Framed _ s h = absurd (cc h)

  run-Framed :
      (fits : ℕ → Bool) (ls : List (Label F)) (st : Stack F) {us : List (Label F)} {t : VecStr F}
      → Spans st us
      → run fits ls st ≡ parsed t
      → Framed (us ++ (ls ++ (eoi ∷ []))) t
  unfolding run
  run-Framed fits [] st s h =
      let (st', s', e) = feed-Spans fits eoi st finish s h in finish-Framed st' s' e
  run-Framed fits (l ∷ ls) st {us} {t} s h =
      let (st', s', e) = feed-Spans fits l st (run fits ls) s h in
      subst (λ w. Framed w t) (append_assoc us (l ∷ []) (ls ++ (eoi ∷ [])))
        (run-Framed fits ls st' s' e)

  -- A tree that `parse_expr` returns is one that the grammar derives from all of the tokens.
  pub parse_expr-Derives :
      (ls : List (Label F)) {t : VecStr F} → parse_expr ls ≡ parsed t → Derives ls t
  unfolding parse_expr
  parse_expr-Derives ls {t} h =
      let (vs, d, e) =
        run-Framed (λ n. ltb n 100) ls (tok topstk ∷ []) (above bottom (single topstk)) h in
      subst (λ w. Derives w t) (sym (append_cancel_right ls vs (eoi ∷ []) (cc e))) d
