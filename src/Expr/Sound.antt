-- ===== src/Expr/Sound.antt =====
-- Whatever `parse_expr` accepts is derived by the grammar.
pub mod Parse
use mathlib.Core.List.{append_assoc}
use tcad_webapp.Prelude.{
  ℕ, ◌≡◌, refl, sym, ◌∙◌, ap, subst, Bool, true, false, List, [], ◌∷◌, ◌++◌, Bool-cases, inl, inr,
  arith, ◌⊎◌,
}
use tcad_webapp.Expr.Token.{
  Label, op1, op2, op3, fn, vfn, solval, rconst, string, lpar, rpar, comma, eoi, topstk, blank,
  VecStr, null, node, TokStr, expr, tok, Stack,
}
use tcad_webapp.Expr.Reduce.{
  Step, again, stop, fault, expr_reduce, before_unary, is_function, reduce_expr, reduce_op2,
  reduce_binary, reduce_paren, reduce,
}
use tcad_webapp.Expr.Grammar.{
  Derives, operand, unary, binary, paren, call, call_two, real, solution, text, sum, product, power,
  IsBinary, IsFunction, scalar, vector,
}

module _ {F : Type 0} where
  -- The tokens that an entry of the stack stands for.
  pub data Covers : TokStr F → List (Label F) → Type 0 where
    whole : {t : VecStr F} {ls : List (Label F)} → Derives ls t → Covers (expr t) ls
    single : (l : Label F) → Covers (tok l) (l ∷ [])

  -- The tokens that the whole stack stands for.
  pub data Spans : Stack F → List (Label F) → Type 0 where
    bottom : Spans [] []
    above :
        {st : Stack F} {t : TokStr F} {us ls : List (Label F)}
        → Spans st us
        → Covers t ls
        → Spans (t ∷ st) (us ++ ls)

  -- The tokens of the stack and of the input token after it.
  abbrev pub Read : Stack F → TokStr F → List (Label F) → Type 0
  Read st i ws =
      (us : List (Label F)) × (ls : List (Label F)) × Spans st us × Covers i ls × (us ++ ls ≡ ws)

  abbrev pub Keeps : List (Label F) → Step F → Type 0
  Keeps ws fault = Unit
  Keeps ws stop = Unit
  Keeps ws (again i st) = Read st i ws

  pub uncons :
      {t : TokStr F} {st : Stack F} {ws : List (Label F)}
      → Spans (t ∷ st) ws
      → (us : List (Label F)) × (ls : List (Label F)) × Spans st us × Covers t ls × (us ++ ls ≡ ws)
  uncons (above {us} {ls} s c) = (us, ls, s, c, refl)

  pub tree_of : {t : VecStr F} {ls : List (Label F)} → Covers (expr t) ls → Derives ls t
  tree_of (whole d) = d

  pub word_of : {l : Label F} {ls : List (Label F)} → Covers (tok l) ls → ls ≡ l ∷ []
  word_of (single l) = refl

  pub pop_tok :
      {l : Label F} {st : Stack F} {ws : List (Label F)}
      → Spans (tok l ∷ st) ws
      → (us : List (Label F)) × Spans st us × (us ++ (l ∷ []) ≡ ws)
  pop_tok {l} s = let (us, ls, s', c, e) = uncons s in (us, s', rw (← word_of c) e)

  pub pop_tree :
      {t : VecStr F} {st : Stack F} {ws : List (Label F)}
      → Spans (expr t ∷ st) ws
      → (us : List (Label F)) × (ls : List (Label F)) × Spans st us × Derives ls t × (us ++ ls ≡ ws)
  pop_tree s = let (us, ls, s', c, e) = uncons s in (us, ls, s', tree_of c, e)

  -- A tree, an operator and a tree become one tree.
  join :
      {o : Label F} {l r : VecStr F} {st : Stack F} {us rs : List (Label F)}
      → IsBinary o
      → Spans (tok o ∷ expr l ∷ st) us
      → Derives rs r
      → (vs : List (Label F)) × (ls : List (Label F)) × Spans st vs
        × Derives ls (node o l r)
        × (vs ++ ls ≡ us ++ rs)
  join {o} {rs} b s d =
      let (vs, s', e) = pop_tok s in
      let (ws, ls, s'', dl, e') = pop_tree s' in
      (ws, ls ++ (o ∷ rs), s'', binary b dl d, rw (← e, ← e') (simp append_assoc))

  -- The same below the input token.
  join_below :
      {o : Label F} {l r : VecStr F} {st : Stack F} {us : List (Label F)}
      → IsBinary o
      → Spans (expr r ∷ tok o ∷ expr l ∷ st) us
      → Spans (expr (node o l r) ∷ st) us
  join_below b s =
      let (vs, rs, s', d, e) = pop_tree s in
      let (ws, ls, s'', d', e') = join b s' d in subst (Spans _) (e' ∙ e) (above s'' (whole d'))

  pub reduce_expr-Keeps :
      (t : VecStr F) (st : Stack F) {ls us ws : List (Label F)}
      → Spans st us
      → Derives ls t
      → us ++ ls ≡ ws
      → Keeps ws (reduce_expr t st)
  unfolding reduce_expr
  reduce_expr-Keeps t (tok (op1 o) ∷ []) s d e = tt
  reduce_expr-Keeps t (tok (op1 o) ∷ prev ∷ st) {ls} s d e = elim (Bool-cases (before_unary prev)) [
    | inl p ↦
        let (us, s', e') = pop_tok s in
        rw p (us, op1 o ∷ ls, s', whole (unary o d), rw (← e, ← e') (simp append_assoc))
    | inr p ↦ rw p tt
  ]
  reduce_expr-Keeps t (tok (op3 o) ∷ []) s d e = tt
  reduce_expr-Keeps t (tok (op3 o) ∷ expr l ∷ st) s d e =
      let (us, ls, s', d', e') = join (power o) s d in (us, ls, s', whole d', e' ∙ e)
  reduce_expr-Keeps t _ s d e = tt

  module _ (i : Label F) {ws : List (Label F)} where
    keep_input :
        {st : Stack F} {us : List (Label F)}
        → Spans st us
        → us ++ (i ∷ []) ≡ ws
        → Read st (tok i) ws
    keep_input {us} s e = (us, i ∷ [], s, single i, e)

    pub reduce_binary-Keeps :
        (st : Stack F) (rest : Step F) {us : List (Label F)}
        → Spans st us
        → us ++ (i ∷ []) ≡ ws
        → Keeps ws rest
        → Keeps ws (reduce_binary (tok i) st rest)
    unfolding reduce_binary
    reduce_binary-Keeps (expr r ∷ []) rest s e k = tt
    reduce_binary-Keeps (expr r ∷ tok (op1 o) ∷ []) rest s e k = tt
    reduce_binary-Keeps (expr r ∷ tok (op2 o) ∷ []) rest s e k = tt
    reduce_binary-Keeps (expr r ∷ tok (op1 o) ∷ expr l ∷ st) rest s e k =
        keep_input (join_below (sum o) s) e
    reduce_binary-Keeps (expr r ∷ tok (op2 o) ∷ expr l ∷ st) rest s e k =
        keep_input (join_below (product o) s) e
    reduce_binary-Keeps _ rest s e k = k

  pub reduce_op2-Keeps :
      (i : ℕ) (st : Stack F) {us ws : List (Label F)}
      → Spans st us
      → us ++ (op2 i ∷ []) ≡ ws
      → Keeps ws (reduce_op2 (tok (op2 i)) st)
  unfolding reduce_op2
  reduce_op2-Keeps i (expr r ∷ []) s e = tt
  reduce_op2-Keeps i (expr r ∷ tok (op2 o) ∷ []) s e = tt
  reduce_op2-Keeps i (expr r ∷ tok (op2 o) ∷ expr l ∷ st) s e =
      keep_input (op2 i) (join_below (product o) s) e
  reduce_op2-Keeps i _ s e = tt

  -- A call with one argument, and parentheses.
  pub call-Read :
      {f : Label F} {r : VecStr F} {st : Stack F} {us ws : List (Label F)}
      → IsFunction f
      → Spans (expr r ∷ tok lpar ∷ tok f ∷ st) us
      → us ++ (rpar ∷ []) ≡ ws
      → Read st (expr (node f null r)) ws
  call-Read {f} fun s e =
      let (vs, ls, s1, d, e1) = pop_tree s in
      let (vs2, s2, e2) = pop_tok s1 in
      let (vs3, s3, e3) = pop_tok s2 in
      (
        vs3,
        f ∷ lpar ∷ (ls ++ (rpar ∷ [])),
        s3,
        whole (call fun d),
        rw (← e, ← e1, ← e2, ← e3) (simp append_assoc),
      )

  pub call_two-Read :
      {f : Label F} {l r : VecStr F} {st : Stack F} {us ws : List (Label F)}
      → IsFunction f
      → Spans (expr r ∷ tok comma ∷ expr l ∷ tok lpar ∷ tok f ∷ st) us
      → us ++ (rpar ∷ []) ≡ ws
      → Read st (expr (node f l r)) ws
  call_two-Read {f} fun s e =
      let (vs, rs, s1, d, e1) = pop_tree s in
      let (vs2, s2, e2) = pop_tok s1 in
      let (vs3, ls, s3, d', e3) = pop_tree s2 in
      let (vs4, s4, e4) = pop_tok s3 in
      let (vs5, s5, e5) = pop_tok s4 in
      (
        vs5,
        f ∷ lpar ∷ (ls ++ (comma ∷ (rs ++ (rpar ∷ [])))),
        s5,
        whole (call_two fun d' d),
        rw (← e, ← e1, ← e2, ← e3, ← e4, ← e5) (simp append_assoc),
      )

  pub paren-Read :
      {r : VecStr F} {st : Stack F} {us ws : List (Label F)}
      → Spans (expr r ∷ tok lpar ∷ st) us
      → us ++ (rpar ∷ []) ≡ ws
      → Read st (expr r) ws
  paren-Read s e =
      let (vs, ls, s1, d, e1) = pop_tree s in
      let (vs2, s2, e2) = pop_tok s1 in
      (
        vs2,
        lpar ∷ (ls ++ (rpar ∷ [])),
        s2,
        whole (paren d),
        rw (← e, ← e1, ← e2) (simp append_assoc),
      )
