-- ===== src/Expr/Value.antt =====
-- What `eval_real` computes of a parsed expression.
use tcad_webapp.Prelude.{
  ℕ, ◌≡◌, refl, ◌⊎◌, inl, inr, Bool, true, false, none, some, List, [], ◌∷◌, ◌++◌, arith,
}
use tcad_webapp.Expr.Token.{Ival, above, below, Label, op1, op2, op3, fn, vfn, rpar, comma, VecStr}
use tcad_webapp.Expr.Grammar.{
  real, solution, text, IsBinary, sum, product, power, scalar, vector, Derives, operand, unary,
  binary, paren, call, call_two,
}
use tcad_webapp.Expr.Parse.{parsed, parse_expr}
use tcad_webapp.Expr.Sound.Parse.{parse_expr-Derives}
use tcad_webapp.Expr.Eval.{
  Reals, Evaluated, written, failed, undefined, and_then, is_null, eval_function, eval_node,
  eval_kid, eval_real,
}

-- The operator characters that `single_char` makes tokens of.
abbrev pub IsLexed : {F : Type 0} → Label F → Type 0
IsLexed (op1 c) = (c ≡ b'+') ⊎ (c ≡ b'-')
IsLexed (op2 c) = (c ≡ b'*') ⊎ (c ≡ b'/')
IsLexed (op3 c) = c ≡ b'^'
IsLexed _ = Unit

abbrev pub AllLexed : {F : Type 0} → List (Label F) → Type 0
AllLexed [] = Unit
AllLexed (l ∷ ls) = IsLexed l × AllLexed ls

AllLexed-append :
    {F : Type 0} (xs ys : List (Label F)) → AllLexed (xs ++ ys) → AllLexed xs × AllLexed ys
AllLexed-append [] ys h = (tt, h)
AllLexed-append (x ∷ xs) ys h = let (a, b) = AllLexed-append xs ys h.1 in ((h.0, a), b)

-- The evaluation assigns `*val`, or returns one of its messages.
abbrev pub IsDefined : {F : Type 0} → Evaluated F → Type 0
IsDefined (written (some v)) = Unit
IsDefined (written none) = ⊥
IsDefined (failed e) = Unit
IsDefined undefined = ⊥

module _ (r : Reals) where
  open r use {F}

  Derives-node :
      {ls : List (Label F)} (t : VecStr F)
      → Derives ls t
      → (is_null t ≡ false) × (eval_real r t ≡ eval_kid r t)
  unfolding eval_real
  Derives-node t (operand l o) = (refl, refl)
  Derives-node t (unary c d) = (refl, refl)
  Derives-node t (binary o d e) = (refl, refl)
  Derives-node t (paren d) = Derives-node t d
  Derives-node t (call f d) = (refl, refl)
  Derives-node t (call_two f d e) = (refl, refl)

  -- A function of one argument, present.
  one_value :
      (l : Label F) (no_left : Bool) (v : Evaluated F)
      → IsDefined v
      → ((w : F) → IsDefined (eval_node r l no_left false none (some w)))
      → IsDefined (and_then v (λ rval. eval_node r l no_left false none rval))
  one_value l no_left (written (some w)) h k = k w
  one_value l no_left (written none) h k = absurd h
  one_value l no_left (failed e) h k = tt
  one_value l no_left undefined h k = absurd h

  two_values :
      (l : Label F) (u v : Evaluated F)
      → IsDefined u
      → IsDefined v
      → ((w x : F) → IsDefined (eval_node r l false false (some w) (some x)))
      → IsDefined (and_then u λ lval. and_then v λ rval. eval_node r l false false lval rval)
  two_values l (written (some w)) (written (some x)) h k f = f w x
  two_values l (written (some w)) (written none) h k f = absurd k
  two_values l (written (some w)) (failed e) h k f = tt
  two_values l (written (some w)) undefined h k f = absurd k
  two_values l (written none) v h k f = absurd h
  two_values l (failed e) v h k f = tt
  two_values l undefined v h k f = absurd h

  sign-IsDefined :
      (c : ℕ) (w : F)
      → (c ≡ b'+') ⊎ (c ≡ b'-')
      → IsDefined (eval_node r (op1 c) true false none (some w))
  unfolding eval_node
  sign-IsDefined c w (inl e) = rw e tt
  sign-IsDefined c w (inr e) = rw e tt

  binary-IsDefined :
      (l : Label F) (w x : F)
      → IsBinary l
      → IsLexed l
      → IsDefined (eval_node r l false false (some w) (some x))
  unfolding eval_node
  binary-IsDefined l w x (sum c) (inl e) = rw e tt
  binary-IsDefined l w x (sum c) (inr e) = rw e tt
  binary-IsDefined l w x (product c) (inl e) = rw e tt
  binary-IsDefined l w x (product c) (inr e) = rw e tt
  binary-IsDefined l w x (power c) e = rw e tt

  one-IsDefined : (i : Ival) (w : F) → IsDefined (eval_function r i true none (some w))
  unfolding eval_function
  one-IsDefined (above n) w = ground arith
  one-IsDefined (below n) w = ground arith

  two-IsDefined : (i : Ival) (w x : F) → IsDefined (eval_function r i false (some w) (some x))
  unfolding eval_function
  two-IsDefined (above n) w x = ground arith
  two-IsDefined (below n) w x = ground arith

  kid-IsDefined :
      {ls : List (Label F)} (t : VecStr F) → Derives ls t → AllLexed ls → IsDefined (eval_kid r t)
  unfolding eval_kid
  kid-IsDefined t (operand l (real v)) h = tt
  kid-IsDefined t (operand l (solution i)) h = tt
  kid-IsDefined t (operand l (text s)) h = tt
  kid-IsDefined t (unary c {t = u} d) h =
      one_value (op1 c) true (eval_kid r u) (kid-IsDefined u d h.1) (λ w. sign-IsDefined c w h.0)
  kid-IsDefined t (binary {o} {ls} {rs} {l} {r = u} b d e) h =
      let (p, q) = AllLexed-append ls (o ∷ rs) h in
      rw ((Derives-node l d).0, (Derives-node u e).0)
        (two_values o (eval_kid r l) (eval_kid r u) (kid-IsDefined l d p) (kid-IsDefined u e q.1)
          (λ w x. binary-IsDefined o w x b q.0))
  kid-IsDefined t (paren {ls} d) h = kid-IsDefined t d (AllLexed-append ls (rpar ∷ []) h.1).0
  kid-IsDefined t (call {ls} {t = u} (scalar i) d) h =
      one_value (fn i) true (eval_kid r u)
        (kid-IsDefined u d (AllLexed-append ls (rpar ∷ []) h.1.1).0) (one-IsDefined i)
  kid-IsDefined t (call {ls} {t = u} (vector i) d) h =
      one_value (vfn i) true (eval_kid r u)
        (kid-IsDefined u d (AllLexed-append ls (rpar ∷ []) h.1.1).0) (λ w. tt)
  kid-IsDefined t (call_two {ls} {rs} {l} {r = u} (scalar i) d e) h =
      let (p, q) = AllLexed-append ls (comma ∷ (rs ++ (rpar ∷ []))) h.1.1 in
      rw ((Derives-node l d).0, (Derives-node u e).0)
        (two_values (fn i) (eval_kid r l) (eval_kid r u) (kid-IsDefined l d p)
          (kid-IsDefined u e (AllLexed-append rs (rpar ∷ []) q.1).0) (two-IsDefined i))
  kid-IsDefined t (call_two {ls} {rs} {l} {r = u} (vector i) d e) h =
      let (p, q) = AllLexed-append ls (comma ∷ (rs ++ (rpar ∷ []))) h.1.1 in
      two_values (vfn i) (eval_kid r l) (eval_kid r u) (kid-IsDefined l d p)
        (kid-IsDefined u e (AllLexed-append rs (rpar ∷ []) q.1).0) (λ w x. tt)

  -- Evaluating what `parse_expr` returned, from tokens with the operator characters of the lexer,
  -- ends with `*val` assigned or with a message: no unassigned variable and no null pointer is
  -- read.
  pub eval_real-IsDefined :
      (ls : List (Label F)) {t : VecStr F}
      → AllLexed ls
      → parse_expr ls ≡ parsed t
      → IsDefined (eval_real r t)
  eval_real-IsDefined ls {t} h e =
      let d = parse_expr-Derives ls e in rw ((Derives-node t d).1) (kid-IsDefined t d h)
