-- ===== src/Expr/Grammar.antt =====
-- The grammar that the head comments of check/parse.c, check/reduce.c and check/eval.c give.
use tcad_webapp.Prelude.{ℕ, List, [], ◌∷◌, ◌++◌}
use tcad_webapp.Expr.Token.{
  Label, Ival, op1, op2, op3, fn, vfn, solval, rconst, string, lpar, rpar, comma, VecStr, null,
  node,
}

-- What stands for one operand.
pub data IsOperand {F : Type 0} : Label F → Type 0 where
  real : (v : F) → IsOperand (rconst v)
  solution : (i : Ival) → IsOperand (solval i)
  text : (s : List ℕ) → IsOperand (string s)

pub data IsBinary {F : Type 0} : Label F → Type 0 where
  sum : (c : ℕ) → IsBinary (op1 c)
  product : (c : ℕ) → IsBinary (op2 c)
  power : (c : ℕ) → IsBinary (op3 c)

pub data IsFunction {F : Type 0} : Label F → Type 0 where
  scalar : (i : Ival) → IsFunction (fn i)
  vector : (i : Ival) → IsFunction (vfn i)

-- The ambiguous grammar: the tokens on the left may be read as the tree on the right.
pub data Derives {F : Type 0} : List (Label F) → VecStr F → Type 0 where
  operand : (l : Label F) → IsOperand l → Derives (l ∷ []) (node l null null)
  unary :
      (c : ℕ) {ls : List (Label F)} {t : VecStr F}
      → Derives ls t
      → Derives (op1 c ∷ ls) (node (op1 c) null t)
  binary :
      {o : Label F} {ls rs : List (Label F)} {l r : VecStr F}
      → IsBinary o
      → Derives ls l
      → Derives rs r
      → Derives (ls ++ (o ∷ rs)) (node o l r)
  paren :
      {ls : List (Label F)} {t : VecStr F} → Derives ls t → Derives (lpar ∷ (ls ++ (rpar ∷ []))) t
  call :
      {f : Label F} {ls : List (Label F)} {t : VecStr F}
      → IsFunction f
      → Derives ls t
      → Derives (f ∷ lpar ∷ (ls ++ (rpar ∷ []))) (node f null t)
  call_two :
      {f : Label F} {ls rs : List (Label F)} {l r : VecStr F}
      → IsFunction f
      → Derives ls l
      → Derives rs r
      → Derives (f ∷ lpar ∷ (ls ++ (comma ∷ (rs ++ (rpar ∷ []))))) (node f l r)
