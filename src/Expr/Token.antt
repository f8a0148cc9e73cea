-- ===== src/Expr/Token.antt =====
-- The tokens and the parse trees of the expression parser: include/expr.h.
use tcad_webapp.Prelude.{ℕ, Option, none, some, List}

-- The `ival` of a function or of a solution value, which may be negative: `below n` is -(n + 1).
pub data Ival : Type 0 where
  above : ℕ → Ival
  below : ℕ → Ival

-- `type` and `value` of a token or of a tree node, but for the type EXPR. An operator carries its
-- character. `blank` is type 0, what `calloc` leaves. `F` stands for `float`.
pub data Label (F : Type 0) : Type 0 where
  op1 op2 op3 : ℕ → Label F
  fn vfn solval : Ival → Label F
  rconst : F → Label F
  string : List ℕ → Label F
  lpar rpar comma eoi topstk blank : Label F

-- `struct vec_str *`: a node holds its label, `left` and `right`.
pub data VecStr (F : Type 0) : Type 0 where
  null : VecStr F
  node : Label F → VecStr F → VecStr F → VecStr F

-- `struct tok_str`: of type EXPR with a tree, or of another type.
pub data TokStr (F : Type 0) : Type 0 where
  expr : VecStr F → TokStr F
  tok : Label F → TokStr F

-- `stack[0 .. st_pnt]`, the top of the stack first.
abbrev pub Stack : Type 0 → Type 0
Stack F = List (TokStr F)

module _ {F : Type 0} where
  -- The bit masks of the token types.
  abbrev pub label_type : Label F → ℕ
  label_type (op1 _) = 0x0002
  label_type (op2 _) = 0x0004
  label_type (op3 _) = 0x0800
  label_type (fn _) = 0x0008
  label_type (vfn _) = 0x0010
  label_type (solval _) = 0x0100
  label_type (rconst _) = 0x0080
  label_type (string _) = 0x2000
  label_type lpar = 0x0020
  label_type rpar = 0x0040
  label_type comma = 0x1000
  label_type eoi = 0x0400
  label_type topstk = 0x0200
  label_type blank = 0

  abbrev pub tok_type : TokStr F → ℕ
  tok_type (expr _) = 0x0001
  tok_type (tok l) = label_type l

  -- `value.bval`, where the token holds a tree.
  abbrev pub bval : Option (TokStr F) → Option (VecStr F)
  bval (some (expr t)) = some t
  bval _ = none
