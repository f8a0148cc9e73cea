-- ===== src/Expr.antt =====
-- The expression parser and evaluator: SUPREM4GS/upstream/src/check and include/expr.h.
pub mod Token
pub mod Reduce
pub mod Parse
pub mod Grammar
pub mod Progress
pub mod Settle
pub mod Safety
pub mod Sound
pub mod Syntax
pub mod Context
pub mod Resume
pub mod Collapse
pub mod Complete
pub mod RoundTrip
pub mod Reject
pub mod Eval
pub mod Names
pub mod Lexical
pub mod Sample
pub mod Value
pub mod Vector
pub mod Arith
mod Tests
