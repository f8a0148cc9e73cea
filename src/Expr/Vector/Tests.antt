-- ===== src/Expr/Vector/Tests.antt =====
-- Vector expressions over two nodes, with whole numbers in the place of floats.
use tcad_webapp.Prelude.{
  ℕ, ◌-◌, ◌≡◌, inl, inr, refl, ltb, none, some, List, get_elem?, [], ◌∷◌, ◌==◌, if◌then◌else◌,
  arith,
}
use tcad_webapp.Expr.Token.{Ival, above, below, op1, solval, vfn, VecStr, null, node}
use tcad_webapp.Expr.Eval.{eval_real}
use tcad_webapp.Expr.Sample.{whole}
use tcad_webapp.Expr.Vector.{SolNode, Fields, VectorOps, stored, undefined, one_of}
use tcad_webapp.Expr.Vector.Run.{eval_vec}
use tcad_webapp.Expr.Vector.Points.{points}
use tcad_webapp.Expr.Vector.Pointwise.{HasValues, put_values, eval_vec-eval_real}
use tcad_webapp.Expr.Vector.Unread.{eval_vec-unread}

abbrev ops : VectorOps ℕ
ops = record {
  greater = λ x y. ltb y x;
  edges = λ i. record { other = 1 - i; cpl = 1; len = 1 } ∷ [];
  cord = λ i which. i;
  read_data = λ name column xs. xs;
  pseudo = λ s. s;
  derived = λ i s n. 0;
}

-- Boron is solution value 1 of two nodes.
abbrev two_nodes : Fields ℕ
two_nodes = record {
  nodes =
      record { sol = 7 ∷ 5 ∷ []; x = 1; y = 2 } ∷ record { sol = 8 ∷ 9 ∷ []; x = 3; y = 4 } ∷ [];
  imptosol = λ imp. if imp == 5 then some 1 else none;
}

-- x + boron.
abbrev left_side : VecStr ℕ
left_side = node (solval (below 1)) null null

abbrev right_side : VecStr ℕ
right_side = node (solval (above 5)) null null

abbrev second : List ℕ → ℕ
second [] = 0
second (a ∷ []) = 0
second (a ∷ (b ∷ s)) = b

abbrev held : Ival → SolNode ℕ → ℕ
held (above n) p = second p.sol
held (below n) p = p.x

sum-HasValues : HasValues two_nodes held (node (op1 b'+') left_side right_side)
unfolding one_of
sum-HasValues = (
  tt,
  (record { col = λ p. some p.x; is_column = refl; entries = (refl, (refl, tt)) }, tt, tt),
  (record { col = λ p. get_elem? p.sol 1; is_column = refl; entries = (refl, (refl, tt)) }, tt, tt),
)

eval_vec-eval_real_example : eval_vec whole ops (node (op1 b'+') left_side right_side) two_nodes ≡ (
  points
      (λ n. eval_real whole (put_values (λ i. held i n) (node (op1 b'+') left_side right_side)))
      two_nodes.nodes,
  two_nodes,
)
eval_vec-eval_real_example =
    eval_vec-eval_real whole ops (op1 b'+') left_side right_side two_nodes held sum-HasValues

sum_value :
    (eval_vec whole ops (node (op1 b'+') left_side right_side) two_nodes).0
    ≡ stored (some 6 ∷ some 12 ∷ [])
unfolding eval_vec
sum_value = refl

-- scale(x).
eval_vec-unread_example :
    eval_vec whole ops (node (vfn (above 3)) null left_side) two_nodes ≡ (undefined, two_nodes)
eval_vec-unread_example =
    eval_vec-unread whole ops 3 0 null left_side two_nodes (omega arith) (inr (inl refl, λ e. cc e))
