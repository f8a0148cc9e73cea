-- ===== src/Expr/Vector/Kernels.antt =====
-- The loops of eval_vec give at each node what eval_real gives.
use tcad_webapp.Prelude.{
  ℕ, ◌≡◌, ◌≤◌, refl, Bool, true, false, ◌||◌, Option, none, some, List, ◌∷◌, map, ◌==◌,
  if◌then◌else◌, arith,
}
use tcad_webapp.Expr.Token.{
  above, below, Label, op1, op2, op3, fn, vfn, solval, rconst, string, lpar, rpar, comma, eoi,
  topstk, blank,
}
use tcad_webapp.Expr.Eval.{Reals, written, with_value, with_values, eval_function, eval_node}
use tcad_webapp.Expr.Vector.{SolNode, VectorOps, stored, each_entry, each_pair, fresh_array}
use tcad_webapp.Expr.Vector.Run.{vec_function, eval_entries}
use tcad_webapp.Expr.Vector.Points.{add_point, Kernel, Combine, IsPointwise}

module _ {F : Type 0} where
  fresh-IsPointwise :
      IsPointwise {F = F} (λ a b ns. stored (fresh_array ns)) (λ n a b. written none)
  fresh-IsPointwise = record { at_end = refl; at_node = λ a b xs ys n ns. refl }

  pub const-IsPointwise :
      (f : SolNode F → F)
      → IsPointwise {F = F}
          (λ a b ns. stored (map (λ n. some (f n)) ns))
          (λ n a b. written (some (f n)))
  const-IsPointwise f = record { at_end = refl; at_node = λ a b xs ys n ns. refl }

  each_node :
      (f : F → F) (b : Option F) (ys : List (Option F))
      → each_entry f (b ∷ ys) ≡ add_point (with_value b f) (each_entry f ys)
  unfolding each_entry
  each_node f none ys = refl
  each_node f (some w) ys = refl

  pair_node :
      (f : F → F → F) (a b : Option F) (xs ys : List (Option F))
      → each_pair f (a ∷ xs) (b ∷ ys) ≡ add_point (with_values a b f) (each_pair f xs ys)
  unfolding each_pair
  pair_node f none b xs ys = refl
  pair_node f (some x) none xs ys = refl
  pair_node f (some x) (some y) xs ys = refl

  each-IsPointwise : (f : F → F) → IsPointwise (λ a b ns. each_entry f b) (λ n a b. with_value b f)
  unfolding each_entry
  each-IsPointwise f = record { at_end = refl; at_node = λ a b xs ys n ns. each_node f b ys }

  pair-IsPointwise :
      (f : F → F → F) → IsPointwise (λ a b ns. each_pair f a b) (λ n a b. with_values a b f)
  unfolding each_pair
  pair-IsPointwise f = record { at_end = refl; at_node = λ a b xs ys n ns. pair_node f a b xs ys }

  if-IsPointwise :
      (t : Bool) (k k' : Kernel F) (g g' : Combine F)
      → (t ≡ true → IsPointwise k g)
      → (t ≡ false → IsPointwise k' g')
      → IsPointwise
          (λ a b ns. if t then k a b ns else k' a b ns)
          (λ n a b. if t then g n a b else g' n a b)
  if-IsPointwise true k k' g g' h h' = h refl
  if-IsPointwise false k k' g g' h h' = h' refl

-- The labels whose value at a node is that of eval_real; LOG10 to SIGN are 1 to 8.
abbrev pub IsLocal : {F : Type 0} → Label F → Type 0
IsLocal (fn (above n)) = (1 ≤ n) × (n ≤ 8)
IsLocal (fn (below n)) = ⊥
IsLocal (vfn i) = ⊥
IsLocal (solval i) = ⊥
IsLocal (string s) = ⊥
IsLocal _ = Unit

module _ (r : Reals) (v : VectorOps r.F) where
  sign_of : r.F → r.F
  sign_of x = if r.is_pos x then r.plus_one else if r.is_neg x then r.minus_one else r.zero_value

  function-IsPointwise :
      (n : ℕ) (missing : Bool)
      → 1 ≤ n
      → n ≤ 8
      → IsPointwise
          (λ a b ns. vec_function r v (above n) missing a b ns)
          (λ p a b. eval_function r (above n) missing a b)
  unfolding vec_function eval_function
  function-IsPointwise n missing h k =
      if-IsPointwise (n == 1) _ _ _ _ (λ e. each-IsPointwise r.log10)
        λ e1.
          if-IsPointwise (n == 2) _ _ _ _ (λ e. each-IsPointwise r.log)
            λ e2.
              if-IsPointwise (n == 3) _ _ _ _ (λ e. each-IsPointwise r.exp)
                λ e3.
                  if-IsPointwise (n == 4) _ _ _ _ (λ e. each-IsPointwise r.erf)
                    λ e4.
                      if-IsPointwise (n == 5) _ _ _ _ (λ e. each-IsPointwise r.erfc)
                        λ e5.
                          if-IsPointwise (n == 6) _ _ _ _ (λ e. each-IsPointwise _)
                            λ e6.
                              if-IsPointwise (n == 7) _ _ _ _ (λ e. each-IsPointwise r.sqrt)
                                λ e7.
                                  if-IsPointwise (n == 8) _ _ _ _ (λ e. each-IsPointwise _)
                                    λ e8. absurd (ground arith)

  pub label-IsPointwise :
      (l : Label r.F) (no_left no_right : Bool)
      → IsLocal l
      → IsPointwise
          (eval_entries r v l no_left no_right)
          (λ n a b. eval_node r l no_left no_right a b)
  unfolding eval_entries eval_node
  label-IsPointwise (op1 c) no_left no_right h =
      if-IsPointwise no_left _ _ _ _
        (λ e.
          if-IsPointwise (c == b'+') _ _ _ _ (λ e. each-IsPointwise _)
            λ e.
              if-IsPointwise (c == b'-') _ _ _ _ (λ e. each-IsPointwise r.neg)
                λ e. fresh-IsPointwise)
        (λ e.
          if-IsPointwise (c == b'+') _ _ _ _ (λ e. pair-IsPointwise r.add)
            λ e.
              if-IsPointwise (c == b'-') _ _ _ _ (λ e. pair-IsPointwise r.sub)
                λ e. fresh-IsPointwise)
  label-IsPointwise (op2 c) no_left no_right h =
      if-IsPointwise (c == b'*') _ _ _ _ (λ e. pair-IsPointwise r.mul)
        λ e. if-IsPointwise (c == b'/') _ _ _ _ (λ e. pair-IsPointwise r.div) λ e. fresh-IsPointwise
  label-IsPointwise (op3 c) no_left no_right h =
      if-IsPointwise (c == b'^') _ _ _ _ (λ e. pair-IsPointwise r.pow) λ e. fresh-IsPointwise
  label-IsPointwise (fn (above n)) no_left no_right h =
      function-IsPointwise n (no_left || no_right) h.0 h.1
  label-IsPointwise (fn (below n)) no_left no_right h = absurd h
  label-IsPointwise (vfn i) no_left no_right h = absurd h
  label-IsPointwise (solval i) no_left no_right h = absurd h
  label-IsPointwise (rconst x) no_left no_right h = const-IsPointwise (λ n. x)
  label-IsPointwise (string s) no_left no_right h = absurd h
  label-IsPointwise lpar no_left no_right h = fresh-IsPointwise
  label-IsPointwise rpar no_left no_right h = fresh-IsPointwise
  label-IsPointwise comma no_left no_right h = fresh-IsPointwise
  label-IsPointwise eoi no_left no_right h = fresh-IsPointwise
  label-IsPointwise topstk no_left no_right h = fresh-IsPointwise
  label-IsPointwise blank no_left no_right h = fresh-IsPointwise
