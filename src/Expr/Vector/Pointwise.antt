-- ===== src/Expr/Vector/Pointwise.antt =====
-- eval_vec gives at each node the value that eval_real gives when the solution values at the node
-- are put into the expression.
use mathlib.Core.Path.{fun_ext}
use tcad_webapp.Prelude.{
  ◌≡◌, ◌⊎◌, refl, subst, sym, ap, ◌∙◌, Option, none, some, List, [], ◌∷◌, map, inl, inr,
}
use tcad_webapp.Expr.Token.{
  Ival, above, below, Label, op1, op2, op3, fn, vfn, solval, rconst, string, lpar, rpar, comma, eoi,
  topstk, blank, VecStr, null, node,
}
use tcad_webapp.Expr.Eval.{Reals, Evaluated, written, is_null, eval_node, eval_kid, eval_real}
use tcad_webapp.Expr.Vector.{
  SolNode, Fields, VectorOps, VecResult, stored, refused, undefined, vec_then, fresh_array,
  Stateful, run_then,
}
use tcad_webapp.Expr.Vector.Values.{Holds, get_solval-Holds}
use tcad_webapp.Expr.Vector.Run.{vfn_of, solval_of, eval_entries, eval_label, eval_child, eval_vec}
use tcad_webapp.Expr.Vector.Points.{
  points, Kernel, IsPointwise, both_points, both_arrays, both_arrays-points,
}
use tcad_webapp.Expr.Vector.Kernels.{IsLocal, const-IsPointwise, label-IsPointwise}

module _ {F : Type 0} where
  -- Solution values stand in the expression only where the nodes hold them.
  abbrev pub HasLabel : Fields F → (Ival → SolNode F → F) → Label F → Type 0
  HasLabel s f (solval i) = Holds s i (f i)
  HasLabel s f l = IsLocal l

  abbrev pub HasValues : Fields F → (Ival → SolNode F → F) → VecStr F → Type 0
  HasValues s f null = Unit
  HasValues s f (node l a b) = HasLabel s f l × HasValues s f a × HasValues s f b

  -- The values of one node in the place of the solution values.
  abbrev pub put_label : (Ival → F) → Label F → Label F
  put_label f (solval i) = rconst (f i)
  put_label f l = l

  unfoldable pub put_values : (Ival → F) → VecStr F → VecStr F
  put_values f null = null
  put_values f (node l a b) = node (put_label f l) (put_values f a) (put_values f b)

  is_null-put_values : (f : Ival → F) (e : VecStr F) → is_null (put_values f e) ≡ is_null e
  unfolding put_values
  is_null-put_values f null = refl
  is_null-put_values f (node l a b) = refl

  abbrev LabelCase : Fields F → (Ival → SolNode F → F) → Label F → Type 0
  LabelCase s f l =
      ((i : Ival) × (l ≡ solval i) × Holds s i (f i))
      ⊎ (IsLocal l
          × (vfn_of l ≡ none)
          × (solval_of l ≡ none)
          × ((g : Ival → F) → put_label g l ≡ l))

  label_case :
      (s : Fields F) (f : Ival → SolNode F → F) (l : Label F) → HasLabel s f l → LabelCase s f l
  label_case s f (op1 c) h = inr (h, refl, refl, λ g. refl)
  label_case s f (op2 c) h = inr (h, refl, refl, λ g. refl)
  label_case s f (op3 c) h = inr (h, refl, refl, λ g. refl)
  label_case s f (fn (above n)) h = inr (h, refl, refl, λ g. refl)
  label_case s f (rconst x) h = inr (h, refl, refl, λ g. refl)
  label_case s f lpar h = inr (h, refl, refl, λ g. refl)
  label_case s f rpar h = inr (h, refl, refl, λ g. refl)
  label_case s f comma h = inr (h, refl, refl, λ g. refl)
  label_case s f eoi h = inr (h, refl, refl, λ g. refl)
  label_case s f topstk h = inr (h, refl, refl, λ g. refl)
  label_case s f blank h = inr (h, refl, refl, λ g. refl)
  label_case s f (fn (below n)) h = absurd h
  label_case s f (vfn i) h = absurd h
  label_case s f (string t) h = absurd h
  label_case s f (solval i) h = inl (i, refl, h)

  fresh-points : (ns : List (SolNode F)) → stored (fresh_array ns) ≡ points (λ n. written none) ns
  unfolding points
  fresh-points [] = refl
  fresh-points (n ∷ ns) = rw (← fresh-points ns) refl

  points-cong :
      (g h : SolNode F → Evaluated F) (ns : List (SolNode F))
      → ((n : SolNode F) → g n ≡ h n)
      → points g ns ≡ points h ns
  points-cong g h ns e = ap (λ k. points k ns) (fun_ext e)

  run_right :
      (y : VecResult F) (s : Fields F) (e : List (Option F) → Fields F → Stateful F)
      → (k : List (Option F) → VecResult F) → ((b : List (Option F)) → e b s ≡ (k b, s))
      → run_then (y, s) e ≡ (vec_then y k, s)
  run_right (stored b) s e k h = h b
  run_right (refused m) s e k h = refl
  run_right undefined s e k h = refl

  run_both :
      (x y : VecResult F) (s : Fields F) (c : Fields F → Stateful F)
      → (e : List (Option F) → List (Option F) → Fields F → Stateful F) (k : Kernel F)
      → c s ≡ (y, s)
      → ((a b : List (Option F)) → e a b s ≡ (k a b s.nodes, s))
      → run_then (x, s) (λ a s'. run_then (c s') (e a)) ≡ (both_arrays k x y s.nodes, s)
  run_both (stored a) y s c e k h g = rw h (run_right y s (e a) (λ b. k a b s.nodes) (g a))
  run_both (refused m) y s c e k h g = refl
  run_both undefined y s c e k h g = refl

module _ (r : Reals) (v : VectorOps r.F) where
  abbrev entry_at : (Ival → SolNode r.F → r.F) → VecStr r.F → SolNode r.F → Evaluated r.F
  entry_at f e n = eval_kid r (put_values (λ i. f i n) e)

  abbrev Gives : Fields r.F → (Ival → SolNode r.F → r.F) → VecStr r.F → Type 0
  Gives s f e = eval_child r v e s ≡ (points (entry_at f e) s.nodes, s)

  entry_node :
      (f : Ival → SolNode r.F → r.F) (l : Label r.F) (a b : VecStr r.F) (n : SolNode r.F)
      → both_points
          (entry_at f a)
          (entry_at f b)
          (λ n. eval_node r (put_label (λ i. f i n) l) (is_null a) (is_null b))
          n
        ≡ entry_at f (node l a b) n
  unfolding eval_kid put_values
  entry_node f l a b n =
      rw (is_null-put_values (λ i. f i n) a, is_null-put_values (λ i. f i n) b) refl

  eval_child-node :
      (l : Label r.F) (a b : VecStr r.F) (s : Fields r.F)
      → vfn_of l ≡ none
      → eval_child r v (node l a b) s
        ≡ run_then (eval_child r v a s) (λ x s'.
          run_then
            (eval_child r v b s')
            (λ y s''. eval_label r v l (is_null a) (is_null b) x y s''))
  unfolding eval_child
  eval_child-node l a b s e = rw (eval_child, e) refl

  -- A node of the tree, where `k` is the loop and `g` its value at a node of the mesh.
  node-Gives :
      (s : Fields r.F) (f : Ival → SolNode r.F → r.F) (l : Label r.F) (a b : VecStr r.F)
      → (k : Kernel r.F) → vfn_of l ≡ none
      → Gives s f a
      → Gives s f b
      → ((x y : List (Option r.F))
          → eval_label r v l (is_null a) (is_null b) x y s ≡ (k x y s.nodes, s))
      → IsPointwise k (λ n. eval_node r (put_label (λ i. f i n) l) (is_null a) (is_null b))
      → Gives s f (node l a b)
  node-Gives s f l a b k e h h' g p =
      rw (eval_child-node l a b s e, h)
        (run_both (points (entry_at f a) s.nodes) (points (entry_at f b) s.nodes) s
            (eval_child r v b) (eval_label r v l (is_null a) (is_null b)) k h' g
          ∙ ap (λ t. (t, s))
              (both_arrays-points k
                  (λ n. eval_node r (put_label (λ i. f i n) l) (is_null a) (is_null b))
                  (entry_at f a) (entry_at f b) s.nodes p
                ∙ points-cong _ _ s.nodes (entry_node f l a b)))

  solval-Gives :
      (s : Fields r.F) (f : Ival → SolNode r.F → r.F) (i : Ival) (l : Label r.F) (a b : VecStr r.F)
      → l ≡ solval i
      → Holds s i (f i)
      → Gives s f a
      → Gives s f b
      → Gives s f (node l a b)
  unfolding eval_node
  solval-Gives s f i l a b e h p q = rw e (
      node-Gives s f (solval i) a b (λ x y ns. stored (map (λ n. some (f i n)) ns)) refl p q
        (λ x y. get_solval-Holds r v i s (f i) h) (const-IsPointwise (f i)))

  local-Gives :
      (s : Fields r.F) (f : Ival → SolNode r.F → r.F) (l : Label r.F) (a b : VecStr r.F)
      → IsLocal l
      → vfn_of l ≡ none
      → solval_of l ≡ none
      → ((g : Ival → r.F) → put_label g l ≡ l)
      → Gives s f a
      → Gives s f b
      → Gives s f (node l a b)
  local-Gives s f l a b h e e' g p q =
      node-Gives s f l a b (eval_entries r v l (is_null a) (is_null b)) e p q
        (λ x y. rw (eval_label, e') refl)
        (subst
          (λ (c : SolNode r.F → Label r.F).
            IsPointwise (eval_entries r v l (is_null a) (is_null b))
              (λ n. eval_node r (c n) (is_null a) (is_null b)))
          (fun_ext (λ n. sym (g (λ i. f i n)))) (label-IsPointwise r v l (is_null a) (is_null b) h))

  eval_child-Gives :
      (e : VecStr r.F) (s : Fields r.F) (f : Ival → SolNode r.F → r.F)
      → HasValues s f e
      → Gives s f e
  unfolding eval_child put_values eval_kid
  eval_child-Gives null s f h = ap (λ t. (t, s)) (fresh-points s.nodes)
  eval_child-Gives (node l a b) s f h =
      let left = eval_child-Gives a s f h.1 in
      let right = eval_child-Gives b s f h.2 in
      elim (label_case s f l h.0) [
        | inl (i, e, g) ↦ solval-Gives s f i l a b e g left right
        | inr (p, e, e', g) ↦ local-Gives s f l a b p e e' g left right
      ]

  -- The vector that eval_vec computes has at each node the value that eval_real computes there of
  -- the expression with the solution values of the node put in, and no value where there is
  -- undefined behaviour at a node; the nodes and the table stay as they are. The solution values
  -- are x, y and impurities that the nodes hold, the functions are LOG10 to SIGN, and there are no
  -- vector functions and strings.
  pub eval_vec-eval_real :
      (l : Label r.F) (a b : VecStr r.F) (s : Fields r.F) (f : Ival → SolNode r.F → r.F)
      → HasValues s f (node l a b)
      → eval_vec r v (node l a b) s
        ≡ (points (λ n. eval_real r (put_values (λ i. f i n) (node l a b))) s.nodes, s)
  unfolding eval_vec put_values eval_real
  eval_vec-eval_real l a b s f h = eval_child-Gives (node l a b) s f h
