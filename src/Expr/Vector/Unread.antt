-- ===== src/Expr/Vector/Unread.antt =====
-- The vector functions that work on the array of their argument.
use tcad_webapp.Prelude.{
  ℕ, zero, suc, ◌+◌, ◌≡◌, ◌≢◌, ◌<◌, ◌⊎◌, inl, inr, refl, ap, ◌∙◌, Option, none, some, List, [], ◌∷◌,
  length, arith,
}
use tcad_webapp.Expr.Token.{Ival, above, vfn, VecStr, node}
use tcad_webapp.Expr.Eval.{Reals}
use tcad_webapp.Expr.Vector.{
  SolNode, Edge, Fields, VectorOps, undefined, vec_then, each_entry, fresh_array, read_all,
}
use tcad_webapp.Expr.Vector.Rough.{value_at, gather, averaged, rough_from}
use tcad_webapp.Expr.Vector.Run.{vfunc, eval_vec}

value_at-fresh :
    {F : Type 0} (nodes : List (SolNode F)) (i : ℕ) → value_at (fresh_array nodes) i ≡ none
value_at-fresh [] zero = refl
value_at-fresh [] (suc i) = refl
value_at-fresh (n ∷ ns) zero = refl
value_at-fresh (n ∷ ns) (suc i) = value_at-fresh ns i

module _ (r : Reals) (v : VectorOps r.F) where
  -- An edge reads the entry of its node.
  gather-fresh :
      (which : ℕ) (nodes : List (SolNode r.F)) (i : ℕ) (es : List (Edge r.F)) (x y : r.F)
      → es ≢ []
      → gather r v which (fresh_array nodes) i es x y ≡ none
  unfolding gather
  gather-fresh which nodes i [] x y h = absurd (h refl)
  gather-fresh which nodes i (e ∷ es) x y h = rw (gather, value_at-fresh nodes i) refl

  averaged-undefined : (o : Option (r.F × r.F)) → averaged r v o undefined ≡ undefined
  averaged-undefined none = refl
  averaged-undefined (some (x, y)) = refl

  rough_from-fresh :
      (which : ℕ) (nodes : List (SolNode r.F)) (j n t : ℕ)
      → t < n
      → v.edges (j + t) ≢ []
      → rough_from r v which (fresh_array nodes) j n ≡ undefined
  unfolding rough_from
  rough_from-fresh which nodes j zero t h k = absurd (omega arith)
  rough_from-fresh which nodes j (suc n) zero h k =
      let here : v.edges j ≢ [] = λ e. k (ap v.edges (omega arith) ∙ e) in
      rw (gather-fresh which nodes j (v.edges j) r.zero_value r.zero_value here) refl
  rough_from-fresh which nodes j (suc n) (suc t) h k =
      let later : v.edges (suc j + t) ≢ [] = λ e. k (ap v.edges (omega arith) ∙ e) in
      rw (rough_from-fresh which nodes (suc j) n t (omega (arith, h)) later) (
        averaged-undefined
          (gather r v which (fresh_array nodes) j (v.edges j) r.zero_value r.zero_value))

  read_all-fresh :
      (nodes : List (SolNode r.F)) → 0 < length nodes → read_all (fresh_array nodes) ≡ none
  unfolding read_all
  read_all-fresh [] h = absurd (omega arith)
  read_all-fresh (n ∷ ns) h = refl

  from_zero : (i : ℕ) → v.edges i ≢ [] → v.edges (0 + i) ≢ []
  from_zero i h e = h (ap v.edges (omega arith) ∙ e)

  vfunc-fresh :
      (n i : ℕ) (a b : VecStr r.F) (s : Fields r.F)
      → i < length s.nodes
      → (n ≡ 2) ⊎ ((n ≡ 3) ⊎ (n ≡ 4)) × (v.edges i ≢ [])
      → vfunc r v (fresh_array s.nodes) (above n) a b s ≡ undefined
  unfolding vfunc
  vfunc-fresh n i a b s h k = elim k [
    | inl e ↦ rw (e, read_all-fresh s.nodes (omega (arith, h))) refl
    | inr (inl e, es) ↦ rw e (rough_from-fresh 3 s.nodes 0 (length s.nodes) i h (from_zero i es))
    | inr (inr e, es) ↦ rw e (rough_from-fresh 4 s.nodes 0 (length s.nodes) i h (from_zero i es))
  ]

  eval_vec-vfn :
      (i : Ival) (a b : VecStr r.F) (s : Fields r.F)
      → eval_vec r v (node (vfn i) a b) s
        ≡ (vec_then (vfunc r v (fresh_array s.nodes) i a b s) (each_entry (λ x. x)), s)
  unfolding eval_vec
  eval_vec-vfn i a b s = refl

  -- scale reads an array that was never written, whatever its argument is, where there is a node at
  -- all; gradx and grady do so where there is a node with an edge.
  pub eval_vec-unread :
      (n i : ℕ) (a b : VecStr r.F) (s : Fields r.F)
      → i < length s.nodes
      → (n ≡ 2) ⊎ ((n ≡ 3) ⊎ (n ≡ 4)) × (v.edges i ≢ [])
      → eval_vec r v (node (vfn (above n)) a b) s ≡ (undefined, s)
  eval_vec-unread n i a b s h k =
      eval_vec-vfn (above n) a b s
      ∙ ap (λ x. (vec_then x (each_entry (λ x. x)), s)) (vfunc-fresh n i a b s h k)
