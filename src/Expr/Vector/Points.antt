-- ===== src/Expr/Vector/Points.antt =====
-- eval_vec, node by node: an array of results, and what eval_real gives at each node.
use tcad_webapp.Prelude.{◌≡◌, refl, sym, ap, ◌∙◌, Option, List, [], ◌∷◌}
use tcad_webapp.Expr.Eval.{Evaluated, written, failed, and_then}
use tcad_webapp.Expr.Vector.{SolNode, VecResult, stored, refused, undefined, vec_then, put_entry}

abbrev pub Kernel : Type 0 → Type 0
Kernel F = List (Option F) → List (Option F) → List (SolNode F) → VecResult F

abbrev pub Combine : Type 0 → Type 0
Combine F = SolNode F → Option F → Option F → Evaluated F

module _ {F : Type 0} where
  abbrev pub add_point : Evaluated F → VecResult F → VecResult F
  add_point (written o) r = put_entry o r
  add_point (failed e) r = undefined
  add_point Evaluated.undefined r = undefined

  -- The values at the nodes, if there is one at each.
  unfoldable pub points : (SolNode F → Evaluated F) → List (SolNode F) → VecResult F
  points g [] = stored []
  points g (n ∷ ns) = add_point (g n) (points g ns)

  abbrev IsFine : VecResult F → Type 0
  IsFine (stored a) = Unit
  IsFine (refused e) = ⊥
  IsFine undefined = Unit

  add_point-IsFine : (e : Evaluated F) (r : VecResult F) → IsFine r → IsFine (add_point e r)
  add_point-IsFine (written o) (stored a) h = tt
  add_point-IsFine (written o) (refused e) h = h
  add_point-IsFine (written o) undefined h = tt
  add_point-IsFine (failed e) r h = tt
  add_point-IsFine Evaluated.undefined r h = tt

  points-IsFine : (g : SolNode F → Evaluated F) (ns : List (SolNode F)) → IsFine (points g ns)
  unfolding points
  points-IsFine g [] = tt
  points-IsFine g (n ∷ ns) = add_point-IsFine (g n) (points g ns) (points-IsFine g ns)

  add_point_undefined : (e : Evaluated F) → add_point e undefined ≡ undefined
  add_point_undefined (written o) = refl
  add_point_undefined (failed e) = refl
  add_point_undefined Evaluated.undefined = refl

  -- The loop gives the entry of each node from the two entries there.
  pub record IsPointwise (k : Kernel F) (g : Combine F) : Type 0 where
    pub at_end : k [] [] [] ≡ stored []
    pub at_node :
        (a b : Option F) (xs ys : List (Option F)) (n : SolNode F) (ns : List (SolNode F))
        → k (a ∷ xs) (b ∷ ys) (n ∷ ns) ≡ add_point (g n a b) (k xs ys ns)

  abbrev pub both_points :
      (SolNode F → Evaluated F) → (SolNode F → Evaluated F) → Combine F → SolNode F → Evaluated F
  both_points p q g n = and_then (p n) λ a. and_then (q n) λ b. g n a b

  abbrev pub both_arrays : Kernel F → VecResult F → VecResult F → List (SolNode F) → VecResult F
  both_arrays k x y ns = vec_then x λ a. vec_then y λ b. k a b ns

  both_step :
      (k : Kernel F) (g : Combine F) (n : SolNode F)
      → (ns : List (SolNode F)) (e d : Evaluated F) (x y : VecResult F) → IsPointwise k g
      → IsFine x
      → IsFine y
      → both_arrays k (add_point e x) (add_point d y) (n ∷ ns)
        ≡ add_point (and_then e λ a. and_then d λ b. g n a b) (both_arrays k x y ns)
  both_step k g n ns (written a) (written b) (stored xs) (stored ys) h i j =
      h.at_node a b xs ys n ns
  both_step k g n ns (written a) (written b) (stored xs) undefined h i j =
      sym (add_point_undefined (g n a b))
  both_step k g n ns (written a) (written b) (stored xs) (refused e) h i j = absurd j
  both_step k g n ns (written a) (written b) undefined y h i j = sym (add_point_undefined (g n a b))
  both_step k g n ns (written a) d (refused e) y h i j = absurd i
  both_step k g n ns (written a) (failed e) (stored xs) y h i j = refl
  both_step k g n ns (written a) (failed e) undefined y h i j = refl
  both_step k g n ns (written a) Evaluated.undefined (stored xs) y h i j = refl
  both_step k g n ns (written a) Evaluated.undefined undefined y h i j = refl
  both_step k g n ns (failed e) d x y h i j = refl
  both_step k g n ns Evaluated.undefined d x y h i j = refl

  pub both_arrays-points :
      (k : Kernel F) (g : Combine F)
      → (p q : SolNode F → Evaluated F) (ns : List (SolNode F)) → IsPointwise k g
      → both_arrays k (points p ns) (points q ns) ns ≡ points (both_points p q g) ns
  unfolding points
  both_arrays-points k g p q [] h = h.at_end
  both_arrays-points k g p q (n ∷ ns) h =
      both_step k g n ns (p n) (q n) (points p ns) (points q ns) h (points-IsFine p ns)
        (points-IsFine q ns)
      ∙ ap (add_point (both_points p q g n)) (both_arrays-points k g p q ns h)
