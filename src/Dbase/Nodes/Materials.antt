-- ===== src/Dbase/Nodes/Materials.antt =====
-- make_nodes gives every point one node for each of its materials.
use tcad_webapp.Prelude.{
  ℕ, zero, suc, ◌+◌, ◌≤◌, ◌<◌, ◌≡◌, refl, ap, sym, ◌∙◌, subst, Bool, true, false, ◌&&◌, ◌||◌, List,
  [], ◌∷◌, length, ◌==◌, if◌then◌else◌, ltb, lt→ltb, arith, Bool-cases, inl, inr,
}
use tcad_webapp.Dbase.Impurity.{update}
use tcad_webapp.Dbase.Nodes.{
  Db, max_mat, gas, set_nd, clear_marks, mark_points, mark_all, make_at, make_all, make_nodes,
}
use tcad_webapp.Dbase.Nodes.Made.{marked, Made, Extends, make_at-Extends}
use tcad_webapp.Dbase.Neigh.Distinct.{has}

-- Point `p` has exactly one node for each of the materials `ms`.
unfoldable pub HasNodes : Db → ℕ → List ℕ → Type 0
HasNodes g p ms = (n : ℕ) × (g.pt_nn p ≡ length ms) × (n + length ms ≤ g.nn) × Made g p 0 n ms

Made-kept :
    (p k n : ℕ) (ms : List ℕ) (g g' : Db)
    → ((j : ℕ) → g'.pt_nd p j ≡ g.pt_nd p j)
    → ((i : ℕ) → i < n + length ms → g'.nd i ≡ g.nd i)
    → Made g p k n ms
    → Made g' p k n ms
Made-kept p k n [] g g' e f h = tt
Made-kept p k n (m ∷ ms) g g' e f h =
    let node = f n (omega arith) in
    (
      e k ∙ h.0,
      ap (λ x. x.pt) node ∙ h.1,
      ap (λ x. x.mater) node ∙ h.2,
      Made-kept p (suc k) (suc n) ms g g' e (λ i l. f i (omega arith)) h.3,
    )

-- Once a point is done, the loop over the later points leaves it alone.
make_all-kept :
    (n p q : ℕ) (ms : List ℕ) (g : Db) → q < p → HasNodes g q ms → HasNodes (make_all n p g) q ms
unfolding make_all HasNodes
make_all-kept zero p q ms g l h = h
make_all-kept (suc n) p q ms g l (b, c, r, d) =
    let g0 : Db = record g { pt_nn = update g.pt_nn p 0 } in
    let other : (q == p) ≡ false = ground arith in
    let self : (p == p) ≡ true = ground arith in
    let x =
      make_at-Extends max_mat 0 0 p (g.pt_nd p) g0
        (record { used = rw self refl; room = omega arith; marks = λ j i. refl }) in
    make_all-kept n (suc p) q ms (make_at max_mat 0 p g0) (omega arith) (
      b,
      (x.others q 0 (ground arith)).0 ∙ rw other c,
      omega (arith, x.nodes),
      Made-kept q 0 b ms g0 (make_at max_mat 0 p g0) (λ j. (x.others q j (ground arith)).1)
          (λ i l'. x.old i (omega arith)) (Made-kept q 0 b ms g g0 (λ j. refl) (λ i l'. refl) d),
    )

marked-ext :
    (f f' : ℕ → ℕ) (n i : ℕ) → ((j : ℕ) → j < i + n → f j ≡ f' j) → marked f n i ≡ marked f' n i
unfolding marked
marked-ext f f' zero i h = refl
marked-ext f f' (suc n) i h =
    rw (h i (omega arith), marked-ext f f' n (suc i) (λ j l. h j (omega arith))) refl

whole : (g : Db) (p : ℕ) (ms : List ℕ) (g' : Db) → Extends p 0 ms g g' → HasNodes g' p ms
unfolding HasNodes
whole g p ms g' x = (g.nn, omega (arith, x.count), omega (arith, x.nodes), x.made)

make_all-HasNodes :
    (n p q : ℕ) (g : Db)
    → p ≤ q
    → q < n + p
    → HasNodes (make_all n p g) q (marked (g.pt_nd q) max_mat 0)
unfolding make_all
make_all-HasNodes zero p q g a b = absurd (omega arith)
make_all-HasNodes (suc n) p q g a b =
    let g0 : Db = record g { pt_nn = update g.pt_nn p 0 } in
    let self : (p == p) ≡ true = ground arith in
    let x =
      make_at-Extends max_mat 0 0 p (g.pt_nd p) g0
        (record { used = rw self refl; room = omega arith; marks = λ j i. refl }) in
    elim (Bool-cases (q == p)) [
      | inl e ↦
          let same : p ≡ q = ground arith in
          subst
            (λ r.
              HasNodes (make_all n (suc p) (make_at max_mat 0 p g0)) r
                (marked (g.pt_nd r) max_mat 0))
            same
            (make_all-kept n (suc p) p (marked (g.pt_nd p) max_mat 0) (make_at max_mat 0 p g0)
              (omega arith) (whole g0 p _ _ x))
      | inr e ↦
          rw
            (marked-ext (g.pt_nd q) ((make_at max_mat 0 p g0).pt_nd q) max_mat 0
              (λ j l. sym (x.others q j (ground arith)).1))
            (make_all-HasNodes n (suc p) q (make_at max_mat 0 p g0) (ground arith) (omega arith))
    ]

-- Whether one of `n` triangles from `t` on is of material `j` and has `q` as a vertex.
unfoldable pub touched : Db → ℕ → ℕ → ℕ → ℕ → Bool
touched g q j zero t = false
touched g q j (suc n) t = ((j == g.mat_tri t) && has q (g.vert t)) || touched g q j n (suc t)

-- Whether point `q` needs a node of material `j`.
abbrev pub wanted : Db → ℕ → ℕ → Bool
wanted g q j = touched g q j g.ne 0 || (j == gas && (g.is_surf q || g.is_back q))

-- The `n` materials from `i` on that are wanted.
unfoldable pub chosen : (ℕ → Bool) → ℕ → ℕ → List ℕ
chosen b zero i = []
chosen b (suc n) i = let rest = chosen b n (suc i) in if b i then i ∷ rest else rest

marked-chosen :
    (f : ℕ → ℕ) (b : ℕ → Bool) (n i : ℕ)
    → ((j : ℕ) → j < i + n → f j ≡ (if b j then 1 else 0))
    → marked f n i ≡ chosen b n i
unfolding marked chosen
marked-chosen f b zero i h = refl
marked-chosen f b (suc n) i h =
    let rest = marked-chosen f b n (suc i) (λ j l. h j (omega arith)) in
    elim (Bool-cases (b i)) [
      | inl e ↦ rw (h i (omega arith), e, rest) refl
      | inr e ↦ rw (h i (omega arith), e, rest) refl
    ]

mark_points-has :
    (mat : ℕ) (ps : List ℕ) (nd : ℕ → ℕ → ℕ) (q j : ℕ)
    → mark_points mat ps nd q j ≡ (if (j == mat) && has q ps then 1 else nd q j)
unfolding mark_points has
mark_points-has mat [] nd q j = ground arith
mark_points-has mat (p ∷ ps) nd q j = mark_points-has mat ps (set_nd nd p mat 1) q j ∙ ground arith

mark_all-touched :
    (g : Db) (n t : ℕ) (nd : ℕ → ℕ → ℕ) (q j : ℕ)
    → mark_all g n t nd q j ≡ (if touched g q j n t then 1 else nd q j)
unfolding mark_all touched
mark_all-touched g zero t nd q j = refl
mark_all-touched g (suc n) t nd q j =
    mark_all-touched g n (suc t) _ q j
    ∙ ground (arith, mark_points-has (g.mat_tri t) (g.vert t) nd q j)

clear_marks-before :
    (g : Db) (n p : ℕ) (nd : ℕ → ℕ → ℕ) (q j : ℕ) → q < p → clear_marks g n p nd q j ≡ nd q j
unfolding clear_marks
clear_marks-before g zero p nd q j h = refl
clear_marks-before g (suc n) p nd q j h =
    clear_marks-before g n (suc p) _ q j (omega arith) ∙ ground arith

clear_marks-gas :
    (g : Db) (n p : ℕ) (nd : ℕ → ℕ → ℕ) (q j : ℕ)
    → p ≤ q
    → q < n + p
    → j < max_mat
    → clear_marks g n p nd q j ≡ (if j == gas && (g.is_surf q || g.is_back q) then 1 else 0)
unfolding clear_marks
clear_marks-gas g zero p nd q j a b l = absurd (omega arith)
clear_marks-gas g (suc n) p nd q j a b l = elim (Bool-cases (q == p)) [
  | inl e ↦
      let same : p ≡ q = ground arith in
      let low : ltb j max_mat ≡ true = lt→ltb j max_mat l in
      clear_marks-before g n (suc p) _ q j (omega arith)
      ∙ rw (e, low) (ap (λ r. if j == gas && (g.is_surf r || g.is_back r) then 1 else 0) same)
  | inr e ↦ clear_marks-gas g n (suc p) _ q j (ground arith) (omega arith) l
]

-- After make_nodes every point has exactly one node for each material below MAXMAT that a triangle
-- at the point has, and for the gas if the point is on the surface or the back side; the nodes are
-- consecutive, in the order of the materials, and know their point and their material.
pub make_nodes-HasNodes :
    (g : Db) (q : ℕ) → q < g.np → HasNodes (make_nodes g) q (chosen (wanted g q) max_mat 0)
unfolding make_nodes
make_nodes-HasNodes g q h =
    let nd1 = clear_marks g g.np 0 g.pt_nd in
    rw
      (← marked-chosen (λ j. mark_all g g.ne 0 nd1 q j) (wanted g q) max_mat 0
        (λ j l. mark_all-touched g g.ne 0 nd1 q j ∙ marks j l))
      (make_all-HasNodes g.np 0 q (record g { pt_nd = mark_all g g.ne 0 nd1; nn = 0 }) (omega arith)
        (omega arith))
  where
    marks :
        (j : ℕ)
        → j < 0 + max_mat
        → (if touched g q j g.ne 0 then 1 else clear_marks g g.np 0 g.pt_nd q j)
          ≡ (if wanted g q j then 1 else 0)
    marks j l = elim (Bool-cases (touched g q j g.ne 0)) [
      | inl e ↦ rw e refl
      | inr e ↦
          rw e (clear_marks-gas g g.np 0 g.pt_nd q j (omega arith) (omega arith) (omega arith))
    ]
