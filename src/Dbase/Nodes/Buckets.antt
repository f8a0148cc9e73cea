-- ===== src/Dbase/Nodes/Buckets.antt =====
-- node_to_tri and pt_to_node sort the triangles and the nodes into the lists of the nodes and of the
-- points.
use tcad_webapp.Prelude.{
  ℕ, zero, suc, ◌+◌, ◌≤◌, ◌<◌, ◌≡◌, refl, ap, sym, ◌∙◌, subst, Bool, true, false, not, ◌&&◌, some,
  List, [], ◌∷◌, ◌++◌, append_assoc, append-nil, length, length-append, get_elem?, ◌==◌,
  if◌then◌else◌, ltb, lt→ltb, arith, Bool-cases, inl, inr, ◌⊎◌,
}
use tcad_webapp.Dbase.ListStr.{dis_list}
use tcad_webapp.Dbase.ListStr.Items.{Represents}
use tcad_webapp.Dbase.ListStr.Short.{Keeps, add_list-Keeps}
use tcad_webapp.Dbase.Nodes.{
  NdStr, Db, add_nd_pt, add_tri_nd, add_vertices, add_triangles, dis_ltri, node_to_tri, add_nodes,
  pt_to_node,
}

-- As often as `n` stands in the list.
unfoldable pub times : ℕ → ℕ → List ℕ → List ℕ
times t n [] = []
times t n (m ∷ ms) = if m == n then t ∷ times t n ms else times t n ms

-- The triangles that have `n` as a vertex, in order.
unfoldable pub triangles_of : (ℕ → Bool) → (ℕ → List ℕ) → ℕ → ℕ → ℕ → List ℕ
unfolding times
triangles_of skip vert n zero t = []
triangles_of skip vert n (suc k) t =
    (if skip t && not (t == 0) then [] else times t n (vert t))
    ++ triangles_of skip vert n k (suc t)

add_tri_nd-Keeps :
    (m n t : ℕ) (nd : ℕ → NdStr) (xs : List ℕ)
    → length xs + length (if m == n then t ∷ [] else []) ≤ 32758
    → Keeps (nd n).ltri xs
    → Keeps (add_tri_nd m t nd n).ltri (xs ++ (if m == n then t ∷ [] else []))
add_tri_nd-Keeps m n t nd xs k h = elim (Bool-cases (m == n)) [
  | inl e ↦
      let back : (n == m) ≡ true = ground arith in
      let same : n ≡ m = ground arith in
      rw (e, back)
        (add_list-Keeps (nd m).ltri xs t (omega (arith, rw e at k))
          (subst (λ k. Keeps (nd k).ltri xs) same h))
  | inr e ↦ let back : (n == m) ≡ false = ground arith in rw (e, back, append-nil xs) h
]

times-cons :
    (t n m : ℕ) (ms : List ℕ) → times t n (m ∷ ms) ≡ (if m == n then t ∷ [] else []) ++ times t n ms
unfolding times
times-cons t n m ms = elim (Bool-cases (m == n)) [ inl e ↦ rw e refl | inr e ↦ rw e refl ]

add_vertices-Keeps :
    (n t : ℕ) (ms : List ℕ) (nd : ℕ → NdStr) (xs : List ℕ)
    → length xs + length (times t n ms) ≤ 32758
    → Keeps (nd n).ltri xs
    → Keeps (add_vertices ms t nd n).ltri (xs ++ times t n ms)
unfolding add_vertices times
add_vertices-Keeps n t [] nd xs k h = rw (append-nil xs) h
add_vertices-Keeps n t (m ∷ ms) nd xs k h =
    let one = if m == n then t ∷ [] else [] in
    let size = ap length (times-cons t n m ms) ∙ length-append one (times t n ms) in
    let size' = length-append xs one in
    subst (λ ys. Keeps (add_vertices ms t (add_tri_nd m t nd) n).ltri ys)
      (append_assoc xs one (times t n ms) ∙ ap (λ r. xs ++ r) (sym (times-cons t n m ms)))
      (add_vertices-Keeps n t ms (add_tri_nd m t nd) (xs ++ one) (omega (arith, k, size, size'))
        (add_tri_nd-Keeps m n t nd xs (omega (arith, k, size)) h))

add_triangles-Keeps :
    (skip : ℕ → Bool) (vert : ℕ → List ℕ) (n k t : ℕ) (nd : ℕ → NdStr) (xs : List ℕ)
    → length xs + length (triangles_of skip vert n k t) ≤ 32758
    → Keeps (nd n).ltri xs
    → Keeps (add_triangles skip vert k t nd n).ltri (xs ++ triangles_of skip vert n k t)
unfolding add_triangles triangles_of
add_triangles-Keeps skip vert n zero t nd xs b h = rw (append-nil xs) h
add_triangles-Keeps skip vert n (suc k) t nd xs b h =
    let one = if skip t && not (t == 0) then [] else times t n (vert t) in
    let size = length-append one (triangles_of skip vert n k (suc t)) in
    let size' = length-append xs one in
    subst
      (λ ys.
        Keeps
          (add_triangles skip vert k (suc t)
            (if skip t && not (t == 0) then nd else add_vertices (vert t) t nd) n).ltri
          ys)
      (append_assoc xs one (triangles_of skip vert n k (suc t)))
      (add_triangles-Keeps skip vert n k (suc t) _ (xs ++ one) (omega (arith, b, size, size'))
        (elim (Bool-cases (skip t && not (t == 0))) [
          | inl e ↦ rw (e, append-nil xs) h
          | inr e ↦
              let all : length xs + length one ≤ 32758 = omega (arith, b, size) in
              let small : length xs + length (times t n (vert t)) ≤ 32758 = rw e at all in
              rw e (add_vertices-Keeps n t (vert t) nd xs small h)
        ]))

-- After node_to_tri a node has the list of the triangles that the loop visits and that have it as a
-- vertex, in order and as often as they have it, whatever lists stood there before; these are at
-- most 32758, which the short fields of the list hold.
pub node_to_tri-Represents :
    (skip : ℕ → Bool) (g : Db) (n : ℕ)
    → n < g.nn
    → length (triangles_of skip g.vert n g.ne 0) ≤ 32758
    → Represents ((node_to_tri skip g).nd n).ltri (triangles_of skip g.vert n g.ne 0)
unfolding node_to_tri dis_list
node_to_tri-Represents skip g n h k =
    let here : ltb n g.nn ≡ true = lt→ltb n g.nn h in
    let empty : Represents (record { num = 0; all = 0; list = [] }) [] = record {
      spare = [];
      cells = refl;
      count = refl;
      size = refl;
    } in
    rw here
      (add_triangles-Keeps skip g.vert n g.ne 0 (dis_ltri g.nn g.nd) [] (omega (arith, k))
        (rw here (empty, omega arith))).0

-- The nodes at point `p`, in order.
unfoldable pub nodes_at : (ℕ → NdStr) → ℕ → ℕ → ℕ → List ℕ
nodes_at nd p zero i = []
nodes_at nd p (suc k) i = (if (nd i).pt == p then i ∷ [] else []) ++ nodes_at nd p k (suc i)

-- The entries of a point.
pub record Holds (g : Db) (p : ℕ) (xs : List ℕ) : Type 0 where
  pub count : g.pt_nn p ≡ length xs
  pub entries : (j x : ℕ) → get_elem? xs j ≡ some x → g.pt_nd p j ≡ x

get_elem?-append :
    (xs : List ℕ) (n j x : ℕ)
    → get_elem? (xs ++ (n ∷ [])) j ≡ some x
    → ((j == length xs) ≡ true) × (n ≡ x) ⊎ ((j == length xs) ≡ false) × (get_elem? xs j ≡ some x)
get_elem?-append [] n zero x h = inl (refl, ground arith)
get_elem?-append [] n (suc j) x h = absurd (cc h)
get_elem?-append (y ∷ xs) n zero x h = inr (ground arith, h)
get_elem?-append (y ∷ xs) n (suc j) x h = elim (get_elem?-append xs n j x h) [
  | inl (e, s) ↦ inl (ground arith, s)
  | inr (e, s) ↦ inr (ground arith, s)
]

pub add_nd_pt-Holds :
    (p q n : ℕ) (g : Db) (xs : List ℕ)
    → Holds g q xs
    → Holds (add_nd_pt p n g) q (xs ++ (if p == q then n ∷ [] else []))
add_nd_pt-Holds p q n g xs h = elim (Bool-cases (p == q)) [
  | inl e ↦
      let back : (q == p) ≡ true = ground arith in
      let same : g.pt_nn p ≡ length xs = ap g.pt_nn (ground arith) ∙ h.count in
      rw e (record {
        count = rw back (omega (arith, same, length-append xs (n ∷ [])));
        entries = λ j x i. elim (get_elem?-append xs n j x i) [
          | inl (a, b) ↦ let here : (j == g.pt_nn p) ≡ true = rw same a in rw (back, here) b
          | inr (a, b) ↦
              let here : (j == g.pt_nn p) ≡ false = rw same a in rw (back, here) (h.entries j x b)
        ];
      })
  | inr e ↦
      let back : (q == p) ≡ false = ground arith in
      rw (e, append-nil xs)
        (record { count = rw back h.count; entries = λ j x i. rw back (h.entries j x i) })
]

add_nodes-Holds :
    (p k i : ℕ) (g : Db) (xs : List ℕ)
    → Holds g p xs
    → Holds (add_nodes k i g) p (xs ++ nodes_at g.nd p k i)
unfolding add_nodes nodes_at
add_nodes-Holds p zero i g xs h = rw (append-nil xs) h
add_nodes-Holds p (suc k) i g xs h =
    let one = if (g.nd i).pt == p then i ∷ [] else [] in
    subst (Holds (add_nodes k (suc i) (add_nd_pt (g.nd i).pt i g)) p)
      (append_assoc xs one (nodes_at g.nd p k (suc i)))
      (add_nodes-Holds p k (suc i) (add_nd_pt (g.nd i).pt i g) (xs ++ one)
        (add_nd_pt-Holds (g.nd i).pt p i g xs h))

-- After pt_to_node every point holds the nodes that name it as their point, in order, whatever
-- stood there before.
pub pt_to_node-Holds : (g : Db) (p : ℕ) → p < g.np → Holds (pt_to_node g) p (nodes_at g.nd p g.nn 0)
unfolding pt_to_node
pt_to_node-Holds g p h =
    let here : ltb p g.np ≡ true = lt→ltb p g.np h in
    add_nodes-Holds p g.nn 0 (record g { pt_nn = λ q. if ltb q g.np then 0 else g.pt_nn q }) []
      (record { count = rw here refl; entries = λ j x i. absurd (cc i) })
