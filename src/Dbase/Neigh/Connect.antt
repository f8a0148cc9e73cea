-- ===== src/Dbase/Neigh/Connect.antt =====
-- What `get_connect` of math/symb.c takes from the cache of dbase/neigh.c.
use tcad_webapp.Prelude.{
  ℕ, suc, ◌≡◌, ◌≢◌, refl, ap, sym, ◌∙◌, Bool, true, false, ◌||◌, ltb, ◌≤◌, some, List, [], ◌∷◌,
  ◌++◌, map, arith, length, get_elem?, ◌==◌, append_assoc,
}
use tcad_webapp.Dbase.Neigh.{
  Mesh, Cache, candidates, elim_dups, num_neigh_nd, neigh_nd, copy, get_connect,
}
use tcad_webapp.Dbase.ListStr.{to_short, short_max}
use tcad_webapp.Dbase.Neigh.Distinct.{has, IsIncreasing, elim_dups-IsDistinctOf}

get_elem?-append :
    (xs : List ℕ) (y : ℕ) (ys : List ℕ) → get_elem? (xs ++ (y ∷ ys)) (length xs) ≡ some y
get_elem?-append [] y ys = refl
get_elem?-append (x ∷ xs) y ys = get_elem?-append xs y ys

eq_self : (n : ℕ) → (n == n) ≡ true
eq_self n = ground arith

-- A cache for the node answers without a change, from any index on.
copy-cached :
    (m : Mesh) (n num : ℕ) (list : List ℕ) (i : ℕ) (xs ys : List ℕ)
    → list ≡ xs ++ ys
    → i ≡ length xs
    → copy m (record { list = list; num = num; work_nd = n }) n i (length ys)
      ≡ some (map (λ y. some (to_short y)) ys, record { list = list; num = num; work_nd = n })
unfolding copy neigh_nd
copy-cached m n num list i xs [] e p = refl
copy-cached m n num list i xs (y ∷ ys) e p =
    let here : get_elem? list i ≡ some y = rw (e, p) (get_elem?-append xs y ys) in
    let rest =
      copy-cached m n num list (suc i) (xs ++ (y ∷ [])) ys (e ∙ sym (append_assoc xs (y ∷ []) ys))
        (ap suc p ∙ length-snoc xs y) in
    rw (eq_self n, here, rest)
  where
    length-snoc : (zs : List ℕ) (z : ℕ) → suc (length zs) ≡ length (zs ++ (z ∷ []))
    length-snoc [] z = refl
    length-snoc (w ∷ zs) z = ap suc (length-snoc zs z)

-- Numbers of nodes that a short holds are stored as they are.
map-to_short :
    (xs : List ℕ)
    → ((a : ℕ) → has a xs ≡ true → a ≤ short_max)
    → map (λ y. some (to_short y)) xs ≡ map some xs
unfolding has
map-to_short [] h = refl
map-to_short (x ∷ xs) h =
    let here : x ≤ short_max = h x (rw (eq_self x) refl) in
    let kept : to_short x ≡ x = omega (arith, here) in
    let later = map-to_short xs (λ a e. h a (rw e (or_true (x == a)))) in rw (kept, later) refl
  where
    or_true : (b : Bool) → (b || true) ≡ true
    or_true true = refl
    or_true false = refl

-- A node with at least one candidate and at most 200, all of which a short holds: `taken` is filled
-- with the numbers of the nodes at its point and of the vertices of its triangles, each once and in
-- increasing order, all from the cache.
pub get_connect-IsIncreasing :
    (m : Mesh) (n : ℕ)
    → candidates m n ≢ []
    → length (candidates m n) ≤ 200
    → ((a : ℕ) → has a (candidates m n) ≡ true → a ≤ short_max)
    → (list : List ℕ) × (c : Cache) × (get_connect m n ≡ some (map some list, c))
      × IsIncreasing list
      × ((a : ℕ) → has a list ≡ has a (candidates m n))
      × (c.num ≡ length list)
unfolding get_connect num_neigh_nd
get_connect-IsIncreasing m n ne few short =
    let d = elim_dups-IsDistinctOf (candidates m n) ne in
    let list = (elim_dups (candidates m n)).1 in
    let fits : ltb 200 (length (candidates m n)) ≡ false = ground (arith, few) in
    (
      list,
      record { list = list; num = (elim_dups (candidates m n)).0; work_nd = n },
      rw (fits, d.count)
          (copy-cached m n (length list) list 0 [] list refl refl
            ∙ ap (λ r. some (r, record { list = list; num = length list; work_nd = n }))
                (map-to_short list (λ a e. short a (sym (d.same a) ∙ e)))),
      d.order,
      d.same,
      d.count,
    )
