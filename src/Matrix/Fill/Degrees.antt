-- ===== src/Matrix/Fill/Degrees.antt =====
-- The lists of neighbours in the elimination: different nodes of the matrix, so that a degree is at
-- most the number of nodes.
use tcad_webapp.Prelude.{
  ℕ, zero, suc, ◌+◌, ◌-◌, ◌<◌, ◌≤◌, ◌≡◌, refl, subst, true, false, not, ◌&&◌, ◌||◌, List, [], ◌∷◌,
  length, ◌==◌, if◌then◌else◌, arith, Bool-cases, inl, inr,
}
use tcad_webapp.Dbase.Impurity.{update}
use tcad_webapp.Dbase.ListStr.Items.{erase}
use tcad_webapp.Dbase.Neigh.Distinct.{has}
use tcad_webapp.Matrix.Fill.{int_zero, Elimination, set_mask, union, join_node}

abbrev pub IsDistinct : List ℕ → Type 0
IsDistinct [] = Unit
IsDistinct (x ∷ xs) = (has x xs ≡ false) × IsDistinct xs

abbrev pub Below : ℕ → List ℕ → Type 0
Below n xs = (a : ℕ) → has a xs ≡ true → a < n

has-erase :
    (a b : ℕ) (xs : List ℕ) → IsDistinct xs → has a (erase b xs) ≡ (has a xs && not (b == a))
unfolding has erase
has-erase a b [] d = refl
has-erase a b (x ∷ xs) d = ground (arith, has-erase a b xs d.1, d.0)

has-erase_le : (a b : ℕ) (xs : List ℕ) → has a (erase b xs) ≡ true → has a xs ≡ true
unfolding has erase
has-erase_le a b [] h = h
has-erase_le a b (x ∷ xs) h = ground (arith, has-erase_le a b xs, h)

erase-IsDistinct : (b : ℕ) (xs : List ℕ) → IsDistinct xs → IsDistinct (erase b xs)
unfolding erase
erase-IsDistinct b [] d = tt
erase-IsDistinct b (x ∷ xs) d = elim (Bool-cases (x == b)) [
  | inl e ↦ rw e d.1
  | inr e ↦ rw e (ground (arith, has-erase x b xs d.1, d.0), erase-IsDistinct b xs d.1)
]

length-erase : (b : ℕ) (xs : List ℕ) → length xs ≤ suc (length (erase b xs))
unfolding erase
length-erase b [] = omega arith
length-erase b (x ∷ xs) = ground (arith, length-erase b xs)

-- Different numbers below `n` are at most `n`.
pub length-le : (n : ℕ) (xs : List ℕ) → IsDistinct xs → Below n xs → length xs ≤ n
unfolding has
length-le zero [] d h = omega arith
length-le zero (x ∷ xs) d h = absurd (omega (arith, h x (ground arith)))
length-le (suc n) xs d h =
    let fewer =
      length-le n (erase n xs) (erase-IsDistinct n xs d)
        (λ a k. ground (arith, has-erase a n xs d, h a, k)) in
    omega (arith, fewer, length-erase n xs)

set_mask-lem :
    (qs : List ℕ) (b : ℕ) (mask : ℕ → ℕ) (a : ℕ)
    → set_mask qs b mask a ≡ (if has a qs then b else mask a)
unfolding set_mask has
set_mask-lem [] b mask a = refl
set_mask-lem (q ∷ qs) b mask a = ground (arith, set_mask-lem qs b (update mask q b) a)

has-union :
    (a : ℕ) (qs : List ℕ) (mask : ℕ → ℕ) (w : List ℕ × ℕ)
    → has a (union qs mask w).0 ≡ (has a w.0 || (has a qs && (mask a == 0)))
unfolding union has
has-union a [] mask w = ground arith
has-union a (q ∷ qs) mask w =
    ground (arith, has-union a qs mask (if mask q == 0 then (q ∷ w.0, suc w.1) else w))

union-count :
    (qs : List ℕ) (mask : ℕ → ℕ) (w : List ℕ × ℕ)
    → w.1 ≤ int_zero + length w.0
    → (union qs mask w).1 ≤ int_zero + length (union qs mask w).0
unfolding union
union-count [] mask w l = l
union-count (q ∷ qs) mask w l =
    union-count qs mask (if mask q == 0 then (q ∷ w.0, suc w.1) else w) (ground arith)

-- The nodes that the mask lets through are not in the list yet.
abbrev Fresh : List ℕ → (ℕ → ℕ) → List ℕ → Type 0
Fresh qs mask xs = (a : ℕ) → has a qs ≡ true → mask a ≡ 0 → has a xs ≡ false

union-IsDistinct :
    (qs : List ℕ) (mask : ℕ → ℕ) (w : List ℕ × ℕ)
    → IsDistinct qs
    → IsDistinct w.0
    → Fresh qs mask w.0
    → IsDistinct (union qs mask w).0
unfolding union has
union-IsDistinct [] mask w d k f = k
union-IsDistinct (q ∷ qs) mask w d k f =
    let next : List ℕ × ℕ = if mask q == 0 then (q ∷ w.0, suc w.1) else w in
    let step = elim (Bool-cases (mask q == 0)) as (λ _. IsDistinct next.0 × Fresh qs mask next.0) [
      | inl e ↦
          rw e ((f q (ground arith) (ground arith), k), λ a h z. ground (arith, f a, d.0, h, z))
      | inr e ↦ rw e (k, λ a h z. f a (ground arith) z)
    ] in
    union-IsDistinct qs mask next d.1 step.0 step.1

-- The lists of the first `nn` nodes, and the mask between two uses of it.
pub record IsGraph (nn : ℕ) (st : Elimination) : Type 0 where
  pub distinct : (i : ℕ) → i < nn → IsDistinct (st.nbrs i)
  pub inside : (i : ℕ) → i < nn → Below nn (st.nbrs i)
  pub clear : (a : ℕ) → st.mask a ≡ 0

abbrev pub IsCounted : Elimination → ℕ → Type 0
IsCounted st i = st.v i ≤ int_zero + length (st.nbrs i)

module _ (best : ℕ) (bestl : List ℕ) (work : ℕ) (st : Elimination) where
  pub join_node-IsCounted : (i : ℕ) → IsCounted st i → IsCounted (join_node best bestl work st) i
  unfolding join_node
  join_node-IsCounted i c = elim (Bool-cases (i == work)) [
    | inl e ↦
        let same : i ≡ work = ground arith in
        let c' : st.v work ≤ int_zero + length (st.nbrs work) = subst (IsCounted st) same c in
        rw e (
          union-count bestl (set_mask (st.nbrs work) 1 st.mask)
            (erase best (st.nbrs work), st.v work - 1)
            (omega (arith, length-erase best (st.nbrs work))))
    | inr e ↦ rw e c
  ]

  module _ (nn : ℕ) (l : work < nn) (g : IsGraph nn st) (d : IsDistinct bestl)
      (b : Below nn bestl) where
    masked : ℕ → ℕ
    masked = set_mask (st.nbrs work) 1 st.mask

    joined : List ℕ × ℕ
    joined = union bestl masked (erase best (st.nbrs work), st.v work - 1)

    joined-IsDistinct : IsDistinct joined.0
    unfolding joined masked
    joined-IsDistinct =
        union-IsDistinct bestl masked (erase best (st.nbrs work), st.v work - 1) d
          (erase-IsDistinct best (st.nbrs work) (g.distinct work l))
          (λ a h z.
            ground (
              arith,
              set_mask-lem (st.nbrs work) 1 st.mask a,
              has-erase_le a best (st.nbrs work),
              z,
            ))

    joined-Below : Below nn joined.0
    unfolding joined
    joined-Below a h = ground (
      arith,
      has-union a bestl masked (erase best (st.nbrs work), st.v work - 1),
      has-erase_le a best (st.nbrs work),
      g.inside work l a,
      b a,
      h,
    )

    joined-clear : (a : ℕ) → set_mask joined.0 0 (update masked best 0) a ≡ 0
    unfolding joined masked
    joined-clear a = ground (
      arith,
      set_mask-lem joined.0 0 (update masked best 0) a,
      set_mask-lem (st.nbrs work) 1 st.mask a,
      has-union a bestl masked (erase best (st.nbrs work), st.v work - 1),
      has-erase a best (st.nbrs work) (g.distinct work l),
      g.clear a,
    )

    pub join_node-IsGraph : IsGraph nn (join_node best bestl work st)
    unfolding join_node joined masked
    join_node-IsGraph = record {
      distinct = λ i k. elim (Bool-cases (i == work)) [
        | inl e ↦ rw e joined-IsDistinct
        | inr e ↦ rw e (g.distinct i k)
      ];
      inside = λ i k. elim (Bool-cases (i == work)) [
        | inl e ↦ rw e joined-Below
        | inr e ↦ rw e (g.inside i k)
      ];
      clear = joined-clear;
    }
