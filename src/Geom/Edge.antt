-- ===== src/Geom/Edge.antt =====
-- The edge that two triangles share.
use tcad_webapp.Prelude.{
  ℕ, ◌+◌, ◌-◌, ◌<◌, ◌≡◌, ◌≢◌, ◌⊎◌, inl, inr, refl, ap, sym, ◌∙◌, true, false, Option, none, some,
  ◌++◌, ◌==◌, ltb, arith, Bool-cases,
}
use tcad_webapp.Dbase.Nodes.{Db}
use tcad_webapp.Geom.{
  Neighbor, apart, overrun, shares, third, decide, match_corners, tnabor, corner,
}
use tcad_webapp.Geom.Corner.{
  IsTriangle, place, noted, row-place, Placed, place-Placed, IsCorner, IsOpposite, below_three,
  absent, corner-inj, by_three,
}

-- Corners `i` and `j` of `p` are the corners `u` and `v` of `q`, and `k` is not one of them.
record IsEdge (p q : ℕ → ℕ) (i j k u v : ℕ) : Type 0 where
  triangle : IsTriangle q
  other : IsTriangle p
  left : (i < 3) × (j < 3) × (k < 3) × (i ≢ j) × (i + j + k ≡ 3) × (i ≢ k) × (j ≢ k)
  right : (u < 3) × (v < 3)
  first : p i ≡ q u
  second : p j ≡ q v
  free : Placed (p k) q none

module _ (p q : ℕ → ℕ) (i j k u v : ℕ) (e : IsEdge p q i j k u v) where
  ends_ne : u ≢ v
  ends_ne s =
      e.left.3 (corner-inj p i j e.other e.left.0 e.left.1 (e.first ∙ ap q s ∙ sym e.second))

  here : (n : ℕ) → n < 3 → n ≢ k → (n ≡ i) ⊎ (n ≡ j)
  here n h d = elim (Bool-cases (n == i)) [
    | inl s ↦ inl (ground arith)
    | inr s ↦ inr (elim (below_three n h) [
      | inl t ↦ ground (arith, e.left.0, e.left.1, e.left.2, e.left.3, e.left.4, d)
      | inr w ↦ elim w [
        | inl t ↦ ground (arith, e.left.0, e.left.1, e.left.2, e.left.3, e.left.4, d)
        | inr t ↦ ground (arith, e.left.0, e.left.1, e.left.2, e.left.3, e.left.4, d)
      ]
    ])
  ]

  there : (n : ℕ) → n < 3 → n ≢ 3 - (u + v) → (n ≡ u) ⊎ (n ≡ v)
  there n h d = elim (Bool-cases (n == u)) [
    | inl s ↦ inl (ground arith)
    | inr s ↦ inr (ground (arith, e.right.0, e.right.1, ends_ne, d))
  ]

  left-IsOpposite : IsOpposite p q k
  left-IsOpposite = record {
    index = e.left.2;
    alone = λ n h. absent (p k) q n e.free h;
    shared = λ n h d. elim (here n h d) [
      | inl s ↦ (u, e.right.0, ap p s ∙ e.first)
      | inr s ↦ (v, e.right.1, ap p s ∙ e.second)
    ];
  }

  right_alone : (n : ℕ) → n < 3 → q (3 - (u + v)) ≢ p n
  right_alone n h s = elim (Bool-cases (n == k)) [
    | inl t ↦
        let same : n ≡ k = ground arith in
        absent (p k) q (3 - (u + v)) e.free (omega (arith, ends_ne, e.right.0, e.right.1))
          (sym (ap p same) ∙ sym s)
    | inr t ↦ elim (here n h (ground arith)) [
      | inl w ↦ absurd (
          omega (
            arith,
            corner-inj q (3 - (u + v)) u e.triangle (omega (arith, ends_ne, e.right.0, e.right.1))
                e.right.0 (s ∙ ap p w ∙ e.first),
            ends_ne,
            e.right.0,
            e.right.1,
          ))
      | inr w ↦ absurd (
          omega (
            arith,
            corner-inj q (3 - (u + v)) v e.triangle (omega (arith, ends_ne, e.right.0, e.right.1))
                e.right.1 (s ∙ ap p w ∙ e.second),
            ends_ne,
            e.right.0,
            e.right.1,
          ))
    ]
  ]

  right-IsOpposite : IsOpposite q p (3 - (u + v))
  right-IsOpposite = record {
    index = omega (arith, ends_ne, e.right.0, e.right.1);
    alone = right_alone;
    shared = λ n h d. elim (there n h d) [
      | inl s ↦ (i, e.left.0, ap q s ∙ sym e.first)
      | inr s ↦ (j, e.left.1, ap q s ∙ sym e.second)
    ];
  }

  small : ltb 3 (u + v) ≡ false
  small = ground (arith, ends_ne, e.right.0, e.right.1)

-- What the answer says of two triangles.
abbrev pub Describes : (ℕ → ℕ) → (ℕ → ℕ) → Neighbor → Type 0
Describes p q apart = (i j : ℕ) → i < 3 → j < 3 → i ≢ j → IsCorner (p i) q → ¬ IsCorner (p j) q
Describes p q overrun = (i : ℕ) → i < 3 → IsCorner (p i) q
Describes p q (shares (some k) (some n)) = IsOpposite p q k × IsOpposite q p n
Describes p q (shares _ _) = ⊥

module _ (p q : ℕ → ℕ) (tp : IsTriangle p) (tq : IsTriangle q) where
  not-IsCorner : (x : ℕ) → Placed x q none → ¬ IsCorner x q
  not-IsCorner x h (j, l, e) = absent x q j h l e

  -- All corners but one are not shared.
  apart_but : (s : ℕ) → ((i : ℕ) → i < 3 → i ≢ s → ¬ IsCorner (p i) q) → Describes p q apart
  apart_but s h i j a b d c c' = elim (Bool-cases (i == s)) [
    | inl e ↦ h j b (ground (arith, d)) c'
    | inr e ↦ h i a (ground arith) c
  ]

  by_edge : (i j k u v : ℕ) → IsEdge p q i j k u v → Describes p q (shares (some k) (third u v))
  by_edge i j k u v e =
      rw (small p q i j k u v e) (left-IsOpposite p q i j k u v e, right-IsOpposite p q i j k u v e)

  decide-Describes :
      (a b c : Option ℕ)
      → Placed (p 0) q a
      → Placed (p 1) q b
      → Placed (p 2) q c
      → Describes p q (decide (noted 0 a ++ (noted 1 b ++ noted 2 c)))
  decide-Describes none none none x y z = apart_but 3 (
      by_three (λ i. i ≢ 3 → ¬ IsCorner (p i) q) (λ _. not-IsCorner (p 0) x)
        (λ _. not-IsCorner (p 1) y) (λ _. not-IsCorner (p 2) z))
  decide-Describes (some u) none none x y z = apart_but 0 (
      by_three (λ i. i ≢ 0 → ¬ IsCorner (p i) q) (λ d. absurd (d refl)) (λ _. not-IsCorner (p 1) y)
        (λ _. not-IsCorner (p 2) z))
  decide-Describes none (some u) none x y z = apart_but 1 (
      by_three (λ i. i ≢ 1 → ¬ IsCorner (p i) q) (λ _. not-IsCorner (p 0) x) (λ d. absurd (d refl))
        (λ _. not-IsCorner (p 2) z))
  decide-Describes none none (some u) x y z = apart_but 2 (
      by_three (λ i. i ≢ 2 → ¬ IsCorner (p i) q) (λ _. not-IsCorner (p 0) x)
        (λ _. not-IsCorner (p 1) y) (λ d. absurd (d refl)))
  decide-Describes (some u) (some v) none x y z = by_edge 0 1 2 u v record {
    triangle = tq;
    other = tp;
    left = (
      omega arith,
      omega arith,
      omega arith,
      λ e. omega (arith, e),
      refl,
      λ e. omega (arith, e),
      λ e. omega (arith, e),
    );
    right = (x.0, y.0);
    first = x.1;
    second = y.1;
    free = z;
  }
  decide-Describes (some u) none (some v) x y z = by_edge 0 2 1 u v record {
    triangle = tq;
    other = tp;
    left = (
      omega arith,
      omega arith,
      omega arith,
      λ e. omega (arith, e),
      refl,
      λ e. omega (arith, e),
      λ e. omega (arith, e),
    );
    right = (x.0, z.0);
    first = x.1;
    second = z.1;
    free = y;
  }
  decide-Describes none (some u) (some v) x y z = by_edge 1 2 0 u v record {
    triangle = tq;
    other = tp;
    left = (
      omega arith,
      omega arith,
      omega arith,
      λ e. omega (arith, e),
      refl,
      λ e. omega (arith, e),
      λ e. omega (arith, e),
    );
    right = (y.0, z.0);
    first = y.1;
    second = z.1;
    free = x;
  }
  decide-Describes (some u) (some v) (some w) x y z =
      by_three (λ i. IsCorner (p i) q) (u, x.0, x.1) (v, y.0, y.1) (w, z.0, z.1)

-- For two triangles of three different points each: where tnabor answers FALSE they have at most one
-- point in common; where it answers TRUE they have two, and the numbers are those of the corners
-- that the other triangle does not have; where it writes outside of its array they have all three.
pub tnabor-Describes :
    (g : Db) (ie n : ℕ)
    → IsTriangle (corner g ie)
    → IsTriangle (corner g n)
    → Describes (corner g ie) (corner g n) (tnabor true g ie n)
unfolding tnabor match_corners
tnabor-Describes g ie n tp tq =
    let p = corner g ie in
    let q = corner g n in
    rw (row-place (p 0) 0 q tq, row-place (p 1) 1 q tq, row-place (p 2) 2 q tq)
      (decide-Describes p q tp tq (place (p 0) q) (place (p 1) q) (place (p 2) q)
        (place-Placed (p 0) q) (place-Placed (p 1) q) (place-Placed (p 2) q))
