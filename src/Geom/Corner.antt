-- ===== src/Geom/Corner.antt =====
-- The corners of a triangle among those of another.
use tcad_webapp.Prelude.{
  ℕ, ◌<◌, ◌≡◌, ◌≢◌, ◌⊎◌, inl, inr, refl, ap, sym, ◌∙◌, subst, false, Option, none, some, List, [],
  ◌∷◌, ◌==◌, if◌then◌else◌, arith, Bool-cases,
}
use tcad_webapp.Geom.{row}

-- The three points are different.
abbrev pub IsTriangle : (ℕ → ℕ) → Type 0
IsTriangle p = (p 0 ≢ p 1) × (p 0 ≢ p 2) × (p 1 ≢ p 2)

-- Where the point stands among the corners.
abbrev pub place : ℕ → (ℕ → ℕ) → Option ℕ
place x q =
    if x == q 0 then some 0 else if x == q 1 then some 1 else if x == q 2 then some 2 else none

abbrev pub noted : ℕ → Option ℕ → List (ℕ × ℕ)
noted i none = []
noted i (some j) = (i, j) ∷ []

pub row-place : (x i : ℕ) (q : ℕ → ℕ) → IsTriangle q → row x i q ≡ noted i (place x q)
row-place x i q (a, b, c) = elim (Bool-cases (x == q 0)) [
  | inl e ↦
      let f : (x == q 1) ≡ false = ground (arith, a) in
      let g : (x == q 2) ≡ false = ground (arith, b) in rw (e, f, g) refl
  | inr e ↦ elim (Bool-cases (x == q 1)) [
    | inl f ↦ let g : (x == q 2) ≡ false = ground (arith, c) in rw (e, f, g) refl
    | inr f ↦ elim (Bool-cases (x == q 2)) [ inl g ↦ rw (e, f, g) refl | inr g ↦ rw (e, f, g) refl ]
  ]
]

-- What `place` says.
abbrev pub Placed : ℕ → (ℕ → ℕ) → Option ℕ → Type 0
Placed x q none = (x ≢ q 0) × (x ≢ q 1) × (x ≢ q 2)
Placed x q (some j) = (j < 3) × (x ≡ q j)

pub place-Placed : (x : ℕ) (q : ℕ → ℕ) → Placed x q (place x q)
place-Placed x q = elim (Bool-cases (x == q 0)) [
  | inl e ↦ rw e (omega arith, ground arith)
  | inr e ↦ elim (Bool-cases (x == q 1)) [
    | inl f ↦ rw (e, f) (omega arith, ground arith)
    | inr f ↦ elim (Bool-cases (x == q 2)) [
      | inl g ↦ rw (e, f, g) (omega arith, ground arith)
      | inr g ↦ rw (e, f, g) (ground arith, ground arith, ground arith)
    ]
  ]
]

-- A point is one of the corners.
abbrev pub IsCorner : ℕ → (ℕ → ℕ) → Type 0
IsCorner x q = (j : ℕ) × (j < 3) × (x ≡ q j)

-- All corners of `p` but `k` are corners of `q`, and `k` is not.
pub record IsOpposite (p q : ℕ → ℕ) (k : ℕ) : Type 0 where
  pub index : k < 3
  pub alone : (j : ℕ) → j < 3 → p k ≢ q j
  pub shared : (i : ℕ) → i < 3 → i ≢ k → IsCorner (p i) q

pub below_three : (j : ℕ) → j < 3 → (j ≡ 0) ⊎ ((j ≡ 1) ⊎ (j ≡ 2))
below_three j h = elim (Bool-cases (j == 0)) [
  | inl e ↦ inl (ground arith)
  | inr e ↦ elim (Bool-cases (j == 1)) [
    | inl f ↦ inr (inl (ground arith))
    | inr f ↦ inr (inr (ground arith))
  ]
]

pub absent : (x : ℕ) (q : ℕ → ℕ) (j : ℕ) → Placed x q none → j < 3 → x ≢ q j
absent x q j (a, b, c) h e = elim (below_three j h) [
  | inl s ↦ a (e ∙ ap q s)
  | inr t ↦ elim t [ inl s ↦ b (e ∙ ap q s) | inr s ↦ c (e ∙ ap q s) ]
]

pub corner-inj : (q : ℕ → ℕ) (i j : ℕ) → IsTriangle q → i < 3 → j < 3 → q i ≡ q j → i ≡ j
corner-inj q i j (a, b, c) h k e = elim (below_three i h) [
  | inl s ↦ elim (below_three j k) [
    | inl t ↦ omega (arith, s, t)
    | inr t ↦ elim t [
      | inl u ↦ absurd (a (sym (ap q s) ∙ e ∙ ap q u))
      | inr u ↦ absurd (b (sym (ap q s) ∙ e ∙ ap q u))
    ]
  ]
  | inr s ↦ elim s [
    | inl v ↦ elim (below_three j k) [
      | inl t ↦ absurd (a (sym (ap q t) ∙ sym e ∙ ap q v))
      | inr t ↦ elim t [
        | inl u ↦ omega (arith, u, v)
        | inr u ↦ absurd (c (sym (ap q v) ∙ e ∙ ap q u))
      ]
    ]
    | inr v ↦ elim (below_three j k) [
      | inl t ↦ absurd (b (sym (ap q t) ∙ sym e ∙ ap q v))
      | inr t ↦ elim t [
        | inl u ↦ absurd (c (sym (ap q u) ∙ sym e ∙ ap q v))
        | inr u ↦ omega (arith, u, v)
      ]
    ]
  ]
]

pub by_three : (P : ℕ → Type 0) → P 0 → P 1 → P 2 → (i : ℕ) → i < 3 → P i
by_three P a b c i h = elim (below_three i h) [
  | inl s ↦ subst P (sym s) a
  | inr t ↦ elim t [ inl s ↦ subst P (sym s) b | inr s ↦ subst P (sym s) c ]
]
