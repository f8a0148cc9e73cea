-- ===== src/Matrix/Locate.antt =====
-- math/generate.c: iaja, which finds an entry in the list of rows and columns.
use mathlib.Core.Option
use tcad_webapp.Prelude.{
  ℕ, zero, suc, ◌+◌, ◌-◌, ◌≤◌, ◌<◌, ◌≡◌, ◌≢◌, refl, subst, true, false, Option, none, some, arith,
  ltb, ◌==◌, if◌then◌else◌, Bool-cases, inl, inr,
}

-- The linear search over `n` places from `i` on.
unfoldable pub search_row : (ℕ → ℕ) → ℕ → ℕ → ℕ → Option ℕ
search_row ia col zero i = none
search_row ia col (suc n) i =
    let rest = search_row ia col n (suc i) in if ia i == col then some i else rest

-- From `ia[row]` up to `ia[row+1]`.
abbrev pub search_from : (ℕ → ℕ) → ℕ → ℕ → Option ℕ
search_from ia row col = search_row ia col (ia (suc row) - ia row) (ia row)

-- -32767 is `none`.
unfoldable pub iaja : (ℕ → ℕ) → ℕ → ℕ → ℕ → Option ℕ
unfolding search_row
iaja ia aoff row col =
    if row == col
    then some row
    else if ltb row col
    then Option.map (λ i. i + aoff) (search_from ia row col)
    else search_from ia col row

-- The place of column `col` among those from `lo` up to `hi`, or that it is not there.
abbrev pub IsPlace : (ℕ → ℕ) → ℕ → ℕ → ℕ → Option ℕ → Type 0
IsPlace ia col lo hi none = (j : ℕ) → lo ≤ j → j < hi → ia j ≢ col
IsPlace ia col lo hi (some k) = (lo ≤ k) × (k < hi) × (ia k ≡ col)

IsPlace-later :
    (ia : ℕ → ℕ) (col lo hi : ℕ) (o : Option ℕ)
    → ia lo ≢ col
    → IsPlace ia col (suc lo) hi o
    → IsPlace ia col lo hi o
IsPlace-later ia col lo hi none ne h = λ j a b. elim (Bool-cases (j == lo)) [
  | inl e ↦ let same : lo ≡ j = ground arith in subst (λ x. ia x ≢ col) same ne
  | inr e ↦ h j (ground arith) b
]
IsPlace-later ia col lo hi (some k) ne h = (omega (arith, h.0), h.1, h.2)

search_row-IsPlace : (ia : ℕ → ℕ) (col n i : ℕ) → IsPlace ia col i (n + i) (search_row ia col n i)
unfolding search_row
search_row-IsPlace ia col zero i = λ j a b. absurd (omega arith)
search_row-IsPlace ia col (suc n) i = elim (Bool-cases (ia i == col)) [
  | inl e ↦ rw e (omega arith, omega arith, ground arith)
  | inr e ↦
      let same : n + suc i ≡ suc n + i = omega arith in
      rw e (
        IsPlace-later ia col i (suc n + i) (search_row ia col n (suc i)) (ground arith) (
          subst (λ x. IsPlace ia col (suc i) x (search_row ia col n (suc i))) same
            (search_row-IsPlace ia col n (suc i))))
]

-- Where the columns of the lower of two different indices are listed between its two pointers, iaja
-- finds the place of the higher one among them, or returns -32767 when it is not there; the entry
-- above the diagonal stands `aoff` behind the one below it.
pub iaja-IsPlace :
    (ia : ℕ → ℕ) (aoff lower higher : ℕ)
    → lower < higher
    → ia lower ≤ ia (suc lower)
    → (o : Option ℕ) × (iaja ia aoff higher lower ≡ o)
      × (iaja ia aoff lower higher ≡ Option.map (λ i. i + aoff) o)
      × IsPlace ia higher (ia lower) (ia (suc lower)) o
unfolding iaja
iaja-IsPlace ia aoff lower higher h w =
    let range : ia (suc lower) - ia lower + ia lower ≡ ia (suc lower) = omega arith in
    let e1 : (higher == lower) ≡ false = ground arith in
    let e2 : (lower == higher) ≡ false = ground arith in
    let e3 : ltb higher lower ≡ false = ground arith in
    let e4 : ltb lower higher ≡ true = ground arith in
    (
      search_from ia lower higher,
      rw (e1, e3) refl,
      rw (e2, e4) refl,
      subst (λ x. IsPlace ia higher (ia lower) x (search_from ia lower higher)) range
          (search_row-IsPlace ia higher (ia (suc lower) - ia lower) (ia lower)),
    )
