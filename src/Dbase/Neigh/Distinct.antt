-- ===== src/Dbase/Neigh/Distinct.antt =====
-- The list that `elim_dups` leaves: increasing, and of the same numbers.
use tcad_webapp.Prelude.{
  ℕ, zero, suc, ◌≤◌, ◌<◌, ◌≡◌, refl, ap, sym, ◌∙◌, Bool, true, false, ◌||◌, List, [], ◌∷◌, arith,
  length, ltb, ◌==◌, if◌then◌else◌, Bool-cases, inl, inr, ◌≢◌,
}
use tcad_webapp.Dbase.Neigh.{exchange, sort, keep_distinct, compact, elim_dups}

unfoldable pub has : ℕ → List ℕ → Bool
has a [] = false
has a (x ∷ xs) = (x == a) || has a xs

abbrev pub Above : ℕ → List ℕ → Type 0
Above m xs = (a : ℕ) → has a xs ≡ true → m ≤ a

abbrev pub IsSorted : List ℕ → Type 0
IsSorted [] = Unit
IsSorted (x ∷ xs) = Above x xs × IsSorted xs

-- Every entry is below all that follow it.
abbrev pub IsIncreasing : List ℕ → Type 0
IsIncreasing [] = Unit
IsIncreasing (x ∷ xs) = ((a : ℕ) → has a xs ≡ true → x < a) × IsIncreasing xs

exchange-has :
    (a x : ℕ) (ys : List ℕ) → has a ((exchange x ys).0 ∷ (exchange x ys).1) ≡ has a (x ∷ ys)
unfolding exchange has
exchange-has a x [] = refl
exchange-has a x (y ∷ ys) = ground (arith, exchange-has a (if ltb y x then y else x) ys)

exchange-le : (x : ℕ) (ys : List ℕ) → (exchange x ys).0 ≤ x
unfolding exchange
exchange-le x [] = omega arith
exchange-le x (y ∷ ys) = ground (arith, exchange-le (if ltb y x then y else x) ys)

exchange-Above : (x : ℕ) (ys : List ℕ) → Above (exchange x ys).0 (exchange x ys).1
unfolding exchange has
exchange-Above x [] a h = cc
exchange-Above x (y ∷ ys) a h = ground (
  arith,
  exchange-Above (if ltb y x then y else x) ys a,
  exchange-le (if ltb y x then y else x) ys,
)

length-exchange : (x : ℕ) (ys : List ℕ) → length (exchange x ys).1 ≡ length ys
unfolding exchange
length-exchange x [] = refl
length-exchange x (y ∷ ys) = ap suc (length-exchange (if ltb y x then y else x) ys)

has-sort : (a n : ℕ) (xs : List ℕ) → n ≡ length xs → has a (sort n xs) ≡ has a xs
unfolding sort has
has-sort a zero xs e = refl
has-sort a (suc n) [] e = refl
has-sort a (suc n) (x ∷ xs) e =
    ground (arith, exchange-has a x xs, length-exchange x xs, has-sort a n (exchange x xs).1)

sort-IsSorted : (n : ℕ) (xs : List ℕ) → n ≡ length xs → IsSorted (sort n xs)
unfolding sort
sort-IsSorted zero [] e = tt
sort-IsSorted zero (x ∷ xs) e = absurd (omega arith)
sort-IsSorted (suc n) [] e = tt
sort-IsSorted (suc n) (x ∷ xs) e =
    let size : n ≡ length (exchange x xs).1 = omega (arith, length-exchange x xs) in
    (
      λ a h. exchange-Above x xs a (sym (has-sort a n (exchange x xs).1 size) ∙ h),
      sort-IsSorted n (exchange x xs).1 size,
    )

keep_distinct-has : (a x : ℕ) (xs : List ℕ) → has a (x ∷ keep_distinct x xs) ≡ has a (x ∷ xs)
unfolding keep_distinct has
keep_distinct-has a x [] = refl
keep_distinct-has a x (y ∷ ys) = ground (arith, keep_distinct-has a x ys, keep_distinct-has a y ys)

keep_distinct-lt :
    (x : ℕ) (xs : List ℕ)
    → Above x xs
    → IsSorted xs
    → (a : ℕ) → has a (keep_distinct x xs) ≡ true
    → x < a
unfolding keep_distinct has
keep_distinct-lt x [] h s a k = cc
keep_distinct-lt x (y ∷ ys) h s a k = elim (Bool-cases (y == x)) [
  | inl e ↦ keep_distinct-lt x ys (λ b p. h b (ground (arith))) s.1 a (rw e at k)
  | inr e ↦
      let k' : has a (y ∷ keep_distinct y ys) ≡ true = rw e at k in
      let member : has a (y ∷ ys) ≡ true = sym (keep_distinct-has a y ys) ∙ k' in
      ground (arith, h y, s.0 a, member)
]

keep_distinct-IsIncreasing : (x : ℕ) (xs : List ℕ) → IsSorted xs → IsIncreasing (keep_distinct x xs)
unfolding keep_distinct
keep_distinct-IsIncreasing x [] s = tt
keep_distinct-IsIncreasing x (y ∷ ys) s = elim (Bool-cases (y == x)) [
  | inl e ↦ rw e (keep_distinct-IsIncreasing x ys s.1)
  | inr e ↦ rw e (keep_distinct-lt y ys s.0 s.1, keep_distinct-IsIncreasing y ys s.1)
]

-- The count, the order and the members of a list that is made distinct.
pub record IsDistinctOf (taken : List ℕ) (r : ℕ × List ℕ) : Type 0 where
  pub count : r.0 ≡ length r.1
  pub order : IsIncreasing r.1
  pub same : (a : ℕ) → has a r.1 ≡ has a taken

compact-IsDistinctOf :
    (x : ℕ) (xs : List ℕ) → IsSorted (x ∷ xs) → IsDistinctOf (x ∷ xs) (compact (x ∷ xs))
unfolding compact
compact-IsDistinctOf x xs s = record {
  count = refl;
  order = (keep_distinct-lt x xs s.0 s.1, keep_distinct-IsIncreasing x xs s.1);
  same = λ a. keep_distinct-has a x xs;
}

-- A list that is not empty comes out in increasing order, with the same numbers in it, and `*num`
-- is how many they are.
pub elim_dups-IsDistinctOf : (taken : List ℕ) → taken ≢ [] → IsDistinctOf taken (elim_dups taken)
unfolding elim_dups sort
elim_dups-IsDistinctOf [] ne = absurd (ne refl)
elim_dups-IsDistinctOf (x ∷ xs) ne =
    let m = (exchange x xs).0 in
    let r = sort (length xs) (exchange x xs).1 in
    let d = compact-IsDistinctOf m r (sort-IsSorted (length (x ∷ xs)) (x ∷ xs) refl) in
    record {
      count = d.count;
      order = d.order;
      same = λ a. d.same a ∙ has-sort a (length (x ∷ xs)) (x ∷ xs) refl;
    }

-- For an empty list `*num` is 1, and no entry is there.
pub elim_dups-nil : elim_dups [] ≡ (1, [])
unfolding elim_dups
elim_dups-nil = refl
