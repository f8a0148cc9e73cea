-- ===== src/Dbase/ListStr/Points.antt =====
-- `sub_nd_pt` of dbase/list.c: the nodes of a point stand in an array of fixed size.
use tcad_webapp.Prelude.{
  ℕ, suc, ◌+◌, ◌-◌, ◌≡◌, refl, ap, sym, ◌∙◌, true, false, none, some, List, [], ◌∷◌, ◌++◌, arith,
  append-nil, length, ◌==◌, Bool-cases, inl, inr,
}
use mathlib.Core.Option
use tcad_webapp.Dbase.ListStr.{Cell, find, slide, slide_from, ok, out_of_bounds, sub_nd_pt}
use tcad_webapp.Dbase.ListStr.Items.{
  stored, contains, erase, find-contains, slide_from-suc, erase-ne,
}

slide-past :
    (y : ℕ) (ys : List ℕ) (c : Cell) (cs : List Cell)
    → slide (suc (length ys)) (stored (y ∷ ys) ++ (c ∷ cs)) ≡ some (stored ys ++ (c ∷ c ∷ cs))
unfolding slide
slide-past y [] c cs = refl
slide-past y (z ∷ zs) c cs = ap (Option.map (λ r. some z ∷ r)) (slide-past z zs c cs)

slide-full : (y : ℕ) (ys : List ℕ) → slide (suc (length ys)) (stored (y ∷ ys)) ≡ none
unfolding slide
slide-full y [] = refl
slide-full y (z ∷ zs) = ap (Option.map (λ r. some z ∷ r)) (slide-full z zs)

slide_from-past :
    (x : ℕ) (xs : List ℕ) (c : Cell) (cs : List Cell) (i n : ℕ)
    → contains x xs ≡ true
    → i ≡ find x (length xs) (stored xs ++ (c ∷ cs))
    → n + i ≡ length xs
    → slide_from i n (stored xs ++ (c ∷ cs)) ≡ some (stored (erase x xs) ++ (c ∷ c ∷ cs))
unfolding slide_from find contains erase
slide_from-past x [] c cs i n h p q = cc
slide_from-past x (y ∷ ys) c cs i n h p q = elim (Bool-cases (y == x)) [
  | inl e ↦
      let p' : i ≡ 0 = rw e at p in
      let q' : n ≡ suc (length ys) = omega arith in rw (e, p', q') (slide-past y ys c cs)
  | inr e ↦
      let k = find x (length ys) (stored ys ++ (c ∷ cs)) in
      let r = slide_from-past x ys c cs k n (rw e at h) refl (ground arith) in
      slide_from-suc (some y) (stored ys ++ (c ∷ cs)) (stored (erase x ys) ++ (c ∷ c ∷ cs)) i k n
        (ground arith) r
      ∙ ap (λ l. some (stored l ++ (c ∷ c ∷ cs))) (sym (erase-ne x y ys e))
]

slide_from-full :
    (x : ℕ) (xs : List ℕ) (i n : ℕ)
    → contains x xs ≡ true
    → i ≡ find x (length xs) (stored xs)
    → n + i ≡ length xs
    → slide_from i n (stored xs) ≡ none
unfolding slide_from find contains
slide_from-full x [] i n h p q = cc
slide_from-full x (y ∷ ys) i n h p q = elim (Bool-cases (y == x)) [
  | inl e ↦
      let p' : i ≡ 0 = rw e at p in
      let q' : n ≡ suc (length ys) = omega arith in rw (p', q') (slide-full y ys)
  | inr e ↦
      let k = find x (length ys) (stored ys) in
      let i-suc : i ≡ suc k = ground arith in
      let r = slide_from-full x ys k n (rw e at h) refl (ground arith) in
      rw i-suc (ap (Option.map (λ t. some y ∷ t)) r)
]

find_le :
    (x : ℕ) (xs : List ℕ) (cs : List Cell)
    → (length xs - find x (length xs) (stored xs ++ cs)) + find x (length xs) (stored xs ++ cs)
      ≡ length xs
unfolding find
find_le x [] cs = refl
find_le x (y ∷ ys) cs = ground (arith, find_le x ys cs)

-- With a spare cell behind the nodes of the point, the first such node is taken out and the others
-- keep their order.
pub sub_nd_pt-erase :
    (n : ℕ) (xs : List ℕ) (c : Cell) (cs : List Cell)
    → contains n xs ≡ true
    → sub_nd_pt n (length xs) (stored xs ++ (c ∷ cs))
      ≡ ok (length xs - 1, stored (erase n xs) ++ (c ∷ c ∷ cs))
unfolding sub_nd_pt
sub_nd_pt-erase n xs c cs h =
    let found : (find n (length xs) (stored xs ++ (c ∷ cs)) == length xs) ≡ false =
      find-contains n xs (c ∷ cs) ∙ rw h refl in
    rw (
      found,
      slide_from-past n xs c cs (find n (length xs) (stored xs ++ (c ∷ cs)))
          (length xs - find n (length xs) (stored xs ++ (c ∷ cs))) h refl (find_le n xs (c ∷ cs)),
    )

-- Where the nodes of the point fill the array, the loop reads past its end.
pub sub_nd_pt-out_of_bounds :
    (n : ℕ) (xs : List ℕ)
    → contains n xs ≡ true
    → sub_nd_pt n (length xs) (stored xs) ≡ out_of_bounds
unfolding sub_nd_pt
sub_nd_pt-out_of_bounds n xs h =
    let whole = append-nil (stored xs) in
    let found : (find n (length xs) (stored xs) == length xs) ≡ false =
      rw whole at (find-contains n xs []) ∙ rw h refl in
    rw (
      found,
      slide_from-full n xs (find n (length xs) (stored xs))
          (length xs - find n (length xs) (stored xs)) h refl (rw whole at (find_le n xs [])),
    )
