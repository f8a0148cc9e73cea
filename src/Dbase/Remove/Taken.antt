-- ===== src/Dbase/Remove/Taken.antt =====
-- The nodes left of a point as a list, against the array that sub_nd_pt of dbase/list.c changes.
use tcad_webapp.Prelude.{
  ℕ, suc, ◌+◌, ◌≡◌, refl, ap, ◌∙◌, true, false, Option, none, some, List, [], ◌∷◌, ◌++◌, arith,
  append-nil, length, ◌==◌, ltb, Bool-cases, inl, inr, length-append,
}
use tcad_webapp.Dbase.ListStr.{Cell, Result, ok, panic, out_of_bounds, find, sub_nd_pt}
use tcad_webapp.Dbase.ListStr.Items.{
  stored, contains, erase, find-contains, length-erase, length-stored,
}
use tcad_webapp.Dbase.ListStr.Points.{sub_nd_pt-erase, sub_nd_pt-out_of_bounds}
use tcad_webapp.Dbase.Remove.{take_out}

-- The array shows the list: its first cells are the nodes, as many as the count says, and it is as
-- long as before.
abbrev pub Shows : Result (ℕ × List Cell) → Option (List ℕ) → Type 0
Shows (ok (num, cells)) (some ys) =
    (num ≡ length ys) × ((rest : List Cell) × (cells ≡ stored ys ++ rest)) × (length cells ≡ 10)
Shows (ok c) none = ⊥
Shows panic none = Unit
Shows panic (some ys) = ⊥
Shows out_of_bounds none = Unit
Shows out_of_bounds (some ys) = ⊥

not_there :
    (n : ℕ) (xs : List ℕ) (cs : List Cell)
    → contains n xs ≡ false
    → Shows (sub_nd_pt n (length xs) (stored xs ++ cs)) (take_out n xs)
unfolding sub_nd_pt take_out
not_there n xs cs h =
    let found : (find n (length xs) (stored xs ++ cs) == length xs) ≡ true =
      find-contains n xs cs ∙ rw h refl in
    rw (found, h) tt

full :
    (n : ℕ) (xs : List ℕ)
    → contains n xs ≡ true
    → length xs ≡ 10
    → Shows (sub_nd_pt n (length xs) (stored xs ++ [])) (take_out n xs)
unfolding take_out
full n xs h k =
    let read =
      ap (sub_nd_pt n (length xs)) (append-nil (stored xs)) ∙ sub_nd_pt-out_of_bounds n xs h in
    let most : ltb (length xs) 10 ≡ false = ground arith in rw (read, h, most) tt

room :
    (n : ℕ) (xs : List ℕ) (c : Cell) (cs : List Cell)
    → contains n xs ≡ true
    → length xs + suc (length cs) ≡ 10
    → Shows (sub_nd_pt n (length xs) (stored xs ++ (c ∷ cs))) (take_out n xs)
unfolding take_out
room n xs c cs h k =
    let less : ltb (length xs) 10 ≡ true = ground arith in
    let one = length-erase n xs h in
    let whole : length (stored (erase n xs) ++ (c ∷ c ∷ cs)) ≡ 10 =
      length-append (stored (erase n xs)) (c ∷ c ∷ cs)
      ∙ rw (length-stored (erase n xs)) (omega arith) in
    rw (sub_nd_pt-erase n xs c cs h, h, less) (omega arith, (c ∷ c ∷ cs, refl), whole)

there :
    (n : ℕ) (xs : List ℕ) (spare : List Cell)
    → contains n xs ≡ true
    → length xs + length spare ≡ 10
    → Shows (sub_nd_pt n (length xs) (stored xs ++ spare)) (take_out n xs)
there n xs [] h k = full n xs h (omega arith)
there n xs (c ∷ cs) h k = room n xs c cs h k

-- For a point whose nodes stand in the first cells of its array of MAXMAT cells, sub_nd_pt comes back
-- exactly where take_out gives a list, and its array and count then show that list.
pub sub_nd_pt-take_out :
    (n : ℕ) (xs : List ℕ) (spare : List Cell)
    → length xs + length spare ≡ 10
    → Shows (sub_nd_pt n (length xs) (stored xs ++ spare)) (take_out n xs)
sub_nd_pt-take_out n xs spare k = elim (Bool-cases (contains n xs)) [
  | inr h ↦ not_there n xs spare h
  | inl h ↦ there n xs spare h k
]
