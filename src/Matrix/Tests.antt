-- ===== src/Matrix/Tests.antt =====
-- A matrix of two rows with one entry off the diagonal.
use mathlib.Core.Option
use tcad_webapp.Prelude.{
  ltb, ◌*◌, refl, false, [], ◌∷◌, ℕ, ◌+◌, ◌≡◌, Option, arith, if◌then◌else◌, ◌==◌, ◌||◌,
}
use tcad_webapp.Matrix.Generate.{Filling, fill_row, columns, IsRow, fill_row-IsRow}
use tcad_webapp.Dbase.ListStr.Items.{erase}
use tcad_webapp.Matrix.Fill.{min_ia_fill}
use tcad_webapp.Matrix.Fill.Order.{IsPermutation}
use tcad_webapp.Matrix.Fill.Permutes.{IsMatrixMap, min_ia_fill-IsPermutation}
use tcad_webapp.Matrix.Locate.{iaja, IsPlace, iaja-IsPlace}

-- 3, 4, 4 and the column 1.
abbrev pattern_of : ℕ → ℕ
pattern_of k = if k == 0 then 3 else if k == 3 then 1 else 4

iaja-IsPlace_example :
    (o : Option ℕ) × (iaja pattern_of 1 1 0 ≡ o)
    × (iaja pattern_of 1 0 1 ≡ Option.map (λ i. i + 1) o)
    × IsPlace pattern_of 1 3 4 o
iaja-IsPlace_example = iaja-IsPlace pattern_of 1 0 1 (omega arith) (omega arith)

-- Row 0 of two, before its columns are written.
abbrev begun : Filling
begun = record { ia = λ k. 3; cnt = 3 }

fill_row-IsRow_example :
    IsRow 0 (columns false 1 0 (0 ∷ 1 ∷ [])) begun (fill_row false 1 0 (0 ∷ 1 ∷ []) begun)
fill_row-IsRow_example = fill_row-IsRow false 1 0 (0 ∷ 1 ∷ []) begun (omega arith) refl

-- The map of a full matrix of two rows: 3, 5, 7 and the columns 0, 1 of both.
abbrev full_map : ℕ → ℕ
full_map k = if ltb k 3 then 3 + 2 * k else (if k == 3 || k == 5 then 0 else 1)

full_map-IsMatrixMap : IsMatrixMap 2 full_map
full_map-IsMatrixMap = record {
  first = refl;
  columns = λ i j l a b. ground arith;
  apart = λ i k m l a b c d e. ground (arith, e);
}

min_ia_fill-IsPermutation_example : IsPermutation 2 (min_ia_fill full_map (λ i. 0) 0).0
min_ia_fill-IsPermutation_example =
    min_ia_fill-IsPermutation 2 full_map (λ i. 0) 0 full_map-IsMatrixMap

-- The first node is eliminated first, and the upper triangle has one entry.
full_map_fill : (min_ia_fill full_map (λ i. 0) 0).1 ≡ 1
unfolding min_ia_fill erase
full_map_fill = refl
