-- ===== src/Matrix/Generate.antt =====
-- math/generate.c: generate, which builds the list of rows and columns. The array has room for all
-- that is written: the calls that make it longer are left out.
use mathlib.Core.Option
use tcad_webapp.Prelude.{
  ℕ, zero, suc, ◌+◌, ◌-◌, ◌*◌, ◌<◌, ◌≡◌, ◌≢◌, refl, ap, sym, ◌∙◌, subst, Bool, true, false, ◌||◌,
  Option, none, some, List, [], ◌∷◌, ◌++◌, length, get_elem?, arith, ltb, ◌==◌, if◌then◌else◌,
  Bool-cases, inl, inr,
}

abbrev pub put_at : (ℕ → ℕ) → ℕ → ℕ → ℕ → ℕ
put_at ia a v x = if x == a then v else ia x

-- `ia` and `cnt`, the first empty place in it.
pub record Filling : Type 0 where
  pub ia : ℕ → ℕ
  pub cnt : ℕ

abbrev pub keep_col : Bool → ℕ → ℕ → Filling → Filling
keep_col symm row col st =
    if symm || ltb row col then record { ia = put_at st.ia st.cnt col; cnt = suc st.cnt } else st

-- The loop over `il`, `n` turns from `il` on; `base` is `symb_var * neigh[j]`.
unfoldable pub fill_vars : Bool → ℕ → ℕ → ℕ → ℕ → Filling → Filling
fill_vars symm row base zero il st = st
fill_vars symm row base (suc n) il st =
    fill_vars symm row base n (suc il) (keep_col symm row (base + il) st)

-- The loop over `j`.
unfoldable pub fill_cols : Bool → ℕ → ℕ → List ℕ → Filling → Filling
unfolding fill_vars
fill_cols symm v row [] st = st
fill_cols symm v row (x ∷ xs) st = fill_cols symm v row xs (fill_vars symm row (v * x) v 0 st)

-- One row, and the pointer behind it.
unfoldable pub fill_row : Bool → ℕ → ℕ → List ℕ → Filling → Filling
unfolding fill_cols
fill_row symm v row neigh st =
    let st' = fill_cols symm v row neigh st in record st' { ia = put_at st'.ia (row + 1) st'.cnt }

-- The loop over `ih`, `n` turns from `ih` on, for node `i`.
unfoldable pub fill_rows : Bool → ℕ → ℕ → List ℕ → ℕ → ℕ → Filling → Filling
unfolding fill_row
fill_rows symm v i neigh zero ih st = st
fill_rows symm v i neigh (suc n) ih st =
    fill_rows symm v i neigh n (suc ih) (fill_row symm v (v * i + ih) neigh st)

-- `get_connect(i, neigh, len)` is a parameter, `none` where it does not return 0.
module _ (get_connect : ℕ → ℕ → Option (List ℕ)) where
  -- The loop that doubles `len`; `none` is no fuel left.
  unfoldable pub connect : ℕ → ℕ → ℕ → Option (List ℕ × ℕ)
  connect zero i len = none
  connect (suc fuel) i len = elim (get_connect i len) [
    | none ↦ connect fuel i (len * 2)
    | some neigh ↦ some (neigh, len)
  ]

  -- The loop over the nodes, `n` turns from `i` on.
  unfoldable pub fill_nodes : ℕ → Bool → ℕ → ℕ → ℕ → ℕ → Filling → Option Filling
  unfolding connect fill_rows
  fill_nodes fuel symm v zero i len st = some st
  fill_nodes fuel symm v (suc n) i len st = elim (connect fuel i len) [
    | none ↦ none
    | some (neigh, len') ↦ fill_nodes fuel symm v n (suc i) len' (fill_rows symm v i neigh v 0 st)
  ]

  -- `*pia` and `*aoff`.
  unfoldable pub generate : ℕ → ℕ → ℕ → Bool → (ℕ → ℕ) → Option ((ℕ → ℕ) × ℕ)
  unfolding fill_nodes
  generate fuel nn v symm ia =
      Option.map (λ st. (st.ia, st.ia (v * nn) - st.ia 0))
        (fill_nodes fuel symm v nn 0 100
          (record { ia = put_at ia 0 (v * nn + 1); cnt = v * nn + 1 }))

-- The columns of a row, as a list.
unfoldable pub var_cols : Bool → ℕ → ℕ → ℕ → ℕ → List ℕ
var_cols symm row base zero il = []
var_cols symm row base (suc n) il =
    let rest = var_cols symm row base n (suc il) in
    if symm || ltb row (base + il) then (base + il) ∷ rest else rest

unfoldable pub columns : Bool → ℕ → ℕ → List ℕ → List ℕ
unfolding var_cols
columns symm v row [] = []
columns symm v row (x ∷ xs) = var_cols symm row (v * x) v 0 ++ columns symm v row xs

unfoldable write : List ℕ → Filling → Filling
write [] st = st
write (c ∷ cs) st = write cs (record { ia = put_at st.ia st.cnt c; cnt = suc st.cnt })

write-append : (cs ds : List ℕ) (st : Filling) → write (cs ++ ds) st ≡ write ds (write cs st)
unfolding write
write-append [] ds st = refl
write-append (c ∷ cs) ds st = write-append cs ds _

fill_vars-write :
    (symm : Bool) (row base n il : ℕ) (st : Filling)
    → fill_vars symm row base n il st ≡ write (var_cols symm row base n il) st
unfolding fill_vars var_cols write
fill_vars-write symm row base zero il st = refl
fill_vars-write symm row base (suc n) il st = elim (Bool-cases (symm || ltb row (base + il))) [
  | inl e ↦ rw e (fill_vars-write symm row base n (suc il) _)
  | inr e ↦ rw e (fill_vars-write symm row base n (suc il) _)
]

fill_cols-write :
    (symm : Bool) (v row : ℕ) (xs : List ℕ) (st : Filling)
    → fill_cols symm v row xs st ≡ write (columns symm v row xs) st
unfolding fill_cols columns write
fill_cols-write symm v row [] st = refl
fill_cols-write symm v row (x ∷ xs) st =
    fill_cols-write symm v row xs _
    ∙ ap (write (columns symm v row xs)) (fill_vars-write symm row (v * x) v 0 st)
    ∙ sym (write-append (var_cols symm row (v * x) v 0) (columns symm v row xs) st)

write-cnt : (cs : List ℕ) (st : Filling) → (write cs st).cnt ≡ length cs + st.cnt
unfolding write
write-cnt [] st = omega arith
write-cnt (c ∷ cs) st = write-cnt cs _ ∙ omega arith

write-below : (cs : List ℕ) (st : Filling) (k : ℕ) → k < st.cnt → (write cs st).ia k ≡ st.ia k
unfolding write
write-below [] st k h = refl
write-below (c ∷ cs) st k h =
    let other : (k == st.cnt) ≡ false = ground arith in
    write-below cs _ k (omega arith) ∙ rw other refl

write-get :
    (cs : List ℕ) (st : Filling) (j c : ℕ)
    → get_elem? cs j ≡ some c
    → (write cs st).ia (j + st.cnt) ≡ c
unfolding write
write-get [] st j c h = absurd (cc h)
write-get (d ∷ cs) st zero c h =
    let self : (st.cnt == st.cnt) ≡ true = ground arith in
    let here : st.cnt ≡ 0 + st.cnt = omega arith in
    let same : d ≡ c = ground arith in
    subst (λ x. (write cs (record { ia = put_at st.ia st.cnt d; cnt = suc st.cnt })).ia x ≡ c) here
      (write-below cs _ st.cnt (omega arith) ∙ rw self same)
write-get (d ∷ cs) st (suc j) c h =
    let same : j + suc st.cnt ≡ suc j + st.cnt = omega arith in
    subst (λ x. (write cs (record { ia = put_at st.ia st.cnt d; cnt = suc st.cnt })).ia x ≡ c) same
      (write-get cs _ j c h)

-- What one row leaves of the list: its own pointer, the pointer behind it, its columns between the
-- two, and all that was written before.
pub record IsRow (row : ℕ) (cols : List ℕ) (st st' : Filling) : Type 0 where
  pub pointer : st'.ia row ≡ st.cnt
  pub next : st'.ia (row + 1) ≡ st'.cnt
  pub count : st'.cnt ≡ length cols + st.cnt
  pub entries : (j c : ℕ) → get_elem? cols j ≡ some c → st'.ia (j + st.cnt) ≡ c
  pub before : (k : ℕ) → k < st.cnt → k ≢ row + 1 → st'.ia k ≡ st.ia k

-- Where the pointer of the row is the first empty place, behind all the pointers, generate fills the
-- row with the columns of the neighbours' variables in order, all of them or those above the
-- diagonal, sets the next pointer behind them, and changes nothing else that was written.
pub fill_row-IsRow :
    (symm : Bool) (v row : ℕ) (neigh : List ℕ) (st : Filling)
    → row + 1 < st.cnt
    → st.ia row ≡ st.cnt
    → IsRow row (columns symm v row neigh) st (fill_row symm v row neigh st)
unfolding fill_row
fill_row-IsRow symm v row neigh st h p =
    let cols = columns symm v row neigh in
    let e = fill_cols-write symm v row neigh st in
    let self : (row + 1 == row + 1) ≡ true = ground arith in
    record {
      pointer =
          let other : (row == row + 1) ≡ false = ground arith in
          rw (other, e) (write-below cols st row (omega arith) ∙ p);
      next = rw self refl;
      count = rw e (write-cnt cols st);
      entries = λ j c g.
          let other : (j + st.cnt == row + 1) ≡ false = ground arith in
          rw (other, e) (write-get cols st j c g);
      before = λ k a b.
          let other : (k == row + 1) ≡ false = ground arith in
          rw (other, e) (write-below cols st k a);
    }
