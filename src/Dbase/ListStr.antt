-- ===== src/Dbase/ListStr.antt =====
-- dbase/list.c: the growing lists of the mesh, and what they stand for.
pub mod Items
pub mod Bounds
pub mod Points
pub mod Short
use mathlib.Core.Option
use tcad_webapp.Prelude.{
  ℕ, zero, suc, ◌+◌, ◌-◌, ◌%◌, ◌≤◌, ◌<◌, ◌≡◌, refl, ap, sym, ◌∙◌, Bool, true, false, ◌||◌, not,
  ◌&&◌, Option, none, some, List, [], ◌∷◌, ◌++◌, map, append_assoc, append-nil, arith, length, set,
  get_elem?, length-append, length-set, leb, ◌==◌, if◌then◌else◌, Bool-cases, inl, inr,
}

-- A cell of the heap: `none` is what `malloc` leaves there.
abbrev pub Cell : Type 0
Cell = Option ℕ

abbrev pub unset : ℕ → List Cell
unset zero = []
unset (suc n) = none ∷ unset n

-- `short`: the greatest value, and the 16 bits of a number; 32768 and more stand for the negative
-- values, which are below the others.
abbrev pub short_max : ℕ
short_max = 32767

abbrev pub to_short : ℕ → ℕ
to_short x = x % 65536

abbrev pub rank : ℕ → ℕ
rank x = (x + 32768) % 65536

-- `struct list_str`, with `num` and `all` as the bits of a `short`. Where `all` is 0, `list` is the
-- null pointer.
pub record ListStr : Type 0 where
  pub num : ℕ
  pub all : ℕ
  pub list : List Cell

abbrev pub cell_is : Cell → ℕ → Bool
cell_is (some y) x = y == x
cell_is none x = false

-- Both fields are not negative.
abbrev pub FitsShort : ListStr → Type 0
FitsShort l = (l.num ≤ short_max) × (l.all ≤ short_max)

-- `sralloc`; a negative number of cells asks for about four gigabytes, which is taken to fail.
abbrev pub enlarge : ℕ → List Cell → List Cell
enlarge all cells = if leb all short_max then cells ++ unset 10 else []

unfoldable pub grow : ListStr → ListStr
grow l =
    if leb (rank l.all) (rank l.num)
    then (if l.all == 0 then record l { all = 10; list = unset 10 } else record l {
      all = to_short (l.all + 10);
      list = enlarge (to_short (l.all + 10)) l.list;
    })
    else l

unfoldable pub add_list : ListStr → ℕ → ListStr
unfolding grow
add_list l item =
    let g = grow l in record g { list = set g.list g.num (some item); num = to_short (g.num + 1) }

unfoldable pub dis_list : ListStr → ListStr
dis_list l = record { num = 0; all = 0; list = [] }

-- `for(i = 0; (i < num) && (list[i] != item); i++);`, over the cells from `i` on.
unfoldable pub find : ℕ → ℕ → List Cell → ℕ
find item zero cs = 0
find item (suc n) [] = 0
find item (suc n) (c ∷ cs) = if cell_is c item then 0 else suc (find item n cs)

-- `list[j] = list[j+1]` for `n` values of `j`; `none` is a read past the end of the array.
unfoldable pub slide : ℕ → List Cell → Option (List Cell)
slide zero cs = some cs
slide (suc n) [] = none
slide (suc n) (c ∷ []) = none
slide (suc n) (c ∷ d ∷ cs) = Option.map (λ r. d ∷ r) (slide n (d ∷ cs))

-- The same from index `i` on.
unfoldable pub slide_from : ℕ → ℕ → List Cell → Option (List Cell)
unfolding slide
slide_from zero n cs = slide n cs
slide_from (suc i) n [] = none
slide_from (suc i) n (c ∷ cs) = Option.map (λ r. c ∷ r) (slide_from i n cs)

-- What a routine that may `panic` returns.
pub data Result (A : Type 0) : Type 0 where
  ok : A → Result A
  panic out_of_bounds : Result A

abbrev pub shrink : ℕ → Option (List Cell) → Result (ℕ × List Cell)
shrink n (some cs) = ok (n - 1, cs)
shrink n none = out_of_bounds

-- `sub_list`: the loop ends at `num - 1`.
unfoldable pub sub_list : ListStr → ℕ → Result (ℕ × List Cell)
unfolding find slide_from
sub_list l item =
    let i = find item l.num l.list in
    if i == l.num then panic else shrink l.num (slide_from i (l.num - 1 - i) l.list)

-- `sub_nd_pt`, over `nn` and the fixed array `nd` of the point: the loop ends at `nn`.
unfoldable pub sub_nd_pt : ℕ → ℕ → List Cell → Result (ℕ × List Cell)
unfolding find slide_from
sub_nd_pt n nn nd =
    let i = find n nn nd in if i == nn then panic else shrink nn (slide_from i (nn - i) nd)
