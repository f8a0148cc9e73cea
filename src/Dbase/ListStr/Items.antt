-- ===== src/Dbase/ListStr/Items.antt =====
-- The items of a `struct list_str`, and what the routines of dbase/list.c do to them.
use mathlib.Core.Option
use tcad_webapp.Prelude.{
  ℕ, suc, ◌+◌, ◌-◌, ◌<◌, ◌≤◌, ◌≡◌, ◌⊎◌, refl, ap, sym, ◌∙◌, Bool, true, false, ◌||◌, none, some,
  List, [], ◌∷◌, ◌++◌, map, append_assoc, append-nil, arith, length, set, length-set, length-append,
  leb, ◌==◌, if◌then◌else◌, Bool-cases, inl, inr,
}
use tcad_webapp.Dbase.ListStr.{
  short_max, to_short, FitsShort, Cell, unset, ListStr, grow, add_list, find, slide, slide_from, ok,
  panic, sub_list,
}
use tcad_webapp.Dbase.ListStr.Bounds.{grow-room, grow-first, grow-more}

abbrev pub stored : List ℕ → List Cell
stored = map some

-- The first `num` cells hold the items, and `all` is the size of the block.
pub record Represents (l : ListStr) (xs : List ℕ) : Type 0 where
  pub spare : List Cell
  pub cells : l.list ≡ stored xs ++ spare
  pub count : l.num ≡ length xs
  pub size : l.all ≡ length l.list

unfoldable pub contains : ℕ → List ℕ → Bool
contains x [] = false
contains x (y ∷ ys) = (y == x) || contains x ys

-- Without the first item that is `x`.
unfoldable pub erase : ℕ → List ℕ → List ℕ
erase x [] = []
erase x (y ∷ ys) = if y == x then ys else y ∷ erase x ys

pub length-stored : (xs : List ℕ) → length (stored xs) ≡ length xs
length-stored [] = refl
length-stored (x ∷ xs) = ap suc (length-stored xs)

stored-append : (xs ys : List ℕ) → stored (xs ++ ys) ≡ stored xs ++ stored ys
stored-append [] ys = refl
stored-append (x ∷ xs) ys = ap (λ r. some x ∷ r) (stored-append xs ys)

set-stored :
    (xs : List ℕ) (c v : Cell) (cs : List Cell)
    → set (stored xs ++ (c ∷ cs)) (length xs) v ≡ stored xs ++ (v ∷ cs)
set-stored [] c v cs = refl
set-stored (x ∷ xs) c v cs = ap (λ r. some x ∷ r) (set-stored xs c v cs)

-- A block that has room for one more item.
HasRoom : ListStr → List ℕ → Type 0
HasRoom l xs =
    (c : Cell) × (cs : List Cell) × (l.list ≡ stored xs ++ (c ∷ cs))
    × (l.num ≡ length xs)
    × (l.all ≡ length l.list)

-- Whether one more item keeps the fields in range: the block has room, or may grow.
abbrev pub MayAdd : ListStr → Type 0
MayAdd l = FitsShort l × ((l.num < l.all) ⊎ (l.all ≤ 32757))

-- With no spare cell the block is full, and grows by ten; otherwise it stays.
grow-full :
    (l : ListStr) (xs : List ℕ)
    → MayAdd l
    → l.list ≡ stored xs
    → l.num ≡ length xs
    → l.all ≡ length l.list
    → HasRoom (grow l) xs
unfolding HasRoom
grow-full l [] may e n a =
    rw (grow-first l may.0 (ground (arith, ap length e)))
      (none, unset 9, ground arith, ground arith, ground arith)
grow-full l (x ∷ xs) may e n a =
    let size = ap length e in
    let count = length-stored xs in
    let least : l.all ≤ 32757 = elim may.1 [
      | inl p ↦ absurd (omega (arith, p, size, count))
      | inr p ↦ p
    ] in
    let kept : (to_short (l.all + 10) ≡ l.all + 10)
        × (leb (to_short (l.all + 10)) short_max ≡ true) =
      (ground (arith, least), ground (arith, least)) in
    rw (grow-more l may.0 (omega (arith, size, count)) (omega (arith, size)), kept.1)
      (
        none,
        unset 9,
        ap (λ r. r ++ unset 10) e,
        n,
        kept.0 ∙ omega (arith, length-append {0} l.list (unset 10)),
      )

grow-spare :
    (l : ListStr) (xs : List ℕ) (c : Cell) (cs : List Cell)
    → MayAdd l
    → l.list ≡ stored xs ++ (c ∷ cs)
    → l.num ≡ length xs
    → l.all ≡ length l.list
    → HasRoom (grow l) xs
unfolding HasRoom
grow-spare l xs c cs may e n a =
    let size = length-append (stored xs) (c ∷ cs) in
    let less : l.num < l.all = omega (arith, ap length e, size, length-stored xs) in
    rw (grow-room l may.0 less) (c, cs, e, n, a)

grow-HasRoom : (l : ListStr) (xs : List ℕ) → MayAdd l → Represents l xs → HasRoom (grow l) xs
grow-HasRoom l xs may rep = by_spare rep.spare rep.cells
  where
    by_spare : (cs : List Cell) → l.list ≡ stored xs ++ cs → HasRoom (grow l) xs
    by_spare [] e = grow-full l xs may (e ∙ append-nil (stored xs)) rep.count rep.size
    by_spare (c ∷ cs) e = grow-spare l xs c cs may e rep.count rep.size

-- Where the short fields of the list are not negative, and the block has room or at most 32757
-- cells, `add_list` appends the item, growing a full block.
pub add_list-Represents :
    (l : ListStr) (xs : List ℕ) (x : ℕ)
    → FitsShort l
    → (l.num < l.all) ⊎ (l.all ≤ 32757)
    → Represents l xs
    → Represents (add_list l x) (xs ++ (x ∷ []))
unfolding add_list HasRoom
add_list-Represents l xs x fits room rep =
    let (c, cs, e, n, a) = grow-HasRoom l xs (fits, room) rep in
    record {
      spare = cs;
      cells =
          rw (e, n)
            (set-stored xs c (some x) cs
              ∙ sym (append_assoc (stored xs) (some x ∷ []) cs)
              ∙ ap (λ r. r ++ cs) (sym (stored-append xs (x ∷ []))));
      count =
          ap (λ k. to_short (k + 1)) n
          ∙ omega (arith, length-append {0} xs (x ∷ []), rep.count, fits.0);
      size = a ∙ sym (length-set (grow l).list (grow l).num (some x));
    }

-- On cells that hold `xs`, the search stops at the first item that is `x`, or at the end.
pub find-contains :
    (x : ℕ) (xs : List ℕ) (cs : List Cell)
    → (find x (length xs) (stored xs ++ cs) == length xs) ≡ (if contains x xs then false else true)
unfolding find contains
find-contains x [] cs = refl
find-contains x (y ∷ ys) cs = ground (arith, find-contains x ys cs)

find-lt :
    (x : ℕ) (xs : List ℕ) (cs : List Cell)
    → contains x xs ≡ true
    → find x (length xs) (stored xs ++ cs) < length xs
unfolding find contains
find-lt x [] cs h = cc
find-lt x (y ∷ ys) cs h = ground (arith, find-lt x ys cs)

-- The slide to the left over items `y ∷ ys`: the last cell keeps its value.
slide-stored :
    (y : ℕ) (ys : List ℕ) (cs : List Cell)
    → (c : Cell) × (slide (length ys) (stored (y ∷ ys) ++ cs) ≡ some (stored ys ++ (c ∷ cs)))
unfolding slide
slide-stored y [] cs = (some y, refl)
slide-stored y (z ∷ zs) cs = let (c, e) = slide-stored z zs cs in (c, rw e)

pub slide_from-suc :
    (d : Cell) (ds out : List Cell) (i j n : ℕ)
    → i ≡ suc j
    → slide_from j n ds ≡ some out
    → slide_from i n (d ∷ ds) ≡ some (d ∷ out)
unfolding slide_from
slide_from-suc d ds out i j n e h = rw e (ap (Option.map (λ r. d ∷ r)) h)

pub erase-ne : (x y : ℕ) (ys : List ℕ) → (y == x) ≡ false → erase x (y ∷ ys) ≡ y ∷ erase x ys
unfolding erase
erase-ne x y ys e = rw e

-- From the found index on, the slide removes the item.
slide_from-erase :
    (x : ℕ) (xs : List ℕ) (cs : List Cell) (i n : ℕ)
    → contains x xs ≡ true
    → i ≡ find x (length xs) (stored xs ++ cs)
    → n + i + 1 ≡ length xs
    → (c : Cell) × (slide_from i n (stored xs ++ cs) ≡ some (stored (erase x xs) ++ (c ∷ cs)))
unfolding slide_from find contains erase
slide_from-erase x [] cs i n h p q = cc
slide_from-erase x (y ∷ ys) cs i n h p q = elim (Bool-cases (y == x)) [
  | inl e ↦
      let p' : i ≡ 0 = rw e at p in
      let q' : n ≡ length ys = omega arith in
      let (c, r) = slide-stored y ys cs in (c, rw (e, p', q') r)
  | inr e ↦
      let k = find x (length ys) (stored ys ++ cs) in
      let (c, r) = slide_from-erase x ys cs k n (rw e at h) refl (ground arith) in
      (
        c,
        slide_from-suc (some y) (stored ys ++ cs) (stored (erase x ys) ++ (c ∷ cs)) i k n
              (ground arith) r
            ∙ ap (λ l. some (stored l ++ (c ∷ cs))) (sym (erase-ne x y ys e)),
      )
]

pub length-erase :
    (x : ℕ) (xs : List ℕ) → contains x xs ≡ true → length (erase x xs) + 1 ≡ length xs
unfolding contains erase
length-erase x [] h = cc
length-erase x (y ∷ ys) h = ground (arith, length-erase x ys)

-- `sub_list` takes out the first such item and keeps the order of the others.
pub sub_list-erase :
    (l : ListStr) (xs : List ℕ) (x : ℕ)
    → Represents l xs
    → contains x xs ≡ true
    → (num : ℕ) × (list : List Cell) × (sub_list l x ≡ ok (num, list))
      × Represents (record l { num = num; list = list }) (erase x xs)
unfolding sub_list
sub_list-erase l xs x rep h =
    let i = find x (length xs) (stored xs ++ rep.spare) in
    let found : (i == length xs) ≡ false = find-contains x xs rep.spare ∙ rw h refl in
    let lt = find-lt x xs rep.spare h in
    let (c, r) = slide_from-erase x xs rep.spare i (length xs - 1 - i) h refl (omega arith) in
    (
      length xs - 1,
      stored (erase x xs) ++ (c ∷ rep.spare),
      rw (rep.cells, rep.count, found, r),
      record {
        spare = c ∷ rep.spare;
        cells = refl;
        count = omega (arith, length-erase x xs h);
        size = omega (
          arith,
          rep.size,
          ap length rep.cells,
          length-append {0} (stored xs) rep.spare,
          length-append {0} (stored (erase x xs)) (c ∷ rep.spare),
          length-stored xs,
          length-stored (erase x xs),
          length-erase x xs h,
        );
      },
    )

-- `sub_list` of what is not there ends in `panic`, with nothing written.
pub sub_list-panic :
    (l : ListStr) (xs : List ℕ) (x : ℕ)
    → Represents l xs
    → contains x xs ≡ false
    → sub_list l x ≡ panic
unfolding sub_list
sub_list-panic l xs x rep h =
    let missing : (find x (length xs) (stored xs ++ rep.spare) == length xs) ≡ true =
      find-contains x xs rep.spare ∙ rw h refl in
    rw (rep.cells, rep.count, missing)
