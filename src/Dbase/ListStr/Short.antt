-- ===== src/Dbase/ListStr/Short.antt =====
-- A list that was filled from the empty one keeps its short fields in range up to 32758 items.
use tcad_webapp.Prelude.{
  ℕ, ◌+◌, ◌≤◌, ◌<◌, ◌⊎◌, ap, List, [], ◌∷◌, ◌++◌, length, length-append, ◌==◌, leb, arith,
  Bool-cases, inl, inr,
}
use tcad_webapp.Dbase.ListStr.{FitsShort, ListStr, add_list}
use tcad_webapp.Dbase.ListStr.Bounds.{grow-room, grow-first, grow-more}
use tcad_webapp.Dbase.ListStr.Items.{Represents, stored, length-stored, add_list-Represents}

-- The block has fewer than ten cells to spare.
abbrev pub Keeps : ListStr → List ℕ → Type 0
Keeps l xs = Represents l xs × (l.all ≤ length xs + 9)

num_le : (l : ListStr) (xs : List ℕ) → Represents l xs → l.num ≤ l.all
num_le l xs rep = omega (
  arith,
  rep.count,
  rep.size,
  ap length rep.cells,
  length-append (stored xs) rep.spare,
  length-stored xs,
)

short_room :
    (l : ListStr) (xs : List ℕ)
    → length xs < 32758
    → Keeps l xs
    → FitsShort l × ((l.num < l.all) ⊎ (l.all ≤ 32757))
short_room l xs h (rep, k) =
    let some_items = rep.count in
    (
      (omega (arith, some_items), omega arith),
      elim (Bool-cases (leb l.all l.num)) [
        | inl e ↦ inr (ground (arith, e, some_items))
        | inr e ↦ inl (ground (arith, e))
      ],
    )

add_list-all :
    (l : ListStr) (x : ℕ)
    → FitsShort l
    → l.num ≤ l.all
    → l.all ≤ l.num + 9
    → (add_list l x).all ≤ l.num + 10
unfolding add_list
add_list-all l x fits h k = elim (Bool-cases (leb l.all l.num)) [
  | inr e ↦ rw (grow-room l fits (ground (arith, e))) (omega arith)
  | inl e ↦ elim (Bool-cases (l.all == 0)) [
    | inl z ↦ rw (grow-first l fits (ground (arith, z))) (omega arith)
    | inr z ↦
        rw (grow-more l fits (ground (arith, e)) (ground (arith, z)))
          (let full : l.all ≤ l.num = ground (arith, e) in omega (arith, full, fits.1))
  ]
]

pub add_list-Keeps :
    (l : ListStr) (xs : List ℕ) (x : ℕ)
    → length xs < 32758
    → Keeps l xs
    → Keeps (add_list l x) (xs ++ (x ∷ []))
add_list-Keeps l xs x h (rep, k) =
    let (fits, room) = short_room l xs h (rep, k) in
    let count = rep.count in
    (
      add_list-Represents l xs x fits room rep,
      omega (
        arith,
        add_list-all l x fits (num_le l xs rep) (omega (arith, k, count)),
        count,
        length-append {0} xs (x ∷ []),
      ),
    )
