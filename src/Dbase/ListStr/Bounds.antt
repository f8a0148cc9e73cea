-- ===== src/Dbase/ListStr/Bounds.antt =====
-- The fields `num` and `all` of `struct list_str` are of the type `short`.
use tcad_webapp.Prelude.{
  ℕ, ◌+◌, ◌≤◌, ◌<◌, ◌≡◌, ◌↔◌, ◌⊎◌, true, false, inl, inr, leb, ◌==◌, arith, Bool-cases, refl,
}
use tcad_webapp.Dbase.ListStr.{
  unset, ListStr, short_max, to_short, rank, FitsShort, enlarge, grow, add_list,
}

leb-rank : (a b : ℕ) → a ≤ short_max → b ≤ short_max → leb (rank a) (rank b) ≡ leb a b
leb-rank a b h k = ground arith

-- A block with room stays.
pub grow-room : (l : ListStr) → FitsShort l → l.num < l.all → grow l ≡ l
unfolding grow
grow-room l (a, b) h =
    let less : leb (rank l.all) (rank l.num) ≡ false = ground (arith, leb-rank l.all l.num b a) in
    rw less refl

pub grow-first :
    (l : ListStr) → FitsShort l → l.all ≡ 0 → grow l ≡ record l { all = 10; list = unset 10 }
unfolding grow
grow-first l (a, b) e =
    let full : leb (rank l.all) (rank l.num) ≡ true = ground (arith, leb-rank l.all l.num b a) in
    let none_yet : (l.all == 0) ≡ true = ground arith in rw (full, none_yet) refl

pub grow-more :
    (l : ListStr)
    → FitsShort l
    → l.all ≤ l.num
    → 0 < l.all
    → grow l
      ≡ record l { all = to_short (l.all + 10); list = enlarge (to_short (l.all + 10)) l.list }
unfolding grow
grow-more l (a, b) h k =
    let full : leb (rank l.all) (rank l.num) ≡ true = ground (arith, leb-rank l.all l.num b a) in
    let some_block : (l.all == 0) ≡ false = ground arith in rw (full, some_block) refl

-- After an item is added to a list whose fields hold their values, the number of items at most the
-- size of the block, they still do exactly where the block had room, or had at most 32757 cells: a
-- full block of more cells grows past the range.
pub add_list-FitsShort :
    (l : ListStr) (x : ℕ)
    → l.num ≤ l.all
    → FitsShort l
    → FitsShort (add_list l x) ↔ ((l.num < l.all) ⊎ (l.all ≤ 32757))
unfolding add_list
add_list-FitsShort l x h (a, b) = elim (Bool-cases (leb l.all l.num)) [
  | inl e ↦ elim (Bool-cases (l.all == 0)) [
    | inl z ↦
        rw (grow-first l (a, b) (ground (arith, z)))
          (λ f. inr (ground (arith, z)), λ s. (ground (arith, z), omega arith))
    | inr z ↦ rw (grow-more l (a, b) (ground (arith, e)) (ground (arith, z))) (
      λ f. inr (ground (arith, f.1)),
      λ s. elim s [
        | inl p ↦ absurd (ground (arith, p, e))
        | inr p ↦ (ground (arith, p, e), ground (arith, p))
      ],
    )
  ]
  | inr e ↦
      let room : l.num < l.all = ground (arith, e) in
      rw (grow-room l (a, b) room) (λ f. inl room, λ s. (ground arith, b))
]
