-- ===== src/Matrix/Fill/Steps.antt =====
-- What the search, the joins and the reading of the rows leave.
use tcad_webapp.Prelude.{
  ℕ, zero, suc, ◌+◌, ◌<◌, ◌≤◌, ◌≡◌, ◌⊎◌, refl, true, false, List, [], ◌∷◌, length, ◌==◌,
  if◌then◌else◌, arith, Bool-cases, inl, inr,
}
use tcad_webapp.Dbase.Neigh.Distinct.{has}
use tcad_webapp.Matrix.Fill.{Elimination, seek, join_node, join_all, read_links}
use tcad_webapp.Matrix.Fill.Degrees.{
  IsDistinct, Below, IsGraph, IsCounted, join_node-IsCounted, join_node-IsGraph,
}

seek-lt :
    (st : Elimination) (n i bestn besti : ℕ) → besti < i + n → (seek st n i bestn besti).1 < i + n
unfolding seek
seek-lt st zero i bestn besti l = l
seek-lt st (suc n) i bestn besti l = ground (
  arith,
  seek-lt st n (suc i) (st.v (st.remaining i)) i,
  λ (b : besti < suc i + n). seek-lt st n (suc i) bestn besti b,
)

-- A node whose degree is small enough is found.
pub seek-found :
    (st : Elimination) (n bestn besti : ℕ)
    → st.v (st.remaining 0) < bestn
    → (seek st (suc n) 0 bestn besti).1 < suc n
unfolding seek
seek-found st n bestn besti l = ground (arith, seek-lt st n 1 (st.v (st.remaining 0)) 0)

-- The joins leave the numbering alone.
pub record Kept (st st2 : Elimination) : Type 0 where
  pub remaining : st2.remaining ≡ st.remaining
  pub nremain : st2.nremain ≡ st.nremain
  pub reorder : st2.reorder ≡ st.reorder

pub join_all-Kept :
    (best : ℕ) (bestl ps : List ℕ) (st : Elimination) → Kept st (join_all best bestl ps st)
unfolding join_all join_node
join_all-Kept best bestl [] st = record { remaining = refl; nremain = refl; reorder = refl }
join_all-Kept best bestl (work ∷ ps) st = elim (Bool-cases (work == best)) [
  | inl e ↦ rw e (join_all-Kept best bestl ps st)
  | inr e ↦
      let k = join_all-Kept best bestl ps (join_node best bestl work st) in
      rw e (record { remaining = k.remaining; nremain = k.nremain; reorder = k.reorder })
]

pub join_all-IsCounted :
    (best : ℕ) (bestl ps : List ℕ) (st : Elimination) (i : ℕ)
    → IsCounted st i
    → IsCounted (join_all best bestl ps st) i
unfolding join_all
join_all-IsCounted best bestl [] st i c = c
join_all-IsCounted best bestl (work ∷ ps) st i c =
    let next : Elimination = if work == best then st else join_node best bestl work st in
    let counted = elim (Bool-cases (work == best)) as (λ _. IsCounted next i) [
      | inl e ↦ rw e c
      | inr e ↦ rw e (join_node-IsCounted best bestl work st i c)
    ] in
    join_all-IsCounted best bestl ps next i counted

pub join_all-IsGraph :
    (best : ℕ) (bestl ps : List ℕ) (st : Elimination) (nn : ℕ)
    → IsDistinct bestl
    → Below nn bestl
    → Below nn ps
    → IsGraph nn st
    → IsGraph nn (join_all best bestl ps st)
unfolding join_all has
join_all-IsGraph best bestl [] st nn d b c g = g
join_all-IsGraph best bestl (work ∷ ps) st nn d b c g = elim (Bool-cases (work == best)) [
  | inl e ↦ rw e (join_all-IsGraph best bestl ps st nn d b (λ a h. c a (ground arith)) g)
  | inr e ↦ rw e (
      join_all-IsGraph best bestl ps (join_node best bestl work st) nn d b
        (λ a h. c a (ground arith))
        (join_node-IsGraph best bestl work st nn (c work (ground arith)) g d b))
]

-- The places from `j` on, `n` of them, that hold `a`.
pub has-read_links :
    (ia : ℕ → ℕ) (n j : ℕ) (ls : List ℕ) (a : ℕ)
    → has a (read_links ia n j ls) ≡ true
    → (has a ls ≡ true) ⊎ ((k : ℕ) × (j ≤ k) × (k < j + n) × (ia k ≡ a))
unfolding read_links has
has-read_links ia zero j ls a h = inl h
has-read_links ia (suc n) j ls a h = elim (has-read_links ia n (suc j) (ia j ∷ ls) a h) [
  | inl k ↦ elim (Bool-cases (ia j == a)) [
    | inl e ↦ inr (j, omega arith, omega arith, ground arith)
    | inr e ↦ inl (ground arith)
  ]
  | inr (k, b, c, e) ↦ inr (k, omega arith, omega arith, e)
]

pub length-read_links :
    (ia : ℕ → ℕ) (n j : ℕ) (ls : List ℕ) → length (read_links ia n j ls) ≡ n + length ls
unfolding read_links
length-read_links ia zero j ls = omega arith
length-read_links ia (suc n) j ls = omega (arith, length-read_links ia n (suc j) (ia j ∷ ls))

pub read_links-IsDistinct :
    (ia : ℕ → ℕ) (n j : ℕ) (ls : List ℕ)
    → ((k m : ℕ) → j ≤ k → k < j + n → j ≤ m → m < j + n → ia k ≡ ia m → k ≡ m)
    → ((k : ℕ) → j ≤ k → k < j + n → has (ia k) ls ≡ false)
    → IsDistinct ls
    → IsDistinct (read_links ia n j ls)
unfolding read_links has
read_links-IsDistinct ia zero j ls apart new d = d
read_links-IsDistinct ia (suc n) j ls apart new d =
    read_links-IsDistinct ia n (suc j) (ia j ∷ ls)
      (λ k m a b c e q. apart k m (omega arith) (omega arith) (omega arith) (omega arith) q)
      (λ k a b. ground (
        arith,
        new k (omega arith) (omega arith),
        λ (q : ia j ≡ ia k). apart j k (omega arith) (omega arith) (omega arith) (omega arith) q,
      ))
      (new j (omega arith) (omega arith), d)
