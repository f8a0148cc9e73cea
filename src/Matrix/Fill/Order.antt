-- ===== src/Matrix/Fill/Order.antt =====
-- The order of the elimination is a permutation.
use tcad_webapp.Prelude.{
  ℕ, suc, ◌<◌, ◌≡◌, ◌≢◌, refl, ap, ◌∙◌, subst, true, false, ◌==◌, arith, Bool-cases, inl, inr, ◌⊎◌,
}
use tcad_webapp.Dbase.Impurity.{update}

-- With `r` nodes remaining and `s` numbered: those that remain are different nodes, every node
-- remains or is numbered, and `order` is the inverse of the numbers so far.
pub record IsOrdered (nn r s : ℕ) (remaining reorder order : ℕ → ℕ) : Type 0 where
  pub inside : (i : ℕ) → i < r → remaining i < nn
  pub apart : (i j : ℕ) → i < r → j < r → remaining i ≡ remaining j → i ≡ j
  pub each :
      (k : ℕ)
      → k < nn
      → ((i : ℕ) × (i < r) × (remaining i ≡ k)) ⊎ ((reorder k < s) × (order (reorder k) ≡ k))
  pub inverse :
      (t : ℕ)
      → t < s
      → (order t < nn) × (reorder (order t) ≡ t) × ((i : ℕ) → i < r → remaining i ≢ order t)

module _ (nn r s b : ℕ) (remaining reorder order : ℕ → ℕ) (h : b < suc r)
    (o : IsOrdered nn (suc r) s remaining reorder order) where
  fewer : ℕ → ℕ
  fewer = update remaining b (remaining r)

  more : ℕ → ℕ
  more = update reorder (remaining b) s

  longer : ℕ → ℕ
  longer = update order s (remaining b)

  fewer-inside : (i : ℕ) → i < r → fewer i < nn
  unfolding fewer
  fewer-inside i l = elim (Bool-cases (i == b)) [
    | inl e ↦ rw e (o.inside r (omega arith))
    | inr e ↦ rw e (o.inside i (omega arith))
  ]

  fewer-apart : (i j : ℕ) → i < r → j < r → fewer i ≡ fewer j → i ≡ j
  unfolding fewer
  fewer-apart i j l k q = elim (Bool-cases (i == b)) [
    | inl e ↦ elim (Bool-cases (j == b)) [
      | inl f ↦ ground arith
      | inr f ↦
          let same = o.apart r j (omega arith) (omega arith) (rw (e, f) at q) in
          absurd (omega (arith, same))
    ]
    | inr e ↦ elim (Bool-cases (j == b)) [
      | inl f ↦
          let same = o.apart i r (omega arith) (omega arith) (rw (e, f) at q) in
          absurd (omega (arith, same))
      | inr f ↦ o.apart i j (omega arith) (omega arith) (rw (e, f) at q)
    ]
  ]

  -- No node that still remains is the one that was taken off.
  fewer-ne : (i : ℕ) → i < r → fewer i ≢ remaining b
  unfolding fewer
  fewer-ne i l q = elim (Bool-cases (i == b)) [
    | inl e ↦ let same = o.apart r b (omega arith) h (rw e at q) in ground (arith, same)
    | inr e ↦ let same = o.apart i b (omega arith) h (rw e at q) in ground (arith, same)
  ]

  kept_or_numbered :
      (k i : ℕ)
      → i < suc r
      → remaining i ≡ k
      → ((i : ℕ) × (i < r) × (fewer i ≡ k)) ⊎ ((more k < suc s) × (longer (more k) ≡ k))
  unfolding fewer more longer
  kept_or_numbered k i a q = elim (Bool-cases (i == b)) [
    | inl e ↦
        let same : i ≡ b = ground arith in
        let taken : (k == remaining b) ≡ true = ground (arith, ap remaining same) in
        let self : (s == s) ≡ true = ground arith in
        inr (rw taken (omega arith), rw (taken, self) (ground arith))
    | inr e ↦ elim (Bool-cases (i == r)) [
      | inl f ↦
          let same : r ≡ i = ground arith in
          let self : (b == b) ≡ true = ground arith in
          inl (b, ground arith, rw self (ap remaining same ∙ q))
      | inr f ↦ inl (i, ground arith, rw e q)
    ]
  ]

  still_numbered :
      (k : ℕ) → reorder k < s → order (reorder k) ≡ k → (more k < suc s) × (longer (more k) ≡ k)
  unfolding more longer
  still_numbered k a q =
      let gone = (o.inverse (reorder k) a).2 b h in
      let other : (k == remaining b) ≡ false = ground (arith, gone) in
      let early : (reorder k == s) ≡ false = ground arith in
      (rw other (omega arith), rw (other, early) q)

  inverse_here : (longer s < nn) × (more (longer s) ≡ s) × ((i : ℕ) → i < r → fewer i ≢ longer s)
  unfolding more longer
  inverse_here =
      let self : (s == s) ≡ true = ground arith in
      let node : (remaining b == remaining b) ≡ true = ground arith in
      (rw self (o.inside b h), rw (self, node) refl, λ i l. rw self (fewer-ne i l))

  inverse_before :
      (t : ℕ)
      → t < s
      → (longer t < nn) × (more (longer t) ≡ t) × ((i : ℕ) → i < r → fewer i ≢ longer t)
  unfolding fewer more longer
  inverse_before t l =
      let (a, q, c) = o.inverse t l in
      let early : (t == s) ≡ false = ground arith in
      let other : (order t == remaining b) ≡ false = ground (arith, c b h) in
      (
        rw early a,
        rw (early, other) q,
        λ i k. elim (Bool-cases (i == b)) [
          | inl e ↦ rw (early, e) (c r (omega arith))
          | inr e ↦ rw (early, e) (c i (omega arith))
        ],
      )

  -- One elimination.
  pub IsOrdered-next :
      IsOrdered nn r
        (suc s)
        (update remaining b (remaining r))
        (update reorder (remaining b) s)
        (update order s (remaining b))
  unfolding fewer more longer
  IsOrdered-next = record {
    inside = fewer-inside;
    apart = fewer-apart;
    each = λ k l. elim (o.each k l) [
      | inl (i, a, q) ↦ kept_or_numbered k i a q
      | inr (a, q) ↦ inr (still_numbered k a q)
    ];
    inverse = λ t l. elim (Bool-cases (t == s)) [
      | inl e ↦
          let same : s ≡ t = ground arith in
          subst
            (λ t. (longer t < nn) × (more (longer t) ≡ t) × ((i : ℕ) → i < r → fewer i ≢ longer t))
            same inverse_here
      | inr e ↦ inverse_before t (ground arith)
    ];
  }

-- The numbers of `nn` nodes, and the nodes of the numbers.
pub record IsPermutation (nn : ℕ) (reorder : ℕ → ℕ) : Type 0 where
  pub order : ℕ → ℕ
  pub numbers : (k : ℕ) → k < nn → (reorder k < nn) × (order (reorder k) ≡ k)
  pub nodes : (t : ℕ) → t < nn → (order t < nn) × (reorder (order t) ≡ t)

pub IsOrdered-done :
    (nn : ℕ) (remaining reorder order : ℕ → ℕ)
    → IsOrdered nn 0 nn remaining reorder order
    → IsPermutation nn reorder
IsOrdered-done nn remaining reorder order o = record {
  order = order;
  numbers = λ k l. elim (o.each k l) [ inl (i, a, q) ↦ absurd (omega arith) | inr h ↦ h ];
  nodes = λ t l. let (a, q, c) = o.inverse t l in (a, q);
}
