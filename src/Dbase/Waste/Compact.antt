-- ===== src/Dbase/Waste/Compact.antt =====
-- What the loops of waste leave of an array.
use tcad_webapp.Prelude.{
  ℕ, zero, suc, ◌+◌, ◌<◌, ◌≤◌, ◌≡◌, refl, ap, subst, Bool, true, false, none, some, ◌==◌, arith,
  Bool-cases, inl, inr,
}
use tcad_webapp.Dbase.Impurity.{update}
use tcad_webapp.Dbase.Waste.{Numbered, keep, compact}

module _ {A : Type 0} (dead : A → Bool) (obj : ℕ → A) where
  -- After `i` of `n` turns.
  pub record IsCompacted (n i : ℕ) (c : Numbered A) : Type 0 where
    pub fits : c.count ≤ i
    pub freed : (k : ℕ) → k < i → dead (obj k) ≡ true → c.new k ≡ none
    pub moved :
        (k : ℕ)
        → k < i
        → dead (obj k) ≡ false
        → (m : ℕ) × (m < c.count) × (c.new k ≡ some m) × (c.at_ptr m ≡ some (obj k))
    pub onto : (m : ℕ) → m < c.count → (k : ℕ) × (k < i) × (c.new k ≡ some m)
    pub left : (k : ℕ) → i ≤ k → k < n → c.at_ptr k ≡ some (obj k)
    pub cleared : (k : ℕ) → c.count ≤ k → k < i → c.at_ptr k ≡ none

  freed-IsCompacted :
      (n i : ℕ) (c : Numbered A)
      → i < n
      → IsCompacted n i c
      → dead (obj i) ≡ true
      → IsCompacted n
          (suc i)
          (record c { new = update c.new i none; at_ptr = update c.at_ptr i none })
  freed-IsCompacted n i c h s e = record {
    fits = omega (arith, s.fits);
    freed = λ k l d. elim (Bool-cases (k == i)) [
      | inl q ↦ rw q refl
      | inr q ↦ rw q (s.freed k (ground arith) d)
    ];
    moved = λ k l d. elim (Bool-cases (k == i)) [
      | inl q ↦ let same : k ≡ i = ground arith in absurd (cc (d, e, ap (λ x. dead (obj x)) same))
      | inr q ↦
          let (m, a, b, f) = s.moved k (ground arith) d in
          let other : (m == i) ≡ false = ground (arith, s.fits) in (m, a, rw q b, rw other f)
    ];
    onto = λ m l.
        let (k, a, b) = s.onto m l in
        let other : (k == i) ≡ false = ground arith in (k, omega arith, rw other b);
    left =
        λ k a b. let other : (k == i) ≡ false = ground arith in rw other (s.left k (omega arith) b);
    cleared = λ k a b. elim (Bool-cases (k == i)) [
      | inl q ↦ rw q refl
      | inr q ↦ rw q (s.cleared k a (ground arith))
    ];
  }

  moved-IsCompacted :
      (n i : ℕ) (c : Numbered A)
      → i < n
      → IsCompacted n i c
      → dead (obj i) ≡ false
      → IsCompacted n (suc i) (record c {
        new = update c.new i (some c.count);
        at_ptr = update (update c.at_ptr i none) c.count (some (obj i));
        count = suc c.count;
      })
  moved-IsCompacted n i c h s e = record {
    fits = omega (arith, s.fits);
    freed = λ k l d. elim (Bool-cases (k == i)) [
      | inl q ↦ let same : k ≡ i = ground arith in absurd (cc (d, e, ap (λ x. dead (obj x)) same))
      | inr q ↦ rw q (s.freed k (ground arith) d)
    ];
    moved = λ k l d. elim (Bool-cases (k == i)) [
      | inl q ↦
          let same : i ≡ k = ground arith in
          let self : (c.count == c.count) ≡ true = ground arith in
          (c.count, omega arith, rw q refl, rw self (ap (λ x. some (obj x)) same))
      | inr q ↦
          let (m, a, b, f) = s.moved k (ground arith) d in
          let other : (m == i) ≡ false = ground (arith, s.fits) in
          let below : (m == c.count) ≡ false = ground arith in
          (m, omega arith, rw q b, rw (below, other) f)
    ];
    onto = λ m l. elim (Bool-cases (m == c.count)) [
      | inl q ↦
          let self : (i == i) ≡ true = ground arith in (i, omega arith, rw self (ground arith))
      | inr q ↦
          let (k, a, b) = s.onto m (ground arith) in
          let other : (k == i) ≡ false = ground arith in (k, omega arith, rw other b)
    ];
    left = λ k a b.
        let other : (k == i) ≡ false = ground arith in
        let above : (k == c.count) ≡ false = ground (arith, s.fits) in
        rw (above, other) (s.left k (omega arith) b);
    cleared = λ k a b.
        let above : (k == c.count) ≡ false = ground arith in
        elim (Bool-cases (k == i)) [
          | inl q ↦ rw (above, q) refl
          | inr q ↦ rw (above, q) (s.cleared k (omega arith) (ground arith))
        ];
  }

  keep-IsCompacted :
      (n i : ℕ) (c : Numbered A)
      → i < n
      → IsCompacted n i c
      → IsCompacted n (suc i) (keep dead i (obj i) c)
  unfolding keep
  keep-IsCompacted n i c h s = elim (Bool-cases (dead (obj i))) [
    | inl e ↦ rw (keep, e) (freed-IsCompacted n i c h s e)
    | inr e ↦ rw (keep, e) (moved-IsCompacted n i c h s e)
  ]

  compact_from :
      (n i m : ℕ) (c : Numbered A)
      → m + i ≡ n
      → IsCompacted n i c
      → (c' : Numbered A) × (compact dead m i c ≡ some c') × IsCompacted n n c'
  unfolding compact
  compact_from n i zero c e s =
      (c, refl, let same : i ≡ n = omega arith in subst (λ x. IsCompacted n x c) same s)
  compact_from n i (suc m) c e s =
      let (c', r, f) =
        compact_from n (suc i) m (keep dead i (obj i) c) (omega arith)
          (keep-IsCompacted n i c (omega arith) s) in
      (c', rw (s.left i (omega arith) (omega arith), compact) r, f)

  -- From an array of `n` objects the loop of waste ends with no null pointer read. Every object that
  -- is not dead stands at its new number, every number below the new count is one, the dead have
  -- none, and the places above the count hold the null pointer.
  pub compact-IsCompacted :
      (n : ℕ) (c : Numbered A)
      → c.count ≡ 0
      → ((k : ℕ) → k < n → c.at_ptr k ≡ some (obj k))
      → (c' : Numbered A) × (compact dead n 0 c ≡ some c') × IsCompacted n n c'
  compact-IsCompacted n c e full = compact_from n 0 n c (omega arith) (record {
    fits = omega arith;
    freed = λ k l. absurd (omega arith);
    moved = λ k l. absurd (omega arith);
    onto = λ m l. absurd (omega arith);
    left = λ k a b. full k b;
    cleared = λ k a b. absurd (omega arith);
  })
