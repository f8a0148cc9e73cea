-- ===== src/Dbase/Impurity/Lose.antt =====
-- `lose_impurity` takes one impurity out and keeps the values of all others.
use tcad_webapp.Prelude.{
  ℕ, zero, suc, ◌+◌, ◌-◌, ◌<◌, ◌≡◌, ◌≢◌, refl, ◌∙◌, false, ◌&&◌, none, some, arith, ltb, ◌==◌,
  if◌then◌else◌, Bool-cases, inl, inr, Option-cases,
}
use tcad_webapp.Dbase.Impurity.{update, Solution, move, move_all, drop_last, lose_impurity}
use tcad_webapp.Dbase.Impurity.Tables.{IsInverse, value}

module _ {V : Type 0} where
  -- The tables with slot `j` free, where `imp` stood.
  record HasGap (imp j : ℕ) (st : Solution V) : Type 0 where
    inside : j < st.n_imp
    used :
        (s : ℕ)
        → s < st.n_imp
        → s ≢ j
        → (k : ℕ) × (st.soltoimp s ≡ some k) × (st.imptosol k ≡ some s) × (k ≢ imp)
    back :
        (k s : ℕ)
        → st.imptosol k ≡ some s
        → k ≢ imp
        → (s < st.n_imp) × (s ≢ j) × (st.soltoimp s ≡ some k)

  abbrev SameValues : ℕ → Solution V → Solution V → Type 0
  SameValues imp st st' =
      (st'.nn ≡ st.nn)
      × (st'.n_imp ≡ st.n_imp)
      × ((k i : ℕ) → k ≢ imp → i < st.nn → value st' k i ≡ value st k i)

  -- The gap moves up by one slot.
  move-HasGap :
      (imp j : ℕ) (st : Solution V)
      → HasGap imp j st
      → suc j < st.n_imp
      → (st' : Solution V) × (move j st ≡ some st') × HasGap imp (suc j) st' × SameValues imp st st'
  unfolding move
  move-HasGap imp j st gap lt =
      let (k, p, q, ne) = gap.used (suc j) lt (omega arith) in
      (
        record st {
          sol = λ i s. if s == j && ltb i st.nn then st.sol i (suc j) else st.sol i s;
          soltoimp = update st.soltoimp j (some k);
          imptosol = update st.imptosol k (some j);
        },
        rw p,
        record {
          inside = lt;
          used = λ s h o. elim (Bool-cases (s == j)) [
            | inl e ↦ (k, rw e, ground arith, ne)
            | inr e ↦
                let (k', p', q', ne') = gap.used s h (ground arith) in
                let other : (k' == k) ≡ false = ground arith in (k', rw e p', rw other q', ne')
          ];
          back = λ k' s h ne'. elim (Bool-cases (k' == k)) [
            | inl e ↦ ground arith
            | inr e ↦
                let (a, b, c) = gap.back k' s (rw e at h) ne' in (a, ground arith, ground arith)
          ];
        },
        (
          refl,
          refl,
          λ k' i ne' h. elim (Bool-cases (k' == k)) [
            | inl e ↦ ground arith
            | inr e ↦ elim (Option-cases (st.imptosol k')) [
              | inl o ↦ ground arith
              | inr (s, o) ↦ let (a, b, c) = gap.back k' s o ne' in ground arith
            ]
          ],
        ),
      )

  -- The loop carries the gap to the last slot.
  move_all-HasGap :
      (imp n j : ℕ) (st : Solution V)
      → HasGap imp j st
      → suc (n + j) ≡ st.n_imp
      → (st' : Solution V) × (l : ℕ) × (move_all n j st ≡ some st')
        × HasGap imp l st'
        × SameValues imp st st'
        × (suc l ≡ st'.n_imp)
  unfolding move_all
  move_all-HasGap imp zero j st gap e =
      (st, j, refl, gap, (refl, refl, λ k i ne h. refl), omega arith)
  move_all-HasGap imp (suc n) j st gap e =
      let (st1, r1, g1, v1) = move-HasGap imp j st gap (omega arith) in
      let (st2, l, r2, g2, v2, last) = move_all-HasGap imp n (suc j) st1 g1 (omega (arith, v1.1)) in
      (
        st2,
        l,
        rw (r1, move_all) r2,
        g2,
        (v2.0 ∙ v1.0, v2.1 ∙ v1.1, λ k i ne h. v2.2 k i ne (omega (arith, v1.0)) ∙ v1.2 k i ne h),
        last,
      )

  -- With the gap at the end, the last slot is dropped.
  drop_last-IsInverse :
      (imp l : ℕ) (st : Solution V)
      → HasGap imp l st
      → suc l ≡ st.n_imp
      → IsInverse (drop_last imp st)
  drop_last-IsInverse imp l st gap e = record {
    used = λ s h.
        let (k, p, q, ne) = gap.used s (omega arith) (omega arith) in
        let here : (s == st.n_imp - 1) ≡ false = ground arith in
        let other : (k == imp) ≡ false = ground arith in (k, rw here p, rw other q);
    back = λ k s h. elim (Bool-cases (k == imp)) [
      | inl e' ↦ absurd (cc (rw e' at h))
      | inr e' ↦
          let (a, b, c) = gap.back k s (rw e' at h) (ground arith) in (omega arith, ground arith)
    ];
  }

  gap_of : (imp s : ℕ) (st : Solution V) → IsInverse st → st.imptosol imp ≡ some s → HasGap imp s st
  gap_of imp s st inv e = record {
    inside = (inv.back imp s e).0;
    used = λ t h ne. let (k, p, q) = inv.used t h in (k, p, q, λ same. ne (ground arith));
    back = λ k t h ne.
        let (a, b) = inv.back k t h in (a, (λ same. ne (ground (arith, inv.back imp s))), b);
  }

  -- From inverse tables `lose_impurity` returns inverse tables without the impurity; every other
  -- one keeps its values at all nodes, though its slot may change.
  pub lose_impurity-IsInverse :
      (imp : ℕ) (st : Solution V)
      → IsInverse st
      → (st' : Solution V) × (lose_impurity imp st ≡ some st')
        × IsInverse st'
        × (st'.imptosol imp ≡ none)
        × ((k i : ℕ) → k ≢ imp → i < st.nn → value st' k i ≡ value st k i)
  unfolding lose_impurity
  lose_impurity-IsInverse imp st inv = elim (Option-cases (st.imptosol imp)) [
    | inl e ↦ (st, rw (e, lose_impurity), inv, e, λ k i ne h. refl)
    | inr (s, e) ↦
        let gap = gap_of imp s st inv e in
        let (st', l, r, g, v, last) =
          move_all-HasGap imp (st.n_imp - 1 - s) s st gap (omega (arith, gap.inside)) in
        (
          drop_last imp st',
          rw (e, lose_impurity, r),
          drop_last-IsInverse imp l st' g last,
          ground arith,
          λ k i ne h. let other : (k == imp) ≡ false = ground arith in rw other (v.2 k i ne h),
        )
  ]
