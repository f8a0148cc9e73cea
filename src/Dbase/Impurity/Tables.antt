-- ===== src/Dbase/Impurity/Tables.antt =====
-- The two tables of the impurities are inverse to one another.
use mathlib.Core.Option
use tcad_webapp.Prelude.{
  ℕ, ◌<◌, ◌≡◌, ◌≢◌, true, false, Option, none, some, arith, ◌==◌, Bool-cases, inl, inr,
  Option-cases,
}
use tcad_webapp.Dbase.Impurity.{Solution, of_material, enter, add_impurity}

module _ {V : Type 0} where
  pub record IsInverse (st : Solution V) : Type 0 where
    pub used :
        (s : ℕ) → s < st.n_imp → (k : ℕ) × (st.soltoimp s ≡ some k) × (st.imptosol k ≡ some s)
    pub back : (k s : ℕ) → st.imptosol k ≡ some s → (s < st.n_imp) × (st.soltoimp s ≡ some k)

  -- The value of an impurity at a node, where the impurity is in the table.
  abbrev pub value : Solution V → ℕ → ℕ → Option V
  value st k i = Option.map (λ s. st.sol i s) (st.imptosol k)

  enter-IsInverse :
      (st : Solution V) (imp : ℕ) (background : V) (mat : Option ℕ)
      → IsInverse st
      → st.imptosol imp ≡ none
      → IsInverse (enter st imp background mat)
  enter-IsInverse st imp background mat inv new = record {
    used = λ s h. elim (Bool-cases (s == st.n_imp)) [
      | inl e ↦ (imp, rw e, ground arith)
      | inr e ↦
          let (k, p, q) = inv.used s (ground arith) in
          let other : (k == imp) ≡ false = ground arith in (k, rw e p, rw other q)
    ];
    back = λ k s h. elim (Bool-cases (k == imp)) [
      | inl e ↦ ground arith
      | inr e ↦ let (p, q) = inv.back k s (rw e at h) in (omega arith, ground arith)
    ];
  }

  pub add_impurity-IsInverse :
      (imp : ℕ) (background : V) (mat : Option ℕ) (st : Solution V)
      → IsInverse st
      → IsInverse (add_impurity imp background mat st)
  unfolding add_impurity
  add_impurity-IsInverse imp background mat st inv = elim (Option-cases (st.imptosol imp)) [
    | inl e ↦ rw (e, add_impurity) (enter-IsInverse st imp background mat inv e)
    | inr (s, e) ↦ rw (e, add_impurity) inv
  ]

  -- An impurity that is in the table is not entered again, and nothing is written.
  pub add_impurity-present :
      (imp : ℕ) (background : V) (mat : Option ℕ) (st : Solution V) (s : ℕ)
      → st.imptosol imp ≡ some s
      → add_impurity imp background mat st ≡ st
  unfolding add_impurity
  add_impurity-present imp background mat st s e = rw (e, add_impurity)

  -- A new impurity has the background value at the nodes of the material, or at all, and every
  -- other keeps its values.
  pub add_impurity-value :
      (imp : ℕ) (background : V) (mat : Option ℕ) (st : Solution V)
      → IsInverse st
      → st.imptosol imp ≡ none
      → ((i : ℕ)
          → i < st.nn
          → of_material mat (st.mater i) ≡ true
          → value (add_impurity imp background mat st) imp i ≡ some background)
        × ((k i : ℕ) → k ≢ imp → value (add_impurity imp background mat st) k i ≡ value st k i)
  unfolding add_impurity
  add_impurity-value imp background mat st inv new = (
    λ i h t. rw (new, add_impurity) (ground (arith)),
    λ k i ne. elim (Option-cases (st.imptosol k)) [
      | inl e ↦ rw (new, add_impurity) (ground arith)
      | inr (s, e) ↦ let (p, q) = inv.back k s e in rw (new, add_impurity) (ground arith)
    ],
  )
