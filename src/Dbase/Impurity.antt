-- ===== src/Dbase/Impurity.antt =====
-- The table of the solution variables: add_impurity of dbase/alloc.c, lose_impurity of
-- dbase/dispose.c. Arrays are functions of their index, -1 is `none`.
pub mod Tables
pub mod Lose
use mathlib.Core.Option
use tcad_webapp.Prelude.{
  ℕ, zero, suc, ◌+◌, ◌-◌, Bool, true, false, ◌&&◌, Option, none, some, ltb, ◌==◌, if◌then◌else◌,
}

abbrev pub update {ℓ} : {A : Type ℓ} → (ℕ → A) → ℕ → A → ℕ → A
update f a v x = if x == a then v else f x

-- `sol i s` is `nd[i]->sol[s]`, `mater i` is `nd[i]->mater`.
pub record Solution (V : Type 0) : Type 0 where
  pub nn : ℕ
  pub mater : ℕ → ℕ
  pub n_imp : ℕ
  pub soltoimp : ℕ → Option ℕ
  pub imptosol : ℕ → Option ℕ
  pub sol : ℕ → ℕ → V

-- `mat < 0` is `none`.
abbrev pub of_material : Option ℕ → ℕ → Bool
of_material none m = true
of_material (some mat) m = m == mat

module _ {V : Type 0} where
  -- The loop over the nodes.
  unfoldable pub fill : Solution V → ℕ → V → Option ℕ → ℕ → ℕ → V
  fill st slot background mat i s =
      if s == slot && (ltb i st.nn && of_material mat (st.mater i)) then background else st.sol i s

  abbrev pub enter : Solution V → ℕ → V → Option ℕ → Solution V
  enter st imp background mat = record st {
    soltoimp = update st.soltoimp st.n_imp (some imp);
    imptosol = update st.imptosol imp (some st.n_imp);
    n_imp = st.n_imp + 1;
    sol = fill st st.n_imp background mat;
  }

  unfoldable pub add_impurity : ℕ → V → Option ℕ → Solution V → Solution V
  unfolding fill
  add_impurity imp background mat st = elim (st.imptosol imp) [
    | none ↦ enter st imp background mat
    | some s ↦ st
  ]

  -- The columns of the nodes and the entry of the table, from slot `j + 1` to slot `j`. `none` is
  -- a write to `imptosol[-1]`.
  unfoldable pub move : ℕ → Solution V → Option (Solution V)
  move j st =
      Option.map
        (λ imp. record st {
          sol = λ i s. if s == j && ltb i st.nn then st.sol i (suc j) else st.sol i s;
          soltoimp = update st.soltoimp j (some imp);
          imptosol = update st.imptosol imp (some j);
        })
        (st.soltoimp (suc j))

  unfoldable pub move_all : ℕ → ℕ → Solution V → Option (Solution V)
  unfolding move
  move_all zero j st = some st
  move_all (suc n) j st = elim (move j st) [ none ↦ none | some st' ↦ move_all n (suc j) st' ]

  abbrev pub drop_last : ℕ → Solution V → Solution V
  drop_last imp st = record st {
    n_imp = st.n_imp - 1;
    imptosol = update st.imptosol imp none;
    soltoimp = update st.soltoimp (st.n_imp - 1) none;
  }

  unfoldable pub lose_impurity : ℕ → Solution V → Option (Solution V)
  unfolding move_all
  lose_impurity imp st = elim (st.imptosol imp) [
    | none ↦ some st
    | some s ↦ Option.map (drop_last imp) (move_all (st.n_imp - 1 - s) s st)
  ]
