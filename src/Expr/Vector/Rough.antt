-- ===== src/Expr/Vector/Rough.antt =====
-- check/vector.c: RoughGrad.
use tcad_webapp.Prelude.{
  ℕ, zero, suc, ◌||◌, Option, none, some, List, [], ◌∷◌, get_elem?, if◌then◌else◌,
}
use tcad_webapp.Expr.Eval.{Reals}
use tcad_webapp.Expr.Vector.{Edge, VectorOps, VecResult, stored, undefined, put_entry}

abbrev pub both : {F : Type 0} → Option F → Option F → (F → F → F) → Option F
both (some a) (some b) f = some (f a b)
both none b f = none
both (some a) none f = none

-- `vector[i]`; `none` where nothing was written.
abbrev pub value_at : {F : Type 0} → List (Option F) → ℕ → Option F
value_at val i = elim (get_elem? val i) [ none ↦ none | some x ↦ x ]

module _ (r : Reals) (v : VectorOps r.F) where
  open r use {F}

  -- What an edge adds to `accum[i]`.
  abbrev pub along : ℕ → List (Option F) → ℕ → Edge F → Option F
  along which val i e =
      both
        (both (value_at val i) (value_at val e.other)
          (λ a b. r.mul e.cpl (r.div (r.sub a b) e.len)))
        (some (r.sub (v.cord i which) (v.cord e.other which))) (λ g d. r.div (r.mul g d) e.len)

  -- The loop over the edges, with `accum[i]` and `wt`.
  unfoldable pub gather : ℕ → List (Option F) → ℕ → List (Edge F) → F → F → Option (F × F)
  gather which val i [] accum wt = some (accum, wt)
  gather which val i (e ∷ es) accum wt = elim (along which val i e) [
    | none ↦ none
    | some x ↦ gather which val i es (r.add accum x) (r.add wt e.cpl)
  ]

  abbrev pub averaged : Option (F × F) → VecResult F → VecResult F
  averaged none rest = undefined
  averaged (some (accum, wt)) rest =
      put_entry (some (if r.is_pos wt || r.is_neg wt then r.div accum wt else accum)) rest

  -- The loop over the nodes, `n` of them from `i` on.
  unfoldable pub rough_from : ℕ → List (Option F) → ℕ → ℕ → VecResult F
  unfolding gather
  rough_from which val i zero = stored []
  rough_from which val i (suc n) =
      averaged (gather which val i (v.edges i) r.zero_value r.zero_value)
        (rough_from which val (suc i) n)
