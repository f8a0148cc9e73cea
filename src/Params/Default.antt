-- ===== src/Params/Default.antt =====
-- check/check.c: assign_deflt and deflt_check, over the store of the values.
use tcad_webapp.Prelude.{
  ℕ, ◌≡◌, ◌≢◌, refl, ap, sym, ◌∙◌, true, false, Option, none, some, List, [], ◌∷◌, ◌++◌, ◌==◌,
  if◌then◌else◌, arith, Bool-cases, inl, inr,
}
use tcad_webapp.Params.{
  Machine, BoolExp, Par, par, Params, end, more, Sub, no_params, params, specified, flagged,
  address_of, def_of, type_of, flatten, flatten_par, flatten_sub,
}
use tcad_webapp.Params.BoolCheck.{put, is_wrong}

module _ {V : Type 0} where
  abbrev assign_one : ℕ → V → ℕ → (ℕ → V) → ℕ → V
  assign_one a def type store = if flagged type specified then store else put store a def

  unfoldable mutual
    pub assign_deflt : Params V → (ℕ → V) → ℕ → V
    assign_deflt end store = store
    assign_deflt (more p ps) store = assign_deflt ps (assign_par p store)

    pub assign_par : Par V → (ℕ → V) → ℕ → V
    assign_par (par a name def bexp type msg sub) store =
        assign_sub sub (assign_one a def type store)

    pub assign_sub : Sub V → (ℕ → V) → ℕ → V
    assign_sub no_params store = store
    assign_sub (params ps) store = assign_deflt ps store

  -- The stores one after the other, as the parameters are met.
  unfoldable pub assign_each : List (Par V) → (ℕ → V) → ℕ → V
  assign_each [] store = store
  assign_each (p ∷ ps) store =
      assign_each ps (assign_one (address_of p) (def_of p) (type_of p) store)

  assign_each-append :
      (ps qs : List (Par V)) (store : ℕ → V)
      → assign_each (ps ++ qs) store ≡ assign_each qs (assign_each ps store)
  unfolding assign_each
  assign_each-append [] qs store = refl
  assign_each-append (p ∷ ps) qs store = assign_each-append ps qs _

  mutual
    unfolding assign_deflt flatten assign_each

    assign_deflt-each :
        (ps : Params V) (store : ℕ → V) → assign_deflt ps store ≡ assign_each (flatten ps) store
    assign_deflt-each end store = refl
    assign_deflt-each (more p ps) store =
        assign_deflt-each ps (assign_par p store)
        ∙ ap (assign_each (flatten ps)) (assign_par-each p store)
        ∙ sym (assign_each-append (p ∷ flatten_par p) (flatten ps) store)

    assign_par-each :
        (p : Par V) (store : ℕ → V) → assign_par p store ≡ assign_each (p ∷ flatten_par p) store
    assign_par-each (par a name def bexp type msg sub) store = assign_sub-each sub _

    assign_sub-each :
        (sub : Sub V) (store : ℕ → V) → assign_sub sub store ≡ assign_each (flatten_sub sub) store
    assign_sub-each no_params store = refl
    assign_sub-each (params ps) store = assign_deflt-each ps store

  abbrev pub Absent : ℕ → List (Par V) → Type 0
  Absent a [] = Unit
  Absent a (p ∷ ps) = (address_of p ≢ a) × Absent a ps

  -- No two parameters of the tree are the same object.
  abbrev pub IsApart : List (Par V) → Type 0
  IsApart [] = Unit
  IsApart (p ∷ ps) = Absent (address_of p) ps × IsApart ps

  -- What the parameters of a list hold, in one store and in a later one.
  abbrev pub Assigned : List (Par V) → (ℕ → V) → (ℕ → V) → Type 0
  Assigned [] store final = Unit
  Assigned (p ∷ ps) store final =
      (final (address_of p)
        ≡ (if flagged (type_of p) specified then store (address_of p) else def_of p))
      × Assigned ps store final

  assign_one-other :
      (a b : ℕ) (def : V) (type : ℕ) (store : ℕ → V)
      → a ≢ b
      → assign_one a def type store b ≡ store b
  assign_one-other a b def type store h = elim (Bool-cases (flagged type specified)) [
    | inl e ↦ rw e refl
    | inr e ↦ let other : (b == a) ≡ false = ground arith in rw (e, other) refl
  ]

  assign_one_self :
      (a : ℕ) (def : V) (type : ℕ) (store : ℕ → V)
      → assign_one a def type store a ≡ (if flagged type specified then store a else def)
  assign_one_self a def type store = elim (Bool-cases (flagged type specified)) [
    | inl e ↦ rw e refl
    | inr e ↦ let self : (a == a) ≡ true = ground arith in rw (e, self) refl
  ]

  assign_each-other :
      (a : ℕ) (ps : List (Par V)) (store : ℕ → V) → Absent a ps → assign_each ps store a ≡ store a
  unfolding assign_each
  assign_each-other a [] store h = refl
  assign_each-other a (p ∷ ps) store h =
      assign_each-other a ps _ h.1
      ∙ assign_one-other (address_of p) a (def_of p) (type_of p) store h.0

  Assigned-before :
      (a : ℕ) (def : V) (type : ℕ) (ps : List (Par V)) (store final : ℕ → V)
      → Absent a ps
      → Assigned ps (assign_one a def type store) final
      → Assigned ps store final
  Assigned-before a def type [] store final h g = tt
  Assigned-before a def type (p ∷ ps) store final h g = (
    rw (sym (assign_one-other a (address_of p) def type store (λ e. h.0 (sym e)))) g.0,
    Assigned-before a def type ps store final h.1 g.1,
  )

  assign_each-Assigned :
      (ps : List (Par V)) (store : ℕ → V) → IsApart ps → Assigned ps store (assign_each ps store)
  unfolding assign_each
  assign_each-Assigned [] store h = tt
  assign_each-Assigned (p ∷ ps) store h = (
    assign_each-other (address_of p) ps _ h.0
        ∙ assign_one_self (address_of p) (def_of p) (type_of p) store,
    Assigned-before (address_of p) (def_of p) (type_of p) ps store _ h.0
        (assign_each-Assigned ps _ h.1),
  )

  -- Where no two parameters of the tree are one object, each of them, sub-parameters included, ends
  -- with its default if it was not specified and with its old value if it was.
  pub assign_deflt-Assigned :
      (ps : Params V) (store : ℕ → V)
      → IsApart (flatten ps)
      → Assigned (flatten ps) store (assign_deflt ps store)
  assign_deflt-Assigned ps store h =
      rw (assign_deflt-each ps store) (assign_each-Assigned (flatten ps) store h)

module _ (m : Machine) (cards : Params m.V) where
  -- After `value = def`: 0 where the legality function finds that wrong.
  abbrev judge : ℕ → BoolExp m.V → (ℕ → m.V) → Option (ℕ → m.V)
  judge a bexp store = elim (is_wrong m cards store bexp) [
    | none ↦ none
    | some true ↦ some (put store a (m.set_ival (store a) (m.of_bool false)))
    | some false ↦ some store
  ]

  -- `none` is a `panic` in `bool_check`, or a read through a null pointer.
  unfoldable mutual
    unfolding is_wrong

    pub deflt_check : Params m.V → (ℕ → m.V) → Option (ℕ → m.V)
    deflt_check end store = some store
    deflt_check (more p ps) store = elim (deflt_par p store) [
      | none ↦ none
      | some store' ↦ deflt_check ps store'
    ]

    pub deflt_par : Par m.V → (ℕ → m.V) → Option (ℕ → m.V)
    deflt_par (par a name def bexp type msg sub) store =
        elim (if flagged type specified then some store else judge a bexp (put store a def)) [
          | none ↦ none
          | some store' ↦ deflt_sub sub store'
        ]

    pub deflt_sub : Sub m.V → (ℕ → m.V) → Option (ℕ → m.V)
    deflt_sub no_params store = some store
    deflt_sub (params ps) store = deflt_check ps store
