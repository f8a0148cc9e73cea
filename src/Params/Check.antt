-- ===== src/Params/Check.antt =====
-- check/check.c: error_check, over the store of the values.
use mathlib.Core.Option
use tcad_webapp.Prelude.{
  ℕ, zero, suc, Bool, true, false, not, ◌||◌, ◌&&◌, Option, none, some, List, [], ◌∷◌, ◌++◌,
  if◌then◌else◌,
}
use tcad_webapp.Params.{
  Machine, BoolExp, null, Par, par, Params, end, more, Sub, no_params, params, bool, specified,
  choice, flagged, address_of, type_of,
}
use tcad_webapp.Params.BoolCheck.{put, at_index, at_sub, is_wrong}

-- What error_check returns: 0, -1 and -2.
pub data Ret : Type 0 where
  fine wrong illegal : Ret

abbrev pub is_fine : Ret → Bool
is_fine fine = true
is_fine wrong = false
is_fine illegal = false

abbrev pub is_wrong_ret : Ret → Bool
is_wrong_ret fine = false
is_wrong_ret wrong = true
is_wrong_ret illegal = false

-- The lines on `stderr`: the parameter's own message, and the two with its name.
pub data Message : Type 0 where
  err_msg illegal_sub has_to_be_true : List ℕ → Message

-- The values, the lines written so far and `err_ret`.
pub record State (V : Type 0) : Type 0 where
  pub store : ℕ → V
  pub messages : List Message
  pub err_ret : Ret

module _ {V : Type 0} where
  abbrev pub report : Message → Ret → State V → State V
  report msg r st = record st { messages = st.messages ++ (msg ∷ []); err_ret = r }

  abbrev pub set_ret : Ret → State V → State V
  set_ret r st = record st { err_ret = r }

  -- After the call for the sub-parameters.
  abbrev pub close : List ℕ → State V → State V
  close name st = elim st.err_ret [
    | fine ↦ st
    | wrong ↦ set_ret wrong st
    | illegal ↦ report (has_to_be_true name) wrong st
  ]

module _ (m : Machine) where
  -- The loop over the parameters of a choice: `err_ret`, and `sing`, which is always `mult`.
  unfoldable pub count : (ℕ → m.V) → Params m.V → Bool → Ret → Ret × Bool
  count store end mult r = (r, mult)
  count store (more p ps) mult r =
      let tmp =
        flagged (type_of p) specified
        && (if flagged (type_of p) bool
            then not (m.is_zero (m.ival (store (address_of p))))
            else true) in
      count store ps (mult || tmp) (if tmp && mult then wrong else r)

  -- With no choice made the default is: `def.ival` counts from 1.
  unfoldable pub choose : Sub m.V → m.V → (ℕ → m.V) → Option (ℕ → m.V)
  unfolding at_index
  choose sub def store = elim (m.as_nat (m.ival def)) [
    | none ↦ some store
    | some zero ↦ some store
    | some (suc i) ↦ elim (at_sub (par 0 [] def null 0 [] sub) i) [
      | none ↦ none
      | some p ↦ some (
          if flagged (type_of p) bool
          then put store (address_of p) (m.set_ival (store (address_of p)) (m.of_bool true))
          else store)
    ]
  ]

  -- The part for `CHOICE`; its `param` must not be the null pointer.
  unfoldable pub check_choice : List ℕ → m.V → Sub m.V → State m.V → Option (State m.V)
  unfolding count choose
  check_choice msg def no_params st = none
  check_choice msg def (params ps) st =
      let (r, sing) = count st.store ps false st.err_ret in
      let st' : State m.V = if is_wrong_ret r then report (err_msg msg) r st else set_ret r st in
      if sing
      then some st'
      else Option.map (λ s. record st' { store = s }) (choose (params ps) def st'.store)

module _ (m : Machine) (cards : Params m.V) where
  -- The part for a specified parameter; `parent` is `bool`.
  unfoldable pub check_value : List ℕ → List ℕ → BoolExp m.V → Bool → State m.V → Option (State m.V)
  unfolding is_wrong
  check_value name msg bexp parent st =
      Option.map
        (λ bad.
          let st' : State m.V = if bad then report (err_msg msg) wrong st else st in
          if parent then st' else report (illegal_sub name) illegal st')
        (is_wrong m cards st.store bexp)

  unfoldable pub check_par :
      List ℕ → List ℕ → m.V → BoolExp m.V → ℕ → Sub m.V → Bool → State m.V → Option (State m.V)
  unfolding check_choice check_value
  check_par name msg def bexp type sub parent st =
      elim (if flagged type choice then check_choice m msg def sub st else some st) [
        | none ↦ none
        | some st' ↦
            if flagged type specified then check_value name msg bexp parent st' else some st'
      ]

  -- `none` is a `panic` in `bool_check`, or a read through a null pointer.
  unfoldable mutual
    unfolding check_par

    pub check_list : Params m.V → Bool → State m.V → Option (State m.V)
    check_list end parent st = some st
    check_list (more p ps) parent st = elim (check_one p parent st) [
      | none ↦ none
      | some st' ↦ check_list ps parent st'
    ]

    pub check_one : Par m.V → Bool → State m.V → Option (State m.V)
    check_one (par a name def bexp type msg sub) parent st =
        elim (check_par name msg def bexp type sub parent st) [
          | none ↦ none
          | some st' ↦
              if not (flagged type choice) && is_fine st'.err_ret
              then check_sub name sub (not (m.is_zero (m.ival (st'.store a)))) st'
              else some st'
        ]

    pub check_sub : List ℕ → Sub m.V → Bool → State m.V → Option (State m.V)
    check_sub name no_params parent st = some st
    check_sub name (params ps) parent st =
        Option.map (close name) (check_list ps parent (set_ret fine st))

  unfoldable pub error_check : Params m.V → Bool → (ℕ → m.V) → List Message → Option (State m.V)
  unfolding check_list
  error_check ps parent store messages =
      check_list ps parent (record { store = store; messages = messages; err_ret = fine })
