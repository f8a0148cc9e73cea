-- ===== src/Params/BoolCheck.antt =====
-- check/check.c: bool_check, over the store of the values.
use mathlib.Core.Option
use tcad_webapp.Prelude.{
  ℕ, zero, suc, ◌-◌, Bool, true, false, not, Option, none, some, List, [], ◌∷◌, ◌==◌, if◌then◌else◌,
  bit_and,
}
use tcad_webapp.Params.{
  Machine, BoolExp, null, node, Par, par, Params, end, more, no_params, params, real, int, mask,
  oper, parval, address_of, type_of,
}

abbrev pub put {ℓ} : {V : Type ℓ} → (ℕ → V) → ℕ → V → ℕ → V
put store a v x = if x == a then v else store x

-- `param[k]`; `none` is a read of the null pointer at the end or of what lies after it.
unfoldable pub at_index : {V : Type 0} → Params V → ℕ → Option (Par V)
at_index end k = none
at_index (more p ps) zero = some p
at_index (more p ps) (suc k) = at_index ps k

abbrev pub at_sub : {V : Type 0} → Par V → ℕ → Option (Par V)
at_sub (par a name def bexp type msg no_params) k = none
at_sub (par a name def bexp type msg (params ps)) k = at_index ps k

-- The characters after the first, each one an index from 1.
unfoldable pub walk : {V : Type 0} → List ℕ → Par V → Option (Par V)
unfolding at_index
walk [] p = some p
walk (c ∷ s) p = elim (at_sub p (c - 1)) [ none ↦ none | some q ↦ walk s q ]

-- `cards[*s - 1]` of an empty string lies before the array.
unfoldable pub find_par : {V : Type 0} → Params V → List ℕ → Option (Par V)
unfolding walk
find_par cards [] = none
find_par cards (c ∷ s) = elim (at_index cards (c - 1)) [ none ↦ none | some p ↦ walk s p ]

-- What is known of `left` or `right`: a value and its type, a variable that was not assigned, or a
-- run that ended in `panic` or in a read of such a variable or of a null pointer.
pub data Checked (V : Type 0) : Type 0 where
  checked : V → ℕ → Checked V
  unset failed : Checked V

module _ (m : Machine) where
  abbrev as_float : m.V → ℕ → m.F
  as_float v type = if type == int then m.to_float (m.ival v) else m.dval v

  abbrev floats : {R : Type 0} → (m.F → m.F → R) → Checked m.V → Checked m.V → Option R
  floats f (checked v s) (checked w t) = some (f (as_float v s) (as_float w t))
  floats f _ _ = none

  abbrev ints : {R : Type 0} → (m.I → m.I → R) → Checked m.V → Checked m.V → Option R
  ints f (checked v s) (checked w t) = some (f (m.ival v) (m.ival w))
  ints f _ _ = none

  -- The second operand is read when the first does not decide.
  abbrev shortcut : Bool → Checked m.V → Checked m.V → Option Bool
  shortcut stop (checked v s) r =
      if not (m.is_zero (m.ival v))
      then (if stop then some true else ints (λ i j. not (m.is_zero j)) (checked v s) r)
      else (if stop then ints (λ i j. not (m.is_zero j)) (checked v s) r else some false)
  shortcut stop _ r = none

  -- The characters > < g l + * | & = n !.
  unfoldable pub operate : ℕ → Checked m.V → Checked m.V → Option m.I
  operate op l r =
      if op == 62
      then Option.map m.of_bool (floats (λ a b. m.lt b a) l r)
      else if op == 60
      then Option.map m.of_bool (floats m.lt l r)
      else if op == 103
      then Option.map m.of_bool (floats (λ a b. m.le b a) l r)
      else if op == 108
      then Option.map m.of_bool (floats m.le l r)
      else if op == 43
      then floats (λ a b. m.to_int (m.add a b)) l r
      else if op == 42
      then floats (λ a b. m.to_int (m.mul a b)) l r
      else if op == 124
      then Option.map m.of_bool (shortcut true l r)
      else if op == 38
      then Option.map m.of_bool (shortcut false l r)
      else if op == 61
      then Option.map m.of_bool (ints m.same l r)
      else if op == 110
      then Option.map m.of_bool (ints (λ i j. not (m.same i j)) l r)
      else if op == 33
      then Option.map m.of_bool (ints (λ i j. m.is_zero j) r r)
      else none

  abbrev apply : m.V → Checked m.V → Checked m.V → Checked m.V
  apply v l r = elim (m.as_nat (m.ival v)) [
    | none ↦ failed
    | some op ↦ elim (operate op l r) [
      | none ↦ failed
      | some i ↦ checked (m.set_ival m.fresh i) int
    ]
  ]

  -- `~ MASK` of 32 bits.
  abbrev without_mask : ℕ → ℕ
  without_mask type = bit_and type (4294967295 - mask)

  unfoldable pub bool_node :
      Params m.V → (ℕ → m.V) → m.V → ℕ → Checked m.V → Checked m.V → Checked m.V
  unfolding operate find_par
  bool_node cards store v type failed l = failed
  bool_node cards store v type r failed = failed
  bool_node cards store v type r l =
      if type == oper
      then apply v l r
      else if type == int
      then checked (m.set_ival m.fresh (m.ival v)) int
      else if type == real
      then checked (m.set_dval m.fresh (m.dval v)) real
      else if type == parval
      then (elim (find_par cards (m.sval v)) [
        | none ↦ failed
        | some p ↦ checked (store (address_of p)) (without_mask (type_of p))
      ])
      else failed

  unfoldable pub bool_check : Params m.V → (ℕ → m.V) → BoolExp m.V → Checked m.V
  unfolding bool_node
  bool_check cards store null = unset
  bool_check cards store (node v type r l) =
      bool_node cards store v type (bool_check cards store r) (bool_check cards store l)

  -- `if (bexp != NULL) temp = bool_check(bexp, NULL); else temp.ival = FALSE;` and the test of it.
  unfoldable pub is_wrong : Params m.V → (ℕ → m.V) → BoolExp m.V → Option Bool
  unfolding bool_check
  is_wrong cards store bexp = elim (bool_check cards store bexp) [
    | unset ↦ some false
    | failed ↦ none
    | checked v t ↦ some (not (m.is_zero (m.ival v)))
  ]
