-- ===== src/Params/Command.antt =====
-- check/verify.c: a command line against the parameters of a command.
pub mod Names
pub mod Card
pub mod Zero
pub mod Passes
pub mod Marks
pub mod Given
mod Tests
use mathlib.Core.Option
use tcad_webapp.Prelude.{
  ℕ, zero, suc, ◌+◌, ◌-◌, Bool, true, false, not, ◌&&◌, ◌||◌, Option, none, some, List, [], ◌∷◌,
  ◌++◌, map, length, ◌==◌, ltb, leb, if◌then◌else◌, bit_and,
}
use tcad_webapp.Expr.Token.{VecStr}
use tcad_webapp.Expr.Parse.{Outcome, parsed, grammar_error}
use tcad_webapp.Expr.Eval.{Reals, Evaluated, written, failed, undefined, eval_real}
use tcad_webapp.Expr.Lexical.{Scanner, parse_text}
use tcad_webapp.Expr.Names.{begins, substring, codes, char_of}
use tcad_webapp.Params.{
  Machine, BoolExp, Par, par, Params, end, more, Sub, no_params, params, real, int, bool, specified,
  mask, flagged, address_of, name_of, type_of,
}
use tcad_webapp.Params.BoolCheck.{put, bool_check, Checked, checked, unset, failed}
use tcad_webapp.Params.Check.{Message, err_msg, error_check, is_fine}
use tcad_webapp.Params.Default.{assign_deflt, deflt_check}
use tcad_webapp.Params.Split.{argv, unmatched, unfinished, split}

abbrev pub str_type : ℕ
str_type = 256

abbrev pub numpar : ℕ
numpar = 100

-- `type & ~MASK`.
abbrev pub kind_of : ℕ → ℕ
kind_of type = bit_and type (4294967295 - mask)

-- `type & ~SPECIFIED`, and `type | SPECIFIED`.
abbrev pub clear_mark : ℕ → ℕ
clear_mark type = bit_and type (4294967295 - specified)

abbrev pub set_mark : ℕ → ℕ
set_mark type = if flagged type specified then type else type + specified

-- `Substring(par_name, name)`.
unfoldable pub matches : List ℕ → List ℕ → Bool
unfolding begins
matches s name = char_of s == char_of name && ltb 0 (substring s name)

-- `ret[0]` so far, or -2 after the message.
pub data Match (V : Type 0) : Type 0 where
  unique : Option (Par V) → Match V
  ambiguous : Match V

module _ {V : Type 0} (name : List ℕ) where
  abbrev pub meet : Par V → Option (Par V) → Match V
  meet p ret =
      if matches (name_of p) name
      then (elim ret [ none ↦ unique (some p) | some q ↦ ambiguous ])
      else unique ret

  abbrev pub unless_ambiguous : Match V → (Option (Par V) → Match V) → Match V
  unless_ambiguous (unique ret) k = k ret
  unless_ambiguous ambiguous k = ambiguous

  unfoldable mutual
    unfolding matches

    pub name_check : Params V → Option (Par V) → Match V
    name_check end ret = unique ret
    name_check (more p ps) ret = unless_ambiguous (check_name p ret) (name_check ps)

    pub check_name : Par V → Option (Par V) → Match V
    check_name (par a s def bexp type msg sub) ret =
        unless_ambiguous (meet (par a s def bexp type msg sub) ret) (name_check_sub sub)

    pub name_check_sub : Sub V → Option (Par V) → Match V
    name_check_sub no_params ret = unique ret
    name_check_sub (params ps) ret = name_check ps ret

module _ {V : Type 0} where
  unfoldable mutual
    pub unspecify : Params V → Params V
    unspecify end = end
    unspecify (more p ps) = more (unspecify_par p) (unspecify ps)

    pub unspecify_par : Par V → Par V
    unspecify_par (par a s def bexp type msg sub) =
        par a s def bexp (clear_mark type) msg (unspecify_sub sub)

    pub unspecify_sub : Sub V → Sub V
    unspecify_sub no_params = no_params
    unspecify_sub (params ps) = params (unspecify ps)

  -- `indx->type = indx->type | SPECIFIED` for the parameter of the address.
  unfoldable mutual
    pub specify : ℕ → Params V → Params V
    specify b end = end
    specify b (more p ps) = more (specify_par b p) (specify b ps)

    pub specify_par : ℕ → Par V → Par V
    specify_par b (par a s def bexp type msg sub) =
        par a s def bexp (if a == b then set_mark type else type) msg (specify_sub b sub)

    pub specify_sub : ℕ → Sub V → Sub V
    specify_sub b no_params = no_params
    specify_sub b (params ps) = params (specify b ps)

-- The name and, behind the first `=`, the value.
unfoldable pub halves : List ℕ → List ℕ × Option (List ℕ)
halves [] = ([], none)
halves (c ∷ s) = let (a, b) = halves s in if c == 61 then ([], some s) else (c ∷ a, b)

-- `isdigit`; `tolower` of what is upper case; `sscanf` of "%d", which writes nothing where no digit
-- stands behind the sign; a copy of a text as a value; and the value of an expression as a `float`.
pub record Conversions (m : Machine) (F : Type 0) : Type 0 where
  pub isdigit : ℕ → Bool
  pub lower : ℕ → ℕ
  pub scan_int : List ℕ → Option m.I
  pub set_sval : m.V → List ℕ → m.V
  pub as_dval : F → m.F

-- What verify finds: the parameter and `*value`, -1 after a message, or a read of what was not
-- written or through a null pointer.
pub data Verified (V : Type 0) : Type 0 where
  accepted : Par V → V → Verified V
  refused crashed : Verified V

module _ (m : Machine) (r : Reals) (c : Scanner r.F) (k : Conversions m r.F) where
  unfoldable pub all_digits : List ℕ → Bool
  all_digits [] = true
  all_digits (d ∷ s) = k.isdigit d && all_digits s

  abbrev pub behind_minus : List ℕ → List ℕ
  behind_minus [] = []
  behind_minus (d ∷ s) = if d == 45 then s else d ∷ s

  -- A parameter of type REAL.
  abbrev evaluated : Par m.V → m.V → Evaluated r.F → Verified m.V
  evaluated p value (written (some v)) = accepted p (m.set_dval value (k.as_dval v))
  evaluated p value (written none) = accepted p value
  evaluated p value (failed e) = refused
  evaluated p value undefined = crashed

  unfoldable pub read_real : Par m.V → m.V → Option (List ℕ) → Verified m.V
  unfolding parse_text eval_real
  read_real p value none = refused
  read_real p value (some s) = elim (parse_text c s) [
    | parsed t ↦ evaluated p value (eval_real r t)
    | grammar_error ↦ refused
    | _ ↦ crashed
  ]

  -- A parameter of type INT; without a digit `*value` stays as it was.
  unfoldable pub read_int : Par m.V → m.V → Option (List ℕ) → Verified m.V
  unfolding all_digits
  read_int p value none = refused
  read_int p value (some s) =
      if all_digits (behind_minus s)
      then accepted p (elim (k.scan_int s) [ some i ↦ m.set_ival value i | none ↦ value ])
      else refused

  -- A parameter of type BOOL.
  unfoldable pub read_bool : Par m.V → m.V → Option (List ℕ) → Verified m.V
  unfolding begins
  read_bool p value none = accepted p (m.set_ival value (m.of_bool true))
  read_bool p value (some s) =
      let t = map k.lower s in
      let set = λ (b : Bool). accepted p (m.set_ival value (m.of_bool b)) in
      if ltb 0 (substring (codes "on") t)
      then set true
      else if ltb 0 (substring (codes "off") t)
      then set false
      else if ltb 0 (substring (codes "true") t)
      then set true
      else if ltb 0 (substring (codes "false") t)
      then set false
      else refused

  -- The switch on the type of the parameter.
  unfoldable pub read_by_type : Par m.V → m.V → Option (List ℕ) → Verified m.V
  unfolding read_real read_int read_bool
  read_by_type p value text =
      let kind = kind_of (type_of p) in
      if kind == real
      then read_real p value text
      else if kind == int
      then read_int p value text
      else if kind == str_type
      then (elim text [ none ↦ refused | some s ↦ accepted p (k.set_sval value s) ])
      else if kind == bool
      then read_bool p value text
      else accepted p value

  unfoldable pub verify : List ℕ → Params m.V → m.V → Verified m.V
  unfolding halves name_check read_by_type
  verify arg ps value =
      let (name, text) = halves arg in
      elim (name_check name ps none) [
        | ambiguous ↦ refused
        | unique none ↦ refused
        | unique (some p) ↦ read_by_type p value text
      ]
