-- ===== src/Params.antt =====
-- The parameters of a command: the structures of include/check.h.
pub mod Get
pub mod BoolCheck
pub mod Check
pub mod Default
pub mod Kept
pub mod Refuse
pub mod Split
pub mod Command
mod Tests
use tcad_webapp.Prelude.{
  ℕ, zero, suc, Bool, not, Option, none, some, List, [], ◌∷◌, ◌++◌, ◌==◌, bit_and,
}

-- `int`, `float` and the union `val_str` of both and of a string. `as_nat` is `none` below zero;
-- `fresh` is what an automatic variable holds before a write.
pub record Machine : Type 1 where
  pub I : Type 0
  pub F : Type 0
  pub V : Type 0
  pub of_bool : Bool → I
  pub is_zero : I → Bool
  pub same : I → I → Bool
  pub as_nat : I → Option ℕ
  pub to_float : I → F
  pub to_int : F → I
  pub zero_float : F
  pub lt : F → F → Bool
  pub le : F → F → Bool
  pub add : F → F → F
  pub mul : F → F → F
  pub ival : V → I
  pub dval : V → F
  pub sval : V → List ℕ
  pub set_ival : V → I → V
  pub set_dval : V → F → V
  pub fresh : V

-- `struct bool_exp`; `null` is the null pointer.
pub data BoolExp (V : Type 0) : Type 0 where
  null : BoolExp V
  node : (value : V) (type : ℕ) (right left : BoolExp V) → BoolExp V

-- `struct par_str`, without `units`. The field `value`, which the routines write, stands in a store
-- under the address; `param` is the null pointer or an array that ends with one.
mutual
  pub data Par (V : Type 0) : Type 0 where
    par :
        (address : ℕ) (name : List ℕ) (def : V) (bexp : BoolExp V) (type : ℕ) (err_msg : List ℕ)
        (param : Sub V)
        → Par V

  pub data Params (V : Type 0) : Type 0 where
    end : Params V
    more : Par V → Params V → Params V

  pub data Sub (V : Type 0) : Type 0 where
    no_params : Sub V
    params : Params V → Sub V

abbrev pub real : ℕ
real = 64

abbrev pub int : ℕ
int = 128

abbrev pub bool : ℕ
bool = 512

abbrev pub specified : ℕ
specified = 2048

abbrev pub choice : ℕ
choice = 4096

abbrev pub mask : ℕ
mask = 2111

abbrev pub oper : ℕ
oper = 1

abbrev pub parval : ℕ
parval = 3

-- `type & flag`, as a condition.
abbrev pub flagged : ℕ → ℕ → Bool
flagged type flag = not (bit_and type flag == 0)

module _ {V : Type 0} where
  abbrev pub address_of : Par V → ℕ
  address_of (par a name def bexp type msg sub) = a

  abbrev pub name_of : Par V → List ℕ
  name_of (par a name def bexp type msg sub) = name

  abbrev pub def_of : Par V → V
  def_of (par a name def bexp type msg sub) = def

  abbrev pub type_of : Par V → ℕ
  type_of (par a name def bexp type msg sub) = type

  -- The parameters in the order in which the recursive routines meet them.
  unfoldable mutual
    pub flatten : Params V → List (Par V)
    flatten end = []
    flatten (more p ps) = p ∷ (flatten_par p ++ flatten ps)

    pub flatten_par : Par V → List (Par V)
    flatten_par (par a name def bexp type msg sub) = flatten_sub sub

    pub flatten_sub : Sub V → List (Par V)
    flatten_sub no_params = []
    flatten_sub (params ps) = flatten ps
