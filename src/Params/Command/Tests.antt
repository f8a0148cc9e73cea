-- ===== src/Params/Command/Tests.antt =====
-- A card of two parameters over a machine of numbers.
use tcad_webapp.Prelude.{
  ℕ, ◌+◌, ◌*◌, ◌≡◌, ◌↔◌, refl, true, false, ◌&&◌, some, none, List, [], ◌∷◌, ◌==◌, ltb, leb,
  if◌then◌else◌,
}
use tcad_webapp.Expr.Names.{codes}
use tcad_webapp.Expr.Sample.{whole, characters, digit}
use tcad_webapp.Params.{
  Machine, null, Par, par, Params, end, more, no_params, params, flatten, specified, int, bool,
}
use tcad_webapp.Params.BoolCheck.{bool_check}
use tcad_webapp.Params.Command.{unspecify, verify, Conversions, name_check, unspecify_sub}
use tcad_webapp.Params.Command.Names.{all_matches, verdict, name_check-verdict}
use tcad_webapp.Params.Command.Card.{Reading, read_args, CardResult, check, split_args}
use tcad_webapp.Params.Command.Given.{Given, given, read_args-unspecify}
use tcad_webapp.Params.Command.Zero.{IsAllowed, LinePasses, first_value}
use tcad_webapp.Params.Command.Passes.{Zero, check-Zero}

abbrev numbers : Machine
numbers = record {
  I = ℕ;
  F = ℕ;
  V = ℕ;
  of_bool = λ b. if b then 1 else 0;
  is_zero = λ i. i == 0;
  same = λ i j. i == j;
  as_nat = λ i. some i;
  to_float = λ i. i;
  to_int = λ f. f;
  zero_float = 0;
  lt = ltb;
  le = leb;
  add = λ f g. f + g;
  mul = λ f g. f * g;
  ival = λ v. v;
  dval = λ v. v;
  sval = λ v. [];
  set_ival = λ v i. i;
  set_dval = λ v f. f;
  fresh = 0;
}

abbrev conversions : Conversions numbers ℕ
conversions = record {
  isdigit = digit;
  lower = λ d. if leb 65 d && leb d 90 then d + 32 else d;
  scan_int = λ s. some 5;
  set_sval = λ v s. v;
  as_dval = λ v. v;
}

abbrev width : Par ℕ
width = par 1 (codes "width") 3 null int (codes "w") no_params

abbrev wet : Par ℕ
wet = par 2 (codes "wet") 0 null bool (codes "o") no_params

abbrev list : Params ℕ
list = more width (more wet end)

-- Two parameters begin with w.
name_check-verdict_example :
    name_check (codes "w") list none ≡ verdict (codes "w") (all_matches (codes "w") (flatten list))
name_check-verdict_example = name_check-verdict (codes "w") list

abbrev line : List ℕ
line = codes "wid=5 wet=ON"

-- After the line: both parameters are marked, and hold 5 and 1, as the card holds 1.
abbrev after : CardResult ℕ
after = record {
  card = par 0 (codes "card") 0 null 0 (codes "c") (
      params (
        more (par 1 (codes "width") 3 null (int + specified) (codes "w") no_params)
          (more (par 2 (codes "wet") 0 null (bool + specified) (codes "o") no_params) end)));
  store = λ a. if a == 0 then 1 else if a == 2 then 1 else if a == 1 then 5 else 9;
  messages = [];
  zero_returned = true;
}

runs :
    check numbers whole characters conversions end
      (some line)
      (par 0 (codes "card") 0 null 0 (codes "c") (params list))
      (λ a. 9)
      []
    ≡ some after
unfolding check
runs = refl

check-Zero_example :
    Zero numbers whole characters conversions end (
      check numbers whole characters conversions end
        (some line)
        (par 0 (codes "card") 0 null 0 (codes "c") (params list))
        (λ a. 9)
        [])
    ↔ (IsAllowed numbers whole characters conversions end (bool_check numbers end (λ a. 9) null)
        × LinePasses numbers whole characters conversions end
            (unspecify_sub (params list))
            (split_args numbers whole characters conversions end (some line))
            (first_value numbers whole characters conversions end
              (bool_check numbers end (λ a. 9) null))
            (λ a. 9)
            [])
check-Zero_example =
    check-Zero numbers whole characters conversions end (some line) 0 (codes "card") 0 null 0
      (codes "c") (params list) (λ a. 9) []

-- The last argument names no parameter.
abbrev arguments : List (List ℕ)
arguments = codes "wid=5" ∷ codes "wet=ON" ∷ codes "bad" ∷ []

abbrev marked : Reading ℕ
marked = record {
  ps =
      more (par 1 (codes "width") 3 null (int + specified) (codes "w") no_params)
        (more (par 2 (codes "wet") 0 null (bool + specified) (codes "o") no_params) end);
  store = λ a. if a == 2 then 1 else if a == 1 then 5 else 9;
  value = 1;
  fine = false;
}

arguments_read :
    read_args numbers whole characters conversions end arguments
      (record { ps = unspecify list; store = λ a. 9; value = 0; fine = true })
    ≡ some marked
unfolding read_args unspecify verify
arguments_read = refl

read_args-unspecify_example :
    Given numbers whole characters conversions end marked
      (λ a. 9)
      (λ a. false)
      (given numbers whole characters conversions end arguments
        (record { ps = unspecify list; store = λ a. 9; value = 0; fine = true }))
read_args-unspecify_example =
    read_args-unspecify numbers whole characters conversions end arguments list (λ a. 9) 0 true
      marked arguments_read
