-- ===== src/Params/Tests.antt =====
-- A list of three parameters, one of them with sub-parameters, over a machine of numbers.
use tcad_webapp.Prelude.{
  ℕ, ◌≡◌, ◌≢◌, ◌+◌, ◌*◌, refl, Bool, true, some, List, [], ◌∷◌, map, ◌==◌, if◌then◌else◌, ltb, leb,
  arith,
}
use tcad_webapp.Params.{
  Machine, null, node, Par, par, Params, end, more, no_params, params, flatten, specified, int,
  bool,
}
use tcad_webapp.Params.Split.{split, argv, unfinished}
use tcad_webapp.Params.Split.Ends.{split_ends}
use tcad_webapp.Params.Split.Joined.{Assignment, AllPlain, join, text, split-join}
use tcad_webapp.Params.Get.{get_value, get_value-IsLookup, IsLookup, first}
use tcad_webapp.Params.BoolCheck.{is_wrong}
use tcad_webapp.Params.Check.{error_check, State}
use tcad_webapp.Params.Default.{assign_deflt, assign_deflt-Assigned, Assigned, IsApart}
use tcad_webapp.Params.Refuse.{IsSound, IsVerdict, error_check-IsVerdict}

abbrev numbers : Machine
numbers = record {
  I = ℕ;
  F = ℕ;
  V = ℕ;
  of_bool = λ b. if b then 1 else 0;
  is_zero = λ i. i == 0;
  same = λ i j. i == j;
  as_nat = λ i. some i;
  to_float = λ i. i;
  to_int = λ f. f;
  zero_float = 0;
  lt = ltb;
  le = leb;
  add = λ f g. f + g;
  mul = λ f g. f * g;
  ival = λ v. v;
  dval = λ v. v;
  sval = λ v. [];
  set_ival = λ v i. i;
  set_dval = λ v f. f;
  fresh = 0;
}

-- `dx` holds 7, was specified and is always legal; `boron` has the sub-parameter `dose`.
abbrev spacing : Par ℕ
spacing = par 0 (100 ∷ 120 ∷ []) 1 null (specified + int) [] no_params

abbrev dose : Par ℕ
dose = par 2 (100 ∷ 111 ∷ 115 ∷ 101 ∷ []) 5 (node 0 int null null) (specified + int) [] no_params

abbrev boron : Par ℕ
boron = par 1 (98 ∷ []) 3 null bool [] (params (more dose end))

abbrev sample : Params ℕ
sample = more spacing (more boron end)

abbrev values : ℕ → ℕ
values a = if a == 0 then 7 else 9

get_value-IsLookup_example :
    IsLookup numbers values
      (100 ∷ 111 ∷ [])
      (first numbers values (100 ∷ 111 ∷ []) (flatten sample))
      (get_value numbers values (100 ∷ 111 ∷ []) sample 0)
get_value-IsLookup_example = get_value-IsLookup numbers values (100 ∷ 111 ∷ []) sample 0

sample-IsApart : IsApart (flatten sample)
unfolding flatten
sample-IsApart =
    (((λ e. omega arith), ((λ e. omega arith), tt)), (((λ e. omega arith), tt), (tt, tt)))

assign_deflt-Assigned_example : Assigned (flatten sample) values (assign_deflt sample values)
assign_deflt-Assigned_example = assign_deflt-Assigned sample values sample-IsApart

sample-IsSound : IsSound numbers sample sample
unfolding IsSound is_wrong
sample-IsSound = (
  ((λ s e. cc e), (λ e. absurd (cc e)), tt),
  (((λ s e. cc e), (λ e. absurd (cc e)), (((λ s e. cc e), (λ e. absurd (cc e)), tt), tt)), tt),
)

error_check-IsVerdict_example :
    (st : State ℕ) × (error_check numbers sample sample true values [] ≡ some st)
    × IsVerdict numbers sample true [] st
error_check-IsVerdict_example =
    error_check-IsVerdict numbers sample sample true values [] sample-IsSound

abbrev blank : ℕ → Bool
blank c = c == 32

-- `dx=7` and `b=xy`.
abbrev assignments : List Assignment
assignments =
    record { initial = 100; name = 120 ∷ []; head = 55; value = [] }
    ∷ record { initial = 98; name = []; head = 120; value = 121 ∷ [] }
    ∷ []

assignments-AllPlain : AllPlain blank assignments
assignments-AllPlain = (
  record {
    names = (refl, refl, (refl, refl, tt));
    values = (refl, tt);
    no_quote = refl;
    no_tick = refl;
    no_paren = refl;
  },
  (
    record {
      names = (refl, refl, tt);
      values = (refl, (refl, tt));
      no_quote = refl;
      no_tick = refl;
      no_paren = refl;
    },
    tt,
  ),
)

split-join_example : split blank (join assignments) true ≡ argv (map text assignments)
split-join_example = split-join blank assignments refl assignments-AllPlain

split_ends_example : split blank (100 ∷ 61 ∷ 32 ∷ 55 ∷ []) true ≢ unfinished
split_ends_example = split_ends blank (100 ∷ 61 ∷ 32 ∷ 55 ∷ []) true refl
