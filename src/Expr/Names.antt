-- ===== src/Expr/Names.antt =====
-- The names of an expression: functions of check/lexical.c, constants, vec_func and sol_values of
-- check/vector.c, substring of shell/proc.c and the materials of include/material.h. The numbers
-- are those of include/expr.h and include/impurity.h.
use Prim.Native.Char.{code}
use Prim.Native.String.{String}
use tcad_webapp.Prelude.{
  ℕ, suc, ◌+◌, ◌*◌, Bool, true, false, ◌||◌, ◌&&◌, Option, none, some, List, [], ◌∷◌, length, ◌==◌,
  ltb, if◌then◌else◌,
}
use tcad_webapp.Expr.Token.{Ival, above, below}

abbrev pub codes : String → List ℕ
codes String.[] = []
codes (String.◌∷◌ c s) = code c ∷ codes s

-- Whether `s` begins with `ss`.
unfoldable pub begins : List ℕ → List ℕ → Bool
begins s [] = true
begins [] (d ∷ ss) = false
begins (c ∷ s) (d ∷ ss) = if c == d then begins s ss else false

-- The number of characters in common, or 0.
abbrev pub substring : List ℕ → List ℕ → ℕ
substring s ss = if begins s ss then length ss else 0

-- `! strcmp( s, t )`.
unfoldable pub same_text : List ℕ → List ℕ → Bool
same_text [] [] = true
same_text [] (d ∷ t) = false
same_text (c ∷ s) [] = false
same_text (c ∷ s) (d ∷ t) = if c == d then same_text s t else false

-- The names of the functions, in the order of the tests.
abbrev pub function_names : List (String × Ival)
function_names =
    ("log10", above 1)
    ∷ ("log", above 2)
    ∷ ("exp", above 3)
    ∷ ("erf", above 4)
    ∷ ("erfc", above 5)
    ∷ ("abs", above 6)
    ∷ ("sqrt", above 7)
    ∷ ("sign", above 8)
    ∷ ("xfn", below 1)
    ∷ ("yfn", below 2)
    ∷ ("zfn", below 9)
    ∷ []

unfoldable pub named : List (String × Ival) → List ℕ → Option Ival
unfolding same_text
named [] s = none
named ((t, i) ∷ ts) s = if same_text s (codes t) then some i else named ts s

-- MatNames, from behind the slash that each begins with.
abbrev pub mat_names : List String
mat_names =
    "gas" ∷ "oxide" ∷ "nitride" ∷ "silicon" ∷ "poly" ∷ "oxynitride" ∷ "aluminum" ∷ "photoresist"
    ∷ "gaas" ∷ []

abbrev pub char_of : List ℕ → ℕ
char_of [] = 0
char_of (c ∷ s) = c

-- The loop over the materials from number `i` on. `match` is -1 for `none`, as is the material.
unfoldable pub seek_material : List String → ℕ → Option ℕ → Option ℕ → List ℕ → Option ℕ
unfolding begins
seek_material [] i match mat s = mat
seek_material (t ∷ ts) i match mat s =
    let name = codes t in
    let ij = substring name s in
    let better = (char_of s == char_of name) && elim match [ none ↦ true | some k ↦ ltb k ij ] in
    seek_material ts (suc i) (if better then some ij else match) (if better then some i else mat) s

-- Up to `@`, and what stands behind it.
unfoldable pub cut_at : List ℕ → Option (List ℕ × List ℕ)
cut_at [] = none
cut_at (c ∷ s) =
    let rest = cut_at s in
    if c == 64 then some ([], s) else (elim rest [ none ↦ none | some (a, b) ↦ some (c ∷ a, b) ])

-- The interface between two different materials; MAXMAT is 10.
abbrev pub interface_of : Option ℕ → Option ℕ → Option Ival
interface_of (some i) (some j) = if i == j then none else some (above (10 * (i * 10 + j)))
interface_of none j = none
interface_of (some i) none = none

-- The function, and what is left in `str`, which is cut at its first `@`.
unfoldable pub functions : List ℕ → Option Ival × List ℕ
unfolding named seek_material cut_at
functions s = elim (named function_names s) [
  | some i ↦ (some i, s)
  | none ↦ elim (cut_at s) [
    | none ↦ (none, s)
    | some (a, b) ↦ (
      interface_of (seek_material mat_names 0 none none a) (seek_material mat_names 0 none none b),
      a,
    )
  ]
]

-- A name that may be shortened, the other spellings of it, and its number.
pub record Entry : Type 0 where
  pub full : String
  pub others : List String
  pub number : Ival

unfoldable pub any_same : List String → List ℕ → Bool
unfolding same_text
any_same [] s = false
any_same (t ∷ ts) s = same_text (codes t) s || any_same ts s

-- A chain of tests, as a table.
unfoldable pub look_up : List Entry → List ℕ → Option Ival
unfolding begins any_same
look_up [] s = none
look_up (e ∷ es) s =
    if ltb 0 (substring (codes e.full) s) || any_same e.others s
    then some e.number
    else look_up es s

abbrev entry : String → Ival → Entry
entry t i = record { full = t; others = []; number = i }

abbrev pub vec_names : List Entry
vec_names =
    entry "active" (above 1)
    ∷ entry "scale" (above 2)
    ∷ entry "gradx" (above 3)
    ∷ entry "grady" (above 4)
    ∷ entry "data" (above 5)
    ∷ []

unfoldable pub vec_func : List ℕ → Option Ival
unfolding look_up
vec_func s = look_up vec_names s

abbrev x_veloc : Entry
x_veloc = record { full = "x.veloc"; others = "v.x" ∷ "xv" ∷ "vx" ∷ []; number = above 8 }

abbrev y_veloc : Entry
y_veloc = record { full = "y.veloc"; others = "v.y" ∷ "yv" ∷ "vy" ∷ []; number = above 9 }

-- With the names for DEVICE, which the build defines.
abbrev pub sol_names : List Entry
sol_names =
    entry "arsenic" (above 2)
    ∷ entry "boron" (above 5)
    ∷ entry "gallium" (above 25)
    ∷ entry "antimony" (above 4)
    ∷ entry "phosphorus" (above 3)
    ∷ entry "interstitial" (above 1)
    ∷ entry "vacancy" (above 0)
    ∷ entry "time" (below 0)
    ∷ entry "x" (below 1)
    ∷ entry "y" (below 2)
    ∷ entry "oxygen" (below 3)
    ∷ entry "trap" (above 12)
    ∷ entry "gold" (above 13)
    ∷ entry "Sxx" (above 15)
    ∷ entry "Syy" (above 16)
    ∷ entry "Sxy" (above 17)
    ∷ x_veloc
    ∷ y_veloc
    ∷ entry "psi" (above 14)
    ∷ entry "doping" (below 5)
    ∷ entry "holes" (above 7)
    ∷ entry "electrons" (above 6)
    ∷ entry "ci.star" (below 6)
    ∷ entry "cv.star" (below 7)
    ∷ entry "cesium" (above 18)
    ∷ entry "grain" (above 24)
    ∷ entry "qfn" (below 13)
    ∷ entry "qfp" (below 12)
    ∷ entry "Ec" (below 10)
    ∷ entry "Ev" (below 11)
    ∷ entry "beryllium" (above 31)
    ∷ entry "magnesium" (above 33)
    ∷ entry "selenium" (above 35)
    ∷ entry "isilicon" (above 37)
    ∷ entry "tin" (above 39)
    ∷ entry "germanium" (above 41)
    ∷ entry "zinc" (above 43)
    ∷ entry "carbon" (above 45)
    ∷ entry "generic" (above 47)
    ∷ []

unfoldable pub sol_values : List ℕ → Option Ival
unfolding look_up
sol_values s = look_up sol_names s

-- "Kb" is Boltzmann's constant.
unfoldable pub constants : {F : Type 0} → F → List ℕ → Option F
unfolding same_text
constants kb s = if same_text s (codes "Kb") then some kb else none
