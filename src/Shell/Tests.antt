-- ===== src/Shell/Tests.antt =====
-- Runs of the shell's macros, with whole numbers in the place of floats.
use tcad_webapp.Prelude.{
  ℕ, ◌≡◌, ◌≤◌, ◌+◌, ◌||◌, ◌&&◌, leb, Bool, true, false, refl, inl, inr, map, List, [], ◌∷◌, ◌++◌,
  none, some, arith,
}
use tcad_webapp.Expr.Names.{codes, same_text}
use tcad_webapp.Expr.Parse.{feed, detect_error, settle, reduce_while, finish}
use tcad_webapp.Expr.Reduce.{reduce}
use tcad_webapp.Expr.Sample.{whole, characters, scan_from}
use tcad_webapp.Shell.Macro.{
  Letters, MacroTable, done, defined, find_macro, define_macro, replacement, ◌>>=◌,
}
use tcad_webapp.Shell.Macro.Table.{IsDistinct}
use tcad_webapp.Shell.Session.{
  Order, define, undef, obey_all, Change, give, drop, order_of, last_value, value_of, AllProper,
  obey_all-last_value,
}
use tcad_webapp.Shell.Expand.Pieces.{Piece, word, dollar, text, substitute, AllPieces}
use tcad_webapp.Shell.Script.{obey_all-expand_macro}
use tcad_webapp.Shell.Expand.Attempts.{Ends, AllDone}
use tcad_webapp.Shell.Expand.Fits.{Holds}
use tcad_webapp.Shell.Expand.Safe.{obey_all-expand_macro-Holds}
use tcad_webapp.Shell.Expand.Calls.{IsMismatch, expand_macro-IsMismatch}
use tcad_webapp.Shell.Expand.{expanded, expand_macro}

abbrev is_alnum : ℕ → Bool
is_alnum d = (leb 48 d && leb d 57) || (leb 65 d && leb d 90) || (leb 97 d && leb d 122)

is_alnum_lem : (d : ℕ) → is_alnum d ≡ true → (48 ≤ d) × (d ≤ 122)
is_alnum_lem d h = ground arith

-- A value below 10 as its digit.
abbrev letters : Letters ℕ
letters = record { isalnum = is_alnum; print_g = λ v. (v + 48) ∷ []; alnum_lem = is_alnum_lem }

abbrev two : List MacroTable
two =
    record { name = codes "x"; args = none; replace = codes "3" }
    ∷ record { name = codes "word"; args = none; replace = codes "a b" }
    ∷ []

define_x :
    define_macro whole characters letters (codes "x  1+2") []
    ≡ done (defined (record { name = codes "x"; args = none; replace = codes "3" } ∷ []))
unfolding define_macro feed detect_error settle reduce_while reduce finish scan_from
define_x = refl

expand_two :
    expand_macro whole characters letters (codes "word $x+$y ${x} x % word x $word") 100 two
    ≡ done (expanded (codes "a b 3+$y 3 3 % word x a b") 100)
unfolding expand_macro
expand_two = refl

-- `define x 1+2`, `define go word`, `undef go`.
abbrev changes : List Change
changes =
    give (codes "x") (codes "1+2") (codes "3")
    ∷ give (codes "go") (codes "(") (codes "(")
    ∷ drop (codes "go")
    ∷ []

changes-AllProper : AllProper whole characters letters changes
unfolding replacement feed detect_error settle reduce_while reduce finish scan_from
changes-AllProper = (
  (((refl, tt), omega arith), refl, refl),
  ((((refl, (refl, tt)), omega arith), refl, refl), (((refl, (refl, tt)), omega arith), tt)),
)

-- `go $x %x`.
abbrev line : List Piece
line =
    record { percent = false; symbol = word b'g' (codes "o"); gap = codes " " }
    ∷ record { percent = false; symbol = dollar (codes "x"); gap = codes " " }
    ∷ record { percent = true; symbol = word b'x' []; gap = [] }
    ∷ []

line-AllPieces : AllPieces letters (λ k. last_value k changes none) true line
unfolding last_value same_text text
line-AllPieces = (
  record {
    full = tt;
    gaps = (refl, tt);
    resumes = refl;
    shape = ((refl, (refl, tt)), refl);
    unsigned = inr refl;
    small = omega arith;
    no_call = tt;
  },
  (
    record {
      full = tt;
      gaps = (refl, tt);
      resumes = refl;
      shape = ((refl, tt), refl);
      unsigned = inr refl;
      small = omega arith;
      no_call = refl;
    },
    (
      record {
        full = tt;
        gaps = tt;
        resumes = tt;
        shape = ((refl, tt), tt);
        unsigned = inl refl;
        small = omega arith;
        no_call = tt;
      },
      tt,
    ),
  ),
)

obey_all-expand_macro_example :
    (len' : ℕ) × ((obey_all whole characters letters (map order_of changes) [] >>= λ macro.
    expand_macro whole characters letters (text line) 100 macro)
      ≡ done (expanded (substitute (λ k. last_value k changes none) true line) len'))
obey_all-expand_macro_example =
    obey_all-expand_macro whole characters letters changes line 100 changes-AllProper line-AllPieces

substitute-line : substitute (λ k. last_value k changes none) true line ≡ codes "go 3 %x"
unfolding substitute last_value same_text
substitute-line = refl

obey_all-last_value_example :
    (t : List MacroTable) × (obey_all whole characters letters (map order_of changes) [] ≡ done t)
    × IsDistinct t
    × ((k : List ℕ) → value_of k t ≡ last_value k changes (value_of k []))
obey_all-last_value_example =
    obey_all-last_value whole characters letters changes [] changes-AllProper tt

abbrev orders : List Order
orders = define (codes "f(a) a+1") ∷ define (codes "x f(2)") ∷ undef (codes "y") ∷ []

obey_all-expand_macro-Holds_example : Ends Holds (
    obey_all whole characters letters orders [] >>= λ macro.
    expand_macro whole characters letters (codes "x $x f(x) ") 20 macro)
obey_all-expand_macro-Holds_example =
    obey_all-expand_macro-Holds whole characters letters orders (codes "x $x f(x) ") 20
      (omega arith)

abbrev calls : List MacroTable
calls = record { name = codes "f"; args = some (codes "(a)"); replace = codes "a+1" } ∷ []

find_f :
    find_macro (codes "f") calls
    ≡ some (record { name = codes "f"; args = some (codes "(a)"); replace = codes "a+1" })
unfolding find_macro same_text
find_f = refl

expand_macro-IsMismatch_example :
    AllDone IsMismatch
      (expand_macro whole characters letters (b'f' ∷ ([] ++ (40 ∷ codes "2)"))) 20 calls)
expand_macro-IsMismatch_example =
    expand_macro-IsMismatch whole characters letters b'f' [] (codes "2)") 20 calls (refl, tt)
      (omega arith) find_f
