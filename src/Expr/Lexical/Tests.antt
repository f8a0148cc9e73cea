-- ===== src/Expr/Lexical/Tests.antt =====
-- The characters of a sum, with whole numbers in the place of floats.
use tcad_webapp.Prelude.{
  ℕ, false, none, inl, inr, some, ◌≤◌, ◌<◌, ◌≡◌, refl, List, [], ◌∷◌, map, length, arith,
}
use tcad_webapp.Expr.Token.{rconst}
use tcad_webapp.Expr.Parse.{parsed}
use tcad_webapp.Expr.Grammar.{real}
use tcad_webapp.Expr.Safety.{IsAnswer}
use tcad_webapp.Expr.Syntax.{Sum, Atom, term, plus, one, base, leaf, print, tree, IsPlain}
use tcad_webapp.Expr.Token.{VecStr}
use tcad_webapp.Expr.Eval.{single_char, written, eval_real}
use tcad_webapp.Expr.Arith.{value}
use tcad_webapp.Expr.Names.{codes}
use tcad_webapp.Expr.Sample.{whole, characters, scan_from}
use tcad_webapp.Expr.Lexical.{parse_text}
use tcad_webapp.Expr.Lexical.Ends.{parse_text-IsAnswer}
use tcad_webapp.Expr.Lexical.Numerals.{Numeral, spell_numeral, IsNumeral}
use tcad_webapp.Expr.Lexical.Pieces.{Piece, sign, number, text, AllPieces, meaning}
use tcad_webapp.Expr.Lexical.Value.{parse_text-eval_real}
use tcad_webapp.Expr.Lexical.Spelled.{parse_text-print}

abbrev constant : ℕ → Atom ℕ
constant v = leaf (rconst v) (real v)

abbrev sum : Sum ℕ
sum = plus (term (one (base (constant 12)))) b'+' (one (base (constant 3)))

abbrev twelve : Numeral
twelve = record { leading = codes "12"; decimals = none; exponent = none }

abbrev three : Numeral
three = record { leading = codes "3"; decimals = none; exponent = none }

abbrev pieces : List Piece
pieces = number twelve ∷ sign b'+' ∷ number three ∷ []

pieces-AllPieces : AllPieces characters pieces
unfolding single_char
pieces-AllPieces = (
  ((refl, (refl, tt)), tt, tt, inl refl),
  ((omega arith, omega arith, λ e. cc e), (((refl, tt), tt, tt, inl refl), tt)),
)

-- A number with all its parts, and one with no digit before the point.
abbrev tiny : Numeral
tiny = record {
  leading = codes "1";
  decimals = some (codes "5");
  exponent = some (some false, codes "3");
}

abbrev half : Numeral
half = record { leading = []; decimals = some (codes "5"); exponent = none }

tiny-IsNumeral : IsNumeral characters tiny
tiny-IsNumeral = ((refl, tt), (refl, tt), (refl, (refl, tt)), inl refl)

half-IsNumeral : IsNumeral characters half
half-IsNumeral = (tt, (refl, tt), tt, inr refl)

tiny_text : spell_numeral tiny ≡ codes "1.5e-3"
tiny_text = refl

sum_small : length (print sum) < 99
unfolding print
sum_small = omega arith

sum-IsPlain : IsPlain sum
unfolding IsPlain
sum-IsPlain = (tt, tt)

pieces-print : map (meaning characters) pieces ≡ print sum
unfolding print single_char scan_from
pieces-print = refl

text_small : length (text pieces) ≤ 255
unfolding text
text_small = omega arith

parse_text-print_example : parse_text characters (text pieces) ≡ parsed (tree sum)
parse_text-print_example =
    parse_text-print characters sum pieces sum-IsPlain sum_small pieces-AllPieces pieces-print
      text_small (omega arith)

parse_text-IsAnswer_example : IsAnswer (parse_text characters (codes "log10(boron)"))
parse_text-IsAnswer_example =
    parse_text-IsAnswer characters (codes "log10(boron)") (omega arith) (omega arith)

value-sum : value whole sum ≡ some 15
unfolding value
value-sum = refl

parse_text-eval_real_example :
    (t : VecStr ℕ) × (parse_text characters (text pieces) ≡ parsed t)
    × (eval_real whole t ≡ written (some 15))
parse_text-eval_real_example =
    parse_text-eval_real whole characters sum 15 pieces sum-IsPlain sum_small value-sum
      pieces-AllPieces pieces-print text_small (omega arith)
