-- ===== src/Expr/Lexical/Pieces.antt =====
-- The pieces of a text, and how far the scanning of a name and of a number goes.
use tcad_webapp.Prelude.{
  ℕ, ◌≤◌, ◌≡◌, ◌≢◌, refl, false, none, some, List, [], ◌∷◌, ◌++◌, length, ◌==◌, ltb, arith,
}
use tcad_webapp.Expr.Token.{Label, rconst, blank}
use tcad_webapp.Expr.Eval.{single_char}
use tcad_webapp.Expr.Names.{char_of}
use tcad_webapp.Expr.Lexical.{
  Scanner, ends_word, read_special, token, skip_white, starts_digit, skip_digits, skip_decimals,
  parse_real, special, copy_rest,
}
use tcad_webapp.Expr.Lexical.Numerals.{Numeral, spell_numeral, IsNumeral}

-- A single character, a number, or a name.
pub data Piece : Type 0 where
  sign : ℕ → Piece
  number : Numeral → Piece
  name : List ℕ → Piece

abbrev pub spell : Piece → List ℕ
spell (sign d) = d ∷ []
spell (number n) = spell_numeral n
spell (name w) = w

-- Each piece with a blank behind it.
unfoldable pub text : List Piece → List ℕ
text [] = []
text (p ∷ ps) = spell p ++ (32 ∷ text ps)

-- The characters of names.
abbrev pub AllName : List ℕ → Type 0
AllName [] = Unit
AllName (d ∷ w) = (33 ≤ d) × (d ≤ 126) × (ends_word d ≡ false) × AllName w

pub read_special-word : (w r : List ℕ) → AllName w → read_special (w ++ (32 ∷ r)) ≡ (w, 32 ∷ r)
unfolding read_special
read_special-word [] r h = refl
read_special-word (d ∷ w) r h = rw (read_special-word w r h.3, h.2) refl

module _ {F : Type 0} (c : Scanner F) where
  abbrev pub IsPiece : Piece → Type 0
  IsPiece (sign d) = (33 ≤ d) × (d ≤ 126) × (single_char {F = F} d ≢ none)
  IsPiece (number n) = IsNumeral c n
  IsPiece (name w) = AllName w × (starts_digit c w ≡ false) × (char_of w ≢ 46) × (w ≢ [])

  abbrev pub AllPieces : List Piece → Type 0
  AllPieces [] = Unit
  AllPieces (p ∷ ps) = IsPiece p × AllPieces ps

  -- The token that a piece stands for.
  abbrev pub meaning : Piece → Label F
  meaning (sign d) = elim (single_char {F = F} d) [ some l ↦ l | none ↦ blank ]
  meaning (number n) = rconst (c.scan (spell_numeral n))
  meaning (name w) = special c w

  -- A character that is not white, not a digit, no sign and no point does not begin a number.
  pub parse_real-none :
      (d : ℕ) (s : List ℕ)
      → c.isspace d ≡ false
      → c.isdigit d ≡ false
      → ends_word d ≡ false
      → d ≢ 46
      → parse_real c (d ∷ s) ≡ none
  unfolding parse_real skip_white skip_digits skip_decimals
  parse_real-none d s w h e p =
      let plus : (d == b'+') ≡ false = ground (arith, e) in
      let minus : (d == b'-') ≡ false = ground (arith, e) in
      let point : (d == b'.') ≡ false = ground (arith, p) in rw (w, plus, minus, h, point) refl

  pub copy_rest-token : (l : Label F) (s : List ℕ) → length s ≤ 255 → copy_rest c l s ≡ token l s
  copy_rest-token l s h = let small : ltb 255 (length s) ≡ false = ground arith in rw small refl

  pub single_char-name : (d : ℕ) → 33 ≤ d → ends_word d ≡ false → single_char {F = F} d ≡ none
  unfolding single_char
  single_char-name d h e = ground (arith, e)
