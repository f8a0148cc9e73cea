-- ===== src/Shell/Expand/Pieces.antt =====
-- A line as a sequence of pieces, each of which is one turn of the loop of expand_macro, and what
-- the line becomes when the macros are put for their names.
use tcad_webapp.Prelude.{
  ℕ, ◌≡◌, ◌≤◌, Bool, true, false, not, ◌||◌, ◌&&◌, Option, none, some, List, [], ◌∷◌, ◌++◌, length,
  ◌==◌, ◌⊎◌,
}
use tcad_webapp.Shell.Macro.{Letters}
use tcad_webapp.Shell.Expand.{first_is}
use tcad_webapp.Shell.Macro.Words.{AllAlnum, EndsWord}

-- `nothing` stands at the start of the line and behind `%`; the others are `name`, `$name` and
-- `${name}`.
pub data Symbol : Type 0 where
  nothing : Symbol
  word : ℕ → List ℕ → Symbol
  dollar brace : List ℕ → Symbol

-- A `%` where `percent` holds, the symbol, and the characters up to the next one.
pub record Piece : Type 0 where
  pub percent : Bool
  pub symbol : Symbol
  pub gap : List ℕ

abbrev pub name_of : Symbol → List ℕ
name_of nothing = []
name_of (word d w) = d ∷ w
name_of (dollar w) = w
name_of (brace w) = w

abbrev pub symbol_text : Symbol → List ℕ
symbol_text nothing = []
symbol_text (word d w) = d ∷ w
symbol_text (dollar w) = 36 ∷ w
symbol_text (brace w) = 36 ∷ (123 ∷ (w ++ (125 ∷ [])))

abbrev pub percent_text : Bool → List ℕ
percent_text true = 37 ∷ []
percent_text false = []

abbrev pub piece_text : Piece → List ℕ
piece_text p = percent_text p.percent ++ (symbol_text p.symbol ++ p.gap)

unfoldable pub text : List Piece → List ℕ
text [] = []
text (p ∷ ps) = percent_text p.percent ++ (symbol_text p.symbol ++ (p.gap ++ text ps))

-- A name with a `$` is always looked up.
abbrev pub is_looked_up : Bool → Symbol → Bool
is_looked_up plain nothing = plain
is_looked_up plain (word d w) = plain
is_looked_up plain (dollar w) = true
is_looked_up plain (brace w) = true

abbrev pub replaced : Symbol → Option (List ℕ) → List ℕ
replaced s none = symbol_text s
replaced s (some t) = t

abbrev pub value_if : (List ℕ → Option (List ℕ)) → Bool → List ℕ → Option (List ℕ)
value_if values true name = values name
value_if values false name = none

-- The value that is put for the symbol; `plain` says whether names without a `$` are still looked
-- up before the piece.
abbrev pub found : (List ℕ → Option (List ℕ)) → Bool → Piece → Option (List ℕ)
found values plain p =
    value_if values (is_looked_up (plain && not p.percent) p.symbol) (name_of p.symbol)

-- The line with the values in the place of the names.
unfoldable pub substitute : (List ℕ → Option (List ℕ)) → Bool → List Piece → List ℕ
substitute values plain [] = []
substitute values plain (p ∷ ps) =
    percent_text p.percent
    ++ (replaced p.symbol (found values plain p)
        ++ (p.gap ++ substitute values (plain && not p.percent) ps))

abbrev pub NotEmpty : List ℕ → Type 0
NotEmpty [] = ⊥
NotEmpty (d ∷ s) = Unit

-- No list of arguments follows a macro.
abbrev pub NoCall : Option (List ℕ) → List ℕ → Type 0
NoCall none f = Unit
NoCall (some t) f = first_is 40 f ≡ false

abbrev pub NoBrace : List ℕ → Type 0
NoBrace [] = Unit
NoBrace (d ∷ s) = ((d == 125) ≡ false) × NoBrace s

module _ {F : Type 0} (l : Letters F) where
  abbrev pub begins_symbol : ℕ → Bool
  begins_symbol d = l.isalnum d || d == 36 || d == 37

  abbrev pub AllGap : List ℕ → Type 0
  AllGap [] = Unit
  AllGap (d ∷ s) = (begins_symbol d ≡ false) × AllGap s

  abbrev pub Resumes : List ℕ → Type 0
  Resumes [] = Unit
  Resumes (d ∷ s) = begins_symbol d ≡ true

  -- The symbol before what follows it.
  abbrev pub IsSymbol : Symbol → List ℕ → Type 0
  IsSymbol nothing f = EndsWord l f × (first_is 36 f ≡ false)
  IsSymbol (word d w) f = AllAlnum l (d ∷ w) × EndsWord l f
  IsSymbol (dollar []) f = EndsWord l f × (first_is 123 f ≡ false)
  IsSymbol (dollar (d ∷ w)) f = AllAlnum l (d ∷ w) × EndsWord l f
  IsSymbol (brace w) f = NoBrace w

  pub record IsPiece (v : List ℕ → Option (List ℕ)) (plain : Bool) (p : Piece) (rest : List ℕ)
      : Type 0 where
    pub full : NotEmpty (piece_text p)
    pub gaps : AllGap p.gap
    pub resumes : Resumes rest
    pub shape : IsSymbol p.symbol (p.gap ++ rest)
    pub unsigned :
        (p.percent ≡ true) ⊎ (first_is 37 (symbol_text p.symbol ++ (p.gap ++ rest)) ≡ false)
    pub small : length (name_of p.symbol) ≤ 79
    pub no_call : NoCall (found v plain p) (p.gap ++ rest)

  abbrev pub AllPieces : (List ℕ → Option (List ℕ)) → Bool → List Piece → Type 0
  AllPieces values plain [] = Unit
  AllPieces values plain (p ∷ ps) =
      IsPiece values plain p (text ps) × AllPieces values (plain && not p.percent) ps
