-- ===== src/Expr/Lexical.antt =====
-- check/lexical.c: lexical, with parse_real of check/verify.c, and the loop of parse_expr over a
-- text. Texts are lists of characters without the closing 0.
pub mod Shrinks
pub mod Ends
pub mod Numerals
pub mod Begins
pub mod Pieces
pub mod Reads
pub mod Spelled
pub mod Value
mod Tests
use tcad_webapp.Prelude.{
  ℕ, zero, suc, ◌≤◌, ◌≡◌, Bool, true, false, not, ◌||◌, ◌&&◌, Option, none, some, List, [], ◌∷◌,
  ◌++◌, length, ◌==◌, ltb, if◌then◌else◌,
}
use tcad_webapp.Expr.Token.{Label, fn, vfn, solval, rconst, string, eoi, tok, topstk, TokStr, Stack}
use tcad_webapp.Expr.Parse.{Outcome, crash, no_fuel, finish, feed}
use tcad_webapp.Expr.Eval.{single_char}
use tcad_webapp.Expr.Names.{char_of, functions, constants, vec_func, sol_values}

abbrev pub HasNoSpace : (ℕ → Bool) → List ℕ → Type 0
HasNoSpace isspace [] = Unit
HasNoSpace isspace (c ∷ s) = (isspace c ≡ false) × HasNoSpace isspace s

-- `isspace` and `isdigit` of the C library on characters, `sscanf` of "%e" on a text that begins
-- with a number, which it does not read beyond white space, the value of "Kb", and the characters
-- that stand in memory between the closing 0 of the text, where the end is reached, and the next 0.
pub record Scanner (F : Type 0) : Type 0 where
  pub isspace : ℕ → Bool
  pub isdigit : ℕ → Bool
  pub scan : List ℕ → F
  pub kb : F
  pub behind : List ℕ
  pub space_lem : isspace 32 ≡ true
  pub tab_lem : isspace 9 ≡ true
  pub graph_lem : (c : ℕ) → 33 ≤ c → c ≤ 126 → isspace c ≡ false
  pub scan_lem : (s r : List ℕ) → HasNoSpace isspace s → scan (s ++ (32 ∷ r)) ≡ scan s
  pub digit_lem : (c : ℕ) → isdigit c ≡ true → (48 ≤ c) × (c ≤ 57)

-- `s++` after a test of `*s`.
abbrev pub tail : List ℕ → List ℕ
tail [] = []
tail (c ∷ s) = s

-- `strchr("()*-^/+ \t,", c) != NULL`, for the characters of a text.
abbrev pub ends_word : ℕ → Bool
ends_word c =
    c == b'('
    || c == b')'
    || c == b'*'
    || c == b'-'
    || c == b'^'
    || c == b'/'
    || c == b'+'
    || c == b' '
    || c == 9
    || c == b','

-- `tmp` and the rest.
unfoldable pub read_special : List ℕ → List ℕ × List ℕ
read_special [] = ([], [])
read_special (c ∷ s) =
    let (w, r) = read_special s in if ends_word c then ([], c ∷ s) else (c ∷ w, r)

-- The token and the text that is left, or a copy of more than 255 characters into an array of 256.
pub data Lexed (F : Type 0) : Type 0 where
  token : Label F → List ℕ → Lexed F
  overrun : Lexed F

module _ {F : Type 0} (c : Scanner F) where
  open c use {isspace, isdigit, scan, kb, behind}

  unfoldable pub skip_white : List ℕ → List ℕ
  skip_white [] = []
  skip_white (d ∷ s) = if isspace d then skip_white s else d ∷ s

  abbrev pub starts_digit : List ℕ → Bool
  starts_digit [] = false
  starts_digit (d ∷ s) = isdigit d

  unfoldable pub skip_digits : List ℕ → List ℕ
  skip_digits [] = []
  skip_digits (d ∷ s) = if isdigit d then skip_digits s else d ∷ s

  abbrev pub skip_sign : List ℕ → List ℕ
  skip_sign s = if char_of s == b'+' || char_of s == b'-' then tail s else s

  -- The exponential portion.
  unfoldable pub skip_exponent : List ℕ → List ℕ
  unfolding skip_digits
  skip_exponent s = if char_of s == b'e' then skip_digits (skip_sign (tail s)) else s

  -- Behind the leading digits; `leading` says whether there were any.
  unfoldable pub skip_decimals : Bool → List ℕ → Option (List ℕ)
  unfolding skip_digits skip_exponent
  skip_decimals leading s =
      if char_of s == b'.'
      then (if leading || starts_digit (tail s)
          then some (skip_exponent (skip_digits (tail s)))
          else none)
      else (if leading then some (skip_exponent s) else none)

  -- The end of the number; its value is `scan` of the same text.
  unfoldable pub parse_real : List ℕ → Option (List ℕ)
  unfolding skip_white skip_digits skip_decimals
  parse_real str =
      let s = skip_sign (skip_white str) in skip_decimals (starts_digit s) (skip_digits s)

  -- What a name stands for: a function, a constant, a vector function, a solution value or a string.
  -- The names after the functions are looked up in what `functions` leaves of it.
  unfoldable pub special : List ℕ → Label F
  unfolding functions constants vec_func sol_values
  special word =
      let (f, w) = functions word in
      elim f [
        | some i ↦ fn i
        | none ↦ elim (constants kb w) [
          | some v ↦ rconst v
          | none ↦ elim (vec_func w) [
            | some i ↦ vfn i
            | none ↦ elim (sol_values w) [ some i ↦ solval i | none ↦ string w ]
          ]
        ]
      ]

  -- `strcpy(buf, s); strcpy(str, buf);`.
  abbrev pub copy_rest : Label F → List ℕ → Lexed F
  copy_rest l s = if ltb 255 (length s) then overrun else token l s

  -- `strcpy(buf, s + 1)`; at the end of the text that is what lies behind its 0.
  abbrev pub lex_char : Label F → List ℕ → Lexed F
  lex_char l [] = copy_rest l behind
  lex_char l (d ∷ s) = copy_rest l s

  abbrev pub lex_special : List ℕ × List ℕ → Lexed F
  lex_special (w, r) = if ltb 255 (length w) then overrun else copy_rest (special w) r

  abbrev pub lex_word : List ℕ → Lexed F
  lex_word s = elim (parse_real s) [
    | some t ↦ copy_rest (rconst (scan s)) t
    | none ↦ lex_special (read_special s)
  ]

  abbrev pub lex_trimmed : List ℕ → Lexed F
  lex_trimmed s = elim (single_char {F = F} (char_of s)) [
    | some l ↦ lex_char l s
    | none ↦ lex_word s
  ]

  unfoldable pub lexical : List ℕ → Lexed F
  unfolding skip_white single_char parse_real read_special special
  lexical str = lex_trimmed (skip_white str)

  abbrev pub is_eoi : Label F → Bool
  is_eoi eoi = true
  is_eoi _ = false

  -- The loop of parse_expr; an overrun of an array is a `crash`.
  unfoldable pub run_text : ℕ → (ℕ → Bool) → List ℕ → Stack F → Outcome F
  unfolding lexical
  run_text zero fits str st = no_fuel
  run_text (suc fuel) fits str st = elim (lexical str) [
    | overrun ↦ crash
    | token l rest ↦
        feed fits (tok l) st (λ st'. if is_eoi l then finish st' else run_text fuel fits rest st')
  ]

  unfoldable pub parse_text : List ℕ → Outcome F
  unfolding run_text
  parse_text str = run_text (suc (length str)) (λ n. ltb n 100) str (tok topstk ∷ [])
