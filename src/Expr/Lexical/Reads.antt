-- ===== src/Expr/Lexical/Reads.antt =====
-- lexical reads each piece of a text as its token.
use tcad_webapp.Prelude.{
  ℕ, ◌≤◌, ◌≡◌, ◌≢◌, refl, ap, sym, subst, ◌∙◌, false, Option, none, some, List, [], ◌∷◌, ◌++◌,
  length, length-append, ltb, arith,
}
use tcad_webapp.Expr.Token.{Label, rconst, blank}
use tcad_webapp.Expr.Eval.{single_char}
use tcad_webapp.Expr.Lexical.{
  Scanner, HasNoSpace, read_special, token, skip_white, parse_real, special, copy_rest, lex_char,
  lex_special, lex_word, lex_trimmed, lexical,
}
use tcad_webapp.Expr.Lexical.Begins.{numeral_begins, numeral-HasNoSpace}
use tcad_webapp.Expr.Lexical.Numerals.{Numeral, spell_numeral, parse_real-numeral}
use tcad_webapp.Expr.Lexical.Pieces.{
  Piece, sign, spell, read_special-word, IsPiece, meaning, parse_real-none, copy_rest-token,
  single_char-name, number, name,
}

module _ {F : Type 0} (c : Scanner F) where
  -- White space before a text changes nothing.
  pub lexical-blank : (s : List ℕ) → lexical c (32 ∷ s) ≡ lexical c s
  unfolding lexical skip_white
  lexical-blank s = rw c.space_lem refl

  trimmed : (d : ℕ) (s : List ℕ) → c.isspace d ≡ false → lexical c (d ∷ s) ≡ lex_trimmed c (d ∷ s)
  unfolding lexical skip_white
  trimmed d s h = rw h refl

  by_word :
      (d : ℕ) (s : List ℕ)
      → single_char {F = F} d ≡ none
      → lex_trimmed c (d ∷ s) ≡ lex_word c (d ∷ s)
  by_word d s e =
      ap
        (λ (o : Option (Label F)). elim o [
          | some l ↦ lex_char c l (d ∷ s)
          | none ↦ lex_word c (d ∷ s)
        ])
        e

  by_real :
      (s : List ℕ) (o : Option (List ℕ))
      → parse_real c s ≡ o
      → lex_word c s ≡ elim o [
        | some t ↦ copy_rest c (rconst (c.scan s)) t
        | none ↦ lex_special c (read_special s)
      ]
  by_real s o e =
      ap
        (λ (o : Option (List ℕ)). elim o [
          | some t ↦ copy_rest c (rconst (c.scan s)) t
          | none ↦ lex_special c (read_special s)
        ])
        e

  lexical-sign :
      (d : ℕ) (r : List ℕ)
      → IsPiece c (sign d)
      → length r ≤ 254
      → lexical c (d ∷ (32 ∷ r)) ≡ token (meaning c (sign d)) (32 ∷ r)
  lexical-sign d r (a, b, e) h = trimmed d (32 ∷ r) (c.graph_lem d a b) ∙ by_char (single_char d) e
    where
      by_char :
          (o : Option (Label F))
          → o ≢ none
          → elim o [ some l ↦ lex_char c l (d ∷ (32 ∷ r)) | none ↦ lex_word c (d ∷ (32 ∷ r)) ]
            ≡ token (elim o [ some l ↦ l | none ↦ blank ]) (32 ∷ r)
      by_char none n = absurd (n refl)
      by_char (some l) n = copy_rest-token c l (32 ∷ r) (omega arith)

  lexical-real :
      (d : ℕ) (s r : List ℕ)
      → (33 ≤ d) × (d ≤ 126) × (single_char {F = F} d ≡ none)
      → parse_real c (d ∷ (s ++ (32 ∷ r))) ≡ some (32 ∷ r)
      → HasNoSpace c.isspace (d ∷ s)
      → length r ≤ 254
      → lexical c (d ∷ (s ++ (32 ∷ r))) ≡ token (rconst (c.scan (d ∷ s))) (32 ∷ r)
  lexical-real d s r (low, high, e) p n h =
      trimmed d (s ++ (32 ∷ r)) (c.graph_lem d low high)
      ∙ by_word d (s ++ (32 ∷ r)) e
      ∙ by_real (d ∷ (s ++ (32 ∷ r))) (some (32 ∷ r)) p
      ∙ copy_rest-token c _ (32 ∷ r) (omega arith)
      ∙ ap (λ v. token (rconst v) (32 ∷ r)) (c.scan_lem (d ∷ s) r n)

  lexical-number :
      (n : Numeral) (r : List ℕ)
      → IsPiece c (number n)
      → length r ≤ 254
      → lexical c (spell_numeral n ++ (32 ∷ r)) ≡ token (rconst (c.scan (spell_numeral n))) (32 ∷ r)
  lexical-number n r h k =
      let (d, s, e, low, high, single) = numeral_begins c n h in
      subst (λ w. lexical c (w ++ (32 ∷ r)) ≡ token (rconst (c.scan w)) (32 ∷ r)) (sym e)
        (lexical-real d s r (low, high, single)
          (subst (λ w. parse_real c (w ++ (32 ∷ r)) ≡ some (32 ∷ r)) e (parse_real-numeral c n r h))
          (subst (HasNoSpace c.isspace) e (numeral-HasNoSpace c n h)) k)

  lexical-name :
      (w r : List ℕ)
      → IsPiece c (name w)
      → length w ≤ 255
      → length r ≤ 254
      → lexical c (w ++ (32 ∷ r)) ≡ token (special c w) (32 ∷ r)
  lexical-name [] r h k l = absurd (h.3 refl)
  lexical-name (d ∷ w) r (a, b, p, n) k l =
      let white = c.graph_lem d a.0 a.1 in
      let small : ltb 255 (length (d ∷ w)) ≡ false = ground (arith, k) in
      trimmed d (w ++ (32 ∷ r)) white
      ∙ by_word d (w ++ (32 ∷ r)) (single_char-name c d a.0 a.2)
      ∙ by_real (d ∷ (w ++ (32 ∷ r))) none (parse_real-none c d (w ++ (32 ∷ r)) white b a.2 p)
      ∙ ap (lex_special c) (read_special-word (d ∷ w) r a)
      ∙ rw small (copy_rest-token c _ (32 ∷ r) (omega arith))

  -- A piece is read as its token.
  pub lexical-spell :
      (p : Piece) (r : List ℕ)
      → IsPiece c p
      → length (spell p ++ (32 ∷ r)) ≤ 255
      → lexical c (spell p ++ (32 ∷ r)) ≡ token (meaning c p) (32 ∷ r)
  lexical-spell (sign d) r h k = lexical-sign d r h (omega arith)
  lexical-spell (number n) r h k =
      lexical-number n r h (omega (arith, k, length-append (spell_numeral n) (32 ∷ r)))
  lexical-spell (name w) r h k =
      let size = length-append w (32 ∷ r) in
      lexical-name w r h (omega (arith, size, k)) (omega (arith, size, k))
