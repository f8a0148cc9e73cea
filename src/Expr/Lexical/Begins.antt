-- ===== src/Expr/Lexical/Begins.antt =====
-- A number begins with a digit or a point, and has no white space.
use tcad_webapp.Prelude.{
  ℕ, ◌≤◌, ◌≡◌, ◌⊎◌, refl, Bool, true, false, Option, none, some, List, [], ◌∷◌, ◌++◌, append-nil,
  subst, arith, inl, inr,
}
use tcad_webapp.Expr.Eval.{single_char}
use tcad_webapp.Expr.Lexical.{HasNoSpace, Scanner, starts_digit}
use tcad_webapp.Expr.Lexical.Numerals.{
  Numeral, spell_decimals, spell_sign, spell_exponent, spell_numeral, digits_of, AllDigits,
  IsExponent, IsNumeral, graph,
}

module _ {F : Type 0} (c : Scanner F) where
  AllDigits-HasNoSpace :
      (ds s : List ℕ) → AllDigits c ds → HasNoSpace c.isspace s → HasNoSpace c.isspace (ds ++ s)
  AllDigits-HasNoSpace [] s h k = k
  AllDigits-HasNoSpace (d ∷ ds) s h k =
      let (low, high) = graph c d h.0 in (c.graph_lem d low high, AllDigits-HasNoSpace ds s h.1 k)

  exponent-HasNoSpace :
      (e : Option (Option Bool × List ℕ)) → IsExponent c e → HasNoSpace c.isspace (spell_exponent e)
  exponent-HasNoSpace none h = tt
  exponent-HasNoSpace (some (sg, ds)) h =
      let all = subst (HasNoSpace c.isspace) (append-nil ds) (AllDigits-HasNoSpace ds [] h.1 tt) in
      (c.graph_lem b'e' (omega arith) (omega arith), by_sign sg ds all)
    where
      by_sign :
          (sg : Option Bool) (ds : List ℕ)
          → HasNoSpace c.isspace ds
          → HasNoSpace c.isspace (spell_sign sg ++ ds)
      by_sign none ds k = k
      by_sign (some true) ds k = (c.graph_lem b'+' (omega arith) (omega arith), k)
      by_sign (some false) ds k = (c.graph_lem b'-' (omega arith) (omega arith), k)

  decimals-HasNoSpace :
      (dec : Option (List ℕ)) (s : List ℕ)
      → AllDigits c (digits_of dec)
      → HasNoSpace c.isspace s
      → HasNoSpace c.isspace (spell_decimals dec ++ s)
  decimals-HasNoSpace none s h k = k
  decimals-HasNoSpace (some ds) s h k =
      (c.graph_lem b'.' (omega arith) (omega arith), AllDigits-HasNoSpace ds s h k)

  pub numeral-HasNoSpace : (n : Numeral) → IsNumeral c n → HasNoSpace c.isspace (spell_numeral n)
  numeral-HasNoSpace n h =
      AllDigits-HasNoSpace n.leading _ h.0
        (decimals-HasNoSpace n.decimals _ h.1 (exponent-HasNoSpace n.exponent h.2))

  single_char-digit : (d : ℕ) → c.isdigit d ≡ true → single_char {F = F} d ≡ none
  unfolding single_char
  single_char-digit d h = let range = c.digit_lem d h in ground (arith, range.0, range.1)

  -- The first character is a digit or a point.
  pub numeral_begins :
      (n : Numeral)
      → IsNumeral c n
      → (d : ℕ) × (s : List ℕ) × (spell_numeral n ≡ d ∷ s)
        × (33 ≤ d)
        × (d ≤ 126)
        × (single_char {F = F} d ≡ none)
  unfolding single_char
  numeral_begins n h = by_parts n.leading n.decimals (spell_exponent n.exponent) h.0 h.3
    where
      by_parts :
          (ls : List ℕ) (dec : Option (List ℕ)) (t : List ℕ)
          → AllDigits c ls
          → (starts_digit c ls ≡ true) ⊎ (starts_digit c (digits_of dec) ≡ true)
          → (d : ℕ) × (s : List ℕ) × (ls ++ (spell_decimals dec ++ t) ≡ d ∷ s)
            × (33 ≤ d)
            × (d ≤ 126)
            × (single_char {F = F} d ≡ none)
      by_parts [] none t h (inl l) = absurd (cc l)
      by_parts [] none t h (inr l) = absurd (cc l)
      by_parts [] (some ds) t h l = (b'.', ds ++ t, refl, omega arith, omega arith, refl)
      by_parts (d ∷ ls) dec t h l =
          let (low, high) = graph c d h.0 in
          (d, ls ++ (spell_decimals dec ++ t), refl, low, high, single_char-digit d h.0)
