-- ===== src/Expr/Lexical/Numerals.antt =====
-- The numbers that parse_real passes over: digits, a point with digits behind it, and an exponent.
use tcad_webapp.Prelude.{
  ℕ, ◌≤◌, ◌≡◌, ◌⊎◌, refl, ap, ◌∙◌, Bool, true, false, Option, none, some, List, [], ◌∷◌, ◌++◌,
  append_assoc, ◌==◌, arith, Bool-cases, inl, inr,
}
use tcad_webapp.Expr.Lexical.{
  Scanner, skip_white, starts_digit, skip_digits, skip_exponent, skip_decimals, parse_real,
}

-- The digits, those behind the point where there is one, and the exponent with its sign, which is
-- `true` for plus, where there is one.
pub record Numeral : Type 0 where
  pub leading : List ℕ
  pub decimals : Option (List ℕ)
  pub exponent : Option (Option Bool × List ℕ)

abbrev pub spell_decimals : Option (List ℕ) → List ℕ
spell_decimals none = []
spell_decimals (some ds) = b'.' ∷ ds

abbrev pub spell_sign : Option Bool → List ℕ
spell_sign none = []
spell_sign (some true) = b'+' ∷ []
spell_sign (some false) = b'-' ∷ []

abbrev pub spell_exponent : Option (Option Bool × List ℕ) → List ℕ
spell_exponent none = []
spell_exponent (some (sg, ds)) = b'e' ∷ (spell_sign sg ++ ds)

abbrev pub spell_numeral : Numeral → List ℕ
spell_numeral n = n.leading ++ (spell_decimals n.decimals ++ spell_exponent n.exponent)

abbrev pub digits_of : Option (List ℕ) → List ℕ
digits_of none = []
digits_of (some ds) = ds

module _ {F : Type 0} (c : Scanner F) where
  abbrev pub AllDigits : List ℕ → Type 0
  AllDigits [] = Unit
  AllDigits (d ∷ ds) = (c.isdigit d ≡ true) × AllDigits ds

  abbrev pub IsExponent : Option (Option Bool × List ℕ) → Type 0
  IsExponent none = Unit
  IsExponent (some (sg, ds)) = (starts_digit c ds ≡ true) × AllDigits ds

  -- Digits stand before the point or behind it, and in an exponent.
  abbrev pub IsNumeral : Numeral → Type 0
  IsNumeral n =
      AllDigits n.leading
      × AllDigits (digits_of n.decimals)
      × IsExponent n.exponent
      × ((starts_digit c n.leading ≡ true) ⊎ (starts_digit c (digits_of n.decimals) ≡ true))

  no_digit : (d : ℕ) → (d ≤ 47) ⊎ (58 ≤ d) → c.isdigit d ≡ false
  no_digit d h = elim (Bool-cases (c.isdigit d)) [
    | inr e ↦ e
    | inl e ↦
        let range = c.digit_lem d e in
        elim h [
          | inl k ↦ absurd (omega (arith, k, range.0))
          | inr k ↦ absurd (omega (arith, k, range.1))
        ]
  ]

  skip_digits-stop :
      (ds : List ℕ) (d : ℕ) (s : List ℕ)
      → AllDigits ds
      → c.isdigit d ≡ false
      → skip_digits c (ds ++ (d ∷ s)) ≡ d ∷ s
  unfolding skip_digits
  skip_digits-stop [] d s h e = rw e refl
  skip_digits-stop (x ∷ ds) d s h e = rw h.0 (skip_digits-stop ds d s h.1 e)

  no_sign : (d : ℕ) → c.isdigit d ≡ true → ((d == b'+') ≡ false) × ((d == b'-') ≡ false)
  no_sign d h = let range = c.digit_lem d h in (ground (arith, range.0), ground (arith, range.0))

  skip_exponent-all :
      (e : Option (Option Bool × List ℕ)) (r : List ℕ)
      → IsExponent e
      → skip_exponent c (spell_exponent e ++ (32 ∷ r)) ≡ 32 ∷ r
  unfolding skip_exponent
  skip_exponent-all none r h = refl
  skip_exponent-all (some (none, [])) r h = absurd (cc h.0)
  skip_exponent-all (some (none, d ∷ ds)) r h =
      let (plus, minus) = no_sign d h.0 in
      rw (plus, minus) (skip_digits-stop (d ∷ ds) 32 r h.1 (no_digit 32 (inl (omega arith))))
  skip_exponent-all (some (some true, ds)) r h =
      skip_digits-stop ds 32 r h.1 (no_digit 32 (inl (omega arith)))
  skip_exponent-all (some (some false, ds)) r h =
      skip_digits-stop ds 32 r h.1 (no_digit 32 (inl (omega arith)))

  skip_digits-exponent :
      (ds : List ℕ) (e : Option (Option Bool × List ℕ)) (r : List ℕ)
      → AllDigits ds
      → skip_digits c (ds ++ (spell_exponent e ++ (32 ∷ r))) ≡ spell_exponent e ++ (32 ∷ r)
  skip_digits-exponent ds none r h = skip_digits-stop ds 32 r h (no_digit 32 (inl (omega arith)))
  skip_digits-exponent ds (some (sg, es)) r h =
      skip_digits-stop ds b'e' _ h (no_digit b'e' (inr (omega arith)))

  begins-append : (ds s : List ℕ) → starts_digit c ds ≡ true → starts_digit c (ds ++ s) ≡ true
  begins-append [] s h = absurd (cc h)
  begins-append (d ∷ ds) s h = h

  skip_digits-decimals :
      (ls : List ℕ) (dec : Option (List ℕ)) (e : Option (Option Bool × List ℕ)) (r : List ℕ)
      → AllDigits ls
      → skip_digits c (ls ++ (spell_decimals dec ++ (spell_exponent e ++ (32 ∷ r))))
        ≡ spell_decimals dec ++ (spell_exponent e ++ (32 ∷ r))
  skip_digits-decimals ls none e r h = skip_digits-exponent ls e r h
  skip_digits-decimals ls (some ds) e r h =
      skip_digits-stop ls b'.' _ h (no_digit b'.' (inl (omega arith)))

  skip_decimals-all :
      (lead : Bool) (dec : Option (List ℕ)) (e : Option (Option Bool × List ℕ)) (r : List ℕ)
      → AllDigits (digits_of dec)
      → IsExponent e
      → (lead ≡ true) ⊎ (starts_digit c (digits_of dec) ≡ true)
      → skip_decimals c lead (spell_decimals dec ++ (spell_exponent e ++ (32 ∷ r))) ≡ some (32 ∷ r)
  unfolding skip_decimals
  skip_decimals-all lead none none r d x (inl l) = rw (l, skip_exponent-all none r x) refl
  skip_decimals-all lead none (some e) r d x (inl l) = rw (l, skip_exponent-all (some e) r x) refl
  skip_decimals-all lead none e r d x (inr l) = absurd (cc l)
  skip_decimals-all lead (some ds) e r d x (inl l) =
      rw (l, skip_digits-exponent ds e r d, skip_exponent-all e r x) refl
  skip_decimals-all true (some ds) e r d x (inr l) =
      rw (skip_digits-exponent ds e r d, skip_exponent-all e r x) refl
  skip_decimals-all false (some ds) e r d x (inr l) =
      rw
        (
          begins-append ds (spell_exponent e ++ (32 ∷ r)) l,
          skip_digits-exponent ds e r d,
          skip_exponent-all e r x,
        )
        refl

  pub graph : (d : ℕ) → c.isdigit d ≡ true → (33 ≤ d) × (d ≤ 126)
  graph d h = let range = c.digit_lem d h in (omega (arith, range.0), omega (arith, range.1))

  parse_real-parts :
      (ls : List ℕ) (dec : Option (List ℕ)) (e : Option (Option Bool × List ℕ)) (r : List ℕ)
      → AllDigits ls
      → AllDigits (digits_of dec)
      → IsExponent e
      → (starts_digit c ls ≡ true) ⊎ (starts_digit c (digits_of dec) ≡ true)
      → parse_real c (ls ++ (spell_decimals dec ++ (spell_exponent e ++ (32 ∷ r)))) ≡ some (32 ∷ r)
  unfolding parse_real skip_white
  parse_real-parts [] none e r h d x (inl l) = absurd (cc l)
  parse_real-parts [] none e r h d x (inr l) = absurd (cc l)
  parse_real-parts [] (some ds) e r h d x l =
      let point : c.isdigit b'.' ≡ false = no_digit b'.' (inl (omega arith)) in
      let white = c.graph_lem b'.' (omega arith) (omega arith) in
      rw (white, point)
        (skip_decimals-all false (some ds) e r d x
          (elim l [ inl a ↦ absurd (cc a) | inr a ↦ inr a ]))
  parse_real-parts (y ∷ ls) dec e r h d x l =
      let (low, high) = graph y h.0 in
      let white = c.graph_lem y low high in
      let (plus, minus) = no_sign y h.0 in
      let rest = skip_digits-decimals ls dec e r h.1 in
      rw (white, plus, minus, h.0, rest) (skip_decimals-all true dec e r d x (inl refl))

  spell_numeral-append :
      (n : Numeral) (r : List ℕ)
      → spell_numeral n ++ r
        ≡ n.leading ++ (spell_decimals n.decimals ++ (spell_exponent n.exponent ++ r))
  spell_numeral-append n r =
      append_assoc n.leading (spell_decimals n.decimals ++ spell_exponent n.exponent) r
      ∙ ap (λ s. n.leading ++ s)
          (append_assoc (spell_decimals n.decimals) (spell_exponent n.exponent) r)

  -- A number is passed over up to the blank behind it.
  pub parse_real-numeral :
      (n : Numeral) (r : List ℕ)
      → IsNumeral n
      → parse_real c (spell_numeral n ++ (32 ∷ r)) ≡ some (32 ∷ r)
  parse_real-numeral n r h =
      ap (parse_real c) (spell_numeral-append n (32 ∷ r))
      ∙ parse_real-parts n.leading n.decimals n.exponent r h.0 h.1 h.2 h.3
