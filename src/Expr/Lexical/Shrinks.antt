-- ===== src/Expr/Lexical/Shrinks.antt =====
-- Every token takes characters of the text.
use tcad_webapp.Prelude.{
  ℕ, suc, ◌≤◌, ◌<◌, ◌≡◌, refl, ap, sym, ◌∙◌, Bool, true, false, ◌||◌, Option, none, some, List, [],
  ◌∷◌, length, ◌==◌, ltb, arith, Bool-cases, inl, inr,
}
use tcad_webapp.Expr.Token.{Label, op1, op2, op3, rconst, lpar, rpar, comma}
use tcad_webapp.Expr.Eval.{single_char}
use tcad_webapp.Expr.Names.{char_of}
use tcad_webapp.Expr.Lexical.{
  Scanner, tail, ends_word, read_special, Lexed, token, overrun, skip_white, starts_digit,
  skip_digits, skip_sign, skip_exponent, skip_decimals, parse_real, copy_rest, lex_char,
  lex_special, lex_word, lex_trimmed, lexical, is_eoi,
}

pub tail-le : (s : List ℕ) → length (tail s) ≤ length s
tail-le [] = omega arith
tail-le (d ∷ s) = omega arith

pub tail-lt : (s : List ℕ) (d : ℕ) → char_of s ≡ suc d → length (tail s) < length s
tail-lt [] d h = absurd (omega arith)
tail-lt (e ∷ s) d h = omega arith

pub read_special-le :
    (s : List ℕ) → (length (read_special s).0 ≤ length s) × (length (read_special s).1 ≤ length s)
unfolding read_special
read_special-le [] = (omega arith, omega arith)
read_special-le (d ∷ s) = elim (Bool-cases (ends_word d)) [
  | inl e ↦ rw e (omega arith, omega arith)
  | inr e ↦ let h = read_special-le s in rw e (omega (arith, h.0), omega (arith, h.1))
]

pub read_special-lt :
    (d : ℕ) (s : List ℕ) → ends_word d ≡ false → length (read_special (d ∷ s)).1 < length (d ∷ s)
unfolding read_special
read_special-lt d s e = rw e (omega (arith, (read_special-le s).1))

module _ {F : Type 0} (c : Scanner F) where
  pub skip_white-le : (s : List ℕ) → length (skip_white c s) ≤ length s
  unfolding skip_white
  skip_white-le [] = omega arith
  skip_white-le (d ∷ s) = ground (arith, skip_white-le s)

  abbrev pub IsTrimmed : List ℕ → Type 0
  IsTrimmed [] = Unit
  IsTrimmed (d ∷ s) = c.isspace d ≡ false

  pub skip_white-IsTrimmed : (s : List ℕ) → IsTrimmed (skip_white c s)
  unfolding skip_white
  skip_white-IsTrimmed [] = tt
  skip_white-IsTrimmed (d ∷ s) = elim (Bool-cases (c.isspace d)) [
    | inl e ↦ rw e (skip_white-IsTrimmed s)
    | inr e ↦ rw e (e)
  ]

  pub skip_digits-le : (s : List ℕ) → length (skip_digits c s) ≤ length s
  unfolding skip_digits
  skip_digits-le [] = omega arith
  skip_digits-le (d ∷ s) = ground (arith, skip_digits-le s)

  pub skip_digits-lt : (s : List ℕ) → starts_digit c s ≡ true → length (skip_digits c s) < length s
  unfolding skip_digits
  skip_digits-lt [] h = absurd (cc h)
  skip_digits-lt (d ∷ s) h = rw h (omega (arith, skip_digits-le s))

  pub skip_sign-le : (s : List ℕ) → length (skip_sign c s) ≤ length s
  skip_sign-le s = ground (arith, tail-le s)

  pub skip_exponent-le : (s : List ℕ) → length (skip_exponent c s) ≤ length s
  unfolding skip_exponent
  skip_exponent-le s = elim (Bool-cases (char_of s == b'e')) [
    | inl e ↦
        rw e
          (omega (arith, skip_digits-le (skip_sign c (tail s)), skip_sign-le (tail s), tail-le s))
    | inr e ↦ rw e (omega arith)
  ]

  -- What is left is shorter than `n`.
  abbrev pub Under : ℕ → Option (List ℕ) → Type 0
  Under n none = Unit
  Under n (some t) = length t < n

  pub skip_decimals-Under :
      (leading : Bool) (s : List ℕ) (n : ℕ)
      → length s ≤ n
      → (leading ≡ true → length s < n)
      → Under n (skip_decimals c leading s)
  unfolding skip_decimals
  skip_decimals-Under leading s n h k = elim (Bool-cases (char_of s == b'.')) [
    | inl e ↦ elim (Bool-cases (leading || starts_digit c (tail s))) [
      | inl p ↦
          let dot : char_of s ≡ suc 45 = ground arith in
          rw (e, p)
            (omega (
              arith,
              skip_exponent-le (skip_digits c (tail s)),
              skip_digits-le (tail s),
              tail-lt s 45 dot,
            ))
      | inr p ↦ rw (e, p) tt
    ]
    | inr e ↦ elim (Bool-cases leading) [
      | inl p ↦ rw (e, p) (omega (arith, skip_exponent-le s, k p))
      | inr p ↦ rw (e, p) tt
    ]
  ]

  pub parse_real-Under : (s : List ℕ) → Under (length s) (parse_real c s)
  unfolding parse_real
  parse_real-Under s =
      let t = skip_sign c (skip_white c s) in
      let less = skip_sign-le (skip_white c s) in
      let white = skip_white-le s in
      skip_decimals-Under (starts_digit c t) (skip_digits c t) (length s)
        (omega (arith, skip_digits-le t, less, white))
        (λ h. omega (arith, skip_digits-lt t h, less, white))

  -- A token, and a text that is shorter than `n` unless the token is the end of the text.
  abbrev pub Shrinks : ℕ → Lexed F → Type 0
  Shrinks n overrun = ⊥
  Shrinks n (token l r) = is_eoi c l ≡ false → length r < n

  pub copy_rest-Shrinks :
      (n : ℕ) (l : Label F) (s : List ℕ) → n ≤ 255 → length s < n → Shrinks n (copy_rest c l s)
  copy_rest-Shrinks n l s h k =
      let small : ltb 255 (length s) ≡ false = ground arith in rw small (λ e. k)

  pub lex_special-Shrinks :
      (n : ℕ) (w r : List ℕ)
      → n ≤ 255
      → length w ≤ n
      → length r < n
      → Shrinks n (lex_special c (w, r))
  lex_special-Shrinks n w r h k l =
      let small : ltb 255 (length w) ≡ false = ground arith in
      rw small (copy_rest-Shrinks n _ r h l)

  pub lex_word-Shrinks :
      (d : ℕ) (s : List ℕ)
      → length (d ∷ s) ≤ 255
      → ends_word d ≡ false
      → Shrinks (length (d ∷ s)) (lex_word c (d ∷ s))
  lex_word-Shrinks d s h e = by_real (parse_real c (d ∷ s)) (parse_real-Under (d ∷ s))
    where
      by_real :
          (o : Option (List ℕ))
          → Under (length (d ∷ s)) o
          → Shrinks (length (d ∷ s)) (elim o [
            | some t ↦ copy_rest c (rconst (c.scan (d ∷ s))) t
            | none ↦ lex_special c (read_special (d ∷ s))
          ])
      by_real (some t) k = copy_rest-Shrinks (length (d ∷ s)) _ t h k
      by_real none k =
          lex_special-Shrinks (length (d ∷ s)) _ _ h (read_special-le (d ∷ s)).0
            (read_special-lt d s e)

  pub not_single :
      (k : ℕ) (l : Label F)
      → single_char k ≡ some l
      → (d : ℕ) → single_char {F = F} d ≡ none
      → (d == k) ≡ false
  not_single k l q d e = elim (Bool-cases (d == k)) [
    | inl p ↦
        let same : d ≡ k = ground arith in absurd (cc (sym e ∙ ap (single_char {F = F}) same ∙ q))
    | inr p ↦ p
  ]

  pub not_white : (k d : ℕ) → c.isspace k ≡ true → c.isspace d ≡ false → (d == k) ≡ false
  not_white k d w h = elim (Bool-cases (d == k)) [
    | inl p ↦ let same : d ≡ k = ground arith in absurd (cc (sym h ∙ ap c.isspace same ∙ w))
    | inr p ↦ p
  ]

  -- A character that is not a token by itself and not white does not end a word.
  pub single_char-none :
      (d : ℕ) → c.isspace d ≡ false → single_char {F = F} d ≡ none → ends_word d ≡ false
  unfolding single_char
  single_char-none d h e =
      rw
        (
          not_single b'(' lpar refl d e,
          not_single b')' rpar refl d e,
          not_single b'*' (op2 b'*') refl d e,
          not_single b'-' (op1 b'-') refl d e,
          not_single b'^' (op3 b'^') refl d e,
          not_single b'/' (op2 b'/') refl d e,
          not_single b'+' (op1 b'+') refl d e,
          not_single b',' comma refl d e,
          not_white b' ' d c.space_lem h,
          not_white 9 d c.tab_lem h,
        )
        refl

  pub lex_trimmed-Shrinks :
      (s : List ℕ)
      → length c.behind ≤ 255
      → IsTrimmed s
      → length s ≤ 255
      → Shrinks (length s) (lex_trimmed c s)
  unfolding single_char
  lex_trimmed-Shrinks [] b w h =
      let small : ltb 255 (length c.behind) ≡ false = ground arith in rw small (λ e. cc e)
  lex_trimmed-Shrinks (d ∷ s) b w h = by_char (single_char d) refl
    where
      by_char :
          (o : Option (Label F))
          → single_char d ≡ o
          → Shrinks
              (length (d ∷ s))
              (elim o [ some l ↦ lex_char c l (d ∷ s) | none ↦ lex_word c (d ∷ s) ])
      by_char (some l) e = copy_rest-Shrinks (length (d ∷ s)) l s h (omega arith)
      by_char none e = lex_word-Shrinks d s h (single_char-none d w e)

  pub Shrinks-mono : (m n : ℕ) (x : Lexed F) → m ≤ n → Shrinks m x → Shrinks n x
  Shrinks-mono m n overrun h k = k
  Shrinks-mono m n (token l r) h k = λ e. omega (arith, k e)

  pub lexical-Shrinks :
      (s : List ℕ) → length c.behind ≤ 255 → length s ≤ 255 → Shrinks (length s) (lexical c s)
  unfolding lexical
  lexical-Shrinks s b h =
      let t = skip_white c s in
      let white = skip_white-le s in
      Shrinks-mono (length t) (length s) (lex_trimmed c t) white
        (lex_trimmed-Shrinks t b (skip_white-IsTrimmed s) (omega arith))
