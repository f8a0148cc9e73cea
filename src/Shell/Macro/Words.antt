-- ===== src/Shell/Macro/Words.antt =====
-- What read_alnum and define_macro make of a plain name.
use tcad_webapp.Prelude.{
  ℕ, ◌≡◌, ◌≤◌, ◌<◌, ◌⊎◌, refl, ap, ◌∙◌, true, false, List, [], ◌∷◌, ◌++◌, none, length, ltb,
  Bool-cases, inl, inr, arith,
}
use tcad_webapp.Expr.Eval.{Reals}
use tcad_webapp.Expr.Lexical.{Scanner, skip_white}
use tcad_webapp.Shell.Macro.{
  Letters, MacroTable, read_alnum, define_named, enter_macro, define_macro,
}

module _ {F : Type 0} (l : Letters F) where
  abbrev pub AllAlnum : List ℕ → Type 0
  AllAlnum [] = Unit
  AllAlnum (d ∷ s) = (l.isalnum d ≡ true) × AllAlnum s

  -- A text that does not go on with an alphanumeric.
  abbrev pub EndsWord : List ℕ → Type 0
  EndsWord [] = Unit
  EndsWord (d ∷ s) = l.isalnum d ≡ false

  pub punct : (d : ℕ) → (d < 48) ⊎ (122 < d) → l.isalnum d ≡ false
  punct d h = elim (Bool-cases (l.isalnum d)) [
    | inl e ↦
        let p = l.alnum_lem d e in absurd (elim h [ inl g ↦ omega arith | inr g ↦ omega arith ])
    | inr e ↦ e
  ]

  pub read_alnum_end : (s : List ℕ) → EndsWord s → read_alnum l s ≡ ([], s)
  unfolding read_alnum
  read_alnum_end [] h = refl
  read_alnum_end (d ∷ s) h = rw h refl

  pub read_alnum-append : (w s : List ℕ) → AllAlnum w → EndsWord s → read_alnum l (w ++ s) ≡ (w, s)
  unfolding read_alnum
  read_alnum-append [] s h e = read_alnum_end s e
  read_alnum-append (d ∷ w) s h e = rw (read_alnum-append w s h.1 e, h.0) refl

module _ {F : Type 0} (c : Scanner F) (l : Letters F) where
  pub alnum_dark : (d : ℕ) → l.isalnum d ≡ true → c.isspace d ≡ false
  alnum_dark d h = let p = l.alnum_lem d h in c.graph_lem d (omega arith) (omega arith)

  pub skip_white_dark : (d : ℕ) (s : List ℕ) → c.isspace d ≡ false → skip_white c (d ∷ s) ≡ d ∷ s
  unfolding skip_white
  skip_white_dark d s h = rw h refl

module _ (r : Reals) (c : Scanner r.F) (l : Letters r.F) where
  -- A name, a blank and a body.
  pub define_macro-word :
      (n : ℕ) (ns : List ℕ) (b : ℕ) (bs : List ℕ) (macro : List MacroTable)
      → AllAlnum l (n ∷ ns)
      → length (n ∷ ns) ≤ 255
      → c.isspace b ≡ false
      → define_macro r c l ((n ∷ ns) ++ (32 ∷ (b ∷ bs))) macro
        ≡ enter_macro r c l (n ∷ ns) none (b ∷ bs) macro
  unfolding define_macro
  define_macro-word n ns b bs macro h small dark =
      ap (λ s. define_named r c l (read_alnum l s).0 (read_alnum l s).1 macro)
        (skip_white_dark c l n (ns ++ (32 ∷ (b ∷ bs))) (alnum_dark c l n h.0))
      ∙ ap (λ p. define_named r c l p.0 p.1 macro)
          (read_alnum-append l (n ∷ ns) (32 ∷ (b ∷ bs)) h (punct l 32 (inl (omega arith))))
      ∙ (let fits : ltb 255 (length (n ∷ ns)) ≡ false = ground arith in rw (fits, dark) refl)
