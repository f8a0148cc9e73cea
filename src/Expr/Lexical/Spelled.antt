-- ===== src/Expr/Lexical/Spelled.antt =====
-- From the characters of an expression to its tree.
use mathlib.Core.Path.{fun_ext}
use tcad_webapp.Prelude.{
  ℕ, zero, suc, ◌≤◌, ◌<◌, ◌≡◌, refl, ap, ◌∙◌, Bool, false, Option, none, some, List, [], ◌∷◌, map,
  length, length-append, ltb, if◌then◌else◌, arith,
}
use tcad_webapp.Expr.Token.{Label, fn, vfn, solval, rconst, eoi, topstk, tok, Stack}
use tcad_webapp.Expr.Parse.{Outcome, crash, parsed, finish, feed, run, parse_expr}
use tcad_webapp.Expr.Eval.{single_char}
use tcad_webapp.Expr.Names.{functions, constants, vec_func, sol_values}
use tcad_webapp.Expr.Syntax.{Sum, print, tree, IsPlain}
use tcad_webapp.Expr.RoundTrip.{parse_expr-print}
use tcad_webapp.Expr.Lexical.{
  Scanner, Lexed, token, overrun, skip_white, special, lexical, is_eoi, run_text, parse_text,
}
use tcad_webapp.Expr.Lexical.Pieces.{
  Piece, sign, spell, text, IsPiece, AllPieces, meaning, copy_rest-token, number, name,
}
use tcad_webapp.Expr.Lexical.Reads.{lexical-blank, lexical-spell}

module _ {F : Type 0} (c : Scanner F) where
  pick-eoi :
      {A : Type 0} (o : Option A) (f : A → Label F) (l : Label F)
      → ((a : A) → is_eoi c (f a) ≡ false)
      → is_eoi c l ≡ false
      → is_eoi c (elim o [ some a ↦ f a | none ↦ l ]) ≡ false
  pick-eoi (some a) f l h k = h a
  pick-eoi none f l h k = k

  special-eoi : (w : List ℕ) → is_eoi c (special c w) ≡ false
  unfolding special
  special-eoi w =
      pick-eoi (functions w).0 fn _ (λ i. refl)
        (pick-eoi (constants c.kb (functions w).1) rconst _ (λ v. refl)
          (pick-eoi (vec_func (functions w).1) vfn _ (λ i. refl)
            (pick-eoi (sol_values (functions w).1) solval _ (λ i. refl) refl)))

  single_char-eoi : (d : ℕ) → 33 ≤ d → is_eoi c (meaning c (sign d)) ≡ false
  unfolding single_char
  single_char-eoi d h = ground arith

  meaning-eoi : (p : Piece) → IsPiece c p → is_eoi c (meaning c p) ≡ false
  meaning-eoi (sign d) h = single_char-eoi d h.0
  meaning-eoi (number n) h = refl
  meaning-eoi (name w) h = special-eoi w

  lexical_end : length c.behind ≤ 255 → lexical c (text []) ≡ token eoi c.behind
  unfolding lexical skip_white single_char text
  lexical_end h = copy_rest-token c eoi c.behind h

  -- One turn of the loop.
  abbrev turn : ℕ → (ℕ → Bool) → Stack F → Lexed F → Outcome F
  turn fuel fits st overrun = crash
  turn fuel fits st (token l rest) =
      feed fits (tok l) st (λ st'. if is_eoi c l then finish st' else run_text c fuel fits rest st')

  run_text-turn :
      (fuel : ℕ) (fits : ℕ → Bool) (s : List ℕ) (st : Stack F) (x : Lexed F)
      → lexical c s ≡ x
      → run_text c (suc fuel) fits s st ≡ turn fuel fits st x
  unfolding run_text
  run_text-turn fuel fits s st x e =
      ap
        (λ x. elim x [
          | overrun ↦ crash
          | token l rest ↦
              feed fits (tok l) st
                (λ st'. if is_eoi c l then finish st' else run_text c fuel fits rest st')
        ])
        e
      ∙ by_token x
    where
      by_token :
          (x : Lexed F)
          → elim x [
            | overrun ↦ crash
            | token l rest ↦
                feed fits
                  (tok l)
                  st
                  (λ st'. if is_eoi c l then finish st' else run_text c fuel fits rest st')
          ]
            ≡ turn fuel fits st x
      by_token overrun = refl
      by_token (token l rest) = refl

  run_text-map :
      (fuel : ℕ) (fits : ℕ → Bool) (ps : List Piece) (s : List ℕ) (st : Stack F)
      → lexical c s ≡ lexical c (text ps)
      → length ps < fuel
      → length (text ps) ≤ 255
      → length c.behind ≤ 255
      → AllPieces c ps
      → run_text c fuel fits s st ≡ run fits (map (meaning c) ps) st
  unfolding run text
  run_text-map zero fits ps s st e h k b a = absurd (omega arith)
  run_text-map (suc fuel) fits [] s st e h k b a =
      run_text-turn fuel fits s st (token eoi c.behind) (e ∙ lexical_end b)
  run_text-map (suc fuel) fits (p ∷ ps) s st e h k b a =
      let size = length-append (spell p) (32 ∷ text ps) in
      run_text-turn fuel fits s st (token (meaning c p) (32 ∷ text ps))
        (e ∙ lexical-spell c p (text ps) a.0 k)
      ∙ rw (meaning-eoi p a.0) (
          ap (feed fits (tok (meaning c p)) st) (
            fun_ext (λ st'.
              run_text-map fuel fits ps (32 ∷ text ps) st' (lexical-blank c (text ps)) (omega arith)
                (omega (arith, size, k)) b a.1)))

  length-text : (ps : List Piece) → length ps ≤ length (text ps)
  unfolding text
  length-text [] = omega arith
  length-text (p ∷ ps) = omega (arith, length-text ps, length-append (spell p) (32 ∷ text ps))

  -- The text that spells tokens is parsed as they are.
  pub parse_text-map :
      (s : Sum F) (ps : List Piece)
      → AllPieces c ps
      → map (meaning c) ps ≡ print s
      → length (text ps) ≤ 255
      → length c.behind ≤ 255
      → parse_text c (text ps) ≡ parse_expr (print s)
  unfolding parse_text parse_expr
  parse_text-map s ps a e k b =
      run_text-map (suc (length (text ps))) (λ n. ltb n 100) ps (text ps) (tok topstk ∷ []) refl
        (omega (arith, length-text ps)) k b a
      ∙ ap parse_expr e

  -- A text of at most 255 characters that spells the tokens of an expression, each with a blank
  -- behind it, is parsed to the tree of the expression, where that has fewer than 99 tokens and no
  -- more than 255 characters stand in memory between the closing 0 of the text and the next. A
  -- number is spelled with digits, a point with digits behind it, or both, and an exponent where
  -- there is one. A name has printable characters that end no word, and begins with no digit and no
  -- point. Of the two arguments of a call the first is neither a sum nor a product, and the second
  -- does not begin with a sign.
  pub parse_text-print :
      (s : Sum F) (ps : List Piece)
      → IsPlain s
      → length (print s) < 99
      → AllPieces c ps
      → map (meaning c) ps ≡ print s
      → length (text ps) ≤ 255
      → length c.behind ≤ 255
      → parse_text c (text ps) ≡ parsed (tree s)
  parse_text-print s ps h small a e k b = parse_text-map s ps a e k b ∙ parse_expr-print s h small
