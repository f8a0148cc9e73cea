-- ===== src/Expr/Lexical/Ends.antt =====
-- The loop of parse_expr over a text ends.
use mathlib.Core.Path.{fun_ext}
use tcad_webapp.Prelude.{
  ℕ, zero, suc, ◌-◌, ◌≤◌, ◌<◌, ◌≡◌, refl, ap, sym, subst, Bool, true, false, List, [], ◌∷◌, length,
  ltb, if◌then◌else◌, arith, Bool-cases, inl, inr,
}
use tcad_webapp.Expr.Token.{
  Label, op1, op2, op3, fn, vfn, solval, rconst, string, lpar, rpar, comma, eoi, topstk, blank, tok,
  Stack,
}
use tcad_webapp.Expr.Parse.{Outcome, crash, finish, feed, run, parse_expr}
use tcad_webapp.Expr.Safety.{IsAnswer, parse_expr-IsAnswer}
use tcad_webapp.Expr.Lexical.{Scanner, Lexed, token, overrun, lexical, is_eoi, run_text, parse_text}
use tcad_webapp.Expr.Lexical.Shrinks.{Shrinks, Shrinks-mono, lexical-Shrinks}

module _ {F : Type 0} (c : Scanner F) where
  is_eoi-eoi : (l : Label F) → is_eoi c l ≡ true → l ≡ eoi
  is_eoi-eoi eoi h = refl
  is_eoi-eoi (op1 _) h = absurd (cc h)
  is_eoi-eoi (op2 _) h = absurd (cc h)
  is_eoi-eoi (op3 _) h = absurd (cc h)
  is_eoi-eoi (fn _) h = absurd (cc h)
  is_eoi-eoi (vfn _) h = absurd (cc h)
  is_eoi-eoi (solval _) h = absurd (cc h)
  is_eoi-eoi (rconst _) h = absurd (cc h)
  is_eoi-eoi (string _) h = absurd (cc h)
  is_eoi-eoi lpar h = absurd (cc h)
  is_eoi-eoi rpar h = absurd (cc h)
  is_eoi-eoi comma h = absurd (cc h)
  is_eoi-eoi topstk h = absurd (cc h)
  is_eoi-eoi blank h = absurd (cc h)

  -- The loop over a text is the loop over some tokens, no more than the text has characters.
  abbrev Reads : (List ℕ → Stack F → Outcome F) → ℕ → (ℕ → Bool) → List ℕ → Type 0
  Reads f n fits s =
      (ls : List (Label F)) × (length ls ≤ n) × ((st : Stack F) → f s st ≡ run fits ls st)

  after_token :
      (fuel n : ℕ) (fits : ℕ → Bool) (l : Label F) (r : List ℕ)
      → (is_eoi c l ≡ false → length r < n)
      → ((length r < n) → Reads (run_text c fuel fits) (n - 1) fits r)
      → Reads
          (λ s st.
            feed fits
              (tok l)
              st
              (λ st'. if is_eoi c l then finish st' else run_text c fuel fits r st'))
          n
          fits
          r
  unfolding run
  after_token fuel n fits l r h k = elim (Bool-cases (is_eoi c l)) [
    | inl e ↦ ([], omega arith, λ st. rw (e, is_eoi-eoi l e) refl)
    | inr e ↦
        let (ls, m, q) = k (h e) in
        (l ∷ ls, omega (arith, h e), λ st. rw e (ap (feed fits (tok l) st) (fun_ext q)))
  ]

  run_text-Reads :
      (fuel n : ℕ) (fits : ℕ → Bool) (s : List ℕ)
      → length s ≤ n
      → n < fuel
      → n ≤ 255
      → length c.behind ≤ 255
      → Reads (run_text c fuel fits) n fits s
  unfolding run_text
  run_text-Reads zero n fits s h k b m = absurd (omega arith)
  run_text-Reads (suc fuel) n fits s h k b m =
      by_token (lexical c s)
        (Shrinks-mono c (length s) n (lexical c s) h (lexical-Shrinks c s m (omega arith)))
        (λ r l. run_text-Reads fuel (n - 1) fits r (omega arith) (omega arith) (omega arith) m)
    where
      by_token :
          (x : Lexed F)
          → Shrinks c n x
          → ((r : List ℕ) → length r < n → Reads (run_text c fuel fits) (n - 1) fits r)
          → Reads
              (λ s st. elim x [
                | overrun ↦ crash
                | token l rest ↦
                    feed fits
                      (tok l)
                      st
                      (λ st'. if is_eoi c l then finish st' else run_text c fuel fits rest st')
              ])
              n
              fits
              s
      by_token overrun z g = absurd z
      by_token (token l r) z g = after_token fuel n fits l r z (g r)

  -- A text of at most 255 characters, with no more than that behind its closing 0, is parsed as
  -- some tokens are, no more than it has characters:
  -- no copy runs over, and the loop ends.
  pub parse_text-parse_expr :
      (s : List ℕ)
      → length s ≤ 255
      → length c.behind ≤ 255
      → (ls : List (Label F)) × (length ls ≤ length s) × (parse_text c s ≡ parse_expr ls)
  unfolding parse_text parse_expr
  parse_text-parse_expr s h b =
      let (ls, k, q) =
        run_text-Reads (suc (length s)) (length s) (λ n. ltb n 100) s (omega arith) (omega arith) h
          b in
      (ls, k, q (tok topstk ∷ []))

  -- For every text of fewer than 99 characters, where at most 255 characters stand in memory
  -- between its closing 0 and the next, the parser comes back with a tree or a message: no more
  -- than 100 tokens are stacked and no more than 256 characters are copied into an array of that
  -- size, no null pointer is read, and the loops end.
  pub parse_text-IsAnswer :
      (s : List ℕ) → length s < 99 → length c.behind ≤ 255 → IsAnswer (parse_text c s)
  parse_text-IsAnswer s h b =
      let (ls, k, q) = parse_text-parse_expr s (omega arith) b in
      subst (λ (o : Outcome F). IsAnswer o) (sym q) (parse_expr-IsAnswer ls (omega arith))
