-- ===== src/Shell/Expand/Calls.antt =====
-- A macro with a list of arguments.
use tcad_webapp.Prelude.{
  ℕ, suc, ◌≡◌, ◌≤◌, refl, Bool, true, false, none, some, List, [], ◌∷◌, ◌++◌, length, ◌==◌, inl,
  arith,
}
use tcad_webapp.Expr.Eval.{Reals}
use tcad_webapp.Expr.Lexical.{Scanner}
use tcad_webapp.Shell.Macro.{
  MacroTable, Attempt, done, fault, ◌>>=◌, Letters, find_macro, read_arglist,
}
use tcad_webapp.Shell.Expand.{
  Expansion, expanded, mismatch, Cursor, Found, Turn, next, halt, behind_call, put_call,
  expand_turn, expand_loop, arg_expand, cursor_at, expand_within, expand_macro,
}
use tcad_webapp.Shell.Macro.Words.{AllAlnum, punct}
use tcad_webapp.Shell.Expand.Pieces.{word}
use tcad_webapp.Shell.Expand.Symbols.{found_at, read_token-symbol, skip_percent_none}
use tcad_webapp.Shell.Expand.Attempts.{AllDone}

abbrev pub IsMismatch : Expansion → Type 0
IsMismatch (expanded text len) = ⊥
IsMismatch (mismatch text len) = Unit

abbrev IsHalt : Turn → Type 0
IsHalt (next cur) = ⊥
IsHalt (halt text) = Unit

module _ {F : Type 0} (l : Letters F) where
  sign_ne : (d : ℕ) → l.isalnum d ≡ true → (37 == d) ≡ false
  sign_ne d h = let p = l.alnum_lem d h in ground arith

  put_call-IsHalt :
      (cur : Cursor) (f : Found) (b : Attempt Bool)
      → cur.body ≡ none
      → AllDone IsHalt (b >>= put_call l cur f)
  put_call-IsHalt cur f (fault e) h = tt
  put_call-IsHalt cur f (done false) h = tt
  put_call-IsHalt cur f (done true) h =
      elim (read_arglist f.rest) as (λ o. AllDone IsHalt (behind_call l cur f o)) [
        | none ↦ tt
        | some (a, t) ↦ rw h tt
      ]

  module _ (args : List ℕ → MacroTable → Attempt Bool) (table : List MacroTable) where
    expand_turn-IsHalt :
        (d : ℕ) (w s : List ℕ) (len : ℕ) {m : MacroTable}
        → AllAlnum l (d ∷ w)
        → length (d ∷ w) ≤ 79
        → find_macro (d ∷ w) table ≡ some m
        → AllDone IsHalt (expand_turn l args table (cursor_at (d ∷ (w ++ (40 ∷ s))) len))
    unfolding expand_turn
    expand_turn-IsHalt d w s len {m} h k e =
        let cur = cursor_at (d ∷ (w ++ (40 ∷ s))) len in
        let f = found_at (word d w) (40 ∷ s) true in
        rw
          (
            skip_percent_none cur (d ∷ (w ++ (40 ∷ s))) (sign_ne d h.0),
            read_token-symbol l (word d w) (40 ∷ s) true (h, punct l 40 (inl (omega arith))) k,
            e,
          )
          (put_call-IsHalt cur f (args (40 ∷ s) m) refl)

    expand_loop-IsMismatch :
        (fuel d : ℕ) (s : List ℕ) (len : ℕ)
        → AllDone IsHalt (expand_turn l args table (cursor_at (d ∷ s) len))
        → AllDone IsMismatch (expand_loop l args table (suc fuel) (cursor_at (d ∷ s) len))
    unfolding expand_loop
    expand_loop-IsMismatch fuel d s len h =
        no_text (expand_turn l args table (cursor_at (d ∷ s) len)) h
      where
        no_text :
            (t : Attempt Turn)
            → AllDone IsHalt t
            → AllDone IsMismatch (
                t >>= λ t. elim t [
                  | next cur' ↦ expand_loop l args table fuel cur'
                  | halt text ↦ done (mismatch text len)
                ])
        no_text (fault e) h = tt
        no_text (done (next cur)) h = absurd h
        no_text (done (halt text)) h = tt

-- A line that begins with the name of a macro, of at most 79 characters, and a parenthesis is never
-- expanded: expand_macro returns -1, or reads or writes what it must not.
pub expand_macro-IsMismatch :
    (r : Reals) (c : Scanner r.F) (l : Letters r.F) (d : ℕ) (w s : List ℕ) (len : ℕ)
    → (table : List MacroTable) {m : MacroTable} → AllAlnum l (d ∷ w)
    → length (d ∷ w) ≤ 79
    → find_macro (d ∷ w) table ≡ some m
    → AllDone IsMismatch (expand_macro r c l (d ∷ (w ++ (40 ∷ s))) len table)
unfolding expand_macro find_macro
expand_macro-IsMismatch r c l d w s len [] h k e = cc e
expand_macro-IsMismatch r c l d w s len (n ∷ ns) h k e =
    let args = arg_expand r c l (expand_within r c l 1) in
    expand_loop-IsMismatch l args (n ∷ ns) (length (d ∷ (w ++ (40 ∷ s)))) d (w ++ (40 ∷ s)) len
      (expand_turn-IsHalt l args (n ∷ ns) d w s len h k e)
