-- ===== src/Shell/Script.antt =====
-- A line that is expanded after definitions.
use mathlib.Core.Path.{fun_ext}
use tcad_webapp.Prelude.{
  ℕ, suc, ◌≡◌, refl, true, false, not, ◌&&◌, Bool, Option, none, List, [], ◌∷◌, map, length, arith,
}
use tcad_webapp.Expr.Eval.{Reals}
use tcad_webapp.Expr.Lexical.{Scanner}
use tcad_webapp.Shell.Macro.{MacroTable, Letters, done, ◌>>=◌, find_macro}
use tcad_webapp.Shell.Expand.{expanded, arg_expand, expand_within, expand_macro}
use tcad_webapp.Shell.Session.{
  Change, order_of, obey_all, value_of, last_value, AllProper, obey_all-last_value,
}
use tcad_webapp.Shell.Expand.Pieces.{
  Piece, text, name_of, is_looked_up, value_if, substitute, AllPieces,
}
use tcad_webapp.Shell.Expand.Replaced.{expand_loop-text}

abbrev no_value : List ℕ → Option (List ℕ)
no_value k = none

no_value_if : (b : Bool) (k : List ℕ) → value_if no_value b k ≡ none
no_value_if true k = refl
no_value_if false k = refl

-- A text without macros.
substitute-none : (plain : Bool) (ps : List Piece) → substitute no_value plain ps ≡ text ps
unfolding substitute text
substitute-none plain [] = refl
substitute-none plain (p ∷ ps) =
    rw
      (
        no_value_if (is_looked_up (plain && not p.percent) p.symbol) (name_of p.symbol),
        substitute-none (plain && not p.percent) ps,
      )
      refl

module _ (r : Reals) (c : Scanner r.F) (l : Letters r.F) where
  expand_macro-text :
      (table : List MacroTable) (ps : List Piece) (len : ℕ)
      → AllPieces l (λ k. value_of k table) true ps
      → (len' : ℕ) × (expand_macro r c l (text ps) len table
          ≡ done (expanded (substitute (λ k. value_of k table) true ps) len'))
  unfolding expand_macro find_macro
  expand_macro-text [] ps len h = (len, rw (substitute-none true ps) refl)
  expand_macro-text (m ∷ ms) ps len h =
      expand_loop-text l (arg_expand r c l (expand_within r c l 1)) (m ∷ ms) ps
        (suc (length (text ps))) [] len true none h (omega arith)

  -- After definitions and undefinitions a line becomes the line in which each name is replaced by
  -- the value that the last change of the name left: `$name` and `${name}` always, `name` up to the
  -- first `%`; the values are not expanded again. The names defined are alphanumeric, of 1 to 255
  -- characters, a body is not empty and begins with no space, and parse_expr and eval_real come
  -- back for it; in the line no list of arguments stands behind a macro, every `${` is closed, and
  -- a name has at most 79 characters.
  pub obey_all-expand_macro :
      (cs : List Change) (ps : List Piece) (len : ℕ)
      → AllProper r c l cs
      → AllPieces l (λ k. last_value k cs none) true ps
      → (len' : ℕ) × ((obey_all r c l (map order_of cs) [] >>= λ macro.
            expand_macro r c l (text ps) len macro)
          ≡ done (expanded (substitute (λ k. last_value k cs none) true ps) len'))
  unfolding find_macro
  obey_all-expand_macro cs ps len h k =
      let (t, e, d, v) = obey_all-last_value r c l cs [] h tt in
      let same : (λ (k : List ℕ). value_of k t) ≡ (λ k. last_value k cs none) = fun_ext v in
      rw e (rw (← same) (expand_macro-text t ps len (rw same k)))
