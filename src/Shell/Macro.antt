-- ===== src/Shell/Macro.antt =====
-- shell/macro.c: the table of macros (include/shell.h) and its commands. Texts are lists of
-- characters without the closing 0.
pub mod Table
pub mod Words
use tcad_webapp.Prelude.{
  ℕ, ◌≡◌, ◌≤◌, Bool, true, Option, none, some, List, [], ◌∷◌, length, ◌==◌, ltb, if◌then◌else◌,
}
use tcad_webapp.Expr.Names.{same_text}
use tcad_webapp.Expr.Parse.{parsed, grammar_error, crash, no_fuel}
use tcad_webapp.Expr.Eval.{Reals, Evaluated, written, failed, undefined, eval_real}
use tcad_webapp.Expr.Lexical.{Scanner, skip_white, parse_text}

-- An entry; the table is the list of them along `next`.
pub record MacroTable : Type 0 where
  pub name : List ℕ
  pub args : Option (List ℕ)
  pub replace : List ℕ

-- A write outside of an array, a read behind the end of a text, of a variable without a value or
-- through a null pointer, a fault of parse_expr; `out_of_fuel` is of the model.
pub data Fault : Type 0 where
  overrun past_end unassigned null_pointer bad_parse out_of_fuel : Fault

pub data Attempt (A : Type 0) : Type 0 where
  done : A → Attempt A
  fault : Fault → Attempt A

infixl 5 ◌>>=◌
abbrev pub ◌>>=◌ : {A B : Type 0} → Attempt A → (A → Attempt B) → Attempt B
done a >>= f = f a
fault e >>= f = fault e

-- `isalnum` of the C library and `sprintf` of "%g".
pub record Letters (F : Type 0) : Type 0 where
  pub isalnum : ℕ → Bool
  pub print_g : F → List ℕ
  pub alnum_lem : (d : ℕ) → isalnum d ≡ true → (48 ≤ d) × (d ≤ 122)

-- The first entry of the name.
unfoldable pub find_macro : List ℕ → List MacroTable → Option MacroTable
unfolding same_text
find_macro s [] = none
find_macro s (m ∷ ms) = if same_text m.name s then some m else find_macro s ms

abbrev pub behind_entry : MacroTable → Option (List MacroTable) → Option (List MacroTable)
behind_entry m none = none
behind_entry m (some ms) = some (m ∷ ms)

-- The table without that entry.
unfoldable pub unlink : List ℕ → List MacroTable → Option (List MacroTable)
unfolding same_text
unlink s [] = none
unlink s (m ∷ ms) = if same_text m.name s then some ms else behind_entry m (unlink s ms)

-- The table, or a message.
pub data Definition : Type 0 where
  defined : List MacroTable → Definition
  not_alnum not_closed no_body : Definition

-- The list of arguments with its parentheses, and what stands behind it.
unfoldable pub read_arglist : List ℕ → Option (List ℕ × List ℕ)
read_arglist [] = none
read_arglist (c ∷ cs) =
    let rest = read_arglist cs in
    if c == 41
    then some (c ∷ [], cs)
    else (elim rest [ none ↦ none | some (a, r) ↦ some (c ∷ a, r) ])

abbrev pub without_macro : List MacroTable → Option (List MacroTable) → List MacroTable
without_macro macro none = macro
without_macro macro (some ms) = ms

abbrev pub entry_of : List ℕ → Option (List ℕ) → List ℕ → MacroTable
entry_of name args text = record { name = name; args = args; replace = text }

module _ {F : Type 0} (c : Scanner F) where
  -- 0 and the table, or `none` for -1. The loop over the trailing space starts at the closing 0 of
  -- the name, which is none, and strips nothing.
  unfoldable pub undef_macro : List ℕ → List MacroTable → Option (List MacroTable)
  unfolding unlink skip_white
  undef_macro name macro = unlink (skip_white c name) macro

module _ {F : Type 0} (l : Letters F) where
  open l use {isalnum}

  unfoldable pub read_alnum : List ℕ → List ℕ × List ℕ
  read_alnum [] = ([], [])
  read_alnum (d ∷ s) = let (w, t) = read_alnum s in if isalnum d then (d ∷ w, t) else ([], d ∷ s)

module _ (r : Reals) (c : Scanner r.F) (l : Letters r.F) where
  open l use {print_g}

  -- `val`, printed.
  abbrev pub print_value : List ℕ → Evaluated r.F → Attempt (List ℕ)
  print_value body (written (some v)) = done (print_g v)
  print_value body (written none) = fault unassigned
  print_value body (failed e) = done body
  print_value body undefined = fault unassigned

  -- The replacement: the value of the body, where it has one.
  unfoldable pub replacement : List ℕ → Attempt (List ℕ)
  unfolding parse_text eval_real
  replacement body = elim (parse_text c body) [
    | parsed t ↦ print_value body (eval_real r t)
    | grammar_error ↦ done body
    | crash ↦ fault bad_parse
    | no_fuel ↦ fault bad_parse
  ]

  -- The new entry in front, with the old one of the name undefined.
  unfoldable pub enter_macro :
      List ℕ → Option (List ℕ) → List ℕ → List MacroTable → Attempt Definition
  unfolding undef_macro replacement
  enter_macro name args body macro = replacement body >>= λ text.
      done (defined (entry_of name args text ∷ without_macro macro (undef_macro c name macro)))

  -- From the replacement on, which may stand behind white space.
  abbrev pub define_body : List ℕ → Option (List ℕ) → List ℕ → List MacroTable → Attempt Definition
  define_body name args [] macro = done no_body
  define_body name args (d ∷ body) macro = enter_macro name args (d ∷ body) macro

  -- Behind the list of arguments: its closing 0 is written over the next character.
  abbrev pub define_args : List ℕ → Option (List ℕ × List ℕ) → List MacroTable → Attempt Definition
  define_args name none macro = fault past_end
  define_args name (some (args, [])) macro = done not_closed
  define_args name (some (args, d ∷ t)) macro =
      if ltb 255 (length args)
      then fault overrun
      else define_body name (some args) (skip_white c t) macro

  -- Behind the name. Where nothing is left the table is printed, and the text is read on behind
  -- its end; otherwise the closing 0 of the name is written over the next character.
  abbrev pub define_named : List ℕ → List ℕ → List MacroTable → Attempt Definition
  define_named [] [] macro = fault past_end
  define_named [] (d ∷ t) macro = done not_alnum
  define_named (n ∷ ns) [] macro = fault past_end
  define_named (n ∷ ns) (d ∷ t) macro =
      if ltb 255 (length (n ∷ ns))
      then fault overrun
      else if d == 40
      then define_args (n ∷ ns) (read_arglist (d ∷ t)) macro
      else define_body (n ∷ ns) none (skip_white c t) macro

  unfoldable pub define_macro : List ℕ → List MacroTable → Attempt Definition
  unfolding read_alnum read_arglist enter_macro skip_white
  define_macro str macro =
      let (name, t) = read_alnum l (skip_white c str) in define_named name t macro
