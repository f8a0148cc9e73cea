-- ===== src/Shell/Expand.antt =====
-- shell/macro.c: expand_macro and arg_expand.
pub mod Attempts
pub mod Cuts
pub mod Fits
pub mod Pieces
pub mod Symbols
pub mod Replaced
pub mod Entries
pub mod Arguments
pub mod Leaves
pub mod Ends
pub mod Calls
pub mod Safe
use tcad_webapp.Prelude.{
  ℕ, zero, suc, ◌+◌, ◌*◌, Bool, true, false, not, ◌||◌, ◌&&◌, Option, none, some, List, [], ◌∷◌,
  ◌++◌, length, ◌==◌, ltb, if◌then◌else◌,
}
use tcad_webapp.Expr.Eval.{Reals}
use tcad_webapp.Expr.Lexical.{Scanner}
use tcad_webapp.Shell.Macro.{
  MacroTable, overrun, past_end, unassigned, null_pointer, out_of_fuel, Attempt, done, fault, ◌>>=◌,
  Letters, find_macro, Definition, defined, read_arglist, read_alnum, define_macro,
}
use tcad_webapp.Shell.Lists.{parse_items}

-- The text in `*expand_str` and `*len` at the return of 0 or of -1.
pub data Expansion : Type 0 where
  expanded mismatch : List ℕ → ℕ → Expansion

-- `front` stands before the pointer `buf`, which is the rest. `body` may have no value.
pub record Cursor : Type 0 where
  pub front : List ℕ
  pub buf : List ℕ
  pub len : ℕ
  pub domac : Bool
  pub body : Option (List ℕ)

-- Up to `}`, and what stands behind it.
unfoldable pub read_brace : List ℕ → Option (List ℕ × List ℕ)
read_brace [] = none
read_brace (c ∷ cs) =
    let rest = read_brace cs in
    if c == 125 then some ([], cs) else (elim rest [ none ↦ none | some (w, r) ↦ some (c ∷ w, r) ])

-- A token: its name, its characters, what stands behind it, and whether it is looked up.
pub record Found : Type 0 where
  pub name : List ℕ
  pub taken : List ℕ
  pub rest : List ℕ
  pub looked_up : Bool

-- A `%` before the token ends the expansion of the names without a `$`.
abbrev pub skip_percent : Cursor → List ℕ → Cursor
skip_percent cur [] = cur
skip_percent cur (d ∷ s) =
    if d == 37 then record cur { front = cur.front ++ (d ∷ []); buf = s; domac = false } else cur

abbrev pub find_if : Bool → List ℕ → List MacroTable → Option MacroTable
find_if true name table = find_macro name table
find_if false name table = none

abbrev pub first_is : ℕ → List ℕ → Bool
first_is d [] = false
first_is d (e ∷ s) = d == e

-- `sub` arguments are put for the names; a definition that is refused leaves the table.
abbrev pub table_after : List MacroTable → Definition → List MacroTable
table_after m (defined t) = t
table_after m _ = m

abbrev pub braced : Option (List ℕ × List ℕ) → Attempt Found
braced none = fault past_end
braced (some (w, s)) =
    done (record { name = w; taken = 36 ∷ (123 ∷ (w ++ (125 ∷ []))); rest = s; looked_up = true })

abbrev pub plain_name : List ℕ → Bool → List ℕ × List ℕ → Attempt Found
plain_name sign looked (w, s) =
    done (record { name = w; taken = sign ++ w; rest = s; looked_up = looked })

abbrev pub checked_name : Found → Attempt Found
checked_name f = if ltb 79 (length f.name) then fault overrun else done f

-- Behind the token or its replacement.
abbrev pub move_on : Cursor → List ℕ → List ℕ × List ℕ → Cursor
move_on cur front (g, rest) = record cur { front = front ++ g; buf = rest }

-- Whether there are as many names as values, and at least one.
abbrev pub fits_names : List (List ℕ) → List (List ℕ) → Bool
fits_names names values = length names == length values && not (length names == 0)

-- The replacement with a newline behind it, in an array of 256 characters. What becomes of it is
-- not passed on.
abbrev pub expand_body :
    (List ℕ → ℕ → List MacroTable → Attempt Expansion) → MacroTable → List MacroTable → Attempt Bool
expand_body expand mac m =
    if ltb 254 (length mac.replace)
    then fault overrun
    else expand (mac.replace ++ (10 ∷ [])) 256 m >>= λ e. done true

-- The place where the loop goes on, or the text at `return( -1 )`.
pub data Turn : Type 0 where
  next : Cursor → Turn
  halt : List ℕ → Turn

abbrev pub cursor_at : List ℕ → ℕ → Cursor
cursor_at text len = record { front = []; buf = text; len = len; domac = true; body = none }

module _ {F : Type 0} (l : Letters F) where
  open l use {isalnum}

  abbrev pub behind_dollar : List ℕ → Attempt Found
  behind_dollar [] = plain_name (36 ∷ []) true ([], [])
  behind_dollar (d ∷ s) =
      if d == 123 then braced (read_brace s) else plain_name (36 ∷ []) true (read_alnum l (d ∷ s))

  -- The next token; an array of 80 characters takes its name.
  abbrev pub find_name : Bool → List ℕ → Attempt Found
  find_name domac [] = plain_name [] domac ([], [])
  find_name domac (d ∷ s) =
      if d == 36 then behind_dollar s else plain_name [] domac (read_alnum l (d ∷ s))

  unfoldable pub read_token : Bool → List ℕ → Attempt Found
  unfolding read_alnum read_brace
  read_token domac buf = find_name domac buf >>= checked_name

  -- What stands before the next alphanumeric, `$` or `%`, and the rest.
  unfoldable pub skip_gap : List ℕ → List ℕ × List ℕ
  skip_gap [] = ([], [])
  skip_gap (d ∷ s) =
      let (g, t) = skip_gap s in if isalnum d || d == 36 || d == 37 then ([], d ∷ s) else (d ∷ g, t)

  -- `body` in the place of the token, in more memory where it needs it.
  abbrev pub put_body : Cursor → Found → List ℕ → Option (List ℕ) → Attempt Cursor
  put_body cur f rest none = fault unassigned
  put_body cur f rest (some b) =
      let j = length (cur.front ++ (f.taken ++ f.rest)) + length b + 1 in
      done (
        move_on (record cur { len = if ltb cur.len j then 2 * j else cur.len; body = some b })
          (cur.front ++ b) (skip_gap rest))

  abbrev pub behind_call : Cursor → Found → Option (List ℕ × List ℕ) → Attempt Turn
  behind_call cur f none = fault past_end
  behind_call cur f (some (args, rest)) = put_body cur f rest cur.body >>= λ cur'. done (next cur')

  abbrev pub put_call : Cursor → Found → Bool → Attempt Turn
  put_call cur f true = behind_call cur f (read_arglist f.rest)
  put_call cur f false = done (halt (cur.front ++ (f.taken ++ f.rest)))

  -- `body` is set only where there are no arguments.
  abbrev pub put_macro :
      (List ℕ → MacroTable → Attempt Bool) → Cursor → Found → MacroTable → Attempt Turn
  put_macro args cur f mac =
      if first_is 40 f.rest
      then args f.rest mac >>= put_call cur f
      else (put_body cur f f.rest (some mac.replace) >>= λ cur'. done (next cur'))

  abbrev pub put_token :
      (List ℕ → MacroTable → Attempt Bool) → Cursor → Found → Option MacroTable → Attempt Turn
  put_token args cur f none = done (next (move_on cur (cur.front ++ f.taken) (skip_gap f.rest)))
  put_token args cur f (some mac) = put_macro args cur f mac

  abbrev pub expand_token :
      (List ℕ → MacroTable → Attempt Bool) → List MacroTable → Cursor → Attempt Turn
  expand_token args table cur =
      read_token cur.domac cur.buf >>= λ f. put_token args cur f (find_if f.looked_up f.name table)

  -- One turn of the loop.
  unfoldable pub expand_turn :
      (List ℕ → MacroTable → Attempt Bool) → List MacroTable → Cursor → Attempt Turn
  unfolding read_token find_macro read_arglist skip_gap
  expand_turn args table cur = expand_token args table (skip_percent cur cur.buf)

  unfoldable pub expand_loop :
      (List ℕ → MacroTable → Attempt Bool) → List MacroTable → ℕ → Cursor → Attempt Expansion
  unfolding expand_turn
  expand_loop args table zero cur = fault out_of_fuel
  expand_loop args table (suc fuel) cur = elim cur.buf [
    | [] ↦ done (expanded cur.front cur.len)
    | d ∷ s ↦ expand_turn args table cur >>= λ t. elim t [
      | next cur' ↦ expand_loop args table fuel cur'
      | halt text ↦ done (mismatch text cur.len)
    ]
  ]

module _ (r : Reals) (c : Scanner r.F) (l : Letters r.F) where
  -- `sub` macros of the names and the values, each in an array of 256 characters.
  unfoldable pub define_items :
      List (List ℕ) → List (List ℕ) → List MacroTable → Attempt (List MacroTable)
  unfolding define_macro
  define_items [] values m = done m
  define_items (n ∷ names) [] m = done m
  define_items (n ∷ names) (v ∷ values) m =
      if ltb 255 (length (n ++ (32 ∷ v)))
      then fault overrun
      else define_macro r c l (n ++ (32 ∷ v)) m >>= λ d. define_items names values (table_after m d)

  abbrev pub expand_items :
      (List ℕ → ℕ → List MacroTable → Attempt Expansion)
      → MacroTable
      → List (List ℕ)
      → List (List ℕ)
      → Attempt Bool
  expand_items expand mac names values =
      if fits_names names values
      then define_items names values [] >>= expand_body expand mac
      else done false

  -- `expand` is expand_macro.
  unfoldable pub arg_expand :
      (List ℕ → ℕ → List MacroTable → Attempt Expansion) → List ℕ → MacroTable → Attempt Bool
  unfolding parse_items define_items
  arg_expand expand s mac = elim mac.args [
    | none ↦ fault null_pointer
    | some args ↦ parse_items c 20 args >>= λ names.
        parse_items c 20 s >>= λ values. expand_items expand mac names values
  ]

  -- `depth` bounds how often arg_expand calls expand_macro.
  unfoldable pub expand_within : ℕ → List ℕ → ℕ → List MacroTable → Attempt Expansion
  unfolding arg_expand expand_loop
  expand_within zero text len table = fault out_of_fuel
  expand_within (suc depth) text len [] = done (expanded text len)
  expand_within (suc depth) text len (m ∷ ms) =
      expand_loop l (arg_expand (expand_within depth)) (m ∷ ms) (suc (length text))
        (cursor_at text len)

  -- The sub macros have no arguments, so a second expansion has no third.
  unfoldable pub expand_macro : List ℕ → ℕ → List MacroTable → Attempt Expansion
  unfolding expand_within
  expand_macro text len table = expand_within 2 text len table
