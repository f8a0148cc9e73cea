-- ===== src/Shell/Lists.antt =====
-- shell/list.c: list_parse with `first` FALSE, and the loops of arg_expand over it.
use tcad_webapp.Prelude.{
  ℕ, zero, suc, Bool, ◌||◌, Option, none, some, List, [], ◌∷◌, ◌==◌, if◌then◌else◌,
}
use tcad_webapp.Expr.Lexical.{Scanner, skip_white}
use tcad_webapp.Shell.Macro.{past_end, overrun, Attempt, done, fault, ◌>>=◌}

abbrev pub ends_item : ℕ → Bool
ends_item c = c == 32 || c == 41 || c == 44

-- Up to a blank, `)` or `,`, and what stands behind it; the loop does not stop at the closing 0.
unfoldable pub read_item : List ℕ → Option (List ℕ × List ℕ)
read_item [] = none
read_item (c ∷ cs) =
    let rest = read_item cs in
    if ends_item c
    then some ([], cs)
    else (elim rest [ none ↦ none | some (v, r) ↦ some (c ∷ v, r) ])

abbrev pub skip_paren : List ℕ → List ℕ
skip_paren [] = []
skip_paren (c ∷ s) = if c == 40 then s else c ∷ s

-- The argument and the new `*s`, or NULL.
abbrev pub take_item : Option (List ℕ × List ℕ) → Attempt (Option (List ℕ × List ℕ))
take_item none = fault past_end
take_item (some ([], r)) = done none
take_item (some (d ∷ v, r)) = done (some (d ∷ v, r))

abbrev pub item_of : List ℕ → Attempt (Option (List ℕ × List ℕ))
item_of [] = done none
item_of (d ∷ s) = take_item (read_item (d ∷ s))

module _ {F : Type 0} (c : Scanner F) where
  unfoldable pub list_parse : List ℕ → Attempt (Option (List ℕ × List ℕ))
  unfolding skip_white read_item
  list_parse str = item_of (skip_white c (skip_paren str))

  -- The strings of the list, in an array of `room` pointers, of which one is for the last NULL.
  unfoldable pub parse_items : ℕ → List ℕ → Attempt (List (List ℕ))
  unfolding list_parse
  parse_items zero str = fault overrun
  parse_items (suc room) str = list_parse str >>= λ o. elim o [
    | none ↦ done []
    | some (v, rest) ↦ parse_items room rest >>= λ vs. done (v ∷ vs)
  ]
