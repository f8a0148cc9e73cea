-- ===== src/Shell/Session.antt =====
-- shell/parser.y: the actions of DEFINE and UNDEF with a parameter, one after the other, and the
-- values that the macros have afterwards.
use mathlib.Core.Option
use tcad_webapp.Prelude.{
  ℕ, ◌≡◌, ◌≤◌, refl, ap, ◌∙◌, true, false, Option, none, some, List, [], ◌∷◌, ◌++◌, map, length,
  if◌then◌else◌, Bool-cases, inl, inr,
}
use tcad_webapp.Expr.Names.{same_text}
use tcad_webapp.Expr.Eval.{Reals}
use tcad_webapp.Expr.Lexical.{Scanner}
use tcad_webapp.Shell.Macro.{
  MacroTable, Attempt, done, ◌>>=◌, Letters, find_macro, unlink, without_macro, entry_of,
  undef_macro, replacement, enter_macro, define_macro,
}
use tcad_webapp.Shell.Expand.{table_after}
use tcad_webapp.Shell.Macro.Table.{
  IsDistinct, removed, find-removed, removed-IsDistinct, same_text_refl,
}
use tcad_webapp.Shell.Macro.Words.{AllAlnum, alnum_dark, skip_white_dark, define_macro-word}

-- The commands with their parameter.
pub data Order : Type 0 where
  define undef : List ℕ → Order

module _ (r : Reals) (c : Scanner r.F) (l : Letters r.F) where
  unfoldable pub obey : Order → List MacroTable → Attempt (List MacroTable)
  unfolding define_macro undef_macro
  obey (define par) macro = define_macro r c l par macro >>= λ d. done (table_after macro d)
  obey (undef par) macro = done (without_macro macro (undef_macro c par macro))

  unfoldable pub obey_all : List Order → List MacroTable → Attempt (List MacroTable)
  unfolding obey
  obey_all [] macro = done macro
  obey_all (o ∷ os) macro = obey o macro >>= obey_all os

-- A name is given a body, whose replacement is known, or is undefined.
pub data Change : Type 0 where
  give : List ℕ → List ℕ → List ℕ → Change
  drop : List ℕ → Change

abbrev pub order_of : Change → Order
order_of (give name body text) = define (name ++ (32 ∷ body))
order_of (drop name) = undef name

abbrev pub changed : List ℕ → Change → Option (List ℕ) → Option (List ℕ)
changed k (give name body text) v = if same_text name k then some text else v
changed k (drop name) v = if same_text name k then none else v

-- The value that the last change of the name leaves, or `v` where there is none.
unfoldable pub last_value : List ℕ → List Change → Option (List ℕ) → Option (List ℕ)
last_value k [] v = v
last_value k (x ∷ cs) v = last_value k cs (changed k x v)

abbrev pub value_of : List ℕ → List MacroTable → Option (List ℕ)
value_of k macro = Option.map (λ m. m.replace) (find_macro k macro)

module _ (r : Reals) (c : Scanner r.F) (l : Letters r.F) where
  abbrev pub IsName : List ℕ → Type 0
  IsName [] = ⊥
  IsName (d ∷ s) = AllAlnum l (d ∷ s) × (length (d ∷ s) ≤ 255)

  abbrev pub IsBody : List ℕ → Type 0
  IsBody [] = ⊥
  IsBody (d ∷ s) = c.isspace d ≡ false

  abbrev pub IsProper : Change → Type 0
  IsProper (give name body text) = IsName name × IsBody body × (replacement r c l body ≡ done text)
  IsProper (drop name) = IsName name

  abbrev pub AllProper : List Change → Type 0
  AllProper [] = Unit
  AllProper (x ∷ cs) = IsProper x × AllProper cs

  undef_macro_plain :
      (n : ℕ) (ns : List ℕ) (macro : List MacroTable)
      → l.isalnum n ≡ true
      → undef_macro c (n ∷ ns) macro ≡ unlink (n ∷ ns) macro
  unfolding undef_macro
  undef_macro_plain n ns macro h = rw (skip_white_dark c l n ns (alnum_dark c l n h)) refl

  define_lem :
      (name body text : List ℕ) (macro : List MacroTable)
      → IsProper (give name body text)
      → obey r c l (define (name ++ (32 ∷ body))) macro
        ≡ done (entry_of name none text ∷ removed name macro)
  unfolding obey enter_macro
  define_lem [] body text macro h = absurd h.0
  define_lem (n ∷ ns) [] text macro h = absurd h.1
  define_lem (n ∷ ns) (b ∷ bs) text macro h =
      rw (define_macro-word r c l n ns b bs macro h.0.0 h.0.1 h.1)
        (rw (h.2, undef_macro_plain n ns macro h.0.0.0) refl)

  undef_lem :
      (name : List ℕ) (macro : List MacroTable)
      → IsName name
      → obey r c l (undef name) macro ≡ done (removed name macro)
  unfolding obey
  undef_lem [] macro h = absurd h
  undef_lem (n ∷ ns) macro h = rw (undef_macro_plain n ns macro h.0.0) refl

  abbrev After : Change → List MacroTable → Type 0
  After x macro =
      (t : List MacroTable) × (obey r c l (order_of x) macro ≡ done t)
      × IsDistinct t
      × ((k : List ℕ) → value_of k t ≡ changed k x (value_of k macro))

  value-give :
      (name text k : List ℕ) (macro : List MacroTable)
      → IsDistinct macro
      → value_of k (entry_of name none text ∷ removed name macro)
        ≡ (if same_text name k then some text else value_of k macro)
  unfolding find_macro
  value-give name text k macro d = elim (Bool-cases (same_text name k)) [
    | inl e ↦ rw e refl
    | inr e ↦ rw e (rw (find-removed name k macro d) (rw e refl))
  ]

  value-drop :
      (name k : List ℕ) (macro : List MacroTable)
      → IsDistinct macro
      → value_of k (removed name macro) ≡ (if same_text name k then none else value_of k macro)
  value-drop name k macro d = elim (Bool-cases (same_text name k)) [
    | inl e ↦ rw (find-removed name k macro d) (rw e refl)
    | inr e ↦ rw (find-removed name k macro d) (rw e refl)
  ]

  name-removed :
      (name : List ℕ) (macro : List MacroTable)
      → IsDistinct macro
      → find_macro name (removed name macro) ≡ none
  name-removed name macro d = rw (find-removed name name macro d) (rw (same_text_refl name) refl)

  obey-After :
      (x : Change) (macro : List MacroTable) → IsProper x → IsDistinct macro → After x macro
  obey-After (give name body text) macro h d = (
    entry_of name none text ∷ removed name macro,
    define_lem name body text macro h,
    (name-removed name macro d, removed-IsDistinct name macro d),
    λ k. value-give name text k macro d,
  )
  obey-After (drop name) macro h d = (
    removed name macro,
    undef_lem name macro h,
    removed-IsDistinct name macro d,
    λ k. value-drop name k macro d,
  )

  -- On a table in which no name stands twice, as in the empty one, changes by define and undef go
  -- through, no name stands twice afterwards, and every name has the value that its last change
  -- left, or the one that it had before, where the names are alphanumeric, of 1 to 255 characters,
  -- a body is not empty and begins with no space, and parse_expr and eval_real come back for it.
  pub obey_all-last_value :
      (cs : List Change) (macro : List MacroTable)
      → AllProper cs
      → IsDistinct macro
      → (t : List MacroTable) × (obey_all r c l (map order_of cs) macro ≡ done t)
        × IsDistinct t
        × ((k : List ℕ) → value_of k t ≡ last_value k cs (value_of k macro))
  unfolding obey_all last_value
  obey_all-last_value [] macro h d = (macro, refl, d, λ k. refl)
  obey_all-last_value (x ∷ cs) macro h d =
      let (m, e, d', v) = obey-After x macro h.0 d in
      let (t, f, d'', w) = obey_all-last_value cs m h.1 d' in
      (t, rw e f, d'', λ k. w k ∙ ap (last_value k cs) (v k))
