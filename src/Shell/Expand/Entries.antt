-- ===== src/Shell/Expand/Entries.antt =====
-- What define_macro and undef_macro keep of the entries of the table.
use tcad_webapp.Prelude.{
  ℕ, ◌≡◌, refl, subst, true, false, Option, none, some, List, [], ◌∷◌, length, ◌==◌, ltb,
  if◌then◌else◌, inl, inr, Bool-cases,
}
use tcad_webapp.Expr.Names.{same_text}
use tcad_webapp.Expr.Parse.{parsed, grammar_error, crash, no_fuel}
use tcad_webapp.Expr.Eval.{Reals, Evaluated, written, failed, undefined, eval_real}
use tcad_webapp.Expr.Lexical.{Scanner, skip_white, parse_text}
use tcad_webapp.Shell.Macro.{
  MacroTable, overrun, bad_parse, done, fault, Letters, find_macro, unlink, behind_entry,
  without_macro, Definition, entry_of, read_arglist, undef_macro, read_alnum, print_value,
  replacement, enter_macro, define_body, define_args, define_named, define_macro,
}
use tcad_webapp.Shell.Expand.{table_after}
use tcad_webapp.Shell.Expand.Attempts.{Ends, Ends-bind}

module _ (P : MacroTable → Type 0) where
  abbrev pub AllEntries : List MacroTable → Type 0
  AllEntries [] = Unit
  AllEntries (m ∷ ms) = P m × AllEntries ms

  pub find-AllEntries :
      (s : List ℕ) (ms : List MacroTable) {m : MacroTable}
      → AllEntries ms
      → find_macro s ms ≡ some m
      → P m
  unfolding find_macro
  find-AllEntries s [] h e = cc e
  find-AllEntries s (n ∷ ms) h e = elim (Bool-cases (same_text n.name s)) [
    | inl g ↦ let same = rw g at e in subst P (cc same) h.0
    | inr g ↦ find-AllEntries s ms h.1 (rw g at e)
  ]

  abbrev AllKept : Option (List MacroTable) → Type 0
  AllKept none = Unit
  AllKept (some ms) = AllEntries ms

  behind_entry-AllKept :
      (m : MacroTable) (o : Option (List MacroTable)) → P m → AllKept o → AllKept (behind_entry m o)
  behind_entry-AllKept m none p h = tt
  behind_entry-AllKept m (some ms) p h = (p, h)

  unlink-AllKept : (s : List ℕ) (ms : List MacroTable) → AllEntries ms → AllKept (unlink s ms)
  unfolding unlink
  unlink-AllKept s [] h = tt
  unlink-AllKept s (m ∷ ms) h =
      elim (same_text m.name s)
        as (λ b. AllKept (if b then some ms else behind_entry m (unlink s ms))) [
          | true ↦ h.1
          | false ↦ behind_entry-AllKept m (unlink s ms) h.0 (unlink-AllKept s ms h.1)
        ]

  without_macro-AllEntries :
      (ms : List MacroTable) (o : Option (List MacroTable))
      → AllEntries ms
      → AllKept o
      → AllEntries (without_macro ms o)
  without_macro-AllEntries ms none h k = h
  without_macro-AllEntries ms (some ns) h k = k

  module _ {F : Type 0} (c : Scanner F) where
    pub undef_macro-AllEntries :
        (s : List ℕ) (ms : List MacroTable)
        → AllEntries ms
        → AllEntries (without_macro ms (undef_macro c s ms))
    unfolding undef_macro
    undef_macro-AllEntries s ms h =
        without_macro-AllEntries ms (unlink (skip_white c s) ms) h
          (unlink-AllKept (skip_white c s) ms h)

module _ (r : Reals) (c : Scanner r.F) (l : Letters r.F) where
  abbrev IsAny : List ℕ → Type 0
  IsAny t = Unit

  print_value-Ends : (body : List ℕ) (v : Evaluated r.F) → Ends IsAny (print_value r c l body v)
  print_value-Ends body (written (some v)) = tt
  print_value-Ends body (written none) = tt
  print_value-Ends body (failed e) = tt
  print_value-Ends body undefined = tt

  replacement-Ends : (body : List ℕ) → Ends IsAny (replacement r c l body)
  unfolding replacement
  replacement-Ends body =
      elim (parse_text c body)
        as (λ o. Ends IsAny (elim o [
          | parsed t ↦ print_value r c l body (eval_real r t)
          | grammar_error ↦ done body
          | crash ↦ fault bad_parse
          | no_fuel ↦ fault bad_parse
        ])) [
          | parsed t ↦ print_value-Ends body (eval_real r t)
          | grammar_error ↦ tt
          | crash ↦ tt
          | no_fuel ↦ tt
        ]

  module _ (P : MacroTable → Type 0)
      (plain : (n : ℕ) (ns text : List ℕ) → P (entry_of (n ∷ ns) none text)) where
    abbrev Keeps : List MacroTable → Definition → Type 0
    Keeps ms d = AllEntries P (table_after ms d)

    enter_macro-Ends :
        (name : List ℕ) (args : Option (List ℕ)) (body : List ℕ) (ms : List MacroTable)
        → ((text : List ℕ) → P (entry_of name args text))
        → AllEntries P ms
        → Ends (Keeps ms) (enter_macro r c l name args body ms)
    unfolding enter_macro
    enter_macro-Ends name args body ms p h =
        Ends-bind IsAny (Keeps ms) (replacement r c l body) _ (replacement-Ends body)
          (λ text u. (p text, undef_macro-AllEntries P c name ms h))

    define_body-Ends :
        (name : List ℕ) (args : Option (List ℕ)) (body : List ℕ) (ms : List MacroTable)
        → ((text : List ℕ) → P (entry_of name args text))
        → AllEntries P ms
        → Ends (Keeps ms) (define_body r c l name args body ms)
    define_body-Ends name args [] ms p h = h
    define_body-Ends name args (d ∷ body) ms p h = enter_macro-Ends name args (d ∷ body) ms p h

    define_args-Ends :
        (name : List ℕ) (o : Option (List ℕ × List ℕ)) (ms : List MacroTable)
        → ((a t text : List ℕ) → o ≡ some (a, t) → P (entry_of name (some a) text))
        → AllEntries P ms
        → Ends (Keeps ms) (define_args r c l name o ms)
    define_args-Ends name none ms p h = tt
    define_args-Ends name (some (a, [])) ms p h = h
    define_args-Ends name (some (a, d ∷ t)) ms p h =
        elim (ltb 255 (length a))
          as (λ b.
            Ends (Keeps ms)
              (if b then fault overrun else define_body r c l name (some a) (skip_white c t) ms)) [
                | true ↦ tt
                | false ↦
                    define_body-Ends name (some a) (skip_white c t) ms
                      (λ text. p a (d ∷ t) text refl) h
              ]

    define_named-Ends :
        (name t : List ℕ) (ms : List MacroTable)
        → ((n : ℕ) (ns a u text : List ℕ)
            → read_arglist t ≡ some (a, u)
            → P (entry_of (n ∷ ns) (some a) text))
        → AllEntries P ms
        → Ends (Keeps ms) (define_named r c l name t ms)
    define_named-Ends [] [] ms p h = tt
    define_named-Ends [] (d ∷ t) ms p h = h
    define_named-Ends (n ∷ ns) [] ms p h = tt
    define_named-Ends (n ∷ ns) (d ∷ t) ms p h =
        elim (ltb 255 (length (n ∷ ns)))
          as (λ b. Ends (Keeps ms) (
            if b
            then fault overrun
            else if d == 40
            then define_args r c l (n ∷ ns) (read_arglist (d ∷ t)) ms
            else define_body r c l (n ∷ ns) none (skip_white c t) ms)) [
              | true ↦ tt
              | false ↦
                  elim (d == 40)
                    as (λ b. Ends (Keeps ms) (
                      if b
                      then define_args r c l (n ∷ ns) (read_arglist (d ∷ t)) ms
                      else define_body r c l (n ∷ ns) none (skip_white c t) ms)) [
                        | true ↦
                            define_args-Ends (n ∷ ns) (read_arglist (d ∷ t)) ms
                              (λ a u text e. p n ns a u text e) h
                        | false ↦ define_body-Ends (n ∷ ns) none (skip_white c t) ms (plain n ns) h
                      ]
            ]

    -- `t` is what stands behind the name.
    pub define_macro-Ends :
        (str : List ℕ) (ms : List MacroTable)
        → ((n : ℕ) (ns a u text : List ℕ)
            → read_arglist (read_alnum l (skip_white c str)).1 ≡ some (a, u)
            → P (entry_of (n ∷ ns) (some a) text))
        → AllEntries P ms
        → Ends (Keeps ms) (define_macro r c l str ms)
    unfolding define_macro
    define_macro-Ends str ms p h =
        define_named-Ends (read_alnum l (skip_white c str)).0 (read_alnum l (skip_white c str)).1 ms
          p h
