-- ===== src/Shell/Expand/Arguments.antt =====
-- arg_expand comes back, and the macros that it defines have no arguments.
use tcad_webapp.Prelude.{
  ℕ, zero, suc, ◌≡◌, refl, Bool, true, false, Option, none, some, List, [], ◌∷◌, ◌++◌, length, ◌==◌,
  ltb, if◌then◌else◌, inl, inr, Bool-cases, arith,
}
use tcad_webapp.Expr.Eval.{Reals}
use tcad_webapp.Expr.Lexical.{Scanner, skip_white}
use tcad_webapp.Shell.Macro.{
  MacroTable, overrun, null_pointer, Attempt, done, fault, ◌>>=◌, Letters, read_arglist, read_alnum,
  define_macro,
}
use tcad_webapp.Shell.Lists.{
  ends_item, read_item, skip_paren, take_item, item_of, list_parse, parse_items,
}
use tcad_webapp.Shell.Expand.{
  Expansion, table_after, define_items, fits_names, expand_body, expand_items, arg_expand,
}
use tcad_webapp.Shell.Expand.Pieces.{NotEmpty}
use tcad_webapp.Shell.Expand.Attempts.{Ends, Ends-bind}
use tcad_webapp.Shell.Expand.Entries.{AllEntries, define_macro-Ends}

-- No closing parenthesis.
abbrev NoParen : List ℕ → Type 0
NoParen [] = Unit
NoParen (d ∷ s) = ((d == 41) ≡ false) × NoParen s

abbrev AllNoParen : List (List ℕ) → Type 0
AllNoParen [] = Unit
AllNoParen (s ∷ ss) = NoParen s × AllNoParen ss

-- The entry of an argument.
abbrev pub IsSub : MacroTable → Type 0
IsSub m = NotEmpty m.name × (m.args ≡ none)

read_arglist-NoParen : (s : List ℕ) → NoParen s → read_arglist s ≡ none
unfolding read_arglist
read_arglist-NoParen [] h = refl
read_arglist-NoParen (d ∷ s) h = rw (h.0, read_arglist-NoParen s h.1) refl

append-NoParen : (s t : List ℕ) → NoParen s → NoParen t → NoParen (s ++ t)
append-NoParen [] t h k = k
append-NoParen (d ∷ s) t h k = (h.0, append-NoParen s t h.1 k)

abbrev ValueNoParen : Option (List ℕ × List ℕ) → Type 0
ValueNoParen none = Unit
ValueNoParen (some (v, r)) = NoParen v

value_cons :
    (d : ℕ) (o : Option (List ℕ × List ℕ))
    → (d == 41) ≡ false
    → ValueNoParen o
    → ValueNoParen (elim o [ none ↦ none | some (v, r) ↦ some (d ∷ v, r) ])
value_cons d none e h = tt
value_cons d (some (v, r)) e h = (e, h)

ends_item-paren : (d : ℕ) → ends_item d ≡ false → (d == 41) ≡ false
ends_item-paren d h = ground arith

read_item-NoParen : (s : List ℕ) → ValueNoParen (read_item s)
unfolding read_item
read_item-NoParen [] = tt
read_item-NoParen (d ∷ s) = elim (Bool-cases (ends_item d)) [
  | inl e ↦ rw e tt
  | inr e ↦ rw e (value_cons d (read_item s) (ends_item-paren d e) (read_item-NoParen s))
]

take_item-Ends : (o : Option (List ℕ × List ℕ)) → ValueNoParen o → Ends ValueNoParen (take_item o)
take_item-Ends none h = tt
take_item-Ends (some ([], r)) h = tt
take_item-Ends (some (d ∷ v, r)) h = h

item_of-Ends : (s : List ℕ) → Ends ValueNoParen (item_of s)
item_of-Ends [] = tt
item_of-Ends (d ∷ s) = take_item-Ends (read_item (d ∷ s)) (read_item-NoParen (d ∷ s))

module _ {F : Type 0} (c : Scanner F) where
  skip_white-NoParen : (s : List ℕ) → NoParen s → NoParen (skip_white c s)
  unfolding skip_white
  skip_white-NoParen [] h = tt
  skip_white-NoParen (d ∷ s) h =
      elim (c.isspace d) as (λ b. NoParen (if b then skip_white c s else d ∷ s)) [
        | true ↦ skip_white-NoParen s h.1
        | false ↦ h
      ]

  list_parse-Ends : (s : List ℕ) → Ends ValueNoParen (list_parse c s)
  unfolding list_parse
  list_parse-Ends s = item_of-Ends (skip_white c (skip_paren s))

  parse_items-Ends : (room : ℕ) (s : List ℕ) → Ends AllNoParen (parse_items c room s)
  unfolding parse_items
  parse_items-Ends zero s = tt
  parse_items-Ends (suc room) s =
      Ends-bind ValueNoParen AllNoParen (list_parse c s) _ (list_parse-Ends s) (λ o h.
        elim o
            as (λ o.
              ValueNoParen o
              → Ends AllNoParen (elim o [
                | none ↦ done []
                | some (v, rest) ↦ parse_items c room rest >>= λ vs. done (v ∷ vs)
              ])) [
                | none ↦ λ h. tt
                | some (v, rest) ↦ λ h.
                    Ends-bind AllNoParen AllNoParen (parse_items c room rest) _
                      (parse_items-Ends room rest) (λ vs k. (h, k))
              ]
          h)

module _ {F : Type 0} (l : Letters F) where
  read_alnum-NoParen : (s : List ℕ) → NoParen s → NoParen (read_alnum l s).1
  unfolding read_alnum
  read_alnum-NoParen [] h = tt
  read_alnum-NoParen (d ∷ s) h = elim (Bool-cases (l.isalnum d)) [
    | inl e ↦ rw e (read_alnum-NoParen s h.1)
    | inr e ↦ rw e h
  ]

module _ (r : Reals) (c : Scanner r.F) (l : Letters r.F) where
  item-Ends :
      (n v : List ℕ) (m : List MacroTable)
      → NoParen n
      → NoParen v
      → AllEntries IsSub m
      → Ends (λ d. AllEntries IsSub (table_after m d)) (define_macro r c l (n ++ (32 ∷ v)) m)
  item-Ends n v m h k s =
      let open_list = read_arglist-NoParen (read_alnum l (skip_white c (n ++ (32 ∷ v)))).1 (
        read_alnum-NoParen l (skip_white c (n ++ (32 ∷ v)))
          (skip_white-NoParen c (n ++ (32 ∷ v)) (append-NoParen n (32 ∷ v) h (refl, k)))) in
      define_macro-Ends r c l IsSub (λ n ns text. (tt, refl)) (n ++ (32 ∷ v)) m
        (λ n ns a u text e. cc) s

  define_items-Ends :
      (names values : List (List ℕ)) (m : List MacroTable)
      → AllNoParen names
      → AllNoParen values
      → AllEntries IsSub m
      → Ends (AllEntries IsSub) (define_items r c l names values m)
  unfolding define_items
  define_items-Ends [] values m h k s = s
  define_items-Ends (n ∷ names) [] m h k s = s
  define_items-Ends (n ∷ names) (v ∷ values) m h k s =
      elim (ltb 255 (length (n ++ (32 ∷ v))))
        as (λ b. Ends (AllEntries IsSub) (
          if b
          then fault overrun
          else define_macro r c l (n ++ (32 ∷ v)) m >>= λ d.
              define_items r c l names values (table_after m d))) [
                | true ↦ tt
                | false ↦
                    Ends-bind (λ d. AllEntries IsSub (table_after m d)) (AllEntries IsSub)
                      (define_macro r c l (n ++ (32 ∷ v)) m) _ (item-Ends n v m h.0 k.0 s)
                      (λ d s'. define_items-Ends names values (table_after m d) h.1 k.1 s')
              ]

  module _ (expand : List ℕ → ℕ → List MacroTable → Attempt Expansion)
      (ends : (s : List ℕ) (len : ℕ) (m : List MacroTable)
        → AllEntries IsSub m
        → Ends (λ e. Unit {0}) (expand s len m)) where
    abbrev IsBool : Bool → Type 0
    IsBool b = Unit

    expand_body-Ends :
        (mac : MacroTable) (m : List MacroTable)
        → AllEntries IsSub m
        → Ends IsBool (expand_body expand mac m)
    expand_body-Ends mac m h =
        elim (ltb 254 (length mac.replace))
          as (λ b. Ends IsBool (
            if b
            then fault overrun
            else expand (mac.replace ++ (10 ∷ [])) 256 m >>= λ e. done true)) [
              | true ↦ tt
              | false ↦
                  Ends-bind (λ e. Unit {0}) IsBool (expand (mac.replace ++ (10 ∷ [])) 256 m) _
                    (ends (mac.replace ++ (10 ∷ [])) 256 m h) (λ e u. tt)
            ]

    expand_items-Ends :
        (mac : MacroTable) (names values : List (List ℕ))
        → AllNoParen names
        → AllNoParen values
        → Ends IsBool (expand_items r c l expand mac names values)
    expand_items-Ends mac names values h k =
        elim (fits_names names values)
          as (λ b. Ends IsBool (
            if b
            then define_items r c l names values [] >>= expand_body expand mac
            else done false)) [
              | true ↦
                  Ends-bind (AllEntries IsSub) IsBool (define_items r c l names values []) _
                    (define_items-Ends names values [] h k tt) (λ m s. expand_body-Ends mac m s)
              | false ↦ tt
            ]

    pub arg_expand-Ends :
        (s : List ℕ) (mac : MacroTable) → Ends IsBool (arg_expand r c l expand s mac)
    unfolding arg_expand
    arg_expand-Ends s mac =
        elim mac.args
          as (λ o. Ends IsBool (elim o [
            | none ↦ fault null_pointer
            | some args ↦ parse_items c 20 args >>= λ names.
                parse_items c 20 s >>= λ values. expand_items r c l expand mac names values
          ])) [
            | none ↦ tt
            | some args ↦
                Ends-bind AllNoParen IsBool (parse_items c 20 args) _ (parse_items-Ends c 20 args)
                  (λ names h.
                    Ends-bind AllNoParen IsBool (parse_items c 20 s) _ (parse_items-Ends c 20 s)
                      (λ values k. expand_items-Ends mac names values h k))
          ]
