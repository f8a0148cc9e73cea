-- ===== src/Params/Split/Joined.antt =====
-- What split makes of a line of plain assignments.
use tcad_webapp.Prelude.{
  ℕ, zero, suc, ◌≡◌, ◌≤◌, refl, ap, ◌∙◌, Bool, true, false, List, [], ◌∷◌, ◌++◌, map, none, some,
  length, length-append, ◌==◌, arith,
}
use tcad_webapp.Params.Split.{
  argv, unmatched, cons_arg, skip_space, read_name, read_word, read_value, read_assigned,
  behind_name, read_arg, split_loop, split,
}

-- `name=value`, with the value's first character apart; neither is empty.
pub record Assignment : Type 0 where
  pub initial : ℕ
  pub name : List ℕ
  pub head : ℕ
  pub value : List ℕ

abbrev pub name_of : Assignment → List ℕ
name_of a = a.initial ∷ a.name

abbrev pub value_of : Assignment → List ℕ
value_of a = a.head ∷ a.value

abbrev pub text : Assignment → List ℕ
text a = (name_of a ++ (61 ∷ [])) ++ value_of a

-- The assignments with a blank behind each.
unfoldable pub join : List Assignment → List ℕ
join [] = []
join (a ∷ rest) = name_of a ++ (61 ∷ (value_of a ++ (32 ∷ join rest)))

module _ (isspace : ℕ → Bool) where
  abbrev pub AllDark : List ℕ → Type 0
  AllDark [] = Unit
  AllDark (c ∷ cs) = (isspace c ≡ false) × AllDark cs

  abbrev pub AllName : List ℕ → Type 0
  AllName [] = Unit
  AllName (c ∷ cs) = (isspace c ≡ false) × ((c == 61) ≡ false) × AllName cs

  pub record IsPlain (a : Assignment) : Type 0 where
    pub names : AllName (name_of a)
    pub values : AllDark (value_of a)
    pub no_quote : (a.head == 34) ≡ false
    pub no_tick : (a.head == 39) ≡ false
    pub no_paren : (a.head == 40) ≡ false

  abbrev pub AllPlain : List Assignment → Type 0
  AllPlain [] = Unit
  AllPlain (a ∷ rest) = IsPlain a × AllPlain rest

  read_name-append : (s r : List ℕ) → AllName s → read_name isspace (s ++ (61 ∷ r)) ≡ (s, 61 ∷ r)
  unfolding read_name
  read_name-append [] r h = refl
  read_name-append (c ∷ s) r h = rw (read_name-append s r h.2, h.0, h.1) refl

  read_word-append :
      (s r : List ℕ)
      → isspace 32 ≡ true
      → AllDark s
      → read_word isspace (s ++ (32 ∷ r)) ≡ (s, 32 ∷ r)
  unfolding read_word
  read_word-append [] r b h = rw b refl
  read_word-append (c ∷ s) r b h = rw (read_word-append s r b h.1, h.0) refl

  skip_space_dark : (c : ℕ) (cs : List ℕ) → isspace c ≡ false → skip_space isspace (c ∷ cs) ≡ c ∷ cs
  unfolding skip_space
  skip_space_dark c cs g = rw g refl

  read_value-append :
      (a : Assignment) (r : List ℕ)
      → isspace 32 ≡ true
      → IsPlain a
      → read_value isspace (value_of a ++ (32 ∷ r)) ≡ some (value_of a, 32 ∷ r)
  unfolding read_value
  read_value-append a r b h =
      rw (h.no_quote, h.no_tick, h.no_paren, read_word-append (value_of a) r b h.values) refl

  read_assigned-append :
      (s : List ℕ) (a : Assignment) (r : List ℕ)
      → isspace 32 ≡ true
      → IsPlain a
      → read_assigned isspace s (value_of a ++ (32 ∷ r)) ≡ some (s ++ value_of a, 32 ∷ r)
  read_assigned-append s a r b h =
      rw
        (
          read_assigned,
          skip_space_dark a.head (a.value ++ (32 ∷ r)) h.values.0,
          read_value-append a r b h,
        )
        refl

  read_arg-append :
      (a : Assignment) (r : List ℕ)
      → isspace 32 ≡ true
      → IsPlain a
      → read_arg isspace true (name_of a ++ (61 ∷ (value_of a ++ (32 ∷ r)))) ≡ some (text a, 32 ∷ r)
  unfolding read_arg
  read_arg-append a r b h =
      ap (λ x. behind_name isspace x.0 x.1)
        (read_name-append (name_of a) (value_of a ++ (32 ∷ r)) h.names)
      ∙ read_assigned-append (name_of a ++ (61 ∷ [])) a r b h

  skip_space-join :
      (rest : List Assignment)
      → isspace 32 ≡ true
      → AllPlain rest
      → skip_space isspace (32 ∷ join rest) ≡ join rest
  unfolding skip_space join
  skip_space-join [] b h = rw b refl
  skip_space-join (a ∷ rest) b h = rw (b, h.0.names.0) refl

  split_loop-join :
      (fuel : ℕ) (rest : List Assignment)
      → isspace 32 ≡ true
      → AllPlain rest
      → length rest ≤ fuel
      → split_loop isspace fuel true (join rest) ≡ argv (map text rest)
  unfolding split_loop join
  split_loop-join fuel [] b h k = refl
  split_loop-join zero (a ∷ rest) b h k = absurd (omega arith)
  split_loop-join (suc fuel) (a ∷ rest) b h k =
      ap
        (λ o. elim o [
          | none ↦ unmatched
          | some (x, r) ↦ cons_arg x (split_loop isspace fuel true (skip_space isspace r))
        ])
        (read_arg-append a (join rest) b h.0)
      ∙ ap (λ l. cons_arg (text a) (split_loop isspace fuel true l)) (skip_space-join rest b h.1)
      ∙ ap (cons_arg (text a)) (split_loop-join fuel rest b h.1 (omega arith))

  length-join : (rest : List Assignment) → length rest ≤ length (join rest)
  unfolding join
  length-join [] = omega arith
  length-join (a ∷ rest) = omega (
    arith,
    length-join rest,
    length-append a.name (61 ∷ (value_of a ++ (32 ∷ join rest))),
    length-append a.value (32 ∷ join rest),
  )

  skip_space_joined :
      (rest : List Assignment) → AllPlain rest → skip_space isspace (join rest) ≡ join rest
  unfolding skip_space join
  skip_space_joined [] h = refl
  skip_space_joined (a ∷ rest) h = rw h.0.names.0 refl

  -- A line of assignments `name=value `, whose names and values are not empty and hold no white
  -- space, no name an `=`, and no value a quote or parenthesis at its start, is split into the
  -- assignments.
  pub split-join :
      (rest : List Assignment)
      → isspace 32 ≡ true
      → AllPlain rest
      → split isspace (join rest) true ≡ argv (map text rest)
  unfolding split
  split-join rest b h =
      rw (skip_space_joined rest h)
        (split_loop-join (length (join rest)) rest b h (length-join rest))
