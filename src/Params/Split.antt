-- ===== src/Params/Split.antt =====
-- check/split.c: the parameter line, split into parameters and their values. Strings are lists of
-- characters without the closing 0; `isspace` is the C library's.
pub mod Ends
pub mod Joined
use tcad_webapp.Prelude.{
  ℕ, zero, suc, Bool, true, false, not, ◌||◌, List, [], ◌∷◌, ◌++◌, Option, none, some, length, ◌==◌,
  if◌then◌else◌,
}

-- `argv`, -1 after the message on `stderr`, or no fuel left.
pub data Split : Type 0 where
  argv : List (List ℕ) → Split
  unmatched unfinished : Split

abbrev pub cons_arg : List ℕ → Split → Split
cons_arg a (argv rest) = argv (a ∷ rest)
cons_arg a unmatched = unmatched
cons_arg a unfinished = unfinished

-- `*line`.
abbrev pub first_char : List ℕ → ℕ
first_char [] = 0
first_char (c ∷ cs) = c

-- `line++` after a test of `*line`.
abbrev pub advance : List ℕ → List ℕ
advance [] = []
advance (c ∷ cs) = cs

-- Up to the end quote, and what stands after it.
unfoldable pub read_quoted : ℕ → List ℕ → Option (List ℕ × List ℕ)
read_quoted q [] = none
read_quoted q (c ∷ cs) =
    let rest = read_quoted q cs in
    if c == q then some ([], cs) else (elim rest [ none ↦ none | some (s, r) ↦ some (c ∷ s, r) ])

-- With `parcnt` parentheses open.
unfoldable pub read_parens : ℕ → List ℕ → Option (List ℕ × List ℕ)
read_parens zero cs = some ([], cs)
read_parens (suc n) [] = none
read_parens (suc n) (c ∷ cs) =
    elim (read_parens (if c == 40 then suc (suc n) else (if c == 41 then n else suc n)) cs) [
      | none ↦ none
      | some (s, r) ↦ some (c ∷ s, r)
    ]

module _ (isspace : ℕ → Bool) where
  unfoldable pub skip_space : List ℕ → List ℕ
  skip_space [] = []
  skip_space (c ∷ cs) = if isspace c then skip_space cs else c ∷ cs

  -- A parameter name: up to white space or `=`.
  unfoldable pub read_name : List ℕ → List ℕ × List ℕ
  read_name [] = ([], [])
  read_name (c ∷ cs) =
      let (s, r) = read_name cs in if (c == 61) || isspace c then ([], c ∷ cs) else (c ∷ s, r)

  unfoldable pub read_word : List ℕ → List ℕ × List ℕ
  read_word [] = ([], [])
  read_word (c ∷ cs) = let (s, r) = read_word cs in if isspace c then ([], c ∷ cs) else (c ∷ s, r)

  -- The `switch` on the first character of the value: `"`, `'`, `(` or something else.
  unfoldable pub read_value : List ℕ → Option (List ℕ × List ℕ)
  unfolding read_quoted read_parens read_word
  read_value [] = some ([], [])
  read_value (c ∷ cs) =
      if c == 34
      then read_quoted 34 cs
      else (if c == 39
          then read_quoted 39 cs
          else (if c == 40
              then (elim (read_parens 1 cs) [ none ↦ none | some (s, r) ↦ some (c ∷ s, r) ])
              else some (read_word (c ∷ cs))))

  -- The `=` and the value, behind the characters that are there.
  abbrev pub read_assigned : List ℕ → List ℕ → Option (List ℕ × List ℕ)
  read_assigned s line = elim (read_value (skip_space line)) [
    | none ↦ none
    | some (v, r) ↦ some (s ++ v, r)
  ]

  -- Behind the parameter name `s`.
  abbrev pub behind_name : List ℕ → List ℕ → Option (List ℕ × List ℕ)
  behind_name s l =
      let l' = if first_char l == 32 then skip_space l else l in
      if first_char l' == 61 then read_assigned (s ++ (61 ∷ [])) (advance l') else some (s, l')

  -- One turn of the loop: the argument, and what is left of the line.
  unfoldable pub read_arg : Bool → List ℕ → Option (List ℕ × List ℕ)
  unfolding skip_space read_name read_value
  read_arg true line = behind_name (read_name line).0 (read_name line).1
  read_arg false line = read_assigned [] (if first_char line == 32 then skip_space line else line)

  -- `while ( *line != '\0')`, after the white space.
  unfoldable pub split_loop : ℕ → Bool → List ℕ → Split
  unfolding read_arg
  split_loop fuel parnames [] = argv []
  split_loop zero parnames (c ∷ cs) = unfinished
  split_loop (suc fuel) parnames (c ∷ cs) = elim (read_arg parnames (c ∷ cs)) [
    | none ↦ unmatched
    | some (a, r) ↦ cons_arg a (split_loop fuel parnames (skip_space r))
  ]

  unfoldable pub split : List ℕ → Bool → Split
  unfolding split_loop
  split line parnames = split_loop (length line) parnames (skip_space line)
