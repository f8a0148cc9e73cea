-- ===== src/Params/Split/Ends.antt =====
-- Every turn of the loop of split consumes the line, so that the loop ends.
use tcad_webapp.Prelude.{
  ℕ, zero, suc, ◌≡◌, ◌≢◌, ◌≤◌, refl, subst, Bool, true, false, List, [], ◌∷◌, ◌++◌, Option, none,
  some, length, ◌==◌, if◌then◌else◌, arith, Bool-cases, inl, inr,
}
use tcad_webapp.Params.Split.{
  Split, argv, unmatched, unfinished, cons_arg, first_char, advance, read_quoted, read_parens,
  skip_space, read_name, read_word, read_value, read_assigned, behind_name, read_arg, split_loop,
  split,
}

-- What is left is at most so long.
abbrev Leaves : ℕ → Option (List ℕ × List ℕ) → Type 0
Leaves n none = Unit
Leaves n (some (s, r)) = length r ≤ n

Leaves-map :
    (f : List ℕ → List ℕ) (n : ℕ) (o : Option (List ℕ × List ℕ))
    → Leaves n o
    → Leaves n (elim o [ none ↦ none | some (s, r) ↦ some (f s, r) ])
Leaves-map f n none h = tt
Leaves-map f n (some (s, r)) h = h

Leaves-le : (n k : ℕ) (o : Option (List ℕ × List ℕ)) → n ≤ k → Leaves n o → Leaves k o
Leaves-le n k none h g = tt
Leaves-le n k (some (s, r)) h g = omega arith

Leaves-quoted :
    (c : ℕ) (b : Bool) (n : ℕ) (cs : List ℕ) (o : Option (List ℕ × List ℕ))
    → length cs ≤ n
    → Leaves n o
    → Leaves n
        (if b then some ([], cs) else (elim o [ none ↦ none | some (s, r) ↦ some (c ∷ s, r) ]))
Leaves-quoted c true n cs o k h = k
Leaves-quoted c false n cs o k h = Leaves-map (λ s. c ∷ s) n o h

Leaves-if :
    (n : ℕ) (b : Bool) (o o' : Option (List ℕ × List ℕ))
    → Leaves n o
    → Leaves n o'
    → Leaves n (if b then o else o')
Leaves-if n true o o' h g = h
Leaves-if n false o o' h g = g

read_quoted-Leaves : (q : ℕ) (cs : List ℕ) → Leaves (length cs) (read_quoted q cs)
unfolding read_quoted
read_quoted-Leaves q [] = tt
read_quoted-Leaves q (c ∷ cs) =
    Leaves-quoted c (c == q) (suc (length cs)) cs (read_quoted q cs) (omega arith)
      (Leaves-le (length cs) _ (read_quoted q cs) (omega arith) (read_quoted-Leaves q cs))

read_parens-Leaves : (cs : List ℕ) (n : ℕ) → Leaves (length cs) (read_parens n cs)
unfolding read_parens
read_parens-Leaves [] zero = omega arith
read_parens-Leaves (c ∷ cs) zero = omega arith
read_parens-Leaves [] (suc n) = tt
read_parens-Leaves (c ∷ cs) (suc n) =
    let n' = if c == 40 then suc (suc n) else (if c == 41 then n else suc n) in
    Leaves-map (λ s. c ∷ s) _ (read_parens n' cs)
      (Leaves-le (length cs) _ (read_parens n' cs) (omega arith) (read_parens-Leaves cs n'))

advance-le : (cs : List ℕ) → length (advance cs) ≤ length cs
advance-le [] = omega arith
advance-le (c ∷ cs) = omega arith

module _ (isspace : ℕ → Bool) where
  skip_space-le : (cs : List ℕ) → length (skip_space isspace cs) ≤ length cs
  unfolding skip_space
  skip_space-le [] = omega arith
  skip_space-le (c ∷ cs) = ground (arith, skip_space-le cs)

  read_word-le : (cs : List ℕ) → length (read_word isspace cs).1 ≤ length cs
  unfolding read_word
  read_word-le [] = omega arith
  read_word-le (c ∷ cs) = ground (arith, read_word-le cs)

  read_name-le : (cs : List ℕ) → length (read_name isspace cs).1 ≤ length cs
  unfolding read_name
  read_name-le [] = omega arith
  read_name-le (c ∷ cs) = ground (arith, read_name-le cs)

  abbrev IsTrimmed : List ℕ → Type 0
  IsTrimmed [] = Unit
  IsTrimmed (c ∷ cs) = isspace c ≡ false

  skip_space-IsTrimmed : (cs : List ℕ) → IsTrimmed (skip_space isspace cs)
  unfolding skip_space
  skip_space-IsTrimmed [] = tt
  skip_space-IsTrimmed (c ∷ cs) = elim (Bool-cases (isspace c)) [
    | inl e ↦ rw e (skip_space-IsTrimmed cs)
    | inr e ↦ rw e e
  ]

  -- A value takes at least its first character.
  read_value-Leaves :
      (c : ℕ) (cs : List ℕ) → isspace c ≡ false → Leaves (length cs) (read_value isspace (c ∷ cs))
  unfolding read_value read_word
  read_value-Leaves c cs h = Leaves-if (length cs) (c == 34) _ _ (read_quoted-Leaves 34 cs) (
      Leaves-if (length cs) (c == 39) _ _ (read_quoted-Leaves 39 cs) (
        Leaves-if (length cs) (c == 40) _ _
          (Leaves-map (λ s. c ∷ s) (length cs) (read_parens 1 cs) (read_parens-Leaves cs 1))
          (rw h (read_word-le cs))))

  read_value-le : (cs : List ℕ) → IsTrimmed cs → Leaves (length cs) (read_value isspace cs)
  unfolding read_value
  read_value-le [] h = omega arith
  read_value-le (c ∷ cs) h =
      Leaves-le (length cs) _ (read_value isspace (c ∷ cs)) (omega arith) (read_value-Leaves c cs h)

  read_assigned-Leaves :
      (s line : List ℕ) (n : ℕ) → length line ≤ n → Leaves n (read_assigned isspace s line)
  read_assigned-Leaves s line n h =
      let l = skip_space isspace line in
      Leaves-map (λ v. s ++ v) n (read_value isspace l)
        (Leaves-le (length l) n (read_value isspace l) (omega (arith, skip_space-le line))
          (read_value-le l (skip_space-IsTrimmed line)))

  -- Behind the name.
  behind_name-Leaves : (s l : List ℕ) (n : ℕ) → length l ≤ n → Leaves n (behind_name isspace s l)
  behind_name-Leaves s l n h =
      let l' = if first_char l == 32 then skip_space isspace l else l in
      let short : length l' ≤ length l = ground (arith, skip_space-le l) in
      Leaves-if n (first_char l' == 61) _ _
        (read_assigned-Leaves _ (advance l') n (omega (arith, advance-le l'))) (omega arith)

  skip_space_here : (c : ℕ) (cs : List ℕ) → isspace c ≡ false → skip_space isspace (c ∷ cs) ≡ c ∷ cs
  unfolding skip_space
  skip_space_here c cs g = rw g refl

  assigned_here :
      (s : List ℕ) (c : ℕ) (cs : List ℕ)
      → isspace c ≡ false
      → Leaves (length cs) (read_assigned isspace s (c ∷ cs))
  assigned_here s c cs g =
      rw (read_assigned, skip_space_here c cs g)
        (Leaves-map (λ v. s ++ v) (length cs) (read_value isspace (c ∷ cs))
          (read_value-Leaves c cs g))

  -- One turn takes at least a character.
  read_arg-Leaves :
      (parnames : Bool) (c : ℕ) (cs : List ℕ)
      → isspace 32 ≡ true
      → isspace c ≡ false
      → Leaves (length cs) (read_arg isspace parnames (c ∷ cs))
  unfolding read_arg read_name skip_space
  read_arg-Leaves true c cs h g = elim (Bool-cases (c == 61)) [
    | inl e ↦
        let same : 61 ≡ c = ground arith in
        subst (λ x. Leaves (length cs) (read_arg isspace true (x ∷ cs))) same
          (read_assigned-Leaves (61 ∷ []) cs (length cs) (omega arith))
    | inr e ↦
        rw (e, g)
          (behind_name-Leaves (c ∷ (read_name isspace cs).0) (read_name isspace cs).1 (length cs)
            (read_name-le cs))
  ]
  read_arg-Leaves false c cs h g = elim (Bool-cases (c == 32)) [
    | inl e ↦ let same : c ≡ 32 = ground arith in absurd (cc (h, g, same))
    | inr e ↦ rw e (assigned_here [] c cs g)
  ]

  abbrev Ended : Split → Type 0
  Ended (argv rest) = Unit
  Ended unmatched = Unit
  Ended unfinished = ⊥

  Ended-cons : (a : List ℕ) (r : Split) → Ended r → Ended (cons_arg a r)
  Ended-cons a (argv rest) h = tt
  Ended-cons a unmatched h = tt
  Ended-cons a unfinished h = h

  Ended-turn :
      (n : ℕ) (f : List ℕ → Split) (o : Option (List ℕ × List ℕ))
      → Leaves n o
      → ((r : List ℕ) → length r ≤ n → Ended (f r))
      → Ended (elim o [ none ↦ unmatched | some (a, r) ↦ cons_arg a (f r) ])
  Ended-turn n f none h g = tt
  Ended-turn n f (some (a, r)) h g = Ended-cons a (f r) (g r h)

  split_loop-Ended :
      (fuel : ℕ) (parnames : Bool) (line : List ℕ)
      → isspace 32 ≡ true
      → IsTrimmed line
      → length line ≤ fuel
      → Ended (split_loop isspace fuel parnames line)
  unfolding split_loop
  split_loop-Ended fuel parnames [] h g k = tt
  split_loop-Ended zero parnames (c ∷ cs) h g k = omega arith
  split_loop-Ended (suc fuel) parnames (c ∷ cs) h g k =
      Ended-turn (length cs) (λ r. split_loop isspace fuel parnames (skip_space isspace r))
        (read_arg isspace parnames (c ∷ cs)) (read_arg-Leaves parnames c cs h g)
        (λ r l.
          split_loop-Ended fuel parnames (skip_space isspace r) h (skip_space-IsTrimmed r)
            (omega (arith, skip_space-le r)))

  -- Where the blank is white space, as many turns as the line has characters are enough.
  pub split_ends :
      (line : List ℕ) (parnames : Bool)
      → isspace 32 ≡ true
      → split isspace line parnames ≢ unfinished
  unfolding split
  split_ends line parnames h e = subst Ended e (
      split_loop-Ended (length line) parnames (skip_space isspace line) h
        (skip_space-IsTrimmed line) (skip_space-le line))
