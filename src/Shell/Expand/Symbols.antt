-- ===== src/Shell/Expand/Symbols.antt =====
-- What the readers of expand_macro make of a piece.
use tcad_webapp.Prelude.{
  ℕ, ◌≡◌, ◌≤◌, ◌<◌, refl, Bool, true, false, ◌&&◌, ◌⊎◌, inl, inr, Option, some, List, [], ◌∷◌, ◌++◌,
  length, length-append, ◌==◌, ltb, arith,
}
use tcad_webapp.Shell.Macro.{Letters, done}
use tcad_webapp.Shell.Expand.{
  Cursor, Found, read_brace, skip_percent, first_is, read_token, find_name, skip_gap,
}
use tcad_webapp.Shell.Macro.Words.{read_alnum_end, read_alnum-append}
use tcad_webapp.Shell.Expand.Pieces.{
  Symbol, nothing, word, dollar, brace, name_of, symbol_text, is_looked_up, NotEmpty, AllGap,
  Resumes, NoBrace, IsSymbol,
}

abbrev pub at : List ℕ → List ℕ → ℕ → Bool → Option (List ℕ) → Cursor
at front buf len domac body = record {
  front = front;
  buf = buf;
  len = len;
  domac = domac;
  body = body;
}

abbrev pub found_at : Symbol → List ℕ → Bool → Found
found_at s f plain = record {
  name = name_of s;
  taken = symbol_text s;
  rest = f;
  looked_up = is_looked_up plain s;
}

read_brace-append : (w f : List ℕ) → NoBrace w → read_brace ((w ++ (125 ∷ [])) ++ f) ≡ some (w, f)
unfolding read_brace
read_brace-append [] f h = refl
read_brace-append (d ∷ w) f h = rw (h.0, read_brace-append w f h.1) refl

first_is-false : (d e : ℕ) (s : List ℕ) → first_is d (e ∷ s) ≡ false → (e == d) ≡ false
first_is-false d e s h = ground arith

pub skip_percent_none :
    (cur : Cursor) (s : List ℕ) → first_is 37 s ≡ false → skip_percent cur s ≡ cur
skip_percent_none cur [] h = refl
skip_percent_none cur (d ∷ s) h = rw (first_is-false 37 d s h) refl

pub and_false : (b : Bool) → (b && false) ≡ false
and_false true = refl
and_false false = refl

pub and_true : (b : Bool) → (b && true) ≡ b
and_true true = refl
and_true false = refl

pub NotEmpty-append :
    (x y z w : List ℕ) → NotEmpty (x ++ (y ++ z)) → NotEmpty (x ++ (y ++ (z ++ w)))
NotEmpty-append [] [] [] w h = absurd h
NotEmpty-append [] [] (d ∷ z) w h = tt
NotEmpty-append [] (d ∷ y) z w h = tt
NotEmpty-append (d ∷ x) y z w h = tt

positive : (x : List ℕ) → NotEmpty x → 0 < length x
positive [] h = absurd h
positive (d ∷ x) h = omega arith

pub length-NotEmpty :
    (x y z w : List ℕ) → NotEmpty (x ++ (y ++ z)) → length w < length (x ++ (y ++ (z ++ w)))
length-NotEmpty x y z w h =
    let pos : 0 < length (x ++ (y ++ z)) = positive (x ++ (y ++ z)) h in
    omega (
      arith,
      pos,
      length-append x (y ++ z),
      length-append y z,
      length-append x (y ++ (z ++ w)),
      length-append y (z ++ w),
      length-append z w,
    )

module _ {F : Type 0} (l : Letters F) where
  alnum_ne : (d e : ℕ) → l.isalnum d ≡ true → (e < 48) ⊎ (122 < e) → (d == e) ≡ false
  alnum_ne d e h (inl k) = let p = l.alnum_lem d h in ground arith
  alnum_ne d e h (inr k) = let p = l.alnum_lem d h in ground arith

  find_name-symbol :
      (s : Symbol) (f : List ℕ) (plain : Bool)
      → IsSymbol l s f
      → find_name l plain (symbol_text s ++ f) ≡ done (found_at s f plain)
  find_name-symbol nothing [] plain h = refl
  find_name-symbol nothing (d ∷ f) plain h =
      rw (first_is-false 36 d f h.1) (rw (read_alnum_end l (d ∷ f) h.0) refl)
  find_name-symbol (word d w) f plain h =
      rw (alnum_ne d 36 h.0.0 (inl (omega arith))) (rw (read_alnum-append l (d ∷ w) f h.0 h.1) refl)
  find_name-symbol (dollar []) [] plain h = refl
  find_name-symbol (dollar []) (d ∷ f) plain h =
      rw (first_is-false 123 d f h.1) (rw (read_alnum_end l (d ∷ f) h.0) refl)
  find_name-symbol (dollar (d ∷ w)) f plain h =
      rw (alnum_ne d 123 h.0.0 (inr (omega arith)))
        (rw (read_alnum-append l (d ∷ w) f h.0 h.1) refl)
  find_name-symbol (brace w) f plain h = rw (read_brace-append w f h) refl

  pub read_token-symbol :
      (s : Symbol) (f : List ℕ) (plain : Bool)
      → IsSymbol l s f
      → length (name_of s) ≤ 79
      → read_token l plain (symbol_text s ++ f) ≡ done (found_at s f plain)
  unfolding read_token
  read_token-symbol s f plain h k =
      let fits : ltb 79 (length (name_of s)) ≡ false = ground arith in
      rw (find_name-symbol s f plain h) (rw fits refl)

  pub skip_gap-append : (g s : List ℕ) → AllGap l g → Resumes l s → skip_gap l (g ++ s) ≡ (g, s)
  unfolding skip_gap
  skip_gap-append [] [] h k = refl
  skip_gap-append [] (d ∷ s) h k = rw k refl
  skip_gap-append (d ∷ g) s h k = rw (skip_gap-append g s h.1 k, h.0) refl
