-- ===== src/Shell/Expand/Cuts.antt =====
-- What the readers of expand_macro take of a text and what they leave of it.
use tcad_webapp.Prelude.{
  ℕ, suc, ◌+◌, ◌≡◌, ◌≤◌, Bool, true, false, Option, none, some, List, [], ◌∷◌, length,
  length-append, ◌==◌, ltb, if◌then◌else◌, arith,
}
use tcad_webapp.Shell.Macro.{
  Letters, Attempt, done, fault, overrun, ◌>>=◌, read_alnum, read_arglist,
}
use tcad_webapp.Shell.Expand.Attempts.{Ends, Ends-bind}
use tcad_webapp.Shell.Expand.{
  Found, read_brace, braced, plain_name, behind_dollar, find_name, checked_name, read_token,
  skip_gap,
}

-- The two parts and `k` characters more make up `n`.
abbrev pub Cuts : ℕ → ℕ → Option (List ℕ × List ℕ) → Type 0
Cuts k n none = Unit
Cuts k n (some (w, t)) = length w + length t + k ≡ n

Cuts-cons :
    (k n d : ℕ) (o : Option (List ℕ × List ℕ))
    → Cuts k n o
    → Cuts k (suc n) (elim o [ none ↦ none | some (w, t) ↦ some (d ∷ w, t) ])
Cuts-cons k n d none h = tt
Cuts-cons k n d (some (w, t)) h = omega arith

Cuts-if :
    (k n : ℕ) (b : Bool) (o p : Option (List ℕ × List ℕ))
    → Cuts k n o
    → Cuts k n p
    → Cuts k n (if b then o else p)
Cuts-if k n true o p h g = h
Cuts-if k n false o p h g = g

pub read_brace-Cuts : (s : List ℕ) → Cuts 1 (length s) (read_brace s)
unfolding read_brace
read_brace-Cuts [] = tt
read_brace-Cuts (d ∷ s) =
    Cuts-if 1 (suc (length s)) (d == 125) _ _ (omega arith)
      (Cuts-cons 1 (length s) d (read_brace s) (read_brace-Cuts s))

pub read_arglist-Cuts : (s : List ℕ) → Cuts 0 (length s) (read_arglist s)
unfolding read_arglist
read_arglist-Cuts [] = tt
read_arglist-Cuts (d ∷ s) =
    Cuts-if 0 (suc (length s)) (d == 41) _ _ (omega arith)
      (Cuts-cons 0 (length s) d (read_arglist s) (read_arglist-Cuts s))

-- The name is not longer than what is taken, and no character is lost.
abbrev pub IsCut : ℕ → Found → Type 0
IsCut n f = (length f.taken + length f.rest ≡ n) × (length f.name ≤ length f.taken)

module _ {F : Type 0} (l : Letters F) where
  pub read_alnum-cuts :
      (s : List ℕ) → length (read_alnum l s).0 + length (read_alnum l s).1 ≡ length s
  unfolding read_alnum
  read_alnum-cuts [] = omega arith
  read_alnum-cuts (d ∷ s) = ground (arith, read_alnum-cuts s)

  pub skip_gap-cuts : (s : List ℕ) → length (skip_gap l s).0 + length (skip_gap l s).1 ≡ length s
  unfolding skip_gap
  skip_gap-cuts [] = omega arith
  skip_gap-cuts (d ∷ s) = ground (arith, skip_gap-cuts s)

  braced-IsCut :
      (n : ℕ) (o : Option (List ℕ × List ℕ)) → Cuts 1 n o → Ends (IsCut (suc (suc n))) (braced o)
  braced-IsCut n none h = tt
  braced-IsCut n (some (w, t)) h = let e = length-append w (125 ∷ []) in (omega arith, omega arith)

  behind_dollar-IsCut : (s : List ℕ) → Ends (IsCut (suc (length s))) (behind_dollar l s)
  behind_dollar-IsCut [] = (omega arith, omega arith)
  behind_dollar-IsCut (d ∷ s) =
      elim (d == 123)
        as (λ b.
          Ends (IsCut (suc (suc (length s)))) (
            if b
            then braced (read_brace s)
            else plain_name (36 ∷ []) true (read_alnum l (d ∷ s)))) [
              | true ↦ braced-IsCut (length s) (read_brace s) (read_brace-Cuts s)
              | false ↦ (omega (arith, read_alnum-cuts (d ∷ s)), omega arith)
            ]

  find_name-IsCut : (plain : Bool) (s : List ℕ) → Ends (IsCut (length s)) (find_name l plain s)
  find_name-IsCut plain [] = (omega arith, omega arith)
  find_name-IsCut plain (d ∷ s) =
      elim (d == 36)
        as (λ b.
          Ends (IsCut (suc (length s)))
            (if b then behind_dollar l s else plain_name [] plain (read_alnum l (d ∷ s)))) [
              | true ↦ behind_dollar-IsCut s
              | false ↦ (omega (arith, read_alnum-cuts (d ∷ s)), omega arith)
            ]

  pub checked_name-Ends :
      (P : Found → Type 0) (m : Attempt Found) → Ends P m → Ends P (m >>= checked_name)
  checked_name-Ends P m h = Ends-bind P P m checked_name h λ f g.
      elim (ltb 79 (length f.name)) as (λ b. Ends P (if b then fault overrun else done f)) [
        | true ↦ tt
        | false ↦ g
      ]

  pub read_token-IsCut :
      (plain : Bool) (s : List ℕ) → Ends (IsCut (length s)) (read_token l plain s)
  unfolding read_token
  read_token-IsCut plain s =
      checked_name-Ends (IsCut (length s)) (find_name l plain s) (find_name-IsCut plain s)
