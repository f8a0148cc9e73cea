-- ===== src/Shell/Expand/Leaves.antt =====
-- What a token of expand_macro leaves of the text.
use tcad_webapp.Prelude.{
  ℕ, suc, ◌≡◌, ◌≤◌, ◌⊎◌, refl, Bool, true, false, ◌||◌, Option, none, some, List, [], ◌∷◌, length,
  ◌==◌, if◌then◌else◌, inl, inr, Bool-cases, arith,
}
use tcad_webapp.Shell.Macro.{Letters, read_alnum}
use tcad_webapp.Shell.Expand.{
  Found, read_brace, braced, plain_name, behind_dollar, find_name, read_token,
}
use tcad_webapp.Shell.Expand.Attempts.{Ends, Ends-weaken}
use tcad_webapp.Shell.Expand.Cuts.{Cuts, read_brace-Cuts, read_alnum-cuts, checked_name-Ends}

abbrev Leaves : ℕ → Found → Type 0
Leaves n f = length f.rest ≤ n

module _ {F : Type 0} (l : Letters F) where
  braced-Leaves : (n : ℕ) (o : Option (List ℕ × List ℕ)) → Cuts 1 n o → Ends (Leaves n) (braced o)
  braced-Leaves n none h = tt
  braced-Leaves n (some (w, t)) h = omega arith

  behind_dollar-Leaves : (s : List ℕ) → Ends (Leaves (length s)) (behind_dollar l s)
  behind_dollar-Leaves [] = omega arith
  behind_dollar-Leaves (d ∷ s) =
      elim (d == 123)
        as (λ b.
          Ends (Leaves (suc (length s))) (
            if b
            then braced (read_brace s)
            else plain_name (36 ∷ []) true (read_alnum l (d ∷ s)))) [
              | true ↦
                  Ends-weaken (Leaves (length s)) (Leaves (suc (length s))) (braced (read_brace s))
                    (braced-Leaves (length s) (read_brace s) (read_brace-Cuts s))
                    (λ f h. omega arith)
              | false ↦ omega (arith, read_alnum-cuts l (d ∷ s))
            ]

  -- A token leaves less than it was given, or is the empty name before a gap.
  abbrev pub Goes : ℕ → List ℕ → Found → Type 0
  Goes d s f =
      (length f.rest ≤ length s)
      ⊎ ((f.name ≡ []) × (f.rest ≡ d ∷ s) × ((l.isalnum d || d == 36 || d == 37) ≡ false))

  word-Goes :
      (plain : Bool) (d : ℕ) (s : List ℕ)
      → (d == 36) ≡ false
      → (d == 37) ≡ false
      → Ends (Goes d s) (plain_name [] plain (read_alnum l (d ∷ s)))
  unfolding read_alnum
  word-Goes plain d s h k = elim (Bool-cases (l.isalnum d)) [
    | inl e ↦ rw e (inl (omega (arith, read_alnum-cuts l s)))
    | inr e ↦ rw e (inr (refl, refl, rw (h, k) refl))
  ]

  pub read_token-Goes :
      (plain : Bool) (d : ℕ) (s : List ℕ)
      → (d == 37) ≡ false
      → Ends (Goes d s) (read_token l plain (d ∷ s))
  unfolding read_token
  read_token-Goes plain d s k =
      checked_name-Ends l (Goes d s) (find_name l plain (d ∷ s)) (elim (Bool-cases (d == 36)) [
        | inl e ↦ rw e (
            Ends-weaken (Leaves (length s)) (Goes d s) (behind_dollar l s) (behind_dollar-Leaves s)
              (λ f h. inl h))
        | inr e ↦ rw e (word-Goes plain d s e k)
      ])
