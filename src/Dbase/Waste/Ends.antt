-- ===== src/Dbase/Waste/Ends.antt =====
-- The loops of waste end, and what they leave.
use tcad_webapp.Prelude.{
  ℕ, zero, suc, ◌+◌, ◌<◌, ◌≤◌, ◌≡◌, refl, ap, ◌∙◌, Bool, false, Option, some, List, [], ◌∷◌, map,
  ◌==◌, arith, Bool-cases, inl, inr,
}
use tcad_webapp.Dbase.Impurity.{update}
use tcad_webapp.Dbase.Waste.{Numbered, renumber, fix_all}
use tcad_webapp.Dbase.Waste.Compact.{IsCompacted}

-- What is left below the new count comes from an object that is not dead.
pub kept_from :
    {A : Type 0} (dead : A → Bool) (obj : ℕ → A) (n : ℕ) (c : Numbered A)
    → IsCompacted dead obj n n c
    → (m : ℕ) → m < c.count
    → (k : ℕ) × (k < n) × (dead (obj k) ≡ false) × (c.at_ptr m ≡ some (obj k))
kept_from dead obj n c s m l =
    let (k, a, b) = s.onto m l in
    elim (Bool-cases (dead (obj k))) [
      | inl e ↦ absurd (cc (s.freed k a e, b))
      | inr e ↦
          let (m', a', b', f) = s.moved k a e in
          let same : m ≡ m' = ground arith in (k, a, e, ap c.at_ptr same ∙ f)
    ]

pub fix_all_ends :
    {A : Type 0} (fix : A → Option A) (n i : ℕ) (arr : ℕ → Option A)
    → ((k : ℕ) → i ≤ k → k < n + i → (x y : A) × (arr k ≡ some x) × (fix x ≡ some y))
    → (arr' : ℕ → Option A) × (fix_all fix n i arr ≡ some arr')
      × ((k : ℕ) → k < i → arr' k ≡ arr k)
      × ((k : ℕ) (x y : A) → i ≤ k → k < n + i → arr k ≡ some x → fix x ≡ some y → arr' k ≡ some y)
unfolding fix_all
fix_all_ends fix zero i arr h = (arr, refl, (λ k l. refl), (λ k x y a b. absurd (omega arith)))
fix_all_ends {A} fix (suc n) i arr h =
    let (x, y, e, f) = h i (omega arith) (omega arith) in
    let (arr', r, low, high) = fix_all_ends fix n (suc i) (update arr i (some y)) (λ k a b.
      let (x', y', e', f') = h k (omega arith) (omega arith) in
      let other : (k == i) ≡ false = ground arith in (x', y', rw other e', f')) in
    (
      arr',
      rw (e, f, fix_all) r,
      (λ k l. let other : (k == i) ≡ false = ground arith in low k (omega arith) ∙ rw other refl),
      (λ k x' y' a b e' f'. elim (Bool-cases (k == i)) [
        | inl q ↦
            let same : k ≡ i = ground arith in
            low k (omega arith) ∙ rw q (cc (e, f, e', f', ap arr same))
        | inr q ↦ high k x' y' (ground arith) (omega arith) (rw q e') f'
      ]),
    )

abbrev pub AllLive : ℕ → (ℕ → Bool) → List ℕ → Type 0
AllLive n dead [] = Unit
AllLive n dead (x ∷ xs) = (x < n) × (dead x ≡ false) × AllLive n dead xs

pub renumber_ends :
    (n : ℕ) (dead : ℕ → Bool) (new : ℕ → Option ℕ) (xs : List ℕ)
    → ((k : ℕ) → k < n → dead k ≡ false → (m : ℕ) × (new k ≡ some m))
    → AllLive n dead xs
    → (ys : List ℕ) × (renumber new xs ≡ some ys) × (map new xs ≡ map some ys)
unfolding renumber
renumber_ends n dead new [] h l = ([], refl, refl)
renumber_ends n dead new (x ∷ xs) h l =
    let (m, e) = h x l.0 l.1 in
    let (ys, r, q) = renumber_ends n dead new xs h l.2 in
    (m ∷ ys, rw (e, r, renumber) refl, cc (e, q))
