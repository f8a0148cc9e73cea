-- ===== src/Shell/Macro/Table.antt =====
-- The macro table as a finite map from names: find_macro after unlink and enter_macro.
use tcad_webapp.Prelude.{
  ℕ, ◌≡◌, refl, subst, sym, ◌∙◌, true, false, none, some, List, [], ◌∷◌, if◌then◌else◌, Bool-cases,
  inl, inr, Option-cases, arith,
}
use tcad_webapp.Expr.Names.{same_text}
use tcad_webapp.Shell.Macro.{MacroTable, find_macro, unlink, without_macro}

pub same_text_refl : (s : List ℕ) → same_text s s ≡ true
unfolding same_text
same_text_refl [] = refl
same_text_refl (c ∷ s) = ground (arith, same_text_refl s)

pub same_text-eq : (s t : List ℕ) → same_text s t ≡ true → s ≡ t
unfolding same_text
same_text-eq [] [] h = refl
same_text-eq [] (d ∷ t) h = cc h
same_text-eq (c ∷ s) [] h = cc h
same_text-eq (c ∷ s) (d ∷ t) h = ground (arith, same_text-eq s t)

-- No two entries have one name.
abbrev pub IsDistinct : List MacroTable → Type 0
IsDistinct [] = Unit
IsDistinct (m ∷ ms) = (find_macro m.name ms ≡ none) × IsDistinct ms

abbrev pub removed : List ℕ → List MacroTable → List MacroTable
removed s ms = without_macro ms (unlink s ms)

pub unlink-none : (s : List ℕ) (ms : List MacroTable) → find_macro s ms ≡ none → unlink s ms ≡ none
unfolding unlink find_macro
unlink-none s [] h = refl
unlink-none s (m ∷ ms) h = elim (Bool-cases (same_text m.name s)) [
  | inl e ↦ cc (rw e at h)
  | inr e ↦ rw e (rw (unlink-none s ms (rw e at h)) refl)
]

pub unlink-some :
    (s : List ℕ) (ms : List MacroTable) {m : MacroTable}
    → find_macro s ms ≡ some m
    → unlink s ms ≡ some (removed s ms)
unfolding unlink find_macro
unlink-some s [] h = cc h
unlink-some s (m ∷ ms) h = elim (Bool-cases (same_text m.name s)) [
  | inl e ↦ rw e refl
  | inr e ↦ rw e (rw (unlink-some s ms (rw e at h)) refl)
]

-- Behind the first entry.
removed-cons :
    (s : List ℕ) (m : MacroTable) (ms : List MacroTable)
    → removed s (m ∷ ms) ≡ (if same_text m.name s then ms else m ∷ removed s ms)
unfolding unlink
removed-cons s m ms = elim (Bool-cases (same_text m.name s)) [
  | inl e ↦ rw e refl
  | inr e ↦ elim (Option-cases (unlink s ms)) [
    | inl n ↦ rw e (rw n refl)
    | inr (t, p) ↦ rw e (rw p refl)
  ]
]

removed-nil : (s : List ℕ) → removed s [] ≡ []
unfolding unlink
removed-nil s = refl

not_same : (s t k : List ℕ) → same_text s k ≡ true → same_text t k ≡ true → same_text t s ≡ true
not_same s t k h g = subst (λ x. same_text t x ≡ true) (sym (same_text-eq s k h)) g

pub find-removed :
    (s k : List ℕ) (ms : List MacroTable)
    → IsDistinct ms
    → find_macro k (removed s ms) ≡ (if same_text s k then none else find_macro k ms)
unfolding find_macro
find-removed s k [] h = elim (Bool-cases (same_text s k)) [
  | inl e ↦ rw (removed-nil s) (rw e refl)
  | inr e ↦ rw (removed-nil s) (rw e refl)
]
find-removed s k (m ∷ ms) h = elim (Bool-cases (same_text m.name s)) [
  | inl e ↦
      let same = same_text-eq m.name s e in
      elim (Bool-cases (same_text s k)) [
        | inl f ↦
            rw (removed-cons s m ms)
              (rw (e, f) (subst (λ x. find_macro x ms ≡ none) (same ∙ same_text-eq s k f) h.0))
        | inr f ↦
            let g = subst (λ x. same_text x k ≡ false) (sym same) f in
            rw (removed-cons s m ms) (rw (e, f) (rw g refl))
      ]
  | inr e ↦ elim (Bool-cases (same_text m.name k)) [
    | inl g ↦ elim (Bool-cases (same_text s k)) [
      | inl f ↦ cc (not_same s m.name k f g)
      | inr f ↦ rw (removed-cons s m ms) (rw (e, f) (rw g refl))
    ]
    | inr g ↦ rw (removed-cons s m ms) (rw e (rw g (find-removed s k ms h.1)))
  ]
]

kept :
    (s : List ℕ) (m : MacroTable) (ms : List MacroTable)
    → IsDistinct (m ∷ ms)
    → same_text m.name s ≡ false
    → find_macro m.name (removed s ms) ≡ none
kept s m ms h e = elim (Bool-cases (same_text s m.name)) [
  | inl f ↦ rw (find-removed s m.name ms h.1) (rw f refl)
  | inr f ↦ rw (find-removed s m.name ms h.1) (rw f h.0)
]

-- Any other name keeps its place.
pub removed-IsDistinct :
    (s : List ℕ) (ms : List MacroTable) → IsDistinct ms → IsDistinct (removed s ms)
removed-IsDistinct s [] h = rw (removed-nil s) tt
removed-IsDistinct s (m ∷ ms) h = elim (Bool-cases (same_text m.name s)) [
  | inl e ↦ rw (removed-cons s m ms) (rw e h.1)
  | inr e ↦ rw (removed-cons s m ms) (rw e (kept s m ms h e, removed-IsDistinct s ms h.1))
]
