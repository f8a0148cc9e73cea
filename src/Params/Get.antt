-- ===== src/Params/Get.antt =====
-- misc/get.c: the values of the parameters by name.
use tcad_webapp.Prelude.{
  ℕ, ◌≡◌, refl, ap, subst, Bool, true, false, Option, none, some, List, [], ◌∷◌, ◌++◌, ◌==◌,
  if◌then◌else◌, bit_and, arith, Bool-cases, inl, inr, ◌↔◌, ◌⊎◌,
}
use tcad_webapp.Params.{
  Machine, Par, par, Params, end, more, Sub, no_params, params, specified, address_of, name_of,
  type_of, flatten, flatten_par, flatten_sub,
}

-- The characters are compared as far as they agree: whether one of the two strings ends there.
unfoldable pub scan : List ℕ → List ℕ → Bool
scan [] ss = true
scan (c ∷ s) [] = true
scan (c ∷ s) (d ∷ ss) = if c == d then scan s ss else false

-- `*(par[0]->name) == *name`, where the end of a string is the character 0.
abbrev pub head_char : List ℕ → ℕ
head_char [] = 0
head_char (c ∷ s) = c

unfoldable pub answers : List ℕ → List ℕ → Bool
unfolding scan
answers s name = if head_char s == head_char name then scan s name else false

module _ (m : Machine) (value : ℕ → m.V) (name : List ℕ) where
  -- -1 is `none`; the second component is `*value`.
  unfoldable mutual
    unfolding answers

    pub get_value : Params m.V → m.V → Option ℕ × m.V
    get_value end v = (none, m.set_ival v (m.of_bool false))
    get_value (more p ps) v =
        let (i, w) = get_par p v in elim i [ some t ↦ (some t, w) | none ↦ get_value ps w ]

    pub get_par : Par m.V → m.V → Option ℕ × m.V
    get_par (par a s def bexp type msg sub) v =
        if answers s name then (some (bit_and type specified), value a) else get_sub sub v

    pub get_sub : Sub m.V → m.V → Option ℕ × m.V
    get_sub no_params v = (none, v)
    get_sub (params ps) v = get_value ps v

  -- The first parameter that answers to the name.
  unfoldable pub first : List (Par m.V) → Option (Par m.V)
  first [] = none
  first (p ∷ ps) = if answers (name_of p) name then some p else first ps

  abbrev pub IsLookup : Option (Par m.V) → Option ℕ × m.V → Type 0
  IsLookup none r = r.0 ≡ none
  IsLookup (some p) r = r ≡ (some (bit_and (type_of p) specified), value (address_of p))

  IsLookup-here :
      (p : Par m.V) (o : Option (Par m.V)) (r : Option ℕ × m.V) (b : Bool)
      → IsLookup o r
      → IsLookup
          (if b then some p else o)
          (if b then (some (bit_and (type_of p) specified), value (address_of p)) else r)
  IsLookup-here p o r true h = refl
  IsLookup-here p o r false h = h

  first-append :
      (ps qs : List (Par m.V))
      → first (ps ++ qs) ≡ elim (first ps) [ none ↦ first qs | some p ↦ some p ]
  unfolding first
  first-append [] qs = refl
  first-append (p ∷ ps) qs = elim (Bool-cases (answers (name_of p) name)) [
    | inl e ↦ rw e refl
    | inr e ↦ rw e (first-append ps qs)
  ]

  IsLookup-next :
      (o o' : Option (Par m.V)) (i : Option ℕ) (w : m.V) (r : Option ℕ × m.V)
      → IsLookup o (i, w)
      → IsLookup o' r
      → IsLookup
          (elim o [ none ↦ o' | some p ↦ some p ])
          (elim i [ some t ↦ (some t, w) | none ↦ r ])
  IsLookup-next none o' none w r h h' = h'
  IsLookup-next none o' (some t) w r h h' = absurd (cc h)
  IsLookup-next (some p) o' none w r h h' = absurd (cc (ap (λ x. x.0) h))
  IsLookup-next (some p) o' (some t) w r h h' = h

  mutual
    unfolding get_value flatten first

    list-IsLookup : (ps : Params m.V) (v : m.V) → IsLookup (first (flatten ps)) (get_value ps v)
    list-IsLookup end v = refl
    list-IsLookup (more p ps) v = rw (first-append (p ∷ flatten_par p) (flatten ps)) (
        IsLookup-next (first (p ∷ flatten_par p)) (first (flatten ps)) (get_par p v).0
          (get_par p v).1 (get_value ps (get_par p v).1) (par-IsLookup p v)
          (list-IsLookup ps (get_par p v).1))

    par-IsLookup : (p : Par m.V) (v : m.V) → IsLookup (first (p ∷ flatten_par p)) (get_par p v)
    par-IsLookup (par a s def bexp type msg sub) v =
        IsLookup-here (par a s def bexp type msg sub) _ _ (answers s name) (sub-IsLookup sub v)

    sub-IsLookup : (sub : Sub m.V) (v : m.V) → IsLookup (first (flatten_sub sub)) (get_sub sub v)
    sub-IsLookup no_params v = refl
    sub-IsLookup (params ps) v = list-IsLookup ps v

  -- `get_value` gives the value and the mark of the first parameter, in the order of the lists
  -- with each one before its sub-parameters, that answers to the name; -1 is returned just when
  -- none does.
  pub get_value-IsLookup :
      (ps : Params m.V) (v : m.V) → IsLookup (first (flatten ps)) (get_value ps v)
  get_value-IsLookup ps v = list-IsLookup ps v

-- The callers take `par->param`, which get_value reads through.
module _ (m : Machine) (value : ℕ → m.V) where
  abbrev found : {R : Type 0} → Option ℕ × m.V → R → (m.V → R) → R
  found (some t, v) default f = f v
  found (none, v) default f = default

  unfoldable pub get_bool : Params m.V → List ℕ → m.I
  unfolding get_value
  get_bool ps name = found (get_value m value name ps m.fresh) (m.of_bool false) m.ival

  unfoldable pub get_string : Params m.V → List ℕ → Option (List ℕ)
  unfolding get_value
  get_string ps name = found (get_value m value name ps m.fresh) none (λ v. some (m.sval v))

  unfoldable pub get_int : Params m.V → List ℕ → m.I
  unfolding get_value
  get_int ps name = found (get_value m value name ps m.fresh) (m.of_bool false) m.ival

  unfoldable pub get_float : Params m.V → List ℕ → m.F
  unfolding get_value
  get_float ps name = found (get_value m value name ps m.fresh) m.zero_float m.dval

  unfoldable pub is_specified : Params m.V → List ℕ → ℕ
  unfolding get_value
  is_specified ps name =
      let (temp, v) = get_value m value name ps m.fresh in elim temp [ some t ↦ t | none ↦ 0 ]

-- One of the two strings begins with the other.
abbrev pub Agree : List ℕ → List ℕ → Type 0
Agree s t = ((u : List ℕ) × (s ++ u ≡ t)) ⊎ ((u : List ℕ) × (t ++ u ≡ s))

scan-Agree : (s t : List ℕ) → scan s t ≡ true → Agree s t
unfolding scan
scan-Agree [] t h = inl (t, refl)
scan-Agree (c ∷ s) [] h = inr (c ∷ s, refl)
scan-Agree (c ∷ s) (d ∷ t) h = elim (Bool-cases (c == d)) [
  | inl e ↦
      let same : c ≡ d = ground arith in
      elim (scan-Agree s t (rw e at h)) [ inl (u, p) ↦ inl (u, cc) | inr (u, p) ↦ inr (u, cc) ]
  | inr e ↦ absurd (cc (rw e at h))
]

scan_left : (s u : List ℕ) → scan s (s ++ u) ≡ true
unfolding scan
scan_left [] u = refl
scan_left (c ∷ s) u = ground (arith, scan_left s u)

scan_right : (s u : List ℕ) → scan (s ++ u) s ≡ true
unfolding scan
scan_right [] [] = refl
scan_right [] (d ∷ u) = refl
scan_right (c ∷ s) u = ground (arith, scan_right s u)

answers-scan : (c d : ℕ) (s t : List ℕ) → answers (c ∷ s) (d ∷ t) ≡ scan (c ∷ s) (d ∷ t)
unfolding scan answers
answers-scan c d s t = elim (Bool-cases (c == d)) [ inl e ↦ rw e refl | inr e ↦ rw e refl ]

-- Two names that are not empty answer to each other just when one is an abbreviation of the other.
pub answers-Agree :
    (c d : ℕ) (s t : List ℕ) → (answers (c ∷ s) (d ∷ t) ≡ true) ↔ Agree (c ∷ s) (d ∷ t)
answers-Agree c d s t = rw (answers-scan c d s t) (
  scan-Agree (c ∷ s) (d ∷ t),
  λ h. elim h [
    | inl (u, p) ↦ subst (λ x. scan (c ∷ s) x ≡ true) p (scan_left (c ∷ s) u)
    | inr (u, p) ↦ subst (λ x. scan x (d ∷ t) ≡ true) p (scan_right (d ∷ t) u)
  ],
)
