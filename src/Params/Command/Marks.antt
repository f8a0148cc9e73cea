-- ===== src/Params/Command/Marks.antt =====
-- The marks SPECIFIED after the arguments are read.
use tcad_webapp.Prelude.{
  ℕ, ◌+◌, ◌-◌, ◌≡◌, refl, ap, sym, ◌∙◌, Bool, true, false, ◌||◌, List, [], ◌∷◌, ◌++◌, map, ◌==◌,
  arith, Bool-cases, inl, inr, bit_and, bit_and_toggle, bit_and_masked,
}
use tcad_webapp.Params.{
  Par, par, Params, end, more, Sub, no_params, params, specified, flagged, address_of, type_of,
  flatten, flatten_par, flatten_sub,
}
use tcad_webapp.Params.Command.{
  clear_mark, set_mark, unspecify, unspecify_par, unspecify_sub, specify, specify_par, specify_sub,
}

flagged-clear_mark : (type : ℕ) → flagged (clear_mark type) specified ≡ false
flagged-clear_mark type =
    let off : bit_and (clear_mark type) specified ≡ 0 =
      bit_and_masked type type (4294967295 - specified) specified (omega arith) refl in
    rw off refl

flagged-set_mark : (type : ℕ) → flagged (set_mark type) specified ≡ true
flagged-set_mark type = elim (Bool-cases (flagged type specified)) [
  | inl e ↦ rw e e
  | inr e ↦
      let sum : bit_and type specified + bit_and (type + specified) specified ≡ specified =
        bit_and_toggle 11 type in
      rw e (ground (arith, sum, e))
]

module _ {V : Type 0} where
  map-append : (f : Par V → Par V) (xs ys : List (Par V)) → map f (xs ++ ys) ≡ map f xs ++ map f ys
  map-append f [] ys = refl
  map-append f (x ∷ xs) ys = ap (λ l. f x ∷ l) (map-append f xs ys)

  mutual
    unfolding flatten specify

    pub flatten-specify :
        (b : ℕ) (ps : Params V) → flatten (specify b ps) ≡ map (specify_par b) (flatten ps)
    flatten-specify b end = refl
    flatten-specify b (more p ps) =
        ap (λ l. specify_par b p ∷ (l ++ flatten (specify b ps))) (flatten_par-specify b p)
        ∙ ap (λ l. specify_par b p ∷ (map (specify_par b) (flatten_par p) ++ l))
            (flatten-specify b ps)
        ∙ ap (λ l. specify_par b p ∷ l)
            (sym (map-append (specify_par b) (flatten_par p) (flatten ps)))

    flatten_par-specify :
        (b : ℕ) (p : Par V) → flatten_par (specify_par b p) ≡ map (specify_par b) (flatten_par p)
    flatten_par-specify b (par a s def bexp type msg sub) = flatten_sub-specify b sub

    flatten_sub-specify :
        (b : ℕ) (sub : Sub V)
        → flatten_sub (specify_sub b sub) ≡ map (specify_par b) (flatten_sub sub)
    flatten_sub-specify b no_params = refl
    flatten_sub-specify b (params ps) = flatten-specify b ps

  mutual
    unfolding flatten unspecify

    pub flatten-unspecify :
        (ps : Params V) → flatten (unspecify ps) ≡ map unspecify_par (flatten ps)
    flatten-unspecify end = refl
    flatten-unspecify (more p ps) =
        ap (λ l. unspecify_par p ∷ (l ++ flatten (unspecify ps))) (flatten_par-unspecify p)
        ∙ ap (λ l. unspecify_par p ∷ (map unspecify_par (flatten_par p) ++ l))
            (flatten-unspecify ps)
        ∙ ap (λ l. unspecify_par p ∷ l)
            (sym (map-append unspecify_par (flatten_par p) (flatten ps)))

    flatten_par-unspecify :
        (p : Par V) → flatten_par (unspecify_par p) ≡ map unspecify_par (flatten_par p)
    flatten_par-unspecify (par a s def bexp type msg sub) = flatten_sub-unspecify sub

    flatten_sub-unspecify :
        (sub : Sub V) → flatten_sub (unspecify_sub sub) ≡ map unspecify_par (flatten_sub sub)
    flatten_sub-unspecify no_params = refl
    flatten_sub-unspecify (params ps) = flatten-unspecify ps

  -- A parameter is marked just where its object is one of the named ones.
  abbrev pub MarksAre : List (Par V) → (ℕ → Bool) → Type 0
  MarksAre [] named = Unit
  MarksAre (p ∷ ps) named =
      (flagged (type_of p) specified ≡ named (address_of p)) × MarksAre ps named

  pub map-specify_par :
      (b : ℕ) (named : ℕ → Bool) (ps : List (Par V))
      → MarksAre ps named
      → MarksAre (map (specify_par b) ps) (λ a. a == b || named a)
  unfolding specify
  map-specify_par b named [] h = tt
  map-specify_par b named (par a s def bexp type msg sub ∷ ps) h = elim (Bool-cases (a == b)) [
    | inl e ↦ rw e (flagged-set_mark type, map-specify_par b named ps h.1)
    | inr e ↦ rw e (h.0, map-specify_par b named ps h.1)
  ]

  pub map-unspecify_par : (ps : List (Par V)) → MarksAre (map unspecify_par ps) (λ a. false)
  unfolding unspecify
  map-unspecify_par [] = tt
  map-unspecify_par (par a s def bexp type msg sub ∷ ps) =
      (flagged-clear_mark type, map-unspecify_par ps)
