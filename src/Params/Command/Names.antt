-- ===== src/Params/Command/Names.antt =====
-- name_check against the list of all parameters.
use tcad_webapp.Prelude.{
  ℕ, ◌≡◌, refl, ap, sym, ◌∙◌, Option, none, some, List, [], ◌∷◌, ◌++◌, if◌then◌else◌, Bool-cases,
  inl, inr,
}
use tcad_webapp.Params.{
  Par, par, Params, end, more, Sub, no_params, params, name_of, flatten, flatten_par, flatten_sub,
}
use tcad_webapp.Params.Command.{
  matches, Match, unique, ambiguous, meet, unless_ambiguous, name_check, check_name, name_check_sub,
}

module _ {V : Type 0} (name : List ℕ) where
  -- The parameters that match, in order.
  unfoldable pub all_matches : List (Par V) → List (Par V)
  all_matches [] = []
  all_matches (p ∷ ps) =
      let rest = all_matches ps in if matches (name_of p) name then p ∷ rest else rest

  -- No match, one, or more.
  abbrev pub verdict : List (Par V) → Match V
  verdict [] = unique none
  verdict (p ∷ []) = unique (some p)
  verdict (p ∷ q ∷ ps) = ambiguous

  -- The matches one after the other.
  unfoldable meet_each : List (Par V) → Option (Par V) → Match V
  meet_each [] ret = unique ret
  meet_each (p ∷ ps) ret = unless_ambiguous name (meet name p ret) (meet_each ps)

  unless_ambiguous_assoc :
      (x : Match V) (f g : Option (Par V) → Match V)
      → unless_ambiguous name (unless_ambiguous name x f) g
        ≡ unless_ambiguous name x (λ r. unless_ambiguous name (f r) g)
  unless_ambiguous_assoc (unique r) f g = refl
  unless_ambiguous_assoc ambiguous f g = refl

  meet_each-append :
      (ps qs : List (Par V)) (ret : Option (Par V))
      → meet_each (ps ++ qs) ret ≡ unless_ambiguous name (meet_each ps ret) (meet_each qs)
  unfolding meet_each
  meet_each-append [] qs ret = refl
  meet_each-append (p ∷ ps) qs ret = after (meet name p ret) (meet_each-append ps qs)
    where
      after :
          (x : Match V)
          → ((r : Option (Par V))
              → meet_each (ps ++ qs) r ≡ unless_ambiguous name (meet_each ps r) (meet_each qs))
          → unless_ambiguous name x (meet_each (ps ++ qs))
            ≡ unless_ambiguous name (unless_ambiguous name x (meet_each ps)) (meet_each qs)
      after (unique r) h = h r
      after ambiguous h = refl

  unless_ambiguous_cong :
      (x : Match V) (f g : Option (Par V) → Match V)
      → ((r : Option (Par V)) → f r ≡ g r)
      → unless_ambiguous name x f ≡ unless_ambiguous name x g
  unless_ambiguous_cong (unique r) f g h = h r
  unless_ambiguous_cong ambiguous f g h = refl

  mutual
    unfolding name_check flatten meet_each

    list-each :
        (ps : Params V) (ret : Option (Par V)) → name_check name ps ret ≡ meet_each (flatten ps) ret
    list-each end ret = refl
    list-each (more p ps) ret =
        ap (λ x. unless_ambiguous name x (name_check name ps)) (par-each p ret)
        ∙ unless_ambiguous_cong (meet_each (p ∷ flatten_par p) ret) _ _ (list-each ps)
        ∙ sym (meet_each-append (p ∷ flatten_par p) (flatten ps) ret)

    par-each :
        (p : Par V) (ret : Option (Par V))
        → check_name name p ret ≡ meet_each (p ∷ flatten_par p) ret
    par-each (par a s def bexp type msg sub) ret =
        unless_ambiguous_cong (meet name (par a s def bexp type msg sub) ret) _ _ (sub-each sub)

    sub-each :
        (sub : Sub V) (ret : Option (Par V))
        → name_check_sub name sub ret ≡ meet_each (flatten_sub sub) ret
    sub-each no_params ret = refl
    sub-each (params ps) ret = list-each ps ret

  -- With a match already found.
  abbrev found : Par V → List (Par V) → Match V
  found p [] = unique (some p)
  found p (q ∷ ps) = ambiguous

  each-found : (ps : List (Par V)) (p : Par V) → meet_each ps (some p) ≡ found p (all_matches ps)
  unfolding meet_each all_matches
  each-found [] p = refl
  each-found (q ∷ ps) p = elim (Bool-cases (matches (name_of q) name)) [
    | inl e ↦ rw e refl
    | inr e ↦ rw e (each-found ps p)
  ]

  found-verdict : (p : Par V) (ps : List (Par V)) → found p ps ≡ verdict (p ∷ ps)
  found-verdict p [] = refl
  found-verdict p (q ∷ ps) = refl

  each-verdict : (ps : List (Par V)) → meet_each ps none ≡ verdict (all_matches ps)
  unfolding meet_each all_matches
  each-verdict [] = refl
  each-verdict (p ∷ ps) = elim (Bool-cases (matches (name_of p) name)) [
    | inl e ↦ rw e (each-found ps p ∙ found-verdict p (all_matches ps))
    | inr e ↦ rw e (each-verdict ps)
  ]

  -- name_check finds the one parameter of the whole tree, sub-parameters included, whose name the
  -- given one abbreviates; it finds none where there is none, and refuses where there are more.
  pub name_check-verdict :
      (ps : Params V) → name_check name ps none ≡ verdict (all_matches (flatten ps))
  name_check-verdict ps = list-each ps none ∙ each-verdict (flatten ps)
