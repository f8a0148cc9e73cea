-- ===== src/Params/Command/Given.antt =====
-- What the loop over the arguments leaves: the marks and the values.
use tcad_webapp.Prelude.{
  some-inj, ℕ, ◌≡◌, refl, ap, sym, ◌∙◌, subst, Bool, true, false, ◌||◌, Option, none, some, List,
  [], ◌∷◌, ◌==◌, if◌then◌else◌,
}
use tcad_webapp.Expr.Eval.{Reals}
use tcad_webapp.Expr.Lexical.{Scanner}
use tcad_webapp.Params.{Machine, Par, Params, address_of, flatten}
use tcad_webapp.Params.BoolCheck.{put}
use tcad_webapp.Params.Command.{
  unspecify, specify, Conversions, Verified, accepted, refused, crashed, verify,
}
use tcad_webapp.Params.Command.Card.{Reading, take_value, read_args}
use tcad_webapp.Params.Command.Marks.{
  flatten-specify, flatten-unspecify, MarksAre, map-specify_par, map-unspecify_par,
}

module _ {V : Type 0} where
  MarksAre-ext :
      (f g : ℕ → Bool) (ps : List (Par V)) → ((a : ℕ) → f a ≡ g a) → MarksAre ps f → MarksAre ps g
  MarksAre-ext f g [] e h = tt
  MarksAre-ext f g (p ∷ ps) e h = (h.0 ∙ e (address_of p), MarksAre-ext f g ps e h.1)

  abbrev pub is_some : Option V → Bool
  is_some none = false
  is_some (some v) = true

  abbrev pub or_else : Option V → Option V → Option V
  or_else none y = y
  or_else (some v) y = some v

  abbrev pub value_or : Option V → V → V
  value_or none w = w
  value_or (some v) w = v

  or_else_assoc : (x y z : Option V) → or_else (or_else x y) z ≡ or_else x (or_else y z)
  or_else_assoc none y z = refl
  or_else_assoc (some v) y z = refl

  value_or-or_else : (x y : Option V) (w : V) → value_or x (value_or y w) ≡ value_or (or_else x y) w
  value_or-or_else none y w = refl
  value_or-or_else (some v) y w = refl

module _ (m : Machine) (r : Reals) (c : Scanner r.F) (k : Conversions m r.F)
    (cards : Params m.V) where
  -- The value that one argument gives to the object `a`.
  abbrev pub given_one : Verified m.V → ℕ → Option m.V
  given_one (accepted p v) a = if a == address_of p then some v else none
  given_one refused a = none
  given_one crashed a = none

  -- The value that the last of the accepted arguments for the object `a` gives it.
  unfoldable pub given : List (List ℕ) → Reading m.V → ℕ → Option m.V
  given [] st a = none
  given (arg ∷ args) st a =
      let x = verify m r c k arg st.ps st.value in
      or_else (elim (take_value m r c k cards x st) [ none ↦ none | some st' ↦ given args st' a ])
        (given_one x a)

  -- What the loop leaves: the marks and the values of the objects that were given one.
  pub record Given (st' : Reading m.V) (store : ℕ → m.V) (named : ℕ → Bool) (g : ℕ → Option m.V)
      : Type 0 where
    pub marks : MarksAre (flatten st'.ps) (λ a. is_some (g a) || named a)
    pub values : (a : ℕ) → st'.store a ≡ value_or (g a) (store a)

  given_mark :
      (x : Option m.V) (b : Bool) (v : m.V) (n : Bool)
      → is_some x || (b || n) ≡ is_some (or_else x (if b then some v else none)) || n
  given_mark none true v n = refl
  given_mark none false v n = refl
  given_mark (some w) b v n = refl

  given_value :
      (x : Option m.V) (b : Bool) (v w : m.V)
      → value_or x (if b then v else w) ≡ value_or (or_else x (if b then some v else none)) w
  given_value none true v w = refl
  given_value none false v w = refl
  given_value (some u) b v w = refl

  not_given : (x : Option m.V) → or_else x none ≡ x
  not_given none = refl
  not_given (some v) = refl

  after_accepted :
      (p : Par m.V) (v : m.V) (st st' : Reading m.V) (named : ℕ → Bool) (g : ℕ → Option m.V)
      → MarksAre (flatten st.ps) named
      → ((n : ℕ → Bool)
          → MarksAre (flatten (specify (address_of p) st.ps)) n
          → Given st' (put st.store (address_of p) v) n g)
      → Given st' st.store named (λ a. or_else (g a) (given_one (accepted p v) a))
  after_accepted p v st st' named g h rest =
      let b = address_of p in
      let next =
        rest (λ a. a == b || named a)
          (subst (λ l. MarksAre l (λ a. a == b || named a)) (sym (flatten-specify b st.ps))
            (map-specify_par b named (flatten st.ps) h)) in
      record {
        marks =
            MarksAre-ext _ _ (flatten st'.ps) (λ a. given_mark (g a) (a == b) v (named a))
              next.marks;
        values = λ a. next.values a ∙ given_value (g a) (a == b) v (st.store a);
      }

  after_refused :
      (st st' : Reading m.V) (named : ℕ → Bool) (g : ℕ → Option m.V)
      → Given st' st.store named g
      → Given st' st.store named (λ a. or_else (g a) none)
  after_refused st st' named g next = record {
    marks =
        MarksAre-ext _ _ (flatten st'.ps)
          (λ a. ap (λ x. is_some x || named a) (sym (not_given (g a)))) next.marks;
    values = λ a. next.values a ∙ ap (λ x. value_or x (st.store a)) (sym (not_given (g a)));
  }

  read_args-Given :
      (args : List (List ℕ)) (st st' : Reading m.V) (named : ℕ → Bool)
      → read_args m r c k cards args st ≡ some st'
      → MarksAre (flatten st.ps) named
      → Given st' st.store named (given args st)
  unfolding read_args given
  read_args-Given [] st st' named e h =
      subst (λ (s : Reading m.V). Given s st.store named (λ a. none)) (some-inj e)
        record { marks = h; values = λ a. refl }
  read_args-Given (arg ∷ args) st st' named e h =
      by_value (verify m r c k arg st.ps st.value) e (λ s n. read_args-Given args s st' n)
    where
      by_value :
          (x : Verified m.V)
          → elim (take_value m r c k cards x st) [
            | none ↦ none
            | some s ↦ read_args m r c k cards args s
          ]
            ≡ some st'
          → ((s : Reading m.V) (n : ℕ → Bool)
              → read_args m r c k cards args s ≡ some st'
              → MarksAre (flatten s.ps) n
              → Given st' s.store n (given args s))
          → Given st' st.store named (λ a.
            or_else
              (elim (take_value m r c k cards x st) [ none ↦ none | some s ↦ given args s a ])
              (given_one x a))
      by_value (accepted p v) q rest = after_accepted p v st st' named _ h (λ n. rest _ n q)
      by_value refused q rest = after_refused st st' named _ (rest _ named q h)
      by_value crashed q rest = absurd (cc q)

  -- After the arguments are read against parameters that unspecify has passed, a parameter, a
  -- sub-parameter included, is marked SPECIFIED just where an accepted argument named it; it then
  -- holds the value of the last such argument, and all others hold what they held before.
  pub read_args-unspecify :
      (args : List (List ℕ)) (ps : Params m.V) (store : ℕ → m.V) (value : m.V) (fine : Bool)
      (st' : Reading m.V)
      → read_args m r c k cards args
          (record { ps = unspecify ps; store = store; value = value; fine = fine })
        ≡ some st'
      → Given st' store
          (λ a. false)
          (given args (record { ps = unspecify ps; store = store; value = value; fine = fine }))
  read_args-unspecify args ps store value fine st' e =
      read_args-Given args (record { ps = unspecify ps; store = store; value = value; fine = fine })
        st' (λ a. false) e
        (subst (λ l. MarksAre l (λ a. false)) (sym (flatten-unspecify ps))
          (map-unspecify_par (flatten ps)))
