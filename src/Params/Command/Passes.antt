-- ===== src/Params/Command/Passes.antt =====
-- What passes makes check return 0.
use tcad_webapp.Prelude.{
  ℕ, ◌≡◌, ◌↔◌, refl, ap, sym, ◌∙◌, subst, true, false, ◌&&◌, Option, none, some, List, [], ◌∷◌,
  length, leb, arith,
}
use tcad_webapp.Expr.Eval.{Reals}
use tcad_webapp.Expr.Lexical.{Scanner}
use tcad_webapp.Params.{Machine, BoolExp, Par, par, Params, Sub, no_params, params}
use tcad_webapp.Params.BoolCheck.{bool_check, Checked, checked, unset, failed}
use tcad_webapp.Params.Check.{Message, is_fine}
use tcad_webapp.Params.Split.{Split}
use tcad_webapp.Params.Command.{numpar, unspecify_sub, Conversions, Verified}
use tcad_webapp.Params.Command.Card.{
  Reading, CardResult, take_value, read_args, check_params, check_args, split_args, check_line,
  check_start, check, judged, judge_reading, finish_card, close_card,
}
use tcad_webapp.Params.Command.Zero.{
  taken, AllAccepted, AllPass, LinePasses, first_value, IsAllowed, check-zero,
}

module _ (m : Machine) (r : Reals) (c : Scanner r.F) (k : Conversions m r.F)
    (cards : Params m.V) where
  accepted-read_args :
      (args : List (List ℕ)) (st st' : Reading m.V)
      → AllAccepted m r c k cards args st st'
      → (read_args m r c k cards args st ≡ some st') × (st.fine ≡ st'.fine)
  unfolding read_args
  accepted-read_args [] st st' e = (ap some e, ap (λ (s : Reading m.V). s.fine) e)
  accepted-read_args (arg ∷ args) st st' (p, v, e, rest) =
      let (a, b) = accepted-read_args args (taken m r c k cards p v st) st' rest in
      (
        ap
              (λ (x : Verified m.V). elim (take_value m r c k cards x st) [
                | none ↦ none
                | some s ↦ read_args m r c k cards args s
              ])
              e
            ∙ a,
        b,
      )

  -- A result with the return value 0.
  abbrev pub Zero : Option (CardResult m.V) → Type 0
  Zero o = (res : CardResult m.V) × (o ≡ some res) × (res.zero_returned ≡ true)

  pass-check_args :
      (card : Par m.V) (sub : Sub m.V) (args : List (List ℕ)) (value : m.V) (store : ℕ → m.V)
      (messages : List Message)
      → AllPass m r c k cards sub args value store messages
      → Zero (check_args m r c k cards card sub args value true store messages)
  unfolding check_args check_params
  pass-check_args (par a s def bexp type msg old) no_params args value store messages h = (
    close_card m r c k cards (par a s def bexp type msg old) no_params store messages true,
    refl,
    refl,
  )
  pass-check_args (par a s def bexp type msg old) (params ps) args value store messages
        (st, x, s', y, z) =
      let (e, f) = accepted-read_args args _ st x in
      let card = par a s def bexp type msg old in
      let both : st.fine && is_fine s'.err_ret ≡ true =
        ap (λ b. b && is_fine s'.err_ret) (sym f) ∙ ap is_fine z in
      (
        close_card m r c k cards card (params st.ps) s'.store s'.messages
            (st.fine && is_fine s'.err_ret),
        ap (λ o. finish_card m r c k cards card (judge_reading m r c k cards messages o)) e
            ∙ ap (λ o. finish_card m r c k cards card (judged m r c k cards st o)) y,
        both,
      )

  pass-check_line :
      (card : Par m.V) (sub : Sub m.V) (line : Split) (value : m.V) (store : ℕ → m.V)
      (messages : List Message)
      → LinePasses m r c k cards sub line value store messages
      → Zero (check_line m r c k cards card sub line value true store messages)
  pass-check_line card sub line value store messages (args, e, l, h) =
      let few : leb numpar (length args) ≡ false = ground arith in
      subst (λ (x : Split). Zero (check_line m r c k cards card sub x value true store messages))
        (sym e) (rw few (pass-check_args card sub args value store messages h))

  pass-check_start :
      (o : Checked m.V) (card : Par m.V) (sub : Sub m.V) (line : Split) (store : ℕ → m.V)
      (messages : List Message)
      → IsAllowed m r c k cards o
      → LinePasses m r c k cards sub line (first_value m r c k cards o) store messages
      → Zero (check_start m r c k cards o card sub line store messages)
  pass-check_start unset card sub line store messages a h =
      pass-check_line card sub line m.fresh store messages h
  pass-check_start failed card sub line store messages a h = absurd a
  pass-check_start (checked v t) card sub line store messages a h =
      rw a (pass-check_line card sub line v store messages h)

  -- check comes back with 0 exactly where the legality function of the card allows it, the quotes
  -- and parentheses of the line match, it has fewer than NUMPAR arguments, and, for a card with
  -- parameters, verify accepts each argument and the checks of the parameters, which take place
  -- with the values stored and the defaults in the place of the others, find nothing wrong. That
  -- verify accepts an argument does not say that an integer in it has a digit. The arguments of a
  -- card with no parameters are not looked at.
  pub check-Zero :
      (line : Option (List ℕ)) (a : ℕ) (s : List ℕ) (def : m.V) (bexp : BoolExp m.V) (type : ℕ)
      (msg : List ℕ) (sub : Sub m.V) (store : ℕ → m.V) (messages : List Message)
      → Zero (check m r c k cards line (par a s def bexp type msg sub) store messages) ↔ (
          IsAllowed m r c k cards (bool_check m cards store bexp)
          × LinePasses m r c k cards
              (unspecify_sub sub)
              (split_args m r c k cards line)
              (first_value m r c k cards (bool_check m cards store bexp))
              store
              messages)
  unfolding check
  check-Zero line a s def bexp type msg sub store messages = (
    λ h. check-zero m r c k cards line a s def bexp type msg sub store messages h.0 h.1 h.2,
    λ h.
        pass-check_start (bool_check m cards store bexp) (par a s def bexp type msg sub)
          (unspecify_sub sub) (split_args m r c k cards line) store messages h.0 h.1,
  )
