-- ===== src/Params/Command/Zero.antt =====
-- When check returns 0.
use tcad_webapp.Prelude.{
  some-inj, ℕ, ◌≡◌, ◌<◌, refl, ap, ◌∙◌, subst, Bool, true, false, ◌&&◌, Option, none, some, List,
  [], ◌∷◌, length, leb, arith, Bool-cases, inl, inr,
}
use tcad_webapp.Expr.Eval.{Reals}
use tcad_webapp.Expr.Lexical.{Scanner}
use tcad_webapp.Params.{Machine, BoolExp, Par, par, Params, Sub, no_params, params, address_of}
use tcad_webapp.Params.BoolCheck.{put, bool_check, Checked, checked, unset, failed}
use tcad_webapp.Params.Check.{Message, Ret, fine, wrong, illegal, is_fine, State}
use tcad_webapp.Params.Split.{Split, argv, unmatched, unfinished}
use tcad_webapp.Params.Command.{
  numpar, unspecify_sub, specify, Conversions, Verified, accepted, refused, crashed, verify,
}
use tcad_webapp.Params.Command.Card.{
  Reading, CardResult, take_value, read_args, check_values, check_params, check_args, split_args,
  check_line, check_start, check, judged, judge_reading, finish_card,
}

module _ (m : Machine) (r : Reals) (c : Scanner r.F) (k : Conversions m r.F)
    (cards : Params m.V) where
  abbrev pub taken : Par m.V → m.V → Reading m.V → Reading m.V
  taken p v st = record st {
    ps = specify (address_of p) st.ps;
    store = put st.store (address_of p) v;
    value = v;
  }

  -- verify accepts each argument, and the values are stored in turn.
  abbrev pub AllAccepted : List (List ℕ) → Reading m.V → Reading m.V → Type 0
  AllAccepted [] st st' = st ≡ st'
  AllAccepted (arg ∷ args) st st' =
      (p : Par m.V) × (v : m.V) × (verify m r c k arg st.ps st.value ≡ accepted p v)
      × AllAccepted args (taken p v st) st'

  abbrev after_arg : List (List ℕ) → Option (Reading m.V) → Option (Reading m.V)
  after_arg args o = elim o [ none ↦ none | some st' ↦ read_args m r c k cards args st' ]

  read_args-AllAccepted :
      (args : List (List ℕ)) (st st' : Reading m.V)
      → read_args m r c k cards args st ≡ some st'
      → st'.fine ≡ true
      → (st.fine ≡ true) × AllAccepted args st st'
  unfolding read_args
  read_args-AllAccepted [] st st' e f =
      let same = some-inj e in (ap (λ (s : Reading m.V). s.fine) same ∙ f, same)
  read_args-AllAccepted (arg ∷ args) st st' e f =
      by_value (verify m r c k arg st.ps st.value) refl e
        (λ s q. read_args-AllAccepted args s st' q f)
    where
      by_value :
          (x : Verified m.V)
          → verify m r c k arg st.ps st.value ≡ x
          → after_arg args (take_value m r c k cards x st) ≡ some st'
          → ((s : Reading m.V)
              → read_args m r c k cards args s ≡ some st'
              → (s.fine ≡ true) × AllAccepted args s st')
          → (st.fine ≡ true) × AllAccepted (arg ∷ args) st st'
      by_value (accepted p v) q h rest = let (a, b) = rest (taken p v st) h in (a, (p, v, q, b))
      by_value refused q h rest = absurd (cc (rest (record st { fine = false }) h).0)
      by_value crashed q h rest = absurd (cc h)

  -- The parameters of the card pass: all arguments are accepted, and the checks find nothing wrong.
  abbrev pub AllPass : Sub m.V → List (List ℕ) → m.V → (ℕ → m.V) → List Message → Type 0
  AllPass no_params args value store messages = Unit
  AllPass (params ps) args value store messages =
      (st : Reading m.V) × AllAccepted args
        (record { ps = ps; store = store; value = value; fine = true }) st
      × (s : State m.V) × (check_values m r c k cards st.ps st.store messages ≡ some s)
      × (s.err_ret ≡ fine)

  is_fine-fine : (x : Ret) → is_fine x ≡ true → x ≡ fine
  is_fine-fine fine h = refl
  is_fine-fine wrong h = absurd (cc h)
  is_fine-fine illegal h = absurd (cc h)

  both : (a b : Bool) → (a && b) ≡ true → (a ≡ true) × (b ≡ true)
  both a b h = ground (arith, h)

  judged-AllPass :
      (st : Reading m.V) (o : Option (State m.V)) (x : Params m.V × State m.V × Bool)
      → judged m r c k cards st o ≡ some x
      → x.2 ≡ true
      → (st.fine ≡ true) × ((s : State m.V) × (o ≡ some s) × (s.err_ret ≡ fine))
  judged-AllPass st none x e f = absurd (cc e)
  judged-AllPass st (some s) x e f =
      let same : st.fine && is_fine s.err_ret ≡ x.2 =
        ap (λ (y : Params m.V × State m.V × Bool). y.2) (some-inj e) in
      let (a, b) = both st.fine (is_fine s.err_ret) (same ∙ f) in
      (a, (s, refl, is_fine-fine s.err_ret b))

  AllAccepted-start :
      (args : List (List ℕ)) (st st' : Reading m.V)
      → st.fine ≡ true
      → AllAccepted args st st'
      → AllAccepted args (record st { fine = true }) st'
  AllAccepted-start args st st' e h = subst (λ b. AllAccepted args (record st { fine = b }) st') e h

  judge_reading-AllPass :
      (args : List (List ℕ)) (start : Reading m.V) (messages : List Message)
      (o : Option (Reading m.V)) (x : Params m.V × State m.V × Bool)
      → read_args m r c k cards args start ≡ o
      → judge_reading m r c k cards messages o ≡ some x
      → x.2 ≡ true
      → (start.fine ≡ true) × AllPass (params start.ps) args start.value start.store messages
  judge_reading-AllPass args start messages none x q e f = absurd (cc e)
  judge_reading-AllPass args start messages (some st) x q e f =
      let (a, s, v, w) = judged_flat (judged-AllPass st _ x e f) in
      let (b, g) = read_args-AllAccepted args start st q a in
      (b, (st, AllAccepted-start args start st b g, s, v, w))
    where
      judged_flat :
          {A : Type 0} {P Q : State m.V → Type 0}
          → A × ((s : State m.V) × P s × Q s)
          → A × (s : State m.V) × P s × Q s
      judged_flat (a, (s, v, w)) = (a, s, v, w)

  finish_card-zero :
      (card : Par m.V) (o : Option (Params m.V × State m.V × Bool)) (res : CardResult m.V)
      → finish_card m r c k cards card o ≡ some res
      → res.zero_returned ≡ true
      → (x : Params m.V × State m.V × Bool) × (o ≡ some x) × (x.2 ≡ true)
  finish_card-zero card none res e f = absurd (cc e)
  finish_card-zero (par a s def bexp type msg old) (some x) res e f =
      (x, refl, ap (λ (y : CardResult m.V). y.zero_returned) (some-inj e) ∙ f)

  check_args-AllPass :
      (card : Par m.V) (sub : Sub m.V) (args : List (List ℕ)) (value : m.V) (b : Bool)
      (store : ℕ → m.V) (messages : List Message) (res : CardResult m.V)
      → check_args m r c k cards card sub args value b store messages ≡ some res
      → res.zero_returned ≡ true
      → (b ≡ true) × AllPass sub args value store messages
  unfolding check_args check_params
  check_args-AllPass (par a s def bexp type msg old) no_params args value b store messages res e f =
      (ap (λ (y : CardResult m.V). y.zero_returned) (some-inj e) ∙ f, tt)
  check_args-AllPass card (params ps) args value b store messages res e f =
      let start : Reading m.V = record { ps = ps; store = store; value = value; fine = b } in
      let (x, q, g) = finish_card-zero card _ res e f in
      judge_reading-AllPass args start messages (read_args m r c k cards args start) x refl q g

  -- The text is split into fewer than NUMPAR arguments, and these and the parameters pass.
  abbrev pub LinePasses : Sub m.V → Split → m.V → (ℕ → m.V) → List Message → Type 0
  LinePasses sub line value store messages =
      (args : List (List ℕ)) × (line ≡ argv args)
      × (length args < numpar)
      × AllPass sub args value store messages

  check_line-LinePasses :
      (card : Par m.V) (sub : Sub m.V) (line : Split) (value : m.V) (b : Bool) (store : ℕ → m.V)
      (messages : List Message) (res : CardResult m.V)
      → check_line m r c k cards card sub line value b store messages ≡ some res
      → res.zero_returned ≡ true
      → (b ≡ true) × LinePasses sub line value store messages
  check_line-LinePasses card sub (argv args) value b store messages res e f =
      elim (Bool-cases (leb numpar (length args))) [
        | inl p ↦ absurd (cc (rw p at e))
        | inr p ↦
            let (a, g) =
              check_args-AllPass card sub args value b store messages res (rw p at e) f in
            (a, (args, refl, ground arith, g))
      ]
  check_line-LinePasses (par a s def bexp type msg old) sub unmatched value b store messages res e
        f =
      absurd (cc (ap (λ (y : CardResult m.V). y.zero_returned) (some-inj e) ∙ f))
  check_line-LinePasses card sub unfinished value b store messages res e f = absurd (cc e)

  -- What `value` holds when the arguments are read.
  abbrev pub first_value : Checked m.V → m.V
  first_value (checked v t) = v
  first_value _ = m.fresh

  -- The legality function of the card, where it has one, does not find it wrong.
  abbrev pub IsAllowed : Checked m.V → Type 0
  IsAllowed unset = Unit
  IsAllowed failed = ⊥
  IsAllowed (checked v t) = m.is_zero (m.ival v) ≡ true

  check_start-zero :
      (o : Checked m.V) (card : Par m.V) (sub : Sub m.V) (line : Split) (store : ℕ → m.V)
      (messages : List Message) (res : CardResult m.V)
      → check_start m r c k cards o card sub line store messages ≡ some res
      → res.zero_returned ≡ true
      → IsAllowed o × LinePasses sub line (first_value o) store messages
  check_start-zero unset card sub line store messages res e f =
      (tt, (check_line-LinePasses card sub line m.fresh true store messages res e f).1)
  check_start-zero failed card sub line store messages res e f = absurd (cc e)
  check_start-zero (checked v t) card sub line store messages res e f =
      elim (Bool-cases (m.is_zero (m.ival v))) [
        | inl p ↦
            (p, (check_line-LinePasses card sub line v true store messages res (rw p at e) f).1)
        | inr p ↦
            absurd (cc (check_line-LinePasses card sub line v false store _ res (rw p at e) f).0)
      ]

  -- check returns 0 only where the legality function of the card allows it, the quotes and
  -- parentheses of the line match, each of its fewer than NUMPAR arguments names one parameter and
  -- has a value of that parameter's type, and the checks of the parameters, which take place with
  -- the values stored and the defaults in the place of the others, find nothing wrong.
  pub check-zero :
      (line : Option (List ℕ)) (a : ℕ) (s : List ℕ) (def : m.V) (bexp : BoolExp m.V) (type : ℕ)
      (msg : List ℕ) (sub : Sub m.V) (store : ℕ → m.V) (messages : List Message)
      (res : CardResult m.V)
      → check m r c k cards line (par a s def bexp type msg sub) store messages ≡ some res
      → res.zero_returned ≡ true
      → IsAllowed (bool_check m cards store bexp)
        × LinePasses
            (unspecify_sub sub)
            (split_args m r c k cards line)
            (first_value (bool_check m cards store bexp))
            store
            messages
  unfolding check
  check-zero line a s def bexp type msg sub store messages res e f =
      check_start-zero (bool_check m cards store bexp) (par a s def bexp type msg sub)
        (unspecify_sub sub) (split_args m r c k cards line) store messages res e f
