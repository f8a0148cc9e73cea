-- ===== src/Params/Refuse.antt =====
-- What `error_check` returns and what it has written.
use mathlib.Core.Option
use tcad_webapp.Prelude.{
  ℕ, suc, ◌≡◌, ◌≢◌, ◌≤◌, refl, Bool, true, false, not, ◌&&◌, Option, none, some, List,
  if◌then◌else◌, inl, inr, length, ◌⊎◌,
}
use tcad_webapp.Params.{
  Machine, Par, par, Params, end, more, Sub, no_params, params, specified, choice, flagged,
}
use tcad_webapp.Params.BoolCheck.{is_wrong}
use tcad_webapp.Params.Check.{
  Ret, fine, wrong, illegal, is_fine, State, Message, count, check_choice, check_value, check_par,
  check_list, check_one, check_sub, error_check, report, set_ret, close, err_msg, illegal_sub,
}
use tcad_webapp.Params.Kept.{
  Kept, Kept-close, Kept-counted, Kept-illegal, Kept-refl, Kept-report, Kept-trans,
}

or_wrong :
    (b : Bool) (r x : Ret) → (x ≡ (if b then wrong else r)) ⊎ (x ≡ wrong) → (x ≡ r) ⊎ (x ≡ wrong)
or_wrong true r x (inl h) = inr h
or_wrong false r x (inl h) = inl h
or_wrong b r x (inr h) = inr h

module _ (m : Machine) (cards : Params m.V) where
  count-cases :
      (store : ℕ → m.V) (ps : Params m.V) (mult : Bool) (r : Ret)
      → ((count m store ps mult r).0 ≡ r) ⊎ ((count m store ps mult r).0 ≡ wrong)
  unfolding count
  count-cases store end mult r = inl refl
  count-cases store (more p ps) mult r = or_wrong _ r _ (count-cases store ps _ _)

  -- In every store each legality function evaluates, and a choice has its parameters and its
  -- default among them.
  unfoldable mutual
    pub IsSound : Params m.V → Type 0
    IsSound end = Unit
    IsSound (more p ps) = IsSoundPar p × IsSound ps

    pub IsSoundPar : Par m.V → Type 0
    IsSoundPar (par a name def bexp type msg sub) =
        ((store : ℕ → m.V) → is_wrong m cards store bexp ≢ none)
        × (flagged type choice ≡ true → (st : State m.V) → check_choice m msg def sub st ≢ none)
        × IsSoundSub sub

    pub IsSoundSub : Sub m.V → Type 0
    IsSoundSub no_params = Unit
    IsSoundSub (params ps) = IsSound ps

  -- The call ends, in such a state.
  abbrev Runs : Bool → State m.V → Option (State m.V) → Type 0
  Runs parent st none = ⊥
  Runs parent st (some st') = Kept parent st st'

  Runs-then :
      (parent : Bool) (st : State m.V) (o : Option (State m.V)) (k : State m.V → Option (State m.V))
      → Runs parent st o
      → ((st' : State m.V) → Runs parent st' (k st'))
      → Runs parent st (elim o [ none ↦ none | some st' ↦ k st' ])
  Runs-then parent st none k h g = h
  Runs-then parent st (some st') k h g = Runs-after (k st') h (g st')
    where
      Runs-after :
          (o : Option (State m.V)) → Kept parent st st' → Runs parent st' o → Runs parent st o
      Runs-after none k g = g
      Runs-after (some st2) k g = Kept-trans parent st st' st2 k g

  Runs-choice :
      (parent sing : Bool) (st st' : State m.V) (o : Option (ℕ → m.V))
      → Kept parent st st'
      → (if sing then some st' else Option.map (λ s. record st' { store = s }) o) ≢ none
      → Runs parent st (if sing then some st' else Option.map (λ s. record st' { store = s }) o)
  Runs-choice parent true st st' o k h = k
  Runs-choice parent false st st' none k h = h refl
  Runs-choice parent false st st' (some s) k h = record {
    grows = k.grows;
    silent = k.silent;
    heard = k.heard;
    legal = k.legal;
  }

  check_choice-Runs :
      (parent : Bool) (msg : List ℕ) (def : m.V) (sub : Sub m.V) (st : State m.V)
      → check_choice m msg def sub st ≢ none
      → Runs parent st (check_choice m msg def sub st)
  unfolding check_choice
  check_choice-Runs parent msg def no_params st h = h refl
  check_choice-Runs parent msg def (params ps) st h =
      Runs-choice parent (count m st.store ps false st.err_ret).1 st _ _
        (Kept-counted parent (err_msg msg) (count m st.store ps false st.err_ret).0 st
          (count-cases st.store ps false st.err_ret))
        h

  Runs-value :
      (name msg : List ℕ) (parent : Bool) (st : State m.V) (o : Option Bool)
      → o ≢ none
      → Runs parent st (
          Option.map
            (λ bad.
              let st' : State m.V = if bad then report (err_msg msg) wrong st else st in
              if parent then st' else report (illegal_sub name) illegal st')
            o)
  Runs-value name msg parent st none h = h refl
  Runs-value name msg true st (some true) h = Kept-report true (err_msg msg) st
  Runs-value name msg true st (some false) h = Kept-refl true st
  Runs-value name msg false st (some true) h =
      Kept-trans false st _ _ (Kept-report false (err_msg msg) st) (Kept-illegal name _)
  Runs-value name msg false st (some false) h = Kept-illegal name st

  Runs-if :
      (parent b : Bool) (st : State m.V) (o : Option (State m.V))
      → (b ≡ true → Runs parent st o)
      → Runs parent st (if b then o else some st)
  Runs-if parent true st o h = h refl
  Runs-if parent false st o h = Kept-refl parent st

  Runs-closed :
      (parent b : Bool) (name : List ℕ) (st : State m.V) (o : Option (State m.V))
      → st.err_ret ≡ fine
      → Runs b (set_ret fine st) o
      → Runs parent st (Option.map (close name) o)
  Runs-closed parent b name st none e h = h
  Runs-closed parent b name st (some st') e h =
      Kept-close parent b name st st'.store st'.messages st'.err_ret e h

  both : (b : Bool) (r : Ret) → (b && is_fine r) ≡ true → r ≡ fine
  both true fine h = refl
  both true wrong h = absurd (cc h)
  both true illegal h = absurd (cc h)
  both false r h = absurd (cc h)

  mutual
    unfolding check_list check_par check_value IsSound

    check_list-Runs :
        (ps : Params m.V) (parent : Bool) (st : State m.V)
        → IsSound ps
        → Runs parent st (check_list m cards ps parent st)
    check_list-Runs end parent st h = Kept-refl parent st
    check_list-Runs (more p ps) parent st h =
        Runs-then parent st (check_one m cards p parent st) (check_list m cards ps parent)
          (check_one-Runs p parent st h.0) (λ st'. check_list-Runs ps parent st' h.1)

    check_one-Runs :
        (p : Par m.V) (parent : Bool) (st : State m.V)
        → IsSoundPar p
        → Runs parent st (check_one m cards p parent st)
    check_one-Runs (par a name def bexp type msg sub) parent st h =
        Runs-then parent st (check_par m cards name msg def bexp type sub parent st) _
          (Runs-then parent st _ _
            (Runs-if parent (flagged type choice) st (check_choice m msg def sub st)
              (λ e. check_choice-Runs parent msg def sub st (h.1 e st)))
            (λ st'. Runs-if parent (flagged type specified) st' _ (λ e.
              Runs-value name msg parent st' (is_wrong m cards st'.store bexp) (h.0 st'.store))))
          (λ st'.
            Runs-if parent (not (flagged type choice) && is_fine st'.err_ret) st' _
              (λ e. check_sub-Runs name sub parent _ st' (both _ st'.err_ret e) h.2))

    check_sub-Runs :
        (name : List ℕ) (sub : Sub m.V) (parent b : Bool) (st : State m.V)
        → st.err_ret ≡ fine
        → IsSoundSub sub
        → Runs parent st (check_sub m cards name sub b st)
    check_sub-Runs name no_params parent b st e h = Kept-refl parent st
    check_sub-Runs name (params ps) parent b st e h =
        Runs-closed parent b name st (check_list m cards ps b (set_ret fine st)) e
          (check_list-Runs ps b (set_ret fine st) h)

  -- What a whole call answers: 0 just when it wrote nothing, and -2 only under a false parent.
  pub record IsVerdict (parent : Bool) (messages : List Message) (st : State m.V) : Type 0 where
    pub silent : st.err_ret ≡ fine → st.messages ≡ messages
    pub heard : st.err_ret ≢ fine → suc (length messages) ≤ length st.messages
    pub legal : parent ≡ true → st.err_ret ≢ illegal

  Runs-IsVerdict :
      (parent : Bool) (store : ℕ → m.V) (messages : List Message) (o : Option (State m.V))
      → Runs parent (record { store = store; messages = messages; err_ret = fine }) o
      → (st : State m.V) × (o ≡ some st) × IsVerdict parent messages st
  Runs-IsVerdict parent store messages none h = absurd h
  Runs-IsVerdict parent store messages (some st) h = (
    st,
    refl,
    record {
      silent = λ e. (h.silent e).1;
      heard = λ e. elim (h.heard e) [ inl p ↦ absurd (p refl) | inr p ↦ p ];
      legal = λ e. h.legal e (λ i. cc i);
    },
  )

  -- Where every legality function evaluates and every choice has parameters and a default that is
  -- one of them, `error_check` ends; it returns 0 just when it wrote no message, and for a parent
  -- that is true never -2.
  pub error_check-IsVerdict :
      (ps : Params m.V) (parent : Bool) (store : ℕ → m.V) (messages : List Message)
      → IsSound ps
      → (st : State m.V) × (error_check m cards ps parent store messages ≡ some st)
        × IsVerdict parent messages st
  unfolding error_check
  error_check-IsVerdict ps parent store messages h =
      Runs-IsVerdict parent store messages _ (check_list-Runs ps parent _ h)
