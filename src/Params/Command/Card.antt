-- ===== src/Params/Command/Card.antt =====
-- check/verify.c: check, over the tree of the parameters and the store of their values.
use tcad_webapp.Prelude.{
  ℕ, Bool, true, false, ◌&&◌, Option, none, some, List, [], ◌∷◌, ◌++◌, length, leb, if◌then◌else◌,
}
use tcad_webapp.Expr.Eval.{Reals}
use tcad_webapp.Expr.Lexical.{Scanner}
use tcad_webapp.Params.{Machine, Par, par, Params, Sub, no_params, params, address_of}
use tcad_webapp.Params.BoolCheck.{put, bool_check, Checked, checked, unset, failed}
use tcad_webapp.Params.Check.{Message, err_msg, error_check, is_fine, State}
use tcad_webapp.Params.Default.{assign_deflt, deflt_check}
use tcad_webapp.Params.Split.{Split, argv, unmatched, unfinished, split}
use tcad_webapp.Params.Command.{
  numpar, clear_mark, unspecify, unspecify_sub, specify, Conversions, Verified, accepted, refused,
  crashed, verify,
}

-- The parameters, their values, the variable `value`, and whether `err_ret` is still 0.
pub record Reading (V : Type 0) : Type 0 where
  pub ps : Params V
  pub store : ℕ → V
  pub value : V
  pub fine : Bool

-- The card, the values, the messages of the legality functions, and whether 0 is returned.
pub record CardResult (V : Type 0) : Type 0 where
  pub card : Par V
  pub store : ℕ → V
  pub messages : List Message
  pub zero_returned : Bool

-- `none` is a read of what was not written or of what lies outside `argv`, or a `panic`.
module _ (m : Machine) (r : Reals) (c : Scanner r.F) (k : Conversions m r.F)
    (cards : Params m.V) where
  abbrev pub take_value : Verified m.V → Reading m.V → Option (Reading m.V)
  take_value (accepted p v) st = some (record st {
    ps = specify (address_of p) st.ps;
    store = put st.store (address_of p) v;
    value = v;
  })
  take_value refused st = some (record st { fine = false })
  take_value crashed st = none

  -- The loop over `argv`.
  unfoldable pub read_args : List (List ℕ) → Reading m.V → Option (Reading m.V)
  unfolding verify specify
  read_args [] st = some st
  read_args (arg ∷ args) st = elim (take_value (verify m r c k arg st.ps st.value) st) [
    | none ↦ none
    | some st' ↦ read_args args st'
  ]

  -- After the loop: the defaults, and the checks of the values.
  unfoldable pub check_values : Params m.V → (ℕ → m.V) → List Message → Option (State m.V)
  unfolding assign_deflt deflt_check error_check
  check_values ps store messages = elim (deflt_check m cards ps (assign_deflt ps store)) [
    | none ↦ none
    | some store' ↦ error_check m cards ps true store' messages
  ]

  abbrev pub judged : Reading m.V → Option (State m.V) → Option (Params m.V × State m.V × Bool)
  judged st none = none
  judged st (some s) = some (st.ps, s, st.fine && is_fine s.err_ret)

  abbrev pub judge_reading :
      List Message → Option (Reading m.V) → Option (Params m.V × State m.V × Bool)
  judge_reading messages none = none
  judge_reading messages (some st) = judged st (check_values st.ps st.store messages)

  -- The parameters `ps` of the card, where there are some.
  unfoldable pub check_params :
      Params m.V
      → List (List ℕ)
      → m.V
      → Bool
      → (ℕ → m.V)
      → List Message
      → Option (Params m.V × State m.V × Bool)
  unfolding read_args check_values
  check_params ps args value fine store messages =
      judge_reading messages
        (read_args args (record { ps = ps; store = store; value = value; fine = fine }))

  -- The end of check: the card is set where all went well.
  abbrev pub close_card : Par m.V → Sub m.V → (ℕ → m.V) → List Message → Bool → CardResult m.V
  close_card (par a s def bexp type msg old) sub store messages fine = record {
    card = par a s def bexp (if fine then clear_mark type else type) msg sub;
    store = if fine then put store a (m.set_ival (store a) (m.of_bool true)) else store;
    messages = messages;
    zero_returned = fine;
  }

  abbrev pub finish_card :
      Par m.V → Option (Params m.V × State m.V × Bool) → Option (CardResult m.V)
  finish_card card none = none
  finish_card card (some (ps, s, fine)) = some (close_card card (params ps) s.store s.messages fine)

  unfoldable pub check_args :
      Par m.V
      → Sub m.V
      → List (List ℕ)
      → m.V
      → Bool
      → (ℕ → m.V)
      → List Message
      → Option (CardResult m.V)
  unfolding check_params
  check_args card no_params args value fine store messages =
      some (close_card card no_params store messages fine)
  check_args card (params ps) args value fine store messages =
      finish_card card (check_params ps args value fine store messages)

  -- The split of the text, which may be the null pointer.
  unfoldable pub split_args : Option (List ℕ) → Split
  unfolding split
  split_args none = argv []
  split_args (some text) = split c.isspace text true

  -- `par` with the sub-parameters that stand there when check leaves after an unmatched quote.
  abbrev pub stopped : Par m.V → Sub m.V → (ℕ → m.V) → List Message → CardResult m.V
  stopped (par a s def bexp type msg old) sub store messages = record {
    card = par a s def bexp type msg sub;
    store = store;
    messages = messages;
    zero_returned = false;
  }

  abbrev pub check_line :
      Par m.V → Sub m.V → Split → m.V → Bool → (ℕ → m.V) → List Message → Option (CardResult m.V)
  check_line card sub (argv args) value fine store messages =
      if leb numpar (length args) then none else check_args card sub args value fine store messages
  check_line card sub unmatched value fine store messages = some (stopped card sub store messages)
  check_line card sub unfinished value fine store messages = none

  abbrev pub message_of : Par m.V → Message
  message_of (par a s def bexp type msg sub) = err_msg msg

  -- Whether the card can be specified: the value and the verdict of its legality function.
  abbrev pub check_start :
      Checked m.V → Par m.V → Sub m.V → Split → (ℕ → m.V) → List Message → Option (CardResult m.V)
  check_start unset card sub line store messages =
      check_line card sub line m.fresh true store messages
  check_start failed card sub line store messages = none
  check_start (checked v t) card sub line store messages =
      if m.is_zero (m.ival v)
      then check_line card sub line v true store messages
      else check_line card sub line v false store (messages ++ (message_of card ∷ []))

  unfoldable pub check :
      Option (List ℕ) → Par m.V → (ℕ → m.V) → List Message → Option (CardResult m.V)
  unfolding bool_check unspecify check_args split_args
  check line (par a s def bexp type msg sub) store messages =
      check_start (bool_check m cards store bexp) (par a s def bexp type msg sub)
        (unspecify_sub sub) (split_args line) store messages
