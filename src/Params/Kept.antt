-- ===== src/Params/Kept.antt =====
-- From one state of error_check to a later one.
use tcad_webapp.Prelude.{
  ℕ, suc, ◌≡◌, ◌≢◌, ◌≤◌, refl, sym, ◌∙◌, Bool, true, false, List, [], ◌∷◌, if◌then◌else◌, arith,
  inl, inr, length, length-append, ◌⊎◌,
}
use tcad_webapp.Params.Check.{
  Ret, fine, wrong, illegal, State, Message, report, set_ret, close, is_wrong_ret, illegal_sub,
  has_to_be_true,
}

-- From one state to a later one of the same call: 0 stands only where no line was written, and
-- what is not 0 stays so.
module _ {V : Type 0} where
  pub record Kept (parent : Bool) (st st' : State V) : Type 0 where
    pub grows : length st.messages ≤ length st'.messages
    pub silent : st'.err_ret ≡ fine → (st.err_ret ≡ fine) × (st'.messages ≡ st.messages)
    pub heard :
        st'.err_ret ≢ fine → (st.err_ret ≢ fine) ⊎ (suc (length st.messages) ≤ length st'.messages)
    pub legal : parent ≡ true → st.err_ret ≢ illegal → st'.err_ret ≢ illegal

  pub Kept-refl : (parent : Bool) (st : State V) → Kept parent st st
  Kept-refl parent st = record {
    grows = omega arith;
    silent = λ h. (h, refl);
    heard = λ h. inl h;
    legal = λ h g. g;
  }

  pub Kept-trans :
      (parent : Bool) (a b c : State V) → Kept parent a b → Kept parent b c → Kept parent a c
  Kept-trans parent a b c k l = record {
    grows = omega (arith, k.grows, l.grows);
    silent = λ h. let (p, q) = l.silent h in let (r, s) = k.silent p in (r, q ∙ s);
    heard = λ h. elim (l.heard h) [
      | inl p ↦ elim (k.heard p) [ inl q ↦ inl q | inr q ↦ inr (omega (arith, l.grows)) ]
      | inr p ↦ inr (omega (arith, k.grows))
    ];
    legal = λ h g. l.legal h (k.legal h g);
  }

  pub Kept-report :
      (parent : Bool) (msg : Message) (st : State V) → Kept parent st (report msg wrong st)
  Kept-report parent msg st = record {
    grows = omega (arith, length-append st.messages (msg ∷ []));
    silent = λ h. absurd (cc h);
    heard = λ h. inr (omega (arith, length-append st.messages (msg ∷ [])));
    legal = λ h g e. cc e;
  }

  pub Kept-illegal :
      (name : List ℕ) (st : State V) → Kept false st (report (illegal_sub name) illegal st)
  Kept-illegal name st = record {
    grows = omega (arith, length-append st.messages (illegal_sub name ∷ []));
    silent = λ h. absurd (cc h);
    heard = λ h. inr (omega (arith, length-append st.messages (illegal_sub name ∷ [])));
    legal = λ h. absurd (cc h);
  }

  -- The loop over a choice leaves `err_ret` or makes it -1, which is reported.
  pub Kept-counted :
      (parent : Bool) (msg : Message) (r : Ret) (st : State V)
      → (r ≡ st.err_ret) ⊎ (r ≡ wrong)
      → Kept parent st (if is_wrong_ret r then report msg r st else set_ret r st)
  Kept-counted parent msg wrong st h = Kept-report parent msg st
  Kept-counted parent msg fine st (inl h) = record {
    grows = omega arith;
    silent = λ g. (sym h, refl);
    heard = λ g. absurd (g refl);
    legal = λ g i e. cc e;
  }
  Kept-counted parent msg illegal st (inl h) = record {
    grows = omega arith;
    silent = λ g. absurd (cc g);
    heard = λ g. inl (λ e. cc (h ∙ e));
    legal = λ g i e. i (sym h);
  }
  Kept-counted parent msg fine st (inr h) = absurd (cc h)
  Kept-counted parent msg illegal st (inr h) = absurd (cc h)

  -- The call for the sub-parameters, from an `err_ret` of 0.
  pub Kept-close :
      (parent b : Bool) (name : List ℕ) (st : State V) (s : ℕ → V) (ms : List Message) (r : Ret)
      → st.err_ret ≡ fine
      → Kept b (set_ret fine st) (record { store = s; messages = ms; err_ret = r })
      → Kept parent st (close name (record { store = s; messages = ms; err_ret = r }))
  Kept-close parent b name st s ms fine e k = record {
    grows = k.grows;
    silent = λ h. (e, (k.silent refl).1);
    heard = λ h. absurd (h refl);
    legal = λ g i h. cc h;
  }
  Kept-close parent b name st s ms wrong e k = record {
    grows = k.grows;
    silent = λ h. absurd (cc h);
    heard = λ h. elim (k.heard h) [ inl p ↦ absurd (p refl) | inr p ↦ inr p ];
    legal = λ g i h. cc h;
  }
  Kept-close parent b name st s ms illegal e k = record {
    grows = omega (arith, k.grows, length-append ms (has_to_be_true name ∷ []));
    silent = λ h. absurd (cc h);
    heard = λ h. inr (omega (arith, k.grows, length-append ms (has_to_be_true name ∷ [])));
    legal = λ g i h. cc h;
  }
