-- ===== src/Expr/Context.antt =====
-- Where on the stack an operand, a power, a product or a sum may be read.
use tcad_webapp.Prelude.{ℕ, ◌≡◌, refl, Bool, true, false, [], ◌∷◌}
use tcad_webapp.Expr.Token.{
  op1, op2, op3, lpar, rpar, comma, topstk, VecStr, null, node, TokStr, expr, tok, Stack,
}
use tcad_webapp.Expr.Reduce.{again, stop, reduce}
use tcad_webapp.Expr.Parse.{detect_error}
use tcad_webapp.Expr.Progress.{IsBased, IsBased-push}
use tcad_webapp.Expr.Safety.{detect_error-false}

-- The flag says whether a sign may come.
pub record AtomContext {F : Type 0} (b : Bool) (st : Stack F) : Type 0 where
  pub based : IsBased st
  pub known : (i : TokStr F) → detect_error i st ≡ false
  pub quiet : (o : ℕ) → reduce (tok (op1 o)) st ≡ stop
  pub closes : (t : VecStr F) → reduce (tok rpar) (expr t ∷ tok lpar ∷ st) ≡ again (expr t) st
  pub signs :
      b ≡ true
      → (o : ℕ) (t : VecStr F)
      → reduce (expr t) (tok (op1 o) ∷ st) ≡ again (expr (node (op1 o) null t)) st

pub record PowerContext {F : Type 0} (b : Bool) (st : Stack F) : Type 0 where
  pub atoms : AtomContext b st
  pub still : (t : VecStr F) → reduce (expr t) st ≡ stop

pub record ProductContext {F : Type 0} (b : Bool) (st : Stack F) : Type 0 where
  pub powers : PowerContext b st
  pub still : (o : ℕ) (t : VecStr F) → reduce (tok (op2 o)) (expr t ∷ st) ≡ stop

pub record SumContext {F : Type 0} (b : Bool) (st : Stack F) : Type 0 where
  pub products : ProductContext b st
  pub still : (o : ℕ) (t : VecStr F) → reduce (tok (op1 o)) (expr t ∷ st) ≡ stop

module _ {F : Type 0} where
  pub at_start : SumContext {F = F} true (tok topstk ∷ [])
  unfolding reduce
  at_start = record {
    products = record {
      powers = record {
        atoms = record {
          based = refl;
          known = λ i. detect_error-false i (tok topstk) [] (λ e. cc);
          quiet = λ o. refl;
          closes = λ t. refl;
          signs = λ h o t. refl;
        };
        still = λ t. refl;
      };
      still = λ o t. refl;
    };
    still = λ o t. refl;
  }

  pub in_paren : (st : Stack F) → IsBased st → SumContext true (tok lpar ∷ st)
  unfolding reduce
  in_paren st h = record {
    products = record {
      powers = record {
        atoms = record {
          based = IsBased-push (tok lpar) st h;
          known = λ i. detect_error-false i (tok lpar) st (λ e. cc);
          quiet = λ o. refl;
          closes = λ t. refl;
          signs = λ h o t. refl;
        };
        still = λ t. refl;
      };
      still = λ o t. refl;
    };
    still = λ o t. refl;
  }

  pub at_comma : (st : Stack F) → IsBased st → SumContext false (tok comma ∷ st)
  unfolding reduce
  at_comma st h = record {
    products = record {
      powers = record {
        atoms = record {
          based = IsBased-push (tok comma) st h;
          known = λ i. detect_error-false i (tok comma) st (λ e. cc);
          quiet = λ o. refl;
          closes = λ t. refl;
          signs = λ h o t. cc;
        };
        still = λ t. refl;
      };
      still = λ o t. refl;
    };
    still = λ o t. refl;
  }

  pub after_op1 :
      (c : ℕ) (l : VecStr F) (st : Stack F)
      → IsBased (expr l ∷ st)
      → ProductContext true (tok (op1 c) ∷ expr l ∷ st)
  unfolding reduce
  after_op1 c l st h = record {
    powers = record {
      atoms = record {
        based = h;
        known = λ i. detect_error-false i (tok (op1 c)) (expr l ∷ st) (λ e. cc);
        quiet = λ o. refl;
        closes = λ t. refl;
        signs = λ h o t. refl;
      };
      still = λ t. refl;
    };
    still = λ o t. refl;
  }

  pub after_op2 :
      (c : ℕ) (l : VecStr F) (st : Stack F)
      → IsBased (expr l ∷ st)
      → PowerContext true (tok (op2 c) ∷ expr l ∷ st)
  unfolding reduce
  after_op2 c l st h = record {
    atoms = record {
      based = h;
      known = λ i. detect_error-false i (tok (op2 c)) (expr l ∷ st) (λ e. cc);
      quiet = λ o. refl;
      closes = λ t. refl;
      signs = λ h o t. refl;
    };
    still = λ t. refl;
  }

  pub after_op3 :
      (c : ℕ) (l : VecStr F) (st : Stack F)
      → IsBased (expr l ∷ st)
      → AtomContext true (tok (op3 c) ∷ expr l ∷ st)
  unfolding reduce
  after_op3 c l st h = record {
    based = h;
    known = λ i. detect_error-false i (tok (op3 c)) (expr l ∷ st) (λ e. cc);
    quiet = λ o. refl;
    closes = λ t. refl;
    signs = λ h o t. refl;
  }

  pub after_sign : (c : ℕ) (st : Stack F) → IsBased st → AtomContext true (tok (op1 c) ∷ st)
  unfolding reduce
  after_sign c st h = record {
    based = IsBased-push (tok (op1 c)) st h;
    known = λ i. detect_error-false i (tok (op1 c)) st (λ e. cc);
    quiet = λ o. refl;
    closes = λ t. refl;
    signs = λ h o t. refl;
  }
