-- ===== src/Expr/Arith.antt =====
-- Arithmetic by precedence, and `eval_real` of what `parse_expr` makes of its tokens.
use tcad_webapp.Prelude.{
  ℕ, ◌<◌, ◌≡◌, refl, ◌∙◌, false, Option, none, some, arith, length, if◌then◌else◌, ◌==◌,
}
use tcad_webapp.Expr.Token.{Label, op1, op2, op3, rconst, VecStr, null, node}
use tcad_webapp.Expr.Parse.{parsed, parse_expr}
use tcad_webapp.Expr.Syntax.{
  Atom, leaf, sign, group, apply, apply_two, Power, base, raise, Product, one, times, Sum, term,
  plus, print, tree_atom, tree_power, tree_product, tree, IsPlain,
}
use tcad_webapp.Expr.RoundTrip.{parse_expr-print}
use tcad_webapp.Expr.Eval.{Reals, written, is_null, eval_node, eval_kid, eval_real}

module _ {F : Type 0} where
  abbrev pub ap1 : Option (F → F) → Option F → Option F
  ap1 (some f) (some v) = some (f v)
  ap1 _ _ = none

  abbrev pub ap2 : Option (F → F → F) → Option F → Option F → Option F
  ap2 (some f) (some v) (some w) = some (f v w)
  ap2 _ _ _ = none

  -- No tree of an expression is the null pointer.
  mutual
    unfolding tree_atom

    atom_not_null : (a : Atom F) → is_null (tree_atom a) ≡ false
    atom_not_null (leaf l o) = refl
    atom_not_null (sign c a) = refl
    atom_not_null (group s) = sum_not_null s
    atom_not_null (apply f h s) = refl
    atom_not_null (apply_two f h p s) = refl

    power_not_null : (p : Power F) → is_null (tree_power p) ≡ false
    power_not_null (base a) = atom_not_null a
    power_not_null (raise p c a) = refl

    product_not_null : (q : Product F) → is_null (tree_product q) ≡ false
    product_not_null (one p) = power_not_null p
    product_not_null (times q c p) = refl

    sum_not_null : (s : Sum F) → is_null (tree s) ≡ false
    sum_not_null (term q) = product_not_null q
    sum_not_null (plus s c q) = refl

module _ (r : Reals) where
  open r use {F, neg, add, sub, mul, div, pow}

  abbrev sign_of : ℕ → Option (F → F)
  sign_of c = if c == b'+' then some (λ v. v) else if c == b'-' then some neg else none

  abbrev sum_of : ℕ → Option (F → F → F)
  sum_of c = if c == b'+' then some add else if c == b'-' then some sub else none

  abbrev product_of : ℕ → Option (F → F → F)
  product_of c = if c == b'*' then some mul else if c == b'/' then some div else none

  abbrev power_of : ℕ → Option (F → F → F)
  power_of c = if c == b'^' then some pow else none

  abbrev constant : Label F → Option F
  constant (rconst v) = some v
  constant _ = none

  -- The value of an expression of constants, signs, operators and parentheses.
  unfoldable mutual
    pub value_atom : Atom F → Option F
    value_atom (leaf l o) = constant l
    value_atom (sign c a) = ap1 (sign_of c) (value_atom a)
    value_atom (group s) = value s
    value_atom (apply f h s) = none
    value_atom (apply_two f h p s) = none

    pub value_power : Power F → Option F
    value_power (base a) = value_atom a
    value_power (raise p c a) = ap2 (power_of c) (value_power p) (value_atom a)

    pub value_product : Product F → Option F
    value_product (one p) = value_power p
    value_product (times q c p) = ap2 (product_of c) (value_product q) (value_power p)

    pub value : Sum F → Option F
    value (term q) = value_product q
    value (plus s c q) = ap2 (sum_of c) (value s) (value_product q)

  abbrev Evaluates : Option F → VecStr F → Type 0
  Evaluates o t = (v : F) → o ≡ some v → eval_kid r t ≡ written (some v)

  -- An operator over two trees that evaluate.
  operate :
      (l : Label F) (f : Option (F → F → F)) (a b : Option F) (t u : VecStr F)
      → ((g : F → F → F)
          → f ≡ some g
          → (w x : F) → eval_node r l false false (some w) (some x) ≡ written (some (g w x)))
      → Evaluates a t
      → Evaluates b u
      → is_null t ≡ false
      → is_null u ≡ false
      → Evaluates (ap2 f a b) (node l t u)
  unfolding eval_kid
  operate l (some g) (some w) (some x) t u op ha hb nt nu v e =
      rw (nt, nu, ha w refl, hb x refl, op g refl w x) e'
    where
      e' : written (some (g w x)) ≡ written (some v)
      e' = cc
  operate l none a b t u op ha hb nt nu v e = cc
  operate l (some g) none b t u op ha hb nt nu v e = cc
  operate l (some g) (some w) none t u op ha hb nt nu v e = cc

  signed_value :
      (c : ℕ) (a : Option F) (t : VecStr F)
      → Evaluates a t
      → Evaluates (ap1 (sign_of c) a) (node (op1 c) null t)
  unfolding eval_kid
  signed_value c (some w) t h v e = rw (h w refl) (ground arith)
  signed_value c none t h v e = ground arith

  sum_op :
      (c : ℕ) (g : F → F → F)
      → sum_of c ≡ some g
      → (w x : F) → eval_node r (op1 c) false false (some w) (some x) ≡ written (some (g w x))
  unfolding eval_node
  sum_op c g e w x = ground arith

  product_op :
      (c : ℕ) (g : F → F → F)
      → product_of c ≡ some g
      → (w x : F) → eval_node r (op2 c) false false (some w) (some x) ≡ written (some (g w x))
  unfolding eval_node
  product_op c g e w x = ground arith

  power_op :
      (c : ℕ) (g : F → F → F)
      → power_of c ≡ some g
      → (w x : F) → eval_node r (op3 c) false false (some w) (some x) ≡ written (some (g w x))
  unfolding eval_node
  power_op c g e w x = ground arith

  constant-Evaluates : (l : Label F) → Evaluates (constant l) (node l null null)
  unfolding eval_kid
  constant-Evaluates (rconst w) v e = cc
  constant-Evaluates _ v e = cc

  mutual
    unfolding value_atom tree_atom

    atom-Evaluates : (a : Atom F) → Evaluates (value_atom a) (tree_atom a)
    atom-Evaluates (leaf l o) = constant-Evaluates l
    atom-Evaluates (sign c a) = signed_value c (value_atom a) (tree_atom a) (atom-Evaluates a)
    atom-Evaluates (group s) = sum-Evaluates s
    atom-Evaluates (apply f h s) = λ v e. cc
    atom-Evaluates (apply_two f h p s) = λ v e. cc

    power-Evaluates : (p : Power F) → Evaluates (value_power p) (tree_power p)
    power-Evaluates (base a) = atom-Evaluates a
    power-Evaluates (raise p c a) =
        operate (op3 c) (power_of c) (value_power p) (value_atom a) (tree_power p) (tree_atom a)
          (power_op c) (power-Evaluates p) (atom-Evaluates a) (power_not_null p) (atom_not_null a)

    product-Evaluates : (q : Product F) → Evaluates (value_product q) (tree_product q)
    product-Evaluates (one p) = power-Evaluates p
    product-Evaluates (times q c p) =
        operate (op2 c) (product_of c) (value_product q) (value_power p) (tree_product q)
          (tree_power p) (product_op c) (product-Evaluates q) (power-Evaluates p)
          (product_not_null q) (power_not_null p)

    sum-Evaluates : (s : Sum F) → Evaluates (value s) (tree s)
    sum-Evaluates (term q) = product-Evaluates q
    sum-Evaluates (plus s c q) =
        operate (op1 c) (sum_of c) (value s) (value_product q) (tree s) (tree_product q) (sum_op c)
          (sum-Evaluates s) (product-Evaluates q) (sum_not_null s) (product_not_null q)

  kid-real : (t : VecStr F) → is_null t ≡ false → eval_real r t ≡ eval_kid r t
  unfolding eval_real
  kid-real null h = cc
  kid-real (node l a b) h = refl

  -- The tokens of an arithmetic expression of fewer than 99 tokens are parsed, and the value of
  -- what is parsed is that of the expression: a sign first, then `^`, then `*` and `/`, then `+`
  -- and `-`, from left to right.
  pub parse_expr-eval_real :
      (s : Sum F) (v : F)
      → IsPlain s
      → length (print s) < 99
      → value s ≡ some v
      → (t : VecStr F) × (parse_expr (print s) ≡ parsed t) × (eval_real r t ≡ written (some v))
  parse_expr-eval_real s v h small e =
      (tree s, parse_expr-print s h small, kid-real (tree s) (sum_not_null s) ∙ sum-Evaluates s v e)
