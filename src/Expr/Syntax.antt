-- ===== src/Expr/Syntax.antt =====
-- Expressions by precedence, their tokens and their trees: what the operators of check/parse.c mean.
-- A sign binds tightest, then `^`, then `*` and `/`, then `+` and `-`; all associate to the left.
use tcad_webapp.Prelude.{ℕ, ◌≡◌, Bool, true, false, List, [], ◌∷◌, ◌++◌}
use tcad_webapp.Expr.Token.{Label, op1, op2, op3, lpar, rpar, comma, VecStr, null, node}
use tcad_webapp.Expr.Grammar.{IsOperand, IsFunction}

mutual
  pub data Atom (F : Type 0) : Type 0 where
    leaf : (l : Label F) → IsOperand l → Atom F
    sign : ℕ → Atom F → Atom F
    group : Sum F → Atom F
    apply : (f : Label F) → IsFunction f → Sum F → Atom F
    apply_two : (f : Label F) → IsFunction f → Power F → Sum F → Atom F

  pub data Power (F : Type 0) : Type 0 where
    base : Atom F → Power F
    raise : Power F → ℕ → Atom F → Power F

  pub data Product (F : Type 0) : Type 0 where
    one : Power F → Product F
    times : Product F → ℕ → Power F → Product F

  pub data Sum (F : Type 0) : Type 0 where
    term : Product F → Sum F
    plus : Sum F → ℕ → Product F → Sum F

unfoldable mutual
  pub print_atom : {F : Type 0} → Atom F → List (Label F)
  print_atom (leaf l o) = l ∷ []
  print_atom (sign c a) = op1 c ∷ print_atom a
  print_atom (group s) = lpar ∷ (print s ++ (rpar ∷ []))
  print_atom (apply f h s) = f ∷ lpar ∷ (print s ++ (rpar ∷ []))
  print_atom (apply_two f h p s) = f ∷ lpar ∷ (print_power p ++ (comma ∷ (print s ++ (rpar ∷ []))))

  pub print_power : {F : Type 0} → Power F → List (Label F)
  print_power (base a) = print_atom a
  print_power (raise p c a) = print_power p ++ (op3 c ∷ print_atom a)

  pub print_product : {F : Type 0} → Product F → List (Label F)
  print_product (one p) = print_power p
  print_product (times q c p) = print_product q ++ (op2 c ∷ print_power p)

  pub print : {F : Type 0} → Sum F → List (Label F)
  print (term q) = print_product q
  print (plus s c q) = print s ++ (op1 c ∷ print_product q)

unfoldable mutual
  pub tree_atom : {F : Type 0} → Atom F → VecStr F
  tree_atom (leaf l o) = node l null null
  tree_atom (sign c a) = node (op1 c) null (tree_atom a)
  tree_atom (group s) = tree s
  tree_atom (apply f h s) = node f null (tree s)
  tree_atom (apply_two f h p s) = node f (tree_power p) (tree s)

  pub tree_power : {F : Type 0} → Power F → VecStr F
  tree_power (base a) = tree_atom a
  tree_power (raise p c a) = node (op3 c) (tree_power p) (tree_atom a)

  pub tree_product : {F : Type 0} → Product F → VecStr F
  tree_product (one p) = tree_power p
  tree_product (times q c p) = node (op2 c) (tree_product q) (tree_power p)

  pub tree : {F : Type 0} → Sum F → VecStr F
  tree (term q) = tree_product q
  tree (plus s c q) = node (op1 c) (tree s) (tree_product q)

-- Whether the first token is a sign.
abbrev pub signed_atom : {F : Type 0} → Atom F → Bool
signed_atom (sign c a) = true
signed_atom _ = false

abbrev pub signed_power : {F : Type 0} → Power F → Bool
signed_power (base a) = signed_atom a
signed_power (raise p c a) = signed_power p

abbrev pub signed_product : {F : Type 0} → Product F → Bool
signed_product (one p) = signed_power p
signed_product (times q c p) = signed_product q

abbrev pub signed : {F : Type 0} → Sum F → Bool
signed (term q) = signed_product q
signed (plus s c q) = signed s

-- No second argument begins with a sign.
unfoldable mutual
  pub PlainAtom : {F : Type 0} → Atom F → Type 0
  PlainAtom (leaf l o) = Unit
  PlainAtom (sign c a) = PlainAtom a
  PlainAtom (group s) = IsPlain s
  PlainAtom (apply f h s) = IsPlain s
  PlainAtom (apply_two f h p s) = PlainPower p × IsPlain s × (signed s ≡ false)

  pub PlainPower : {F : Type 0} → Power F → Type 0
  PlainPower (base a) = PlainAtom a
  PlainPower (raise p c a) = PlainPower p × PlainAtom a

  pub PlainProduct : {F : Type 0} → Product F → Type 0
  PlainProduct (one p) = PlainPower p
  PlainProduct (times q c p) = PlainProduct q × PlainPower p

  pub IsPlain : {F : Type 0} → Sum F → Type 0
  IsPlain (term q) = PlainProduct q
  IsPlain (plus s c q) = IsPlain s × PlainProduct q
