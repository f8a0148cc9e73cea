-- ===== src/Expr/Complete.antt =====
-- `parse_expr` returns the tree of every expression by precedence.
use tcad_webapp.Prelude.{
  ℕ, ◌≡◌, refl, ◌∙◌, ap, Bool, true, false, List, [], ◌∷◌, ◌++◌, append_assoc,
}
use tcad_webapp.Expr.Token.{Label, op1, op2, op3, lpar, rpar, comma, expr, tok, Stack}
use tcad_webapp.Expr.Reduce.{reduce}
use tcad_webapp.Expr.Parse.{push, run}
use tcad_webapp.Expr.Progress.{IsBased, IsBased-push}
use tcad_webapp.Expr.Grammar
use tcad_webapp.Expr.Syntax.{
  Atom, leaf, sign, group, apply, apply_two, Power, base, raise, Product, one, times, Sum, term,
  plus, print_atom, print_power, print_product, print, tree_atom, tree_power, tree_product, tree,
  signed_atom, signed_power, signed_product, signed, PlainAtom, PlainPower, PlainProduct, IsPlain,
}
use tcad_webapp.Expr.Context.{
  AtomContext, PowerContext, ProductContext, SumContext, in_paren, at_comma, after_op1, after_op2,
  after_op3, after_sign,
}
use tcad_webapp.Expr.Resume.{
  boundless, resume, resume-again, resume-stop, run-resume, run-push, known_expr, reduce-operand,
  reduce-function, known_function, reduce-call, reduce-call_two,
}
use tcad_webapp.Expr.Collapse.{
  product_stack, sum_stack, rpar-IsCloser, op1-IsCloser, known_product, known_sum,
  settle-product_op2, settle-sum,
}

module _ {F : Type 0} where
  -- A token between two parts of a printed expression.
  regroup :
      (ls : List (Label F)) (l : Label F) (ms rest : List (Label F)) (st : Stack F)
      → run boundless ((ls ++ (l ∷ ms)) ++ rest) st ≡ run boundless (ls ++ (l ∷ (ms ++ rest))) st
  regroup ls l ms rest st = ap (λ x. run boundless x st) (append_assoc ls (l ∷ ms) rest)

  -- A closing parenthesis after a sum.
  pub close :
      (s : Sum F) (rest : List (Label F)) (st : Stack F)
      → IsBased st
      → run boundless (rpar ∷ rest) (sum_stack s st) ≡ resume (tok rpar) rest (expr (tree s) ∷ st)
  unfolding resume
  close s rest st b =
      run-resume rpar rest (sum_stack s st) (known_sum (tok rpar) s st)
      ∙ ap (λ r. push boundless r (run boundless rest)) (settle-sum rpar-IsCloser s st b)

  lpar-push :
      {b : Bool} (ls : List (Label F)) (st : Stack F)
      → AtomContext b st
      → run boundless (lpar ∷ ls) st ≡ run boundless ls (tok lpar ∷ st)
  unfolding reduce
  lpar-push ls st c = run-push lpar ls st (c.known (tok lpar)) refl

  -- A function name and the parenthesis after it.
  pub call-push :
      {b : Bool} (f : Label F) (ls : List (Label F)) (st : Stack F)
      → Grammar.IsFunction f
      → AtomContext b st
      → run boundless (f ∷ lpar ∷ ls) st ≡ run boundless ls (tok lpar ∷ tok f ∷ st)
  unfolding reduce
  call-push f ls st h c =
      run-push f (lpar ∷ ls) st (c.known (tok f)) (reduce-function f st h)
      ∙ run-push lpar ls (tok f ∷ st) (known_function (tok lpar) f st h) refl

  op2-push :
      (o : ℕ) (q : Product F) {b : Bool} (ls : List (Label F)) (st : Stack F)
      → ProductContext b st
      → run boundless (op2 o ∷ ls) (product_stack q st)
        ≡ run boundless ls (tok (op2 o) ∷ expr (tree_product q) ∷ st)
  unfolding resume
  op2-push o q ls st c =
      run-resume (op2 o) ls (product_stack q st) (known_product (tok (op2 o)) q st)
      ∙ ap (λ r. push boundless r (run boundless ls))
          (settle-product_op2 o q st c.powers.atoms.based)
      ∙ resume-stop (tok (op2 o)) ls (expr (tree_product q) ∷ st) (c.still o (tree_product q))

  op1-push :
      (o : ℕ) (s : Sum F) {b : Bool} (ls : List (Label F)) (st : Stack F)
      → SumContext b st
      → run boundless (op1 o ∷ ls) (sum_stack s st)
        ≡ run boundless ls (tok (op1 o) ∷ expr (tree s) ∷ st)
  unfolding resume
  op1-push o s ls st c =
      run-resume (op1 o) ls (sum_stack s st) (known_sum (tok (op1 o)) s st)
      ∙ ap (λ r. push boundless r (run boundless ls))
          (settle-sum (op1-IsCloser o) s st c.products.powers.atoms.based)
      ∙ resume-stop (tok (op1 o)) ls (expr (tree s) ∷ st) (c.still o (tree s))

  -- What each sort of expression leaves when it is read where it may stand.
  abbrev pub ReadsAtom : Atom F → Type 0
  ReadsAtom a =
      (rest : List (Label F)) (st : Stack F) (b : Bool)
      → AtomContext b st
      → (signed_atom a ≡ true → b ≡ true)
      → PlainAtom a
      → run boundless (print_atom a ++ rest) st ≡ resume (expr (tree_atom a)) rest st

  abbrev pub ReadsPower : Power F → Type 0
  ReadsPower p =
      (rest : List (Label F)) (st : Stack F) (b : Bool)
      → PowerContext b st
      → (signed_power p ≡ true → b ≡ true)
      → PlainPower p
      → run boundless (print_power p ++ rest) st ≡ run boundless rest (expr (tree_power p) ∷ st)

  abbrev pub ReadsProduct : Product F → Type 0
  ReadsProduct q =
      (rest : List (Label F)) (st : Stack F) (b : Bool)
      → ProductContext b st
      → (signed_product q ≡ true → b ≡ true)
      → PlainProduct q
      → run boundless (print_product q ++ rest) st ≡ run boundless rest (product_stack q st)

  abbrev pub ReadsSum : Sum F → Type 0
  ReadsSum s =
      (rest : List (Label F)) (st : Stack F) (b : Bool)
      → SumContext b st
      → (signed s ≡ true → b ≡ true)
      → IsPlain s
      → run boundless (print s ++ rest) st ≡ run boundless rest (sum_stack s st)

  mutual
    unfolding print_atom tree_atom PlainAtom product_stack sum_stack reduce

    reads_atom : (a : Atom F) → ReadsAtom a
    reads_atom (leaf l o) rest st b c g h =
        run-resume l rest st (c.known (tok l))
        ∙ resume-again (tok l) rest st c.based (reduce-operand l st o)
    reads_atom (sign o a) rest st b c g h =
        run-push (op1 o) (print_atom a ++ rest) st (c.known (tok (op1 o))) (c.quiet o)
        ∙ reads_atom a rest (tok (op1 o) ∷ st) true (after_sign o st c.based) (λ _. refl) h
        ∙ resume-again (expr (tree_atom a)) rest (tok (op1 o) ∷ st)
            (IsBased-push (tok (op1 o)) st c.based) (c.signs (g refl) o (tree_atom a))
    reads_atom (group s) rest st b c g h =
        lpar-push ((print s ++ (rpar ∷ [])) ++ rest) st c
        ∙ regroup (print s) rpar [] rest (tok lpar ∷ st)
        ∙ reads s (rpar ∷ rest) (tok lpar ∷ st) true (in_paren st c.based) (λ _. refl) h
        ∙ close s rest (tok lpar ∷ st) (IsBased-push (tok lpar) st c.based)
        ∙ resume-again (tok rpar) rest (expr (tree s) ∷ tok lpar ∷ st)
            (IsBased-push (tok lpar) st c.based) (c.closes (tree s))
    reads_atom (apply f k s) rest st b c g h =
        let b' = IsBased-push (tok f) st c.based in
        call-push f ((print s ++ (rpar ∷ [])) ++ rest) st k c
        ∙ regroup (print s) rpar [] rest (tok lpar ∷ tok f ∷ st)
        ∙ reads s (rpar ∷ rest) (tok lpar ∷ tok f ∷ st) true (in_paren (tok f ∷ st) b') (λ _. refl)
            h
        ∙ close s rest (tok lpar ∷ tok f ∷ st) b'
        ∙ resume-again (tok rpar) rest (expr (tree s) ∷ tok lpar ∷ tok f ∷ st) b'
            (reduce-call f (tree s) st k)
    reads_atom (apply_two f k p s) rest st b c g h =
        let b' = IsBased-push (tok f) st c.based in
        let st' : Stack F = tok lpar ∷ tok f ∷ st in
        let st'' : Stack F = tok comma ∷ expr (tree_power p) ∷ st' in
        call-push f ((print_power p ++ (comma ∷ (print s ++ (rpar ∷ [])))) ++ rest) st k c
        ∙ regroup (print_power p) comma (print s ++ (rpar ∷ [])) rest st'
        ∙ reads_power p (comma ∷ ((print s ++ (rpar ∷ [])) ++ rest)) st' true
            (in_paren (tok f ∷ st) b').products.powers (λ _. refl) h.0
        ∙ run-push comma ((print s ++ (rpar ∷ [])) ++ rest) (expr (tree_power p) ∷ st')
            (known_expr (tok comma) (tree_power p) st') refl
        ∙ regroup (print s) rpar [] rest st''
        ∙ reads s (rpar ∷ rest) st'' false (at_comma (expr (tree_power p) ∷ st') b') (λ e. cc (h.2))
            h.1
        ∙ close s rest st'' b'
        ∙ resume-again (tok rpar) rest (expr (tree s) ∷ st'') b'
            (reduce-call_two f (tree_power p) (tree s) st k)

    reads_power : (p : Power F) → ReadsPower p
    reads_power (base a) rest st b c g h =
        reads_atom a rest st b c.atoms g h
        ∙ resume-stop (expr (tree_atom a)) rest st (c.still (tree_atom a))
    reads_power (raise p o a) rest st b c g h =
        let b' = IsBased-push (expr (tree_power p)) st c.atoms.based in
        let st' : Stack F = tok (op3 o) ∷ expr (tree_power p) ∷ st in
        regroup (print_power p) (op3 o) (print_atom a) rest st
        ∙ reads_power p (op3 o ∷ (print_atom a ++ rest)) st b c g h.0
        ∙ run-push (op3 o) (print_atom a ++ rest) (expr (tree_power p) ∷ st)
            (known_expr (tok (op3 o)) (tree_power p) st) refl
        ∙ reads_atom a rest st' true (after_op3 o (tree_power p) st b') (λ _. refl) h.1
        ∙ resume-again (expr (tree_atom a)) rest st' b' refl
        ∙ resume-stop (expr (tree_power (raise p o a))) rest st (c.still _)

    reads_product : (q : Product F) → ReadsProduct q
    reads_product (one p) rest st b c g h = reads_power p rest st b c.powers g h
    reads_product (times q o p) rest st b c g h =
        let b' = IsBased-push (expr (tree_product q)) st c.powers.atoms.based in
        regroup (print_product q) (op2 o) (print_power p) rest st
        ∙ reads_product q (op2 o ∷ (print_power p ++ rest)) st b c g h.0
        ∙ op2-push o q (print_power p ++ rest) st c
        ∙ reads_power p rest (tok (op2 o) ∷ expr (tree_product q) ∷ st) true
            (after_op2 o (tree_product q) st b') (λ _. refl) h.1

    pub reads : (s : Sum F) → ReadsSum s
    reads (term q) rest st b c g h = reads_product q rest st b c.products g h
    reads (plus s o q) rest st b c g h =
        let b' = IsBased-push (expr (tree s)) st c.products.powers.atoms.based in
        regroup (print s) (op1 o) (print_product q) rest st
        ∙ reads s (op1 o ∷ (print_product q ++ rest)) st b c g h.0
        ∙ op1-push o s (print_product q ++ rest) st c
        ∙ reads_product q rest (tok (op1 o) ∷ expr (tree s) ∷ st) true (after_op1 o (tree s) st b')
            (λ _. refl) h.1
