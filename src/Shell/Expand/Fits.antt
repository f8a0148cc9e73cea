-- ===== src/Shell/Expand/Fits.antt =====
-- The text of expand_macro stays within the memory of its buffer.
use tcad_webapp.Prelude.{
  ℕ, zero, suc, ◌+◌, ◌≡◌, ◌≤◌, ◌<◌, refl, ap, subst, Bool, true, false, Option, none, some, List,
  [], ◌∷◌, ◌++◌, length, length-append, ◌==◌, if◌then◌else◌, arith,
}
use tcad_webapp.Expr.Eval.{Reals}
use tcad_webapp.Expr.Lexical.{Scanner}
use tcad_webapp.Shell.Macro.{MacroTable, Letters, Attempt, done, fault, ◌>>=◌, read_arglist}
use tcad_webapp.Shell.Expand.Attempts.{AllDone, Ends-AllDone}
use tcad_webapp.Shell.Expand.Cuts.{IsCut, Cuts, read_arglist-Cuts, skip_gap-cuts, read_token-IsCut}
use tcad_webapp.Shell.Expand.{
  Expansion, expanded, mismatch, Cursor, Found, Turn, next, halt, skip_percent, read_token,
  skip_gap, put_body, behind_call, put_call, put_token, find_if, first_is, expand_token,
  expand_turn, expand_loop, arg_expand, cursor_at, expand_within, expand_macro,
}

-- The bytes that the two parts of the text and the closing 0 take.
abbrev pub size : Cursor → ℕ
size cur = suc (length cur.front + length cur.buf)

abbrev pub Holds : Expansion → Type 0
Holds (expanded text len) = suc (length text) ≤ len
Holds (mismatch text len) = suc (length text) ≤ len

bind-AllDone :
    {A B : Type 0} (P : A → Type 0) (Q : B → Type 0) (m : Attempt A) (k : A → Attempt B)
    → AllDone P m
    → ((a : A) → P a → AllDone Q (k a))
    → AllDone Q (m >>= k)
bind-AllDone P Q (done a) k h q = q a h
bind-AllDone P Q (fault e) k h q = tt

abbrev IsHeld : Cursor → Type 0
IsHeld cur = size cur ≤ cur.len

skip_percent-IsHeld :
    (cur : Cursor) (s : List ℕ) → cur.buf ≡ s → IsHeld cur → IsHeld (skip_percent cur s)
skip_percent-IsHeld cur [] e h = h
skip_percent-IsHeld cur (d ∷ s) e h =
    let n = ap length e in
    let k = length-append cur.front (d ∷ []) in
    elim (d == 37)
      as (λ b. IsHeld (
        if b
        then (record cur { front = cur.front ++ (d ∷ []); buf = s; domac = false })
        else cur)) [ true ↦ omega arith | false ↦ h ]

skip_percent_len : (cur : Cursor) (s : List ℕ) → (skip_percent cur s).len ≡ cur.len
skip_percent_len cur [] = refl
skip_percent_len cur (d ∷ s) = ground arith

-- The memory that a turn leaves, where it started with `len` bytes.
abbrev TurnHolds : ℕ → Turn → Type 0
TurnHolds len (next cur) = IsHeld cur
TurnHolds len (halt text) = suc (length text) ≤ len

module _ {F : Type 0} (l : Letters F) where
  put_body-IsHeld :
      (cur : Cursor) (f : Found) (rest : List ℕ) (o : Option (List ℕ))
      → length rest ≤ length f.rest
      → AllDone IsHeld (put_body l cur f rest o)
  put_body-IsHeld cur f rest none h = tt
  put_body-IsHeld cur f rest (some b) h =
      let e = length-append (cur.front ++ b) (skip_gap l rest).0 in
      let e' = length-append cur.front b in
      let g = skip_gap-cuts l rest in
      let j = length (cur.front ++ (f.taken ++ f.rest)) + length b + 1 in
      let k = length-append cur.front (f.taken ++ f.rest) in
      let k' = length-append f.taken f.rest in ground arith

  behind_call-holds :
      (len : ℕ) (cur : Cursor) (f : Found)
      → AllDone (TurnHolds len) (behind_call l cur f (read_arglist f.rest))
  behind_call-holds len cur f = held (read_arglist f.rest) (read_arglist-Cuts f.rest)
    where
      held :
          (o : Option (List ℕ × List ℕ))
          → Cuts 0 (length f.rest) o
          → AllDone (TurnHolds len) (behind_call l cur f o)
      held none h = tt
      held (some (a, t)) h =
          bind-AllDone IsHeld (TurnHolds len) (put_body l cur f t cur.body)
            (λ cur'. done (next cur')) (put_body-IsHeld cur f t cur.body (omega arith))
            (λ cur' g. g)

  put_token-holds :
      (args : List ℕ → MacroTable → Attempt Bool) (cur : Cursor) (f : Found) (o : Option MacroTable)
      → IsCut (length cur.buf) f
      → IsHeld cur
      → AllDone (TurnHolds cur.len) (put_token l args cur f o)
  put_token-holds args cur f none h k =
      let e = length-append (cur.front ++ f.taken) (skip_gap l f.rest).0 in
      let e' = length-append cur.front f.taken in let g = skip_gap-cuts l f.rest in omega arith
  put_token-holds args cur f (some m) h k =
      elim (first_is 40 f.rest)
        as (λ b. AllDone (TurnHolds cur.len) (
          if b
          then args f.rest m >>= put_call l cur f
          else (put_body l cur f f.rest (some m.replace) >>= λ cur'. done (next cur')))) [
            | true ↦
                bind-AllDone (λ b. Unit {0}) (TurnHolds cur.len) (args f.rest m) (put_call l cur f)
                  (any (args f.rest m)) (λ b t. called b)
            | false ↦
                bind-AllDone IsHeld (TurnHolds cur.len) (put_body l cur f f.rest (some m.replace))
                  (λ cur'. done (next cur'))
                  (put_body-IsHeld cur f f.rest (some m.replace) (omega arith)) (λ cur' g. g)
          ]
    where
      any : (m : Attempt Bool) → AllDone (λ b. Unit {0}) m
      any (done b) = tt
      any (fault e) = tt

      called : (b : Bool) → AllDone (TurnHolds cur.len) (put_call l cur f b)
      called true = behind_call-holds cur.len cur f
      called false =
          omega (arith, length-append cur.front (f.taken ++ f.rest), length-append f.taken f.rest)

  expand_token-holds :
      (args : List ℕ → MacroTable → Attempt Bool) (table : List MacroTable) (cur : Cursor)
      → IsHeld cur
      → AllDone (TurnHolds cur.len) (expand_token l args table cur)
  expand_token-holds args table cur h =
      bind-AllDone (IsCut (length cur.buf)) (TurnHolds cur.len) (read_token l cur.domac cur.buf)
        (λ f. put_token l args cur f (find_if f.looked_up f.name table))
        (Ends-AllDone (IsCut (length cur.buf)) (read_token l cur.domac cur.buf)
          (read_token-IsCut l cur.domac cur.buf))
        (λ f g. put_token-holds args cur f (find_if f.looked_up f.name table) g h)

  expand_turn-holds :
      (args : List ℕ → MacroTable → Attempt Bool) (table : List MacroTable) (cur : Cursor)
      → IsHeld cur
      → AllDone (TurnHolds cur.len) (expand_turn l args table cur)
  unfolding expand_turn
  expand_turn-holds args table cur h =
      subst (λ n. AllDone (TurnHolds n) (expand_token l args table (skip_percent cur cur.buf)))
        (skip_percent_len cur cur.buf)
        (expand_token-holds args table (skip_percent cur cur.buf)
          (skip_percent-IsHeld cur cur.buf refl h))

  expand_loop-Holds :
      (args : List ℕ → MacroTable → Attempt Bool) (table : List MacroTable) (fuel : ℕ)
      (cur : Cursor)
      → IsHeld cur
      → AllDone Holds (expand_loop l args table fuel cur)
  unfolding expand_loop
  expand_loop-Holds args table zero cur h = tt
  expand_loop-Holds args table (suc fuel) cur h =
      elim cur.buf
        as (λ s. AllDone Holds (elim s [
          | [] ↦ done (expanded cur.front cur.len)
          | d ∷ t ↦ expand_turn l args table cur >>= λ t. elim t [
            | next cur' ↦ expand_loop l args table fuel cur'
            | halt text ↦ done (mismatch text cur.len)
          ]
        ])) [
          | [] ↦ omega arith
          | d ∷ t ↦
              bind-AllDone (TurnHolds cur.len) Holds (expand_turn l args table cur)
                (λ t. elim t [
                  | next cur' ↦ expand_loop l args table fuel cur'
                  | halt text ↦ done (mismatch text cur.len)
                ])
                (expand_turn-holds args table cur h)
                (λ t g.
                  elim t
                      as (λ t.
                        TurnHolds cur.len t
                        → AllDone Holds (elim t [
                          | next cur' ↦ expand_loop l args table fuel cur'
                          | halt text ↦ done (mismatch text cur.len)
                        ])) [
                          | next cur' ↦ λ g. expand_loop-Holds args table fuel cur' g
                          | halt text ↦ λ g. g
                        ]
                    g)
        ]

-- Where a text and its closing 0 fit into `len` bytes, what expand_macro leaves in the buffer fits
-- with its closing 0 into the bytes that it has then, also where it returns -1.
pub expand_macro-Holds :
    (r : Reals) (c : Scanner r.F) (l : Letters r.F) (text : List ℕ) (len : ℕ)
    → (table : List MacroTable) → length text < len
    → AllDone Holds (expand_macro r c l text len table)
unfolding expand_macro
expand_macro-Holds r c l text len [] h = omega arith
expand_macro-Holds r c l text len (m ∷ ms) h =
    expand_loop-Holds l (arg_expand r c l (expand_within r c l 1)) (m ∷ ms) (suc (length text))
      (cursor_at text len) (omega arith)
