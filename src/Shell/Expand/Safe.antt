-- ===== src/Shell/Expand/Safe.antt =====
-- expand_macro with the macros of any definitions.
use tcad_webapp.Prelude.{ℕ, suc, ◌<◌, List, [], ◌∷◌, length, arith}
use tcad_webapp.Expr.Eval.{Reals}
use tcad_webapp.Expr.Lexical.{Scanner}
use tcad_webapp.Shell.Macro.{
  MacroTable, overrun, past_end, unassigned, null_pointer, bad_parse, out_of_fuel, Attempt, done,
  fault, ◌>>=◌, Letters, define_macro,
}
use tcad_webapp.Shell.Expand.{
  Expansion, table_after, arg_expand, cursor_at, expand_within, expand_macro,
}
use tcad_webapp.Shell.Session.{Order, define, undef, obey, obey_all}
use tcad_webapp.Shell.Expand.Attempts.{AllDone, Ends, Ends-bind}
use tcad_webapp.Shell.Expand.Fits.{Holds, expand_macro-Holds}
use tcad_webapp.Shell.Expand.Entries.{AllEntries, undef_macro-AllEntries, define_macro-Ends}
use tcad_webapp.Shell.Expand.Arguments.{IsSub, arg_expand-Ends}
use tcad_webapp.Shell.Expand.Ends.{IsNamed, Comes, expand_loop-Ends}

Sub-IsNamed : (ms : List MacroTable) → AllEntries IsSub ms → AllEntries IsNamed ms
Sub-IsNamed [] h = tt
Sub-IsNamed (m ∷ ms) h = (h.0.0, Sub-IsNamed ms h.1)

both : (P : Expansion → Type 0) (m : Attempt Expansion) → Ends Comes m → AllDone P m → Ends P m
both P (done e) h k = k
both P (fault out_of_fuel) h k = h
both P (fault overrun) h k = tt
both P (fault past_end) h k = tt
both P (fault unassigned) h k = tt
both P (fault null_pointer) h k = tt
both P (fault bad_parse) h k = tt

module _ (r : Reals) (c : Scanner r.F) (l : Letters r.F) where
  -- A macro without arguments is not asked for a second time.
  no_args :
      (s : List ℕ) (m : MacroTable)
      → IsSub m
      → Ends (λ b. Unit {0}) (arg_expand r c l (expand_within r c l 0) s m)
  unfolding arg_expand
  no_args s m h = rw h.1 tt

  sub_expansion :
      (text : List ℕ) (len : ℕ) (ms : List MacroTable)
      → AllEntries IsSub ms
      → Ends Comes (expand_within r c l 1 text len ms)
  unfolding expand_within
  sub_expansion text len [] h = tt
  sub_expansion text len (m ∷ ms) h =
      expand_loop-Ends l IsSub (arg_expand r c l (expand_within r c l 0)) no_args (m ∷ ms) h
        (Sub-IsNamed (m ∷ ms) h) (suc (length text)) (cursor_at text len) (omega arith)

  expand_macro-Ends :
      (text : List ℕ) (len : ℕ) (table : List MacroTable)
      → AllEntries IsNamed table
      → Ends Comes (expand_macro r c l text len table)
  unfolding expand_macro
  expand_macro-Ends text len [] h = tt
  expand_macro-Ends text len (m ∷ ms) h =
      expand_loop-Ends l IsNamed (arg_expand r c l (expand_within r c l 1))
        (λ s m p. arg_expand-Ends r c l (expand_within r c l 1) sub_expansion s m) (m ∷ ms) h h
        (suc (length text)) (cursor_at text len) (omega arith)

  obey-IsNamed :
      (o : Order) (ms : List MacroTable)
      → AllEntries IsNamed ms
      → Ends (AllEntries IsNamed) (obey r c l o ms)
  unfolding obey
  obey-IsNamed (define par) ms h =
      Ends-bind (λ d. AllEntries IsNamed (table_after ms d)) (AllEntries IsNamed)
        (define_macro r c l par ms) _
        (define_macro-Ends r c l IsNamed (λ n ns text. tt) par ms (λ n ns a u text e. tt) h)
        (λ d g. g)
  obey-IsNamed (undef par) ms h = undef_macro-AllEntries IsNamed c par ms h

  obey_all-IsNamed :
      (os : List Order) (ms : List MacroTable)
      → AllEntries IsNamed ms
      → Ends (AllEntries IsNamed) (obey_all r c l os ms)
  unfolding obey_all
  obey_all-IsNamed [] ms h = h
  obey_all-IsNamed (o ∷ os) ms h =
      Ends-bind (AllEntries IsNamed) (AllEntries IsNamed) (obey r c l o ms) _ (obey-IsNamed o ms h)
        (obey_all-IsNamed os)

  -- After any definitions and undefinitions, expand_macro on any text takes no more turns than the
  -- text has characters, with one call of itself below arg_expand at most: it comes back, or one of
  -- the faults of the model ends it before, which are a write past an array, a read past the end of
  -- a text, as in a list or a `${` that is not closed, a read of what was never assigned, a read
  -- through a null pointer and a failure of the parser in a definition. Where it comes back and the
  -- text and its closing 0 fit into `len` bytes, what it leaves in the buffer fits with its closing
  -- 0 into the bytes that it has then, also where it returns -1.
  pub obey_all-expand_macro-Holds :
      (os : List Order) (text : List ℕ) (len : ℕ)
      → length text < len
      → Ends Holds (obey_all r c l os [] >>= λ macro. expand_macro r c l text len macro)
  obey_all-expand_macro-Holds os text len h =
      Ends-bind (AllEntries IsNamed) Holds (obey_all r c l os []) _ (obey_all-IsNamed os [] tt)
        (λ ms k.
          both Holds (expand_macro r c l text len ms) (expand_macro-Ends text len ms k)
            (expand_macro-Holds r c l text len ms h))
