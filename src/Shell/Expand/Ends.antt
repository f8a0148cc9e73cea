-- ===== src/Shell/Expand/Ends.antt =====
-- The loops of expand_macro end.
use tcad_webapp.Prelude.{
  ℕ, zero, suc, ◌≡◌, ◌≤◌, ◌<◌, refl, subst, sym, ap, Bool, true, false, ◌||◌, Option, none, some,
  List, [], ◌∷◌, ◌++◌, length, ◌==◌, if◌then◌else◌, inl, inr, Bool-cases, arith,
}
use tcad_webapp.Expr.Names.{same_text}
use tcad_webapp.Shell.Macro.{MacroTable, Attempt, done, ◌>>=◌, Letters, find_macro, read_arglist}
use tcad_webapp.Shell.Expand.{
  Expansion, expanded, mismatch, Cursor, Found, Turn, next, halt, skip_percent, read_token,
  skip_gap, put_body, behind_call, put_call, put_token, find_if, first_is, expand_token,
  expand_turn, expand_loop,
}
use tcad_webapp.Shell.Expand.Pieces.{NotEmpty}
use tcad_webapp.Shell.Expand.Attempts.{Ends, Ends-bind}
use tcad_webapp.Shell.Expand.Cuts.{Cuts, IsCut, read_arglist-Cuts, skip_gap-cuts, read_token-IsCut}
use tcad_webapp.Shell.Expand.Entries.{AllEntries, find-AllEntries}
use tcad_webapp.Shell.Expand.Leaves.{Goes, read_token-Goes}

abbrev pub IsNamed : MacroTable → Type 0
IsNamed m = NotEmpty m.name

abbrev pub Comes : Expansion → Type 0
Comes e = Unit

abbrev Shorter : ℕ → Turn → Type 0
Shorter n (next cur) = length cur.buf ≤ n
Shorter n (halt text) = Unit

named-find : (ms : List MacroTable) → AllEntries IsNamed ms → find_macro [] ms ≡ none
unfolding find_macro
named-find [] h = refl
named-find (m ∷ ms) h = rw (named-same m.name h.0) (named-find ms h.1)
  where
    named-same : (s : List ℕ) → NotEmpty s → same_text s [] ≡ false
    named-same [] k = absurd k
    named-same (d ∷ s) k = refl

find_if-none :
    (b : Bool) (s : List ℕ) (ms : List MacroTable) → find_macro s ms ≡ none → find_if b s ms ≡ none
find_if-none true s ms h = h
find_if-none false s ms h = refl

module _ {F : Type 0} (l : Letters F) where
  abbrev BufLeaves : ℕ → Cursor → Type 0
  BufLeaves n cur = length cur.buf ≤ n

  put_body-BufLeaves :
      (cur : Cursor) (f : Found) (rest : List ℕ) (o : Option (List ℕ)) (n : ℕ)
      → length rest ≤ n
      → Ends (BufLeaves n) (put_body l cur f rest o)
  put_body-BufLeaves cur f rest none n h = tt
  put_body-BufLeaves cur f rest (some b) n h = omega (arith, skip_gap-cuts l rest)

  next-Shorter :
      (cur : Cursor) (f : Found) (rest : List ℕ) (o : Option (List ℕ)) (n : ℕ)
      → length rest ≤ n
      → Ends (Shorter n) (put_body l cur f rest o >>= λ cur'. done (next cur'))
  next-Shorter cur f rest o n h =
      Ends-bind (BufLeaves n) (Shorter n) (put_body l cur f rest o) _
        (put_body-BufLeaves cur f rest o n h) (λ cur' g. g)

  behind_call-Shorter :
      (cur : Cursor) (f : Found) (n k : ℕ) (o : Option (List ℕ × List ℕ))
      → Cuts 0 k o
      → k ≤ n
      → Ends (Shorter n) (behind_call l cur f o)
  behind_call-Shorter cur f n k none h g = tt
  behind_call-Shorter cur f n k (some (a, t)) h g = next-Shorter cur f t cur.body n (omega arith)

  put_call-Shorter :
      (cur : Cursor) (f : Found) (n : ℕ) (b : Bool)
      → length f.rest ≤ n
      → Ends (Shorter n) (put_call l cur f b)
  put_call-Shorter cur f n true h =
      behind_call-Shorter cur f n (length f.rest) (read_arglist f.rest) (read_arglist-Cuts f.rest) h
  put_call-Shorter cur f n false h = tt

  -- `args` is asked about macros with `P` only.
  module _ (P : MacroTable → Type 0) (args : List ℕ → MacroTable → Attempt Bool)
      (ends : (s : List ℕ) (m : MacroTable) → P m → Ends (λ b. Unit {0}) (args s m))
      (table : List MacroTable) (all : AllEntries P table) (named : AllEntries IsNamed table) where
    put_token-Shorter :
        (cur : Cursor) (f : Found) (o : Option MacroTable) (n : ℕ)
        → length f.rest ≤ n
        → ((m : MacroTable) → o ≡ some m → P m)
        → Ends (Shorter n) (put_token l args cur f o)
    put_token-Shorter cur f none n h p = omega (arith, skip_gap-cuts l f.rest)
    put_token-Shorter cur f (some m) n h p =
        elim (first_is 40 f.rest)
          as (λ b. Ends (Shorter n) (
            if b
            then args f.rest m >>= put_call l cur f
            else (put_body l cur f f.rest (some m.replace) >>= λ cur'. done (next cur')))) [
              | true ↦
                  Ends-bind (λ b. Unit {0}) (Shorter n) (args f.rest m) (put_call l cur f)
                    (ends f.rest m (p m refl)) (λ b u. put_call-Shorter cur f n b h)
              | false ↦ next-Shorter cur f f.rest (some m.replace) n h
            ]

    find_if-P : (b : Bool) (s : List ℕ) (m : MacroTable) → find_if b s table ≡ some m → P m
    find_if-P true s m e = find-AllEntries P s table all e
    find_if-P false s m e = cc e

    expand_token-Shorter :
        (cur : Cursor) → Ends (Shorter (length cur.buf)) (expand_token l args table cur)
    expand_token-Shorter cur =
        Ends-bind (IsCut (length cur.buf)) (Shorter (length cur.buf))
          (read_token l cur.domac cur.buf) _ (read_token-IsCut l cur.domac cur.buf)
          (λ f h.
            put_token-Shorter cur f (find_if f.looked_up f.name table) (length cur.buf)
              (omega arith) (find_if-P f.looked_up f.name))

    gap_goes :
        (d : ℕ) (s : List ℕ)
        → (l.isalnum d || d == 36 || d == 37) ≡ false
        → length (skip_gap l (d ∷ s)).1 ≤ length s
    unfolding skip_gap
    gap_goes d s h = rw h (omega (arith, skip_gap-cuts l s))

    -- Where no `%` stands first.
    put_found-Shorter :
        (cur : Cursor) (d : ℕ) (s : List ℕ) (f : Found)
        → Goes l d s f
        → Ends (Shorter (length s)) (put_token l args cur f (find_if f.looked_up f.name table))
    put_found-Shorter cur d s f (inl h) =
        put_token-Shorter cur f (find_if f.looked_up f.name table) (length s) h
          (find_if-P f.looked_up f.name)
    put_found-Shorter cur d s f (inr h) =
        let gone = subst (λ t. length (skip_gap l t).1 ≤ length s) (sym h.1) (gap_goes d s h.2) in
        rw (h.0, find_if-none f.looked_up [] table (named-find table named)) gone

    expand_token-goes :
        (cur : Cursor) (d : ℕ) (s : List ℕ)
        → (d == 37) ≡ false
        → cur.buf ≡ d ∷ s
        → Ends (Shorter (length s)) (expand_token l args table cur)
    expand_token-goes cur d s k e = rw e (
        Ends-bind (Goes l d s) (Shorter (length s)) (read_token l cur.domac (d ∷ s)) _
          (read_token-Goes l cur.domac d s k) (put_found-Shorter cur d s))

    skip_percent-Shorter :
        (cur : Cursor) (d : ℕ) (s : List ℕ)
        → cur.buf ≡ d ∷ s
        → Ends (Shorter (length s)) (expand_token l args table (skip_percent cur (d ∷ s)))
    skip_percent-Shorter cur d s e = elim (Bool-cases (d == 37)) [
      | inl k ↦ rw k (
          expand_token-Shorter
            (record cur { front = cur.front ++ (d ∷ []); buf = s; domac = false }))
      | inr k ↦ rw k (expand_token-goes cur d s k e)
    ]

    expand_turn-Shorter :
        (cur : Cursor) (d : ℕ) (s : List ℕ)
        → cur.buf ≡ d ∷ s
        → Ends (Shorter (length s)) (expand_turn l args table cur)
    unfolding expand_turn
    expand_turn-Shorter cur d s e =
        subst (λ t. Ends (Shorter (length s)) (expand_token l args table (skip_percent cur t)))
          (sym e) (skip_percent-Shorter cur d s e)

    pub expand_loop-Ends :
        (fuel : ℕ) (cur : Cursor)
        → length cur.buf < fuel
        → Ends Comes (expand_loop l args table fuel cur)
    unfolding expand_loop
    expand_loop-Ends zero cur h = absurd (omega arith)
    expand_loop-Ends (suc fuel) cur h =
        elim cur.buf
            as (λ s.
              cur.buf ≡ s
              → Ends Comes (elim s [
                | [] ↦ done (expanded cur.front cur.len)
                | d ∷ t ↦ expand_turn l args table cur >>= λ t. elim t [
                  | next cur' ↦ expand_loop l args table fuel cur'
                  | halt text ↦ done (mismatch text cur.len)
                ]
              ])) [
                | [] ↦ λ e. tt
                | d ∷ t ↦ λ e.
                    Ends-bind (Shorter (length t)) Comes (expand_turn l args table cur) _
                      (expand_turn-Shorter cur d t e)
                      (λ t' g.
                        elim t'
                            as (λ t'.
                              Shorter (length t) t'
                              → Ends Comes (elim t' [
                                | next cur' ↦ expand_loop l args table fuel cur'
                                | halt text ↦ done (mismatch text cur.len)
                              ])) [
                                | next cur' ↦ λ g.
                                    let less : length cur'.buf < fuel =
                                      omega (arith, ap length e) in
                                    expand_loop-Ends fuel cur' less
                                | halt text ↦ λ g. tt
                              ]
                          g)
              ]
          refl
