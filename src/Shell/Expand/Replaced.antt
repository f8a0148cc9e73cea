-- ===== src/Shell/Expand/Replaced.antt =====
-- expand_macro puts the macros for their names, piece by piece.
use mathlib.Core.Option
use tcad_webapp.Prelude.{
  ℕ, zero, suc, ◌+◌, ◌*◌, ◌≡◌, ◌≤◌, ◌<◌, refl, ◌∙◌, Bool, true, false, not, ◌&&◌, inl, inr, Option,
  none, some, List, [], ◌∷◌, ◌++◌, append_assoc, append-nil, length, ltb, if◌then◌else◌, arith,
}
use tcad_webapp.Shell.Macro.{MacroTable, Letters, Attempt, done}
use tcad_webapp.Shell.Expand.{
  Cursor, Turn, next, expanded, first_is, find_if, put_token, expand_token, expand_turn,
  expand_loop,
}
use tcad_webapp.Shell.Session.{value_of}
use tcad_webapp.Shell.Expand.Pieces.{
  Symbol, Piece, name_of, symbol_text, percent_text, text, is_looked_up, value_if, replaced, found,
  substitute, NotEmpty, AllGap, Resumes, IsSymbol, NoCall, IsPiece, AllPieces,
}
use tcad_webapp.Shell.Expand.Symbols.{
  at, found_at, skip_percent_none, and_false, and_true, NotEmpty-append, length-NotEmpty,
  read_token-symbol, skip_gap-append,
}

module _ {F : Type 0} (l : Letters F) where
  module _ (args : List ℕ → MacroTable → Attempt Bool) (table : List MacroTable) where
    abbrev values : List ℕ → Option (List ℕ)
    values k = value_of k table

    map-find_if :
        (b : Bool) (k : List ℕ)
        → Option.map (λ e. e.replace) (find_if b k table) ≡ value_if values b k
    map-find_if true k = refl
    map-find_if false k = refl

    -- The front behind the piece, and what a turn leads to.
    abbrev Arrives : List ℕ → List ℕ → Bool → Attempt Turn → Type 0
    Arrives front rest plain t =
        (len : ℕ) × (body : Option (List ℕ)) × (t ≡ done (next (at front rest len plain body)))

    put_token-Arrives :
        (front : List ℕ) (s : Symbol) (g rest : List ℕ) (len : ℕ) (plain : Bool)
        → (body : Option (List ℕ)) (m : Option MacroTable) → AllGap l g
        → Resumes l rest
        → NoCall (Option.map (λ e. e.replace) m) (g ++ rest)
        → Arrives ((front ++ replaced s (Option.map (λ e. e.replace) m)) ++ g) rest plain (
            put_token l args
              (at front (symbol_text s ++ (g ++ rest)) len plain body)
              (found_at s (g ++ rest) plain)
              m)
    put_token-Arrives front s g rest len plain body none h k n =
        (len, body, rw (skip_gap-append l g rest h k) refl)
    put_token-Arrives front s g rest len plain body (some m) h k n =
        let j = length (front ++ (symbol_text s ++ (g ++ rest))) + length m.replace + 1 in
        (
          if ltb len j then 2 * j else len,
          some m.replace,
          rw (n, skip_gap-append l g rest h k) refl,
        )

    expand_token-Arrives :
        (front : List ℕ) (s : Symbol) (g rest : List ℕ) (len : ℕ) (plain : Bool)
        → (body : Option (List ℕ)) → IsSymbol l s (g ++ rest)
        → length (name_of s) ≤ 79
        → AllGap l g
        → Resumes l rest
        → NoCall (value_if values (is_looked_up plain s) (name_of s)) (g ++ rest)
        → Arrives
            ((front ++ replaced s (value_if values (is_looked_up plain s) (name_of s))) ++ g)
            rest
            plain
            (expand_token l args table (at front (symbol_text s ++ (g ++ rest)) len plain body))
    expand_token-Arrives front s g rest len plain body h k a b n =
        rw (← map-find_if (is_looked_up plain s) (name_of s)) (
          rw (read_token-symbol l s (g ++ rest) plain h k) (
            put_token-Arrives front s g rest len plain body
              (find_if (is_looked_up plain s) (name_of s) table) a b
              (rw (map-find_if (is_looked_up plain s) (name_of s)) n)))

    percent-Arrives :
        (front : List ℕ) (b : Bool) (s : Symbol) (g rest : List ℕ) (len : ℕ) (plain : Bool)
        → (body : Option (List ℕ))
        → IsPiece l values plain (record { percent = b; symbol = s; gap = g }) rest
        → Arrives
            (((front ++ percent_text b)
                ++ replaced s (found values plain (record { percent = b; symbol = s; gap = g })))
              ++ g)
            rest
            (plain && not b)
            (expand_turn l args table
              (at front (percent_text b ++ (symbol_text s ++ (g ++ rest))) len plain body))
    unfolding expand_turn
    percent-Arrives front true s g rest len plain body h = rw (and_false plain) (
        expand_token-Arrives (front ++ (37 ∷ [])) s g rest len false body h.shape h.small h.gaps
          h.resumes (rw (and_false plain) at h.no_call))
    percent-Arrives front false s g rest len plain body h =
        let off : first_is 37 (symbol_text s ++ (g ++ rest)) ≡ false = elim h.unsigned [
          | inl e ↦ cc e
          | inr e ↦ e
        ] in
        rw
          (
            and_true plain,
            skip_percent_none (at front (symbol_text s ++ (g ++ rest)) len plain body)
                (symbol_text s ++ (g ++ rest)) off,
            append-nil front,
          )
          (expand_token-Arrives front s g rest len plain body h.shape h.small h.gaps h.resumes
            (rw (and_true plain) at h.no_call))

    expand_loop_step :
        (fuel : ℕ) (front buf : List ℕ) (len : ℕ) (plain : Bool) (body : Option (List ℕ))
        → {cur : Cursor} → NotEmpty buf
        → expand_turn l args table (at front buf len plain body) ≡ done (next cur)
        → expand_loop l args table (suc fuel) (at front buf len plain body)
          ≡ expand_loop l args table fuel cur
    unfolding expand_loop
    expand_loop_step fuel front [] len plain body h e = absurd h
    expand_loop_step fuel front (d ∷ buf) len plain body h e = rw e refl

    pub expand_loop-text :
        (ps : List Piece) (fuel : ℕ) (front : List ℕ) (len : ℕ) (plain : Bool)
        → (body : Option (List ℕ)) → AllPieces l values plain ps
        → length (text ps) < fuel
        → (len' : ℕ) × (expand_loop l args table fuel (at front (text ps) len plain body)
            ≡ done (expanded (front ++ substitute values plain ps) len'))
    unfolding text substitute expand_loop
    expand_loop-text ps zero front len plain body h k = absurd (omega arith)
    expand_loop-text [] (suc fuel) front len plain body h k = (len, rw (append-nil front) refl)
    expand_loop-text (p ∷ ps) (suc fuel) front len plain body h k =
        let (len', body', e) =
          percent-Arrives front p.percent p.symbol p.gap (text ps) len plain body h.0 in
        let (len'', f) =
          expand_loop-text ps fuel
            (((front ++ percent_text p.percent) ++ replaced p.symbol (found values plain p))
              ++ p.gap)
            len' (plain && not p.percent) body' h.1
            (omega (
              arith,
              length-NotEmpty (percent_text p.percent) (symbol_text p.symbol) p.gap (text ps)
                  h.0.full,
            )) in
        (
          len'',
          expand_loop_step fuel front (text (p ∷ ps)) len plain body
                (NotEmpty-append (percent_text p.percent) (symbol_text p.symbol) p.gap (text ps)
                  h.0.full)
                e
              ∙ f
              ∙ simp append_assoc,
        )
