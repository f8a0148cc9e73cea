-- ===== src/Expr/Sample.antt =====
-- Whole numbers in the place of floats, and ASCII characters, for the tests.
use tcad_webapp.Prelude.{
  ℕ, ◌+◌, ◌-◌, ◌*◌, ◌/◌, ◌≤◌, ◌≡◌, refl, Bool, true, false, ◌||◌, ◌&&◌, List, [], ◌∷◌, ◌++◌, ◌==◌,
  leb, ltb, if◌then◌else◌, arith,
}
use tcad_webapp.Expr.Eval.{Reals}
use tcad_webapp.Expr.Lexical.{Scanner}

abbrev pub whole : Reals
whole = record {
  F = ℕ;
  neg = λ v. v;
  log10 = λ v. v;
  log = λ v. v;
  exp = λ v. v;
  erf = λ v. v;
  erfc = λ v. v;
  sqrt = λ v. v;
  add = λ v w. v + w;
  sub = λ v w. v - w;
  mul = λ v w. v * w;
  div = λ v w. v / w;
  pow = λ v w. v * w;
  is_pos = λ v. ltb 0 v;
  is_neg = λ v. false;
  plus_one = 1;
  minus_one = 0;
  zero_value = 0;
  sol_interp = λ i v w. v;
  interface = λ i v. v;
}

abbrev pub digit : ℕ → Bool
digit d = leb 48 d && leb d 57

abbrev pub white : ℕ → Bool
white d = d == 32 || (leb 9 d && leb d 13)

-- The number whose digits a text begins with, behind `n`.
unfoldable pub scan_from : ℕ → List ℕ → ℕ
scan_from n [] = n
scan_from n (d ∷ s) = let rest = scan_from (10 * n + (d - 48)) s in if digit d then rest else n

pub scan_from-append : (n : ℕ) (s r : List ℕ) → scan_from n (s ++ (32 ∷ r)) ≡ scan_from n s
unfolding scan_from
scan_from-append n [] r = refl
scan_from-append n (d ∷ s) r = ground (arith, scan_from-append (10 * n + (d - 48)) s r)

pub white_graph : (d : ℕ) → 33 ≤ d → d ≤ 126 → white d ≡ false
white_graph d h k = ground arith

pub digit_range : (d : ℕ) → digit d ≡ true → (48 ≤ d) × (d ≤ 57)
digit_range d h = ground (arith, h)

abbrev pub characters : Scanner ℕ
characters = record {
  isspace = white;
  isdigit = digit;
  scan = scan_from 0;
  kb = 8;
  behind = 111 ∷ 108 ∷ 100 ∷ [];
  space_lem = refl;
  tab_lem = refl;
  graph_lem = white_graph;
  scan_lem = λ s r h. scan_from-append 0 s r;
  digit_lem = digit_range;
}
