-- ===== src/Dbase/Remove/Homed.antt =====
-- rem_1nd keeps nodes and points to one another.
use tcad_webapp.Prelude.{
  ℕ, ◌≡◌, refl, subst, sym, ap, ◌∙◌, Bool, true, false, ◌&&◌, not, List, [], ◌∷◌, ◌==◌, ==_iff,
  if◌then◌else◌, Bool-cases, inl, inr, arith,
}
use tcad_webapp.Dbase.ListStr.Items.{contains, erase}
use tcad_webapp.Dbase.Remove.{Places, set_nodes, kill_nd, kill_pt}

abbrev pub AllDifferent : List ℕ → Type 0
AllDifferent [] = Unit
AllDifferent (x ∷ xs) = (contains x xs ≡ false) × AllDifferent xs

contains-erase :
    (k n : ℕ) (xs : List ℕ)
    → AllDifferent xs
    → contains k (erase n xs) ≡ (contains k xs && not (n == k))
unfolding contains erase
contains-erase k n [] h = refl
contains-erase k n (y ∷ ys) h = ground (arith, contains-erase k n ys h.1)

erase-AllDifferent : (n : ℕ) (xs : List ℕ) → AllDifferent xs → AllDifferent (erase n xs)
unfolding erase
erase-AllDifferent n [] h = tt
erase-AllDifferent n (y ∷ ys) h = elim (Bool-cases (y == n)) [
  | inl e ↦ rw e h.1
  | inr e ↦
      let out : contains y (erase n ys) ≡ false = contains-erase y n ys h.1 ∙ rw h.0 refl in
      rw e (out, erase-AllDifferent n ys h.1)
]

-- A live node stands in the list of its point, which is live; the list of a live point holds live
-- nodes of the point, each once.
pub record IsHomed (m : Places) : Type 0 where
  pub point :
      (k : ℕ)
      → (m.nd k).killed ≡ false
      → ((m.pt (m.nd k).pt).killed ≡ false) × (contains k (m.pt (m.nd k).pt).nd ≡ true)
  pub nodes :
      (p k : ℕ)
      → (m.pt p).killed ≡ false
      → contains k (m.pt p).nd ≡ true
      → ((m.nd k).killed ≡ false) × ((m.nd k).pt ≡ p)
  pub different : (p : ℕ) → (m.pt p).killed ≡ false → AllDifferent (m.pt p).nd

and_true : (b : Bool) → (b && true) ≡ b
and_true true = refl
and_true false = refl

and_left : (a b : Bool) → (a && b) ≡ true → a ≡ true
and_left true b h = refl
and_left false b h = cc h

and_right : (a b : Bool) → (a && b) ≡ true → b ≡ true
and_right true b g = g
and_right false b g = cc g

-- The mesh without the node.
abbrev pub out : ℕ → Places → Places
out n m = kill_nd n (set_nodes (m.nd n).pt (erase n (m.pt (m.nd n).pt).nd) m)

module _ (n : ℕ) (m : Places) (h : IsHomed m) (live : (m.nd n).killed ≡ false) where
  here_different : AllDifferent (m.pt (m.nd n).pt).nd
  here_different = h.different (m.nd n).pt (h.point n live).0

  -- What is left of the nodes of a point.
  left_contains :
      (q k : ℕ)
      → contains k ((out n m).pt q).nd
        ≡ (contains k (m.pt q).nd && (if q == (m.nd n).pt then not (n == k) else true))
  left_contains q k = elim (Bool-cases (q == (m.nd n).pt)) [
    | inl e ↦
        let same = (==_iff q (m.nd n).pt).0 e in
        rw e (rw same (contains-erase k n (m.pt (m.nd n).pt).nd here_different))
    | inr e ↦ rw e (sym (and_true (contains k (m.pt q).nd)))
  ]

  out_live : (k : ℕ) → ((out n m).nd k).killed ≡ false → (k == n) ≡ false
  out_live k e = ground arith

  pub out_nd : (k : ℕ) → (k == n) ≡ false → (out n m).nd k ≡ m.nd k
  out_nd k e = rw e refl

  out_killed : (q : ℕ) → ((out n m).pt q).killed ≡ (m.pt q).killed
  out_killed q = elim (Bool-cases (q == (m.nd n).pt)) [
    | inl e ↦ rw e (ap (λ x. (m.pt x).killed) (sym ((==_iff q (m.nd n).pt).0 e)))
    | inr e ↦ rw e refl
  ]

  still_true : (b : Bool) (k : ℕ) → (k == n) ≡ false → (if b then not (n == k) else true) ≡ true
  still_true b k e = ground arith

  out_point :
      (k : ℕ)
      → (k == n) ≡ false
      → (m.nd k).killed ≡ false
      → (((out n m).pt (m.nd k).pt).killed ≡ false)
        × (contains k ((out n m).pt (m.nd k).pt).nd ≡ true)
  out_point k e g =
      let old = h.point k g in
      (
        out_killed (m.nd k).pt ∙ old.0,
        left_contains (m.nd k).pt k ∙ rw (old.1) (still_true ((m.nd k).pt == (m.nd n).pt) k e),
      )

  -- A node in what is left of a list is not `n`.
  left_ne :
      (q k : ℕ)
      → (m.nd k).pt ≡ q
      → (if q == (m.nd n).pt then not (n == k) else true) ≡ true
      → (k == n) ≡ false
  left_ne q k e c = elim (Bool-cases (k == n)) [
    | inr f ↦ f
    | inl f ↦
        let same = (==_iff k n).0 f in
        let there : (q == (m.nd n).pt) ≡ true =
          (==_iff q (m.nd n).pt).1 (sym e ∙ ap (λ x. (m.nd x).pt) same) in
        let back : (n == k) ≡ true = (==_iff n k).1 (sym same) in cc (rw (there, back) at c)
  ]

  pub out_nodes :
      (q k : ℕ)
      → (m.pt q).killed ≡ false
      → contains k ((out n m).pt q).nd ≡ true
      → ((k == n) ≡ false) × ((m.nd k).killed ≡ false) × ((m.nd k).pt ≡ q)
  out_nodes q k e c =
      let g = sym (left_contains q k) ∙ c in
      let old = h.nodes q k e (and_left (contains k (m.pt q).nd) _ g) in
      (left_ne q k old.1 (and_right (contains k (m.pt q).nd) _ g), old.0, old.1)

  out_different : (q : ℕ) → (m.pt q).killed ≡ false → AllDifferent ((out n m).pt q).nd
  out_different q e = elim (Bool-cases (q == (m.nd n).pt)) [
    | inl f ↦ rw f (erase-AllDifferent n (m.pt (m.nd n).pt).nd here_different)
    | inr f ↦ rw f (h.different q e)
  ]

  pub out-IsHomed : IsHomed (out n m)
  out-IsHomed = record {
    point = λ k e.
        let f = out_live k e in
        let g = out_nd k f in
        subst
          (λ x. (((out n m).pt x.pt).killed ≡ false) × (contains k ((out n m).pt x.pt).nd ≡ true))
          (sym g) (out_point k f (ap (λ x. x.killed) (sym g) ∙ e));
    nodes = λ q k e c.
        let r = out_nodes q k (sym (out_killed q) ∙ e) c in
        subst (λ x. (x.killed ≡ false) × (x.pt ≡ q)) (sym (out_nd k r.0)) (r.1, r.2);
    different = λ q e. out_different q (sym (out_killed q) ∙ e);
  }

-- A point that no node has any more.
pub kill_pt-IsHomed : (p : ℕ) (m : Places) → IsHomed m → (m.pt p).nd ≡ [] → IsHomed (kill_pt p m)
unfolding contains
kill_pt-IsHomed p m h e = record {
  point = λ k f. elim (Bool-cases ((m.nd k).pt == p)) [
    | inl g ↦
        let same = (==_iff (m.nd k).pt p).0 g in
        let none_there = subst (λ q. contains k (m.pt q).nd ≡ true) same (h.point k f).1 in
        cc (rw e at none_there)
    | inr g ↦ rw g (h.point k f)
  ];
  nodes = λ q k f c. elim (Bool-cases (q == p)) [
    | inl g ↦ cc (rw g at f)
    | inr g ↦ h.nodes q k (rw g at f) (rw g at c)
  ];
  different = λ q f. elim (Bool-cases (q == p)) [
    | inl g ↦ cc (rw g at f)
    | inr g ↦ rw g (h.different q (rw g at f))
  ];
}
