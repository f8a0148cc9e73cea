-- ===== src/Dbase/Remove/Tests.antt =====
-- A point with a node of silicon and one of gas.
use tcad_webapp.Prelude.{
  ℕ, ◌≡◌, refl, true, false, none, some, List, [], ◌∷◌, ◌==◌, if◌then◌else◌, Bool-cases, inl, inr,
  arith, ==_iff, ◌⊎◌,
}
use tcad_webapp.Dbase.ListStr.Items.{contains}
use tcad_webapp.Dbase.Nodes.{gas}
use tcad_webapp.Dbase.Remove.{NodePart, PointPart, Places, take_out, rem_1nd}
use tcad_webapp.Dbase.Remove.Homed.{IsHomed}
use tcad_webapp.Dbase.Remove.Removed.{IsRemoved, rem_1nd-IsRemoved}
use tcad_webapp.Dbase.Remove.Taken.{Shows, sub_nd_pt-take_out}
use tcad_webapp.Dbase.ListStr.{Cell, sub_nd_pt}

abbrev nodes : ℕ → NodePart
nodes k =
    if k == 0
    then record { killed = false; pt = 0; mater = gas }
    else (if k == 1
        then record { killed = false; pt = 0; mater = 3 }
        else record { killed = true; pt = 0; mater = 0 })

abbrev points : ℕ → PointPart
points p =
    if p == 0 then record { killed = false; nd = 1 ∷ 0 ∷ [] } else record { killed = true; nd = [] }

abbrev surface : Places
surface = record { nd = nodes; pt = points; need_waste = false }

gone_node : (k : ℕ) → (k == 0) ≡ false → (k == 1) ≡ false → (nodes k).killed ≡ true
gone_node k e f = rw (e, f) refl

live_node : (k : ℕ) → (nodes k).killed ≡ false → (k ≡ 0) ⊎ (k ≡ 1)
live_node k e = elim (Bool-cases (k == 0)) [
  | inl f ↦ inl ((==_iff k 0).0 f)
  | inr f ↦ elim (Bool-cases (k == 1)) [
    | inl g ↦ inr ((==_iff k 1).0 g)
    | inr g ↦ cc (gone_node k f g, e)
  ]
]

live_point : (p : ℕ) → (points p).killed ≡ false → p ≡ 0
live_point p e = elim (Bool-cases (p == 0)) [ inl f ↦ (==_iff p 0).0 f | inr f ↦ cc (rw f at e) ]

here : (k : ℕ) → contains k (1 ∷ 0 ∷ []) ≡ true → (k ≡ 0) ⊎ (k ≡ 1)
unfolding contains
here k c = ground arith

surface-IsHomed : IsHomed surface
unfolding contains
surface-IsHomed = record {
  point = λ k e. elim (live_node k e) [ inl f ↦ rw f (refl, refl) | inr f ↦ rw f (refl, refl) ];
  nodes = λ p k e c.
      let z = live_point p e in
      elim (here k (rw z at c)) [ inl f ↦ rw (z, f) (refl, refl) | inr f ↦ rw (z, f) (refl, refl) ];
  different = λ p e. rw (live_point p e) (refl, (refl, tt));
}

rem_1nd-IsRemoved_example : (m' : Places) × (rem_1nd 1 surface ≡ some m') × IsRemoved 1 surface m'
rem_1nd-IsRemoved_example = rem_1nd-IsRemoved 1 surface surface-IsHomed refl (omega arith)

abbrev spare : List Cell
spare = none ∷ none ∷ none ∷ none ∷ none ∷ none ∷ none ∷ none ∷ []

sub_nd_pt-take_out_example :
    Shows (sub_nd_pt 7 2 (some 7 ∷ some 4 ∷ spare)) (take_out 7 (7 ∷ 4 ∷ []))
sub_nd_pt-take_out_example = sub_nd_pt-take_out 7 (7 ∷ 4 ∷ []) spare refl
