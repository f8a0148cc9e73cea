-- ===== src/Dbase/Nodes/Made.antt =====
-- The loop over the materials of a point, whose marks stand in the array that receives the nodes.
use tcad_webapp.Prelude.{
  ℕ, zero, suc, ◌+◌, ◌≤◌, ◌<◌, ◌≡◌, ◌≢◌, refl, ap, ◌∙◌, true, false, List, [], ◌∷◌, length, ◌==◌,
  if◌then◌else◌, arith, Bool-cases, inl, inr,
}
use tcad_webapp.Dbase.Nodes.{Db, mk_nd, make_at}

-- The materials from `i` on with a mark.
unfoldable pub marked : (ℕ → ℕ) → ℕ → ℕ → List ℕ
marked mark zero i = []
marked mark (suc n) i = let rest = marked mark n (suc i) in if mark i == 0 then rest else i ∷ rest

-- A node that is made takes the entry of a material that was read before: the marks above stay.
pub record Scanned (g : Db) (p i k : ℕ) (mark : ℕ → ℕ) : Type 0 where
  pub used : g.pt_nn p ≡ k
  pub room : k ≤ i
  pub marks : (j : ℕ) → i ≤ j → g.pt_nd p j ≡ mark j

mk_nd-Scanned :
    (g : Db) (p i k : ℕ) (mark : ℕ → ℕ)
    → Scanned g p i k mark
    → Scanned (mk_nd p i g) p (suc i) (suc k) mark
unfolding mk_nd
mk_nd-Scanned g p i k mark h =
    let self : (p == p) ≡ true = ground arith in
    record {
      used = rw self (ap suc h.used);
      room = omega (arith, h.room);
      marks = λ j l.
          let other : (j == g.pt_nn p) ≡ false = ground (arith, h.used, h.room) in
          rw (self, other) (h.marks j (omega arith));
    }

later-Scanned :
    (g : Db) (p i k : ℕ) (mark : ℕ → ℕ) → Scanned g p i k mark → Scanned g p (suc i) k mark
later-Scanned g p i k mark h = record {
  used = h.used;
  room = omega (arith, h.room);
  marks = λ j l. h.marks j (omega arith);
}

-- The entries of point `p` from `k` on are the nodes from `n` on, which are of that point and of
-- these materials.
abbrev pub Made : Db → ℕ → ℕ → ℕ → List ℕ → Type 0
Made g p k n [] = Unit
Made g p k n (m ∷ ms) =
    (g.pt_nd p k ≡ n) × ((g.nd n).pt ≡ p) × ((g.nd n).mater ≡ m) × Made g p (suc k) (suc n) ms

-- What the loop over the materials of point `p` leaves: `k` entries were there, and one node for
-- each of `ms` comes behind them.
pub record Extends (p k : ℕ) (ms : List ℕ) (g g' : Db) : Type 0 where
  pub nodes : g'.nn ≡ length ms + g.nn
  pub count : g'.pt_nn p ≡ length ms + k
  pub made : Made g' p k g.nn ms
  pub kept : (j : ℕ) → j < k → g'.pt_nd p j ≡ g.pt_nd p j
  pub others : (q j : ℕ) → q ≢ p → (g'.pt_nn q ≡ g.pt_nn q) × (g'.pt_nd q j ≡ g.pt_nd q j)
  pub old : (n : ℕ) → n < g.nn → g'.nd n ≡ g.nd n

Extends-refl : (p k : ℕ) (g : Db) → g.pt_nn p ≡ k → Extends p k [] g g
Extends-refl p k g e = record {
  nodes = omega arith;
  count = omega (arith, e);
  made = tt;
  kept = λ j h. refl;
  others = λ q j h. (refl, refl);
  old = λ n h. refl;
}

-- The node that is made, before those of the further materials.
Extends-cons :
    (p k m : ℕ) (ms : List ℕ) (g g' : Db)
    → g.pt_nn p ≡ k
    → Extends p (suc k) ms (mk_nd p m g) g'
    → Extends p k (m ∷ ms) g g'
unfolding mk_nd
Extends-cons p k m ms g g' e h =
    let self : (p == p) ≡ true = ground arith in
    let here : (k == g.pt_nn p) ≡ true = ground arith in
    let new : (g.nn == g.nn) ≡ true = ground arith in
    let node = h.old g.nn (omega arith) in
    record {
      nodes = omega (arith, h.nodes);
      count = omega (arith, h.count);
      made = (
        h.kept k (omega arith) ∙ rw (self, here) refl,
        ap (λ x. x.pt) node ∙ rw new refl,
        ap (λ x. x.mater) node ∙ rw new refl,
        h.made,
      );
      kept = λ j l.
          let other : (j == g.pt_nn p) ≡ false = ground arith in
          h.kept j (omega arith) ∙ rw (self, other) refl;
      others = λ q j ne.
          let other : (q == p) ≡ false = ground arith in
          ((h.others q j ne).0 ∙ rw other refl, (h.others q j ne).1 ∙ rw other refl);
      old = λ n l.
          let other : (n == g.nn) ≡ false = ground arith in h.old n (omega arith) ∙ rw other refl;
    }

pub make_at-Extends :
    (n i k p : ℕ) (mark : ℕ → ℕ) (g : Db)
    → Scanned g p i k mark
    → Extends p k (marked mark n i) g (make_at n i p g)
unfolding make_at marked
make_at-Extends zero i k p mark g h = Extends-refl p k g h.used
make_at-Extends (suc n) i k p mark g h =
    let same = h.marks i (omega arith) in
    elim (Bool-cases (mark i == 0)) [
      | inl e ↦ rw (same, e) (make_at-Extends n (suc i) k p mark g (later-Scanned g p i k mark h))
      | inr e ↦
          rw (same, e)
            (Extends-cons p k i (marked mark n (suc i)) g _ h.used (
              make_at-Extends n (suc i) (suc k) p mark (mk_nd p i g)
                (mk_nd-Scanned g p i k mark h)))
    ]
