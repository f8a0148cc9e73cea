-- ===== src/Dbase/Remove/Removed.antt =====
-- What rem_1nd leaves of the mesh.
use tcad_webapp.Prelude.{
  ℕ, suc, Bool, not, ◌≡◌, ◌<◌, ◌⊎◌, refl, sym, ap, ◌∙◌, true, false, some, List, [], ◌∷◌, length,
  ◌==◌, ==_iff, Bool-cases, inl, inr, arith,
}
use tcad_webapp.Dbase.ListStr.Items.{contains, erase}
use tcad_webapp.Dbase.Nodes.{gas}
use tcad_webapp.Dbase.Remove.{
  Places, take_out, set_nodes, kill_nd, kill_pt, clear_point, rem_within, rem_1nd,
}
use tcad_webapp.Dbase.Remove.Homed.{IsHomed, out, out_nd, out_nodes, out-IsHomed, kill_pt-IsHomed}

-- A live point has a node, and not one of gas alone.
abbrev pub may_stay : Places → List ℕ → Bool
may_stay m [] = false
may_stay m (n1 ∷ []) = not ((m.nd n1).mater == gas)
may_stay m (n1 ∷ n2 ∷ ns) = true

-- What rem_1nd does: the node is dead; any other is as before, or it was a node of gas at the same
-- point and is dead too; the point is dead or may stay, and any other is as before.
pub record IsRemoved (n : ℕ) (m m' : Places) : Type 0 where
  pub homed : IsHomed m'
  pub gone : (m'.nd n).killed ≡ true
  pub others :
      (k : ℕ)
      → (k == n) ≡ false
      → (m'.nd k ≡ m.nd k)
        ⊎ (((m'.nd k).killed ≡ true) × ((m.nd k).mater ≡ gas) × ((m.nd k).pt ≡ (m.nd n).pt))
  pub stays : (m'.pt (m.nd n).pt).killed ≡ false → may_stay m' (m'.pt (m.nd n).pt).nd ≡ true
  pub elsewhere : (q : ℕ) → (q == (m.nd n).pt) ≡ false → m'.pt q ≡ m.pt q

rem_step :
    (depth n : ℕ) (m : Places) (xs : List ℕ)
    → (m.nd n).killed ≡ false
    → take_out n (m.pt (m.nd n).pt).nd ≡ some xs
    → rem_within (suc depth) n m
      ≡ clear_point (rem_within depth) (m.nd n).pt xs (kill_nd n (set_nodes (m.nd n).pt xs m))
unfolding rem_within
rem_step depth n m xs live e = rw (live, e) refl

take_out-some :
    (n : ℕ) (xs : List ℕ)
    → contains n xs ≡ true
    → length xs < 10
    → take_out n xs ≡ some (erase n xs)
unfolding take_out
take_out-some n xs h k = rw h (ground arith)

still_killed : (n k : ℕ) (m : Places) → (m.nd k).killed ≡ true → ((out n m).nd k).killed ≡ true
still_killed n k m h = elim (Bool-cases (k == n)) [ inl e ↦ rw e refl | inr e ↦ rw e h ]

module _ (n : ℕ) (m : Places) (h : IsHomed m) (live : (m.nd n).killed ≡ false) where
  out_gone : ((out n m).nd n).killed ≡ true
  out_gone = rw ((==_iff n n).1 refl) refl

  out_here : ((out n m).pt (m.nd n).pt).nd ≡ erase n (m.pt (m.nd n).pt).nd
  out_here = rw ((==_iff (m.nd n).pt (m.nd n).pt).1 refl) refl

  -- Where nothing more is done.
  out-IsRemoved : may_stay (out n m) ((out n m).pt (m.nd n).pt).nd ≡ true → IsRemoved n m (out n m)
  out-IsRemoved s = record {
    homed = out-IsHomed n m h live;
    gone = out_gone;
    others = λ k f. inl (out_nd n m h live k f);
    stays = λ f. s;
    elsewhere = λ q f. rw f refl;
  }

  rem_out :
      (depth : ℕ)
      → length (m.pt (m.nd n).pt).nd < 10
      → rem_within (suc depth) n m
        ≡ clear_point (rem_within depth) (m.nd n).pt (erase n (m.pt (m.nd n).pt).nd) (out n m)
  rem_out depth k =
      rem_step depth n m (erase n (m.pt (m.nd n).pt).nd) live
        (take_out-some n (m.pt (m.nd n).pt).nd (h.point n live).1 k)

  -- The only node of its point takes the point with it.
  rem_last :
      (depth : ℕ)
      → (m.pt (m.nd n).pt).nd ≡ n ∷ []
      → (rem_within (suc depth) n m ≡ some (kill_pt (m.nd n).pt (out n m)))
        × (((out n m).pt (m.nd n).pt).nd ≡ [])
  unfolding erase
  rem_last depth e =
      let empty : erase n (m.pt (m.nd n).pt).nd ≡ [] = rw (e, (==_iff n n).1 refl) refl in
      (
        rem_out depth (rw e (omega arith))
            ∙ ap (λ xs. clear_point (rem_within depth) (m.nd n).pt xs (out n m)) empty,
        out_here ∙ empty,
      )

module _ (n : ℕ) (m : Places) (h : IsHomed m) (live : (m.nd n).killed ≡ false) where
  abbrev Finds : List ℕ → Type 0
  Finds xs =
      (m' : Places) × (clear_point (rem_within 1) (m.nd n).pt xs (out n m) ≡ some m')
      × IsRemoved n m m'

  -- A node of gas that is left alone.
  gas-Finds :
      (n1 : ℕ)
      → ((out n m).pt (m.nd n).pt).nd ≡ n1 ∷ []
      → (((out n m).nd n1).mater == gas) ≡ true
      → Finds (n1 ∷ [])
  unfolding contains
  gas-Finds n1 e g =
      let homed = out-IsHomed n m h live in
      let r =
        out_nodes n m h live (m.nd n).pt n1 (h.point n live).0
          (rw (e, (==_iff n1 n1).1 refl) refl) in
      let same = out_nd n m h live n1 r.0 in
      let live1 : ((out n m).nd n1).killed ≡ false = ap (λ x. x.killed) same ∙ r.1 in
      let pt1 : ((out n m).nd n1).pt ≡ (m.nd n).pt = ap (λ x. x.pt) same ∙ r.2 in
      let alone : ((out n m).pt ((out n m).nd n1).pt).nd ≡ n1 ∷ [] =
        ap (λ q. ((out n m).pt q).nd) pt1 ∙ e in
      let last = rem_last n1 (out n m) homed live1 0 alone in
      (
        kill_pt ((out n m).nd n1).pt (out n1 (out n m)),
        rw g last.0,
        record {
          homed =
              kill_pt-IsHomed ((out n m).nd n1).pt (out n1 (out n m))
                (out-IsHomed n1 (out n m) homed live1) last.1;
          gone = still_killed n1 n (out n m) (out_gone n m h live);
          others = λ k f. elim (Bool-cases (k == n1)) [
            | inl q ↦
                let is = (==_iff k n1).0 q in
                inr (
                  rw q refl,
                  ap (λ x. (m.nd x).mater) is
                      ∙ ap (λ x. x.mater) (sym same)
                      ∙ (==_iff ((out n m).nd n1).mater gas).0 g,
                  ap (λ x. (m.nd x).pt) is ∙ r.2,
                )
            | inr q ↦ inl (out_nd n1 (out n m) homed live1 k q ∙ out_nd n m h live k f)
          ];
          stays = λ f. cc (rw ((==_iff (m.nd n).pt ((out n m).nd n1).pt).1 (sym pt1)) at f);
          elsewhere = λ q f. rw (ap (λ x. q == x) pt1 ∙ f, f) refl;
        },
      )

  two-Finds :
      (n1 n2 : ℕ) (ns : List ℕ)
      → ((out n m).pt (m.nd n).pt).nd ≡ n1 ∷ n2 ∷ ns
      → Finds (n1 ∷ n2 ∷ ns)
  two-Finds n1 n2 ns e = (out n m, refl, out-IsRemoved n m h live (rw e refl))

  empty-Finds : ((out n m).pt (m.nd n).pt).nd ≡ [] → Finds []
  empty-Finds e = (
    kill_pt (m.nd n).pt (out n m),
    refl,
    record {
      homed = kill_pt-IsHomed (m.nd n).pt (out n m) (out-IsHomed n m h live) e;
      gone = out_gone n m h live;
      others = λ k f. inl (out_nd n m h live k f);
      stays = λ f. cc (rw ((==_iff (m.nd n).pt (m.nd n).pt).1 refl) at f);
      elsewhere = λ q f. rw f refl;
    },
  )

  clear-Finds : (xs : List ℕ) → ((out n m).pt (m.nd n).pt).nd ≡ xs → Finds xs
  clear-Finds [] e = empty-Finds e
  clear-Finds (n1 ∷ n2 ∷ ns) e = two-Finds n1 n2 ns e
  clear-Finds (n1 ∷ []) e = elim (Bool-cases (((out n m).nd n1).mater == gas)) [
    | inl g ↦ gas-Finds n1 e g
    | inr g ↦ (out n m, rw g refl, out-IsRemoved n m h live (rw (e, g) refl))
  ]

  -- On a mesh in which the live nodes and the live points stand to one another, rem_1nd of a live
  -- node whose point has fewer than MAXMAT nodes ends with no panic, and the nodes and points stand
  -- to one another again. The node is dead; any other node is as it was, or it was a node of gas at
  -- the same point and is dead too. The point of the node is dead, or it has nodes left and not one
  -- of gas alone; any other point is as it was.
  pub rem_1nd-IsRemoved :
      length (m.pt (m.nd n).pt).nd < 10 → (m' : Places) × (rem_1nd n m ≡ some m') × IsRemoved n m m'
  unfolding rem_1nd
  rem_1nd-IsRemoved k =
      let (m', e, removed) = clear-Finds (erase n (m.pt (m.nd n).pt).nd) (out_here n m h live) in
      (m', rem_out n m h live 1 k ∙ e, removed)
