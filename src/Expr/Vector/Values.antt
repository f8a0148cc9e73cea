-- ===== src/Expr/Vector/Values.antt =====
-- The solution values that get_solval copies from the nodes.
use tcad_webapp.Prelude.{
  ℕ, ◌≡◌, refl, subst, sym, ap, ◌∙◌, true, Option, none, some, List, [], ◌∷◌, map, get_elem?, ◌==◌,
  ==_iff, if◌then◌else◌, Bool-cases, inl, inr, some-inj,
}
use tcad_webapp.Expr.Token.{Ival, above, below}
use tcad_webapp.Expr.Eval.{Reals}
use tcad_webapp.Expr.Vector.{
  SolNode, Fields, VectorOps, stored, copy_sol, copy_available, stored_kinds, one_of, all_entries,
  get_solval,
}

module _ {F : Type 0} where
  -- The solution value of a node, for those that the nodes hold: the impurities and x and y.
  abbrev pub column : Fields F → Ival → Option (SolNode F → Option F)
  column s (above n) =
      if one_of stored_kinds n
      then (elim (s.imptosol n) [ none ↦ none | some k ↦ some (λ p. get_elem? p.sol k) ])
      else none
  column s (below n) =
      if n == 1 then some (λ p. some p.x) else if n == 2 then some (λ p. some p.y) else none

  abbrev pub AllNodes : (SolNode F → Type 0) → List (SolNode F) → Type 0
  AllNodes P [] = Unit
  AllNodes P (n ∷ ns) = P n × AllNodes P ns

  -- The nodes hold `f` as the solution value.
  pub record Holds (s : Fields F) (i : Ival) (f : SolNode F → F) : Type 0 where
    pub col : SolNode F → Option F
    pub is_column : column s i ≡ some col
    pub entries : AllNodes (λ n. col n ≡ some (f n)) s.nodes

  copy_sol-some :
      (k : ℕ) (f : SolNode F → F) (ns : List (SolNode F))
      → AllNodes (λ n. get_elem? n.sol k ≡ some (f n)) ns
      → copy_sol (some k) ns ≡ stored (map (λ n. some (f n)) ns)
  unfolding copy_sol
  copy_sol-some k f [] h = refl
  copy_sol-some k f (n ∷ ns) h = rw (copy_sol, h.0, copy_sol-some k f ns h.1) refl

  entries-map :
      (g : SolNode F → Option F) (f : SolNode F → F) (ns : List (SolNode F))
      → AllNodes (λ n. g n ≡ some (f n)) ns
      → map g ns ≡ map (λ n. some (f n)) ns
  entries-map g f [] h = refl
  entries-map g f (n ∷ ns) h = rw h.0 (rw (entries-map g f ns h.1) refl)

module _ (r : Reals) (v : VectorOps r.F) where
  get_solval-kind :
      (n : ℕ) (s : Fields r.F)
      → one_of stored_kinds n ≡ true
      → get_solval r v (above n) s ≡ (copy_available (s.imptosol n) s.nodes, s)
  unfolding get_solval
  get_solval-kind n s h = rw h refl

  get_solval-x :
      (s : Fields r.F)
      → get_solval r v (below 1) s ≡ (stored (all_entries r v (λ n. n.x) s.nodes), s)
  unfolding get_solval
  get_solval-x s = refl

  get_solval-y :
      (s : Fields r.F)
      → get_solval r v (below 2) s ≡ (stored (all_entries r v (λ n. n.y) s.nodes), s)
  unfolding get_solval
  get_solval-y s = refl

  copied :
      (s : Fields r.F) (k : ℕ) (f : SolNode r.F → r.F) (col : SolNode r.F → Option r.F)
      → some (λ (p : SolNode r.F). get_elem? p.sol k) ≡ some col
      → AllNodes (λ n. col n ≡ some (f n)) s.nodes
      → copy_sol (some k) s.nodes ≡ stored (all_entries r v f s.nodes)
  copied s k f col e h =
      copy_sol-some k f s.nodes
        (subst (λ c. AllNodes (λ n. c n ≡ some (f n)) s.nodes) (sym (some-inj e)) h)

  listed :
      (s : Fields r.F) (g f : SolNode r.F → r.F) (col : SolNode r.F → Option r.F)
      → some (λ (p : SolNode r.F). some (g p)) ≡ some col
      → AllNodes (λ n. col n ≡ some (f n)) s.nodes
      → all_entries r v g s.nodes ≡ all_entries r v f s.nodes
  listed s g f col e h =
      entries-map (λ p. some (g p)) f s.nodes
        (subst (λ c. AllNodes (λ n. c n ≡ some (f n)) s.nodes) (sym (some-inj e)) h)

  available-Holds :
      (s : Fields r.F) (o : Option ℕ) (f : SolNode r.F → r.F) (col : SolNode r.F → Option r.F)
      → (elim o [ none ↦ none | some k ↦ some (λ (p : SolNode r.F). get_elem? p.sol k) ]) ≡ some col
      → AllNodes (λ n. col n ≡ some (f n)) s.nodes
      → copy_available o s.nodes ≡ stored (all_entries r v f s.nodes)
  available-Holds s none f col e h = cc e
  available-Holds s (some k) f col e h = copied s k f col e h

  below-Holds :
      (n : ℕ) (s : Fields r.F) (f : SolNode r.F → r.F)
      → Holds s (below n) f
      → get_solval r v (below n) s ≡ (stored (all_entries r v f s.nodes), s)
  below-Holds n s f h = elim (Bool-cases (n == 1)) [
    | inl e ↦
        let one = (==_iff n 1).0 e in
        rw one (
          get_solval-x s
          ∙ ap (λ a. (stored a, s)) (listed s (λ p. p.x) f h.col (rw e at h.is_column) h.entries))
    | inr e ↦ elim (Bool-cases (n == 2)) [
      | inl e' ↦
          let two = (==_iff n 2).0 e' in
          rw two (
            get_solval-y s
            ∙ ap (λ a. (stored a, s))
                (listed s (λ p. p.y) f h.col (rw (e, e') at h.is_column) h.entries))
      | inr e' ↦ cc (rw (e, e') at h.is_column)
    ]
  ]

  pub get_solval-Holds :
      (i : Ival) (s : Fields r.F) (f : SolNode r.F → r.F)
      → Holds s i f
      → get_solval r v i s ≡ (stored (all_entries r v f s.nodes), s)
  get_solval-Holds (above n) s f h = elim (Bool-cases (one_of stored_kinds n)) [
    | inl e ↦
        get_solval-kind n s e
        ∙ ap (λ a. (a, s))
            (available-Holds s (s.imptosol n) f h.col (rw e at h.is_column) h.entries)
    | inr e ↦ cc (rw e at h.is_column)
  ]
  get_solval-Holds (below n) s f h = below-Holds n s f h
