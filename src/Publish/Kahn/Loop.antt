-- ===== src/Publish/Kahn/Loop.antt =====
-- publish_validate.go: the queue loop of `hasCycleKahn` removes a topologically ordered set of
-- nodes, namely all nodes exactly when the graph has no cycle.
use orchex.Prelude.{
  ℕ, zero, suc, ◌+◌, ◌≤◌, ◌<◌, ◌≡◌, refl, List, [], ◌∷◌, ◌++◌, some, arith, ◌==◌, if◌then◌else◌,
  length, length-append, count, count-append, length-le_of_count, count-eq_of_length, missing, inl,
  inr, subst, ==_iff, ltb, ◌&&◌, ◌∙◌, ap, ◌≢◌,
}
use orchex.Digraph.{Arcs, Walk, here, Cycle, Within, multiplicity, targets}
use orchex.Digraph.Degrees.{
  in_degree_outside, in_degree_outside-cons, count-targets, source_of_outside, outside_source,
}
use orchex.Digraph.Walks.{IsTopological, IsTopological-no_cycle, backward_chain}
use orchex.GoMap.{GoMap, HasDistinctKeys}
use orchex.Publish.Kahn.{ℤ, pos, relax, kahn_loop}
use orchex.Publish.Kahn.Steps.{Leaves, at-relax, count-relax}

module _ (vs : List ℕ) (es : Arcs) where
  -- `P` is what the loop has removed, the last one first.
  pub record Inv (degs : GoMap ℤ) (P queue : List ℕ) : Type 0 where
    pub degrees : (v : ℕ) → degs.at v ≡ pos (in_degree_outside es P v)
    pub queued :
        (v : ℕ)
        → count v P + count v queue ≡ (if in_degree_outside es P v == 0 then count v vs else 0)
    pub ordered : IsTopological es P

  -- What is removed when the queue is empty.
  pub record IsPeeled (P : List ℕ) : Type 0 where
    pub free : (v : ℕ) → count v P ≡ (if in_degree_outside es P v == 0 then count v vs else 0)
    pub ordered : IsTopological es P

module _ (vs : List ℕ) (es : Arcs) (distinct : HasDistinctKeys vs) (within : Within vs es)
    (adj : ℕ → List ℕ) (adj_targets : (u : ℕ) → adj u ≡ targets es u) where
  head_new :
      (degs : GoMap ℤ) (P : List ℕ) (u : ℕ) (queue : List ℕ)
      → Inv vs es degs P (u ∷ queue)
      → (count u P ≡ 0) × (in_degree_outside es P u ≡ 0)
  head_new degs P u queue i = ground (arith, i.queued u, distinct u)

  round-Leaves :
      (degs : GoMap ℤ) (P : List ℕ) (u : ℕ) (queue : List ℕ)
      → Inv vs es degs P (u ∷ queue)
      → Leaves (in_degree_outside es (u ∷ P)) (targets es u) degs
  round-Leaves degs P u queue i v =
      let new = head_new degs P u queue i in
      i.degrees v
      ∙ ap pos (omega (arith, in_degree_outside-cons es P u v new.0, count-targets es u v))

  round_queued :
      (r m c p q q' e : ℕ)
      → (0 < m → 0 < c)
      → c ≤ 1
      → p + (e + q) ≡ (if r + m == 0 then c else 0)
      → q' ≡ q + (if r == 0 && ltb 0 m then 1 else 0)
      → (e + p) + q' ≡ (if r == 0 then c else 0)
  round_queued r m c p q q' e inside d before pushed = ground arith

  round-Inv :
      (degs : GoMap ℤ) (P : List ℕ) (u : ℕ) (queue : List ℕ)
      → Inv vs es degs P (u ∷ queue)
      → let after = relax (degs, queue) (targets es u) in Inv vs es after.0 (u ∷ P) after.1
  round-Inv degs P u queue i =
      let new = head_new degs P u queue i in
      let leaves = round-Leaves degs P u queue i in
      record {
        degrees = at-relax (in_degree_outside es (u ∷ P)) (targets es u) degs queue leaves;
        queued = λ v.
            round_queued (in_degree_outside es (u ∷ P) v) (multiplicity es u v) (count v vs)
              (count v P) (count v queue) (count v (relax (degs, queue) (targets es u)).1)
              (if u == v then 1 else 0) (λ a. (within u v a).1) (distinct v)
              (rw (in_degree_outside-cons es P u v new.0) at (i.queued v))
              (rw (count-targets es u v) at
                (count-relax (in_degree_outside es (u ∷ P)) (targets es u) degs queue leaves v));
        ordered = (λ x a. source_of_outside es P x u new.1 a, i.ordered);
      }

  room :
      (degs : GoMap ℤ) (P queue : List ℕ)
      → Inv vs es degs P queue
      → length P + length queue ≤ length vs
  room degs P queue i = omega (
    arith,
    length-append P queue,
    length-le_of_count (P ++ queue) vs (λ v. ground (arith, i.queued v, count-append v P queue)),
  )

  -- With fuel for the nodes that are left the loop ends, and says how many it removed.
  pub kahn_loop_ends :
      (fuel : ℕ) (degs : GoMap ℤ) (P queue : List ℕ)
      → Inv vs es degs P queue
      → length vs ≤ length P + fuel
      → (R : List ℕ) × (kahn_loop adj fuel degs queue (length P) ≡ some (length R))
        × IsPeeled vs es R
  unfolding kahn_loop
  kahn_loop_ends zero degs P [] i n =
      (P, refl, record { free = λ v. omega (arith, i.queued v); ordered = i.ordered })
  kahn_loop_ends zero degs P (u ∷ queue) i n = absurd (omega (arith, room degs P (u ∷ queue) i))
  kahn_loop_ends (suc fuel) degs P [] i n =
      (P, refl, record { free = λ v. omega (arith, i.queued v); ordered = i.ordered })
  kahn_loop_ends (suc fuel) degs P (u ∷ queue) i n = rw (adj_targets u) (
      let after = relax (degs, queue) (targets es u) in
      kahn_loop_ends fuel after.0 (u ∷ P) after.1 (round-Inv degs P u queue i) (omega arith))

  removed_distinct : (R : List ℕ) → IsPeeled vs es R → (v : ℕ) → count v R ≤ count v vs
  removed_distinct R p v = ground (arith, p.free v)

  -- All nodes are removed: there is no cycle.
  pub all_removed : (R : List ℕ) → IsPeeled vs es R → length R ≡ length vs → ¬ Cycle es
  all_removed R p len (u, v, a, w) =
      let same = count-eq_of_length R vs (removed_distinct R p) len in
      IsTopological-no_cycle es R u v p.ordered (λ x. omega (arith, same x, distinct x))
        (omega (arith, same v, (within u v a).1)) a w

  -- A node is left: the nodes that are left hold a cycle.
  pub some_left : (R : List ℕ) → IsPeeled vs es R → length R ≢ length vs → Cycle es
  some_left R p len = elim (missing vs R) [
    | inl all ↦ absurd (
        len (
          omega (
            arith,
            length-le_of_count R vs (removed_distinct R p),
            length-le_of_count vs R (λ v. ground (arith, all v, distinct v)),
          )))
    | inr (v, v_in, v_left) ↦
        backward_chain es vs (λ x. (0 < count x vs) × (count x R ≡ 0)) (λ x i. i.0)
          (λ x i.
            let (u, a, left) = outside_source es R x (ground (arith, p.free x)) in
            (u, a, ((within u x a).0, left)))
          (length vs) v (v ∷ []) (v_in, v_left)
          (λ x m. subst (λ y. Walk es v y) ((==_iff v x).0 (ground arith)) here) (λ x. ground arith)
          (omega arith)
  ]
