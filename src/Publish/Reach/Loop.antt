-- ===== src/Publish/Reach/Loop.antt =====
-- publish_validate.go: the queue loop of `reachableFromStart` visits exactly the nodes to which
-- a walk leads from the start node.
use orchex.Prelude.{
  ℕ, zero, suc, ◌+◌, ◌≤◌, ◌<◌, ◌≡◌, refl, List, [], ◌∷◌, ◌++◌, some, arith, ◌==◌, if◌then◌else◌,
  length, length-append, count, contains, count-append, length-le_of_count, inl, inr, ltb, ==_iff,
  Bool-cases,
}
use orchex.Digraph.{Arcs, Arc, Walk, here, step, Within, targets}
use orchex.Digraph.Degrees.{count-targets}
use orchex.GoMap.{HasDistinctKeys, count-add_key, has}
use orchex.Publish.Reach.{Visited, visit, explore, reach_loop}

-- How often a round adds `v`, given how often it is a key already.
abbrev pub added : ℕ → List ℕ → ℕ → ℕ
added old ws v = if ltb 0 old then 0 else (if contains v ws then 1 else 0)

count-visit :
    (s : Visited × List ℕ) (w v : ℕ)
    → (count v (visit s w).0.keys
        ≡ count v s.0.keys + (if w == v then (if has s.0 v then 0 else 1) else 0))
      × (count v (visit s w).1 ≡ count v s.1 + (if w == v then (if has s.0 v then 0 else 1) else 0))
unfolding visit
count-visit s w v = ground (arith, count-add_key v w s.0.keys, count-append v s.1 (w ∷ []))

explore_step :
    (s : Visited × List ℕ) (w : ℕ) (ws : List ℕ) → explore s (w ∷ ws) ≡ explore (visit s w) ws
unfolding explore
explore_step s w ws = refl

-- A round marks and queues exactly the targets that were not visited.
pub explore_lem :
    (ws : List ℕ) (s : Visited × List ℕ) (v : ℕ)
    → (count v (explore s ws).0.keys ≡ count v s.0.keys + added (count v s.0.keys) ws v)
      × (count v (explore s ws).1 ≡ count v s.1 + added (count v s.0.keys) ws v)
explore_lem [] s v = unfold explore in ground arith
explore_lem (w ∷ ws) s v =
    rw (explore_step s w ws) (ground (arith, explore_lem ws (visit s w) v, count-visit s w v))

module _ (vs : List ℕ) (es : Arcs) (start : ℕ) where
  -- `P` is what has left the queue.
  pub record Inv (visited : Visited) (P queue : List ℕ) : Type 0 where
    pub distinct : HasDistinctKeys visited.keys
    pub split : (v : ℕ) → count v visited.keys ≡ count v P + count v queue
    pub sound : (v : ℕ) → 0 < count v visited.keys → Walk es start v
    pub closed : (u v : ℕ) → 0 < count u P → Arc es u v → 0 < count v visited.keys
    pub inside : (v : ℕ) → 0 < count v visited.keys → 0 < count v vs
    pub source : 0 < count start visited.keys

  -- What is visited when the queue is empty.
  pub record IsReached (visited : Visited) : Type 0 where
    pub distinct : HasDistinctKeys visited.keys
    pub sound : (v : ℕ) → 0 < count v visited.keys → Walk es start v
    pub full : (v : ℕ) → Walk es start v → 0 < count v visited.keys
    pub inside : (v : ℕ) → 0 < count v visited.keys → 0 < count v vs

module _ (vs : List ℕ) (es : Arcs) (start : ℕ) (within : Within vs es) (adj : ℕ → List ℕ)
    (adj_targets : (u : ℕ) → adj u ≡ targets es u) where
  round-Inv :
      (visited : Visited) (P : List ℕ) (u : ℕ) (queue : List ℕ)
      → Inv vs es start visited P (u ∷ queue)
      → let after = explore (visited, queue) (targets es u) in
        Inv vs es start after.0 (u ∷ P) after.1
  round-Inv visited P u queue i =
      let one = λ (v : ℕ). explore_lem (targets es u) (visited, queue) v in
      let here' : 0 < count u visited.keys = ground (arith, i.split u) in
      record {
        distinct = λ v. ground (arith, one v, i.distinct v);
        split = λ v. ground (arith, one v, i.split v);
        sound = λ v m. elim (Bool-cases (has visited v)) [
          | inl old ↦ i.sound v (ground arith)
          | inr new ↦ step {v = u} (i.sound u here') (ground (arith, one v, count-targets es u v))
        ];
        closed = λ x v m a. elim (Bool-cases (u == x)) [
          | inl same ↦
              let e : u ≡ x = (==_iff u x).0 same in
              let a' : Arc es u v = rw e a in ground (arith, one v, count-targets es u v)
          | inr other ↦
              let old : 0 < count v visited.keys = i.closed x v (ground arith) a in
              ground (arith, one v)
        ];
        inside = λ v m. elim (Bool-cases (has visited v)) [
          | inl old ↦ i.inside v (ground arith)
          | inr new ↦ (within u v (ground (arith, one v, count-targets es u v))).1
        ];
        source = ground (arith, one start, i.source);
      }

  full_of_closed :
      (visited : Visited) (v : ℕ) (P : List ℕ)
      → Inv vs es start visited P []
      → Walk es start v
      → 0 < count v visited.keys
  full_of_closed visited v P i here = i.source
  full_of_closed visited v P i (step {v = u} p a) =
      i.closed u v (omega (arith, i.split u, full_of_closed visited u P i p)) a

  reached :
      (visited : Visited) (P : List ℕ)
      → Inv vs es start visited P []
      → IsReached vs es start visited
  reached visited P i = record {
    distinct = i.distinct;
    sound = i.sound;
    full = λ v w. full_of_closed visited v P i w;
    inside = i.inside;
  }

  room :
      (visited : Visited) (P queue : List ℕ)
      → Inv vs es start visited P queue
      → length P + length queue ≤ length vs
  room visited P queue i = omega (
    arith,
    length-append P queue,
    length-le_of_count (P ++ queue) vs
        (λ v. ground (arith, i.split v, i.distinct v, i.inside v, count-append v P queue)),
  )

  -- With fuel for the nodes that are left the loop ends.
  pub reach_loop_ends :
      (fuel : ℕ) (visited : Visited) (P queue : List ℕ)
      → Inv vs es start visited P queue
      → length vs ≤ length P + fuel
      → (final : Visited) × (reach_loop adj fuel visited queue ≡ some final)
        × IsReached vs es start final
  unfolding reach_loop
  reach_loop_ends zero visited P [] i n = (visited, refl, reached visited P i)
  reach_loop_ends zero visited P (u ∷ queue) i n =
      absurd (omega (arith, room visited P (u ∷ queue) i))
  reach_loop_ends (suc fuel) visited P [] i n = (visited, refl, reached visited P i)
  reach_loop_ends (suc fuel) visited P (u ∷ queue) i n = rw (adj_targets u) (
      let after = explore (visited, queue) (targets es u) in
      reach_loop_ends fuel after.0 (u ∷ P) after.1 (round-Inv visited P u queue i) (omega arith))
