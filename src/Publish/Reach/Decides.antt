-- ===== src/Publish/Reach/Decides.antt =====
-- publish_validate.go: `reachableFromStart` on a graph that `newPublishGraph` built.
use orchex.Prelude.{
  ℕ, ◌<◌, ◌≡◌, ◌↔◌, refl, inl, inr, ap, true, List, [], ◌∷◌, arith, All, Bool-cases, count, ◌==◌,
  some, count-eq_of_length, All-map, subst, ==_iff,
}
use mathlib.Core.Option
use orchex.Result.{Result, ok}
use orchex.Digraph.{Walk, here}
use orchex.GoMap
use orchex.GoMap.{make, has, size}
use orchex.Publish.Graph.{PublishNode, PublishEdge, PublishGraph, GraphError}
use orchex.Publish.Graph.Built.{IsBuilt}
use orchex.Publish.Kahn.Decides.{built-Within}
use orchex.Publish.Reach.{Visited, reach_loop, first_unvisited, verdict, reachable_from_start}
use orchex.Publish.Reach.Loop.{Inv, IsReached, reach_loop_ends}
use orchex.Publish.Spec.{ids, inner_arcs}

All-ids {ℓ} :
    (P : ℕ → Type ℓ) (ns : List PublishNode)
    → ((v : ℕ) → 0 < count v (ids ns) → P v)
    → All (λ n. P n.id) ns
All-ids P [] h = tt
All-ids P (n ∷ ns) h = (h n.id (ground arith), All-ids P ns (λ v m. h v (ground arith)))

first_unvisited_iff :
    (visited : Visited) (ns : List PublishNode)
    → (first_unvisited visited ns ≡ ok tt) ↔ All (λ n. has visited n.id ≡ true) ns
unfolding first_unvisited
first_unvisited_iff visited [] = (λ _. tt, λ _. refl)
first_unvisited_iff visited (n ∷ ns) = ground (arith, first_unvisited_iff visited ns)

reachable_from_start_lem :
    (g : PublishGraph) (s : ℕ) (final : Visited)
    → reach_loop g.adj.at (size g.by_id) (GoMap.set (make tt) s tt) (s ∷ []) ≡ some final
    → reachable_from_start g s ≡ some (verdict g final)
unfolding reachable_from_start
reachable_from_start_lem g s final h = ap (Option.map (verdict g)) h

module _ (nodes : List PublishNode) (edges : List PublishEdge) (g : PublishGraph)
    (b : IsBuilt nodes edges g) where
  start-Inv :
      (s : ℕ)
      → 0 < count s (ids nodes)
      → Inv g.by_id.keys (inner_arcs nodes edges) s (GoMap.set (make tt) s tt) [] (s ∷ [])
  start-Inv s m = record {
    distinct = λ v. ground arith;
    split = λ v. ground arith;
    sound =
        λ v h. subst (λ x. Walk (inner_arcs nodes edges) s x) ((==_iff s v).0 (ground arith)) here;
    closed = λ u v h a. absurd (omega arith);
    inside = λ v h. ground (arith, b.keys v);
    source = ground arith;
  }

  verdict_sound :
      (s : ℕ) (visited : Visited)
      → IsReached g.by_id.keys (inner_arcs nodes edges) s visited
      → verdict g visited ≡ ok tt
      → All (λ n. Walk (inner_arcs nodes edges) s n.id) nodes
  unfolding verdict
  verdict_sound s visited r h = elim (Bool-cases (size visited == size g.by_id)) [
    | inl same ↦
        All-ids (λ v. Walk (inner_arcs nodes edges) s v) nodes
          (λ v m. r.sound v (
            ground (
              arith,
              b.keys v,
              count-eq_of_length visited.keys g.by_id.keys
                  (λ w. ground (arith, r.inside w, r.distinct w)) (ground arith) v,
            )))
    | inr other ↦
        let checked : first_unvisited visited nodes ≡ ok tt =
          rw (← b.nodes_eq) (rw (other, verdict) at h) in
        All-map {P = λ n. has visited n.id ≡ true} nodes (λ n e. r.sound n.id (ground arith))
          ((first_unvisited_iff visited nodes).0 checked)
  ]

  verdict_full :
      (s : ℕ) (visited : Visited)
      → IsReached g.by_id.keys (inner_arcs nodes edges) s visited
      → All (λ n. Walk (inner_arcs nodes edges) s n.id) nodes
      → verdict g visited ≡ ok tt
  unfolding verdict
  verdict_full s visited r h = elim (Bool-cases (size visited == size g.by_id)) [
    | inl same ↦ rw same
    | inr other ↦
        rw (other, b.nodes_eq)
          ((first_unvisited_iff visited nodes).1 (
            All-map {P = λ n. Walk (inner_arcs nodes edges) s n.id} nodes
              (λ n w. ground (arith, r.full n.id w)) h))
  ]

  -- The loop ends, and the verdict tells whether every node can be reached.
  pub reachable_from_start_decides :
      (s : ℕ)
      → 0 < count s (ids nodes)
      → (r : Result GraphError (Unit {0})) × (reachable_from_start g s ≡ some r)
        × (r ≡ ok tt → All (λ n. Walk (inner_arcs nodes edges) s n.id) nodes)
        × (All (λ n. Walk (inner_arcs nodes edges) s n.id) nodes → r ≡ ok tt)
  reachable_from_start_decides s m =
      let (final, ends, reached) =
        reach_loop_ends g.by_id.keys (inner_arcs nodes edges) s (built-Within nodes edges g b)
          g.adj.at b.adj (size g.by_id) (GoMap.set (make tt) s tt) [] (s ∷ []) (start-Inv s m)
          (omega arith) in
      (
        verdict g final,
        reachable_from_start_lem g s final ends,
        verdict_sound s final reached,
        verdict_full s final reached,
      )
