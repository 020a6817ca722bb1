-- ===== src/Publish/Kahn/Decides.antt =====
-- publish_validate.go: `hasCycleKahn` on a graph that `newPublishGraph` built.
use orchex.Prelude.{
  ℕ, ◌≡◌, inl, inr, ap, sym, ◌∙◌, Bool, true, false, not, List, [], ◌∷◌, arith, Bool-cases, count,
  contains, length, ◌==◌, some,
}
use mathlib.Core.Option
use orchex.Digraph.{Arc, Cycle, Within}
use orchex.Digraph.Degrees.{in_degree_outside, in_degree_outside-nil, outside_source}
use orchex.GoMap.{size, HasDistinctKeys, IsRangeOrder}
use orchex.Publish.Graph.{PublishNode, PublishEdge, PublishGraph}
use orchex.Publish.Graph.Built.{IsBuilt}
use orchex.Publish.Kahn.{pos, copy_degrees, sources, kahn_loop, has_cycle_kahn}
use orchex.Publish.Kahn.Steps.{at-copy_degrees, count-keys-copy_degrees, count-sources}
use orchex.Publish.Kahn.Loop.{Inv, kahn_loop_ends, all_removed, some_left}
use orchex.Publish.Spec.{ids, kept, arcs, inner_arcs}

kept-Arc :
    (known : ℕ → Bool) (edges : List PublishEdge) (u v : ℕ)
    → Arc (arcs (kept known edges)) u v
    → (known u ≡ true) × (known v ≡ true)
kept-Arc known [] u v a = absurd (omega arith)
kept-Arc known (e ∷ es) u v a = ground (arith, kept-Arc known es u v)

has_cycle_kahn_lem :
    (range_order : List ℕ → List ℕ) (g : PublishGraph) (n : ℕ)
    → (let degs = copy_degrees g.in_degree g.in_degree.keys in
        kahn_loop g.adj.at (size g.by_id) degs (sources degs (range_order degs.keys)) 0 ≡ some n)
    → has_cycle_kahn range_order g ≡ some (not (n == size g.by_id))
unfolding has_cycle_kahn
has_cycle_kahn_lem range_order g n h = ap (Option.map (λ (r : ℕ). not (r == size g.by_id))) h

module _ (nodes : List PublishNode) (edges : List PublishEdge) (g : PublishGraph)
    (b : IsBuilt nodes edges g) where
  pub built-HasDistinctKeys : HasDistinctKeys g.by_id.keys
  built-HasDistinctKeys v = ground (arith, b.keys v)

  pub built-Within : Within g.by_id.keys (inner_arcs nodes edges)
  built-Within u v a =
      ground (arith, kept-Arc (λ x. contains x (ids nodes)) edges u v a, b.keys u, b.keys v)

  no_key_no_arc : (v : ℕ) → count v g.in_degree.keys ≡ 0 → g.in_degree.at v ≡ 0
  no_key_no_arc v h = elim (Bool-cases (in_degree_outside (inner_arcs nodes edges) [] v == 0)) [
    | inl zero' ↦ ground (arith, b.ins v, in_degree_outside-nil (inner_arcs nodes edges) v)
    | inr some' ↦
        let (u, a, _) = outside_source (inner_arcs nodes edges) [] v (ground arith) in
        let key : count v g.by_id.keys ≡ 0 = ap (count v) (sym b.in_keys) ∙ h in
        absurd (omega (arith, (built-Within u v a).1))
  ]

  start-Inv :
      (range_order : List ℕ → List ℕ)
      → IsRangeOrder range_order
      → let degs = copy_degrees g.in_degree g.in_degree.keys in
        Inv g.by_id.keys (inner_arcs nodes edges) degs [] (sources degs (range_order degs.keys))
  start-Inv range_order r =
      let degs = copy_degrees g.in_degree g.in_degree.keys in
      let at_v : (v : ℕ) → degs.at v ≡ pos (in_degree_outside (inner_arcs nodes edges) [] v) = λ v.
        at-copy_degrees g.in_degree g.in_degree.keys v (no_key_no_arc v)
        ∙ ap pos (b.ins v ∙ sym (in_degree_outside-nil (inner_arcs nodes edges) v)) in
      record {
        degrees = at_v;
        queued = λ v.
            let key : count v g.in_degree.keys ≡ count v g.by_id.keys = ap (count v) b.in_keys in
            ground (
              arith,
              count-sources degs (range_order degs.keys) v,
              at_v v,
              r degs.keys v,
              count-keys-copy_degrees g.in_degree g.in_degree.keys v,
              built-HasDistinctKeys v,
            );
        ordered = tt;
      }

  -- The loop ends, and its count tells whether there is a cycle.
  pub has_cycle_kahn_decides :
      (range_order : List ℕ → List ℕ)
      → IsRangeOrder range_order
      → (cyclic : Bool) × (has_cycle_kahn range_order g ≡ some cyclic)
        × (cyclic ≡ true → Cycle (inner_arcs nodes edges))
        × (cyclic ≡ false → ¬ Cycle (inner_arcs nodes edges))
  has_cycle_kahn_decides range_order r =
      let vs = g.by_id.keys in
      let es = inner_arcs nodes edges in
      let degs = copy_degrees g.in_degree g.in_degree.keys in
      let (R, ends, peeled) =
        kahn_loop_ends vs es built-HasDistinctKeys built-Within g.adj.at b.adj (length vs) degs []
          (sources degs (range_order degs.keys)) (start-Inv range_order r) (omega arith) in
      (
        not (length R == length vs),
        has_cycle_kahn_lem range_order g (length R) ends,
        λ t.
            some_left vs es built-HasDistinctKeys built-Within g.adj.at b.adj R peeled
              (ground arith),
        λ f.
            all_removed vs es built-HasDistinctKeys built-Within g.adj.at b.adj R peeled
              (ground arith),
      )
