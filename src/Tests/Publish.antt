-- ===== src/Tests/Publish.antt =====
-- publish_validate.go on small graphs.
use orchex.Prelude.{ℕ, ◌≡◌, ◌↔◌, refl, Bool, true, false, String, List, [], ◌∷◌, some, arith}
use orchex.GoMap.{IsRangeOrder}
use orchex.Result.{Result, ok, err}
use orchex.Digraph.{Cycle}
use orchex.Publish.Graph.{PublishNode, PublishEdge, GraphError, contains_cycle, new_publish_graph}
use orchex.Publish.Checks.{unique_start, validate_degrees, validate_edge_labels}
use orchex.Publish.Kahn.{has_cycle_kahn}
use orchex.Publish.Reach.{reachable_from_start}
use orchex.Publish.Validate.{validate_graph, validate_publish_graph}
use orchex.Publish.Spec.{IsPublishable, inner_arcs}
use orchex.Publish.Correct.{validate_publish_graph-decides}
use orchex.Publish.Order.{has_cycle_kahn_correct, validate_publish_graph-order}

abbrev pub node : ℕ → String → ℕ → ℕ → PublishNode
node i t ins outs = record {
  id = i;
  type = t;
  min_in_degree = ins;
  max_in_degree = ins;
  min_out_degree = outs;
  max_out_degree = outs;
}

abbrev pub edge : ℕ → ℕ → String → PublishEdge
edge u v l = record { from = u; to = v; label = l }

abbrev pub branching : List PublishNode
branching =
    node 1 "start" 0 1
    ∷ node 2 "conditional" 1 2
    ∷ node 3 "response" 1 0
    ∷ node 4 "response" 1 0
    ∷ []

abbrev pub branches : List PublishEdge
branches = edge 2 4 "false" ∷ edge 1 2 "default" ∷ edge 9 4 "default" ∷ edge 2 3 "true" ∷ []

-- A visit in an order of its own.
abbrev swapped : List ℕ → List ℕ
swapped (a ∷ b ∷ ks) = b ∷ a ∷ ks
swapped ks = ks

swapped-IsRangeOrder : IsRangeOrder swapped
swapped-IsRangeOrder [] v = refl
swapped-IsRangeOrder (a ∷ []) v = refl
swapped-IsRangeOrder (a ∷ b ∷ ks) v = omega arith

abbrev pub in_order : List ℕ → List ℕ
in_order ks = ks

pub accepts_branching : validate_publish_graph in_order branching branches ≡ some (ok tt)
unfolding validate_publish_graph validate_graph new_publish_graph unique_start validate_degrees
    validate_edge_labels has_cycle_kahn reachable_from_start
accepts_branching = refl

abbrev loop_nodes : List PublishNode
loop_nodes = node 1 "start" 0 1 ∷ node 2 "response" 1 0 ∷ node 3 "api" 1 1 ∷ node 4 "api" 1 1 ∷ []

abbrev loop_edges : List PublishEdge
loop_edges = edge 1 2 "default" ∷ edge 3 4 "default" ∷ edge 4 3 "default" ∷ []

finds_cycle : validate_publish_graph in_order loop_nodes loop_edges ≡ some (err contains_cycle)
unfolding validate_publish_graph validate_graph new_publish_graph unique_start validate_degrees
    validate_edge_labels has_cycle_kahn reachable_from_start
finds_cycle = refl

validate_publish_graph-decides_example :
    (res : Result GraphError (Unit {0})) × (validate_publish_graph in_order branching branches
      ≡ some res)
    × ((res ≡ ok tt) ↔ IsPublishable branching branches)
validate_publish_graph-decides_example =
    validate_publish_graph-decides in_order branching branches (λ ks v. refl)

has_cycle_kahn_correct_example :
    (cyclic : Bool) × (has_cycle_kahn in_order (new_publish_graph loop_nodes loop_edges)
      ≡ some cyclic)
    × (cyclic ≡ true → Cycle (inner_arcs loop_nodes loop_edges))
    × (cyclic ≡ false → ¬ Cycle (inner_arcs loop_nodes loop_edges))
has_cycle_kahn_correct_example =
    has_cycle_kahn_correct in_order loop_nodes loop_edges (λ ks v. refl)

validate_publish_graph-order_example :
    validate_publish_graph swapped loop_nodes loop_edges
    ≡ validate_publish_graph in_order loop_nodes loop_edges
validate_publish_graph-order_example =
    validate_publish_graph-order swapped in_order loop_nodes loop_edges swapped-IsRangeOrder
      (λ ks v. refl)
