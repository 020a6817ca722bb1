-- ===== src/Publish/Spec.antt =====
-- What publish_validate.go is to accept: README.md, "How does draft and publish work", read as a
-- predicate on the nodes and edges. An edge with an end that is no node is no part of the graph.
use orchex.Prelude.{
  ℕ, ◌≤◌, ◌≡◌, ◌≢◌, ◌⊎◌, String, Bool, List, [], ◌∷◌, ◌++◌, if◌then◌else◌, contains, All, ◌==◌,
}
use orchex.Digraph.{Arcs, Walk, Cycle, in_degree, out_degree}
use orchex.Publish.Graph.{PublishNode, PublishEdge}
use orchex.Publish.Checks.{
  node_type_start, node_type_conditional, edge_label_default, edge_label_true, edge_label_false,
}

abbrev pub ids : List PublishNode → List ℕ
ids [] = []
ids (n ∷ ns) = n.id ∷ ids ns

-- The edges whose ends both have the property.
abbrev pub kept : (ℕ → Bool) → List PublishEdge → List PublishEdge
kept known [] = []
kept known (e ∷ es) =
    let rest = kept known es in
    if known e.from then (if known e.to then e ∷ rest else rest) else rest

abbrev pub arcs : List PublishEdge → Arcs
arcs [] = []
arcs (e ∷ es) = (e.from, e.to) ∷ arcs es

-- The labels of the edges out of `u`, in order.
abbrev pub labels_from : List PublishEdge → ℕ → List String
labels_from [] u = []
labels_from (e ∷ es) u = let rest = labels_from es u in if e.from == u then e.label ∷ rest else rest

-- The edges between the nodes.
abbrev pub inner_edges : List PublishNode → List PublishEdge → List PublishEdge
inner_edges nodes edges = kept (λ v. contains v (ids nodes)) edges

abbrev pub inner_arcs : List PublishNode → List PublishEdge → Arcs
inner_arcs nodes edges = arcs (inner_edges nodes edges)

-- One node has the type "start", and its identifier is `s`.
pub record HasOneStart (nodes : List PublishNode) (s : ℕ) : Type 0 where
  pub before : List PublishNode
  pub node : PublishNode
  pub after : List PublishNode
  pub split : nodes ≡ before ++ (node ∷ after)
  pub is_start : node.type ≡ node_type_start
  pub named : node.id ≡ s
  pub none_before : All (λ n. n.type ≢ node_type_start) before
  pub none_after : All (λ n. n.type ≢ node_type_start) after

abbrev pub HasDegrees : Arcs → PublishNode → Type 0
HasDegrees es n =
    (n.min_in_degree ≤ in_degree es n.id)
    × (in_degree es n.id ≤ n.max_in_degree)
    × (n.min_out_degree ≤ out_degree es n.id)
    × (out_degree es n.id ≤ n.max_out_degree)

-- A conditional node has one edge "true" and one edge "false", any other has only "default".
abbrev pub HasLabels : List PublishEdge → PublishNode → Type 0
HasLabels es n =
    (n.type ≡ node_type_conditional
      → (labels_from es n.id ≡ edge_label_true ∷ edge_label_false ∷ [])
        ⊎ (labels_from es n.id ≡ edge_label_false ∷ edge_label_true ∷ []))
    × (n.type ≢ node_type_conditional → All (λ l. l ≡ edge_label_default) (labels_from es n.id))

pub record IsPublishable (nodes : List PublishNode) (edges : List PublishEdge) : Type 0 where
  pub start : ℕ
  pub one_start : HasOneStart nodes start
  pub degrees : All (HasDegrees (inner_arcs nodes edges)) nodes
  pub labels : All (HasLabels (inner_edges nodes edges)) nodes
  pub acyclic : ¬ Cycle (inner_arcs nodes edges)
  pub reachable : All (λ n. Walk (inner_arcs nodes edges) start n.id) nodes
