-- ===== src/Publish/Graph.antt =====
-- publish_validate.go: the nodes and edges that are published, the errors of the validation, and
-- the indexed graph that `newPublishGraph` builds.
pub mod Built
use orchex.Prelude.{ℕ, suc, String, List, [], ◌∷◌, ◌++◌, if◌then◌else◌}
use orchex.GoMap
use orchex.GoMap.{GoMap, has, make}

-- The degree bounds come from the columns of `node_types`, whose seeded values are naturals.
pub record PublishNode : Type 0 where
  pub id : ℕ
  pub type : String
  pub min_in_degree : ℕ
  pub max_in_degree : ℕ
  pub min_out_degree : ℕ
  pub max_out_degree : ℕ

pub record PublishEdge : Type 0 where
  pub from : ℕ
  pub to : ℕ
  pub label : String

-- `graphValidationError`: a constructor for each message, with what is printed into it.
pub data GraphError : Type 0 where
  empty_graph no_start contains_cycle : GraphError
  many_starts : ℕ → GraphError
  bad_in_degree bad_out_degree : (id : ℕ) (type : String) (min max got : ℕ) → GraphError
  conditional_labels : (id : ℕ) → GraphError
  bad_label : (id : ℕ) (type want got : String) → GraphError
  not_reachable : (id : ℕ) → GraphError
  bad_config : (id : ℕ) → GraphError

pub record PublishGraph : Type 0 where
  pub nodes : List PublishNode
  pub by_id : GoMap PublishNode
  pub adj : GoMap (List ℕ)
  pub in_degree : GoMap ℕ
  pub out_degree : GoMap ℕ
  pub out_labels : GoMap (List String)

-- The zero value of `publishNode`.
abbrev zero_node : PublishNode
zero_node = record {
  id = 0;
  type = "";
  min_in_degree = 0;
  max_in_degree = 0;
  min_out_degree = 0;
  max_out_degree = 0;
}

pub empty_publish_graph : List PublishNode → PublishGraph
empty_publish_graph nodes = record {
  nodes = nodes;
  by_id = make zero_node;
  adj = make [];
  in_degree = make 0;
  out_degree = make 0;
  out_labels = make [];
}

-- The body of the loop over the nodes.
pub add_node : PublishGraph → PublishNode → PublishGraph
add_node g n = record g {
  by_id = GoMap.set g.by_id n.id n;
  adj = GoMap.set g.adj n.id [];
  in_degree = GoMap.set g.in_degree n.id 0;
  out_degree = GoMap.set g.out_degree n.id 0;
}

pub add_nodes : PublishGraph → List PublishNode → PublishGraph
unfolding add_node
add_nodes g [] = g
add_nodes g (n ∷ ns) = add_nodes (add_node g n) ns

-- `g.adj[from] = append(g.adj[from], to)` and the counters and labels beside it.
pub link : PublishGraph → PublishEdge → PublishGraph
link g e = record g {
  adj = GoMap.set g.adj e.from (g.adj.at e.from ++ (e.to ∷ []));
  out_degree = GoMap.set g.out_degree e.from (suc (g.out_degree.at e.from));
  in_degree = GoMap.set g.in_degree e.to (suc (g.in_degree.at e.to));
  out_labels = GoMap.set g.out_labels e.from (g.out_labels.at e.from ++ (e.label ∷ []));
}

-- The body of the loop over the edges: an edge with an end that is no node is passed over.
pub add_edge : PublishGraph → PublishEdge → PublishGraph
unfolding link
add_edge g e = if has g.by_id e.from then (if has g.by_id e.to then link g e else g) else g

pub add_edges : PublishGraph → List PublishEdge → PublishGraph
unfolding add_edge
add_edges g [] = g
add_edges g (e ∷ es) = add_edges (add_edge g e) es

unfoldable pub new_publish_graph : List PublishNode → List PublishEdge → PublishGraph
unfolding empty_publish_graph add_nodes add_edges
new_publish_graph nodes edges = add_edges (add_nodes (empty_publish_graph nodes) nodes) edges
