-- ===== src/Store/GraphWrites.antt =====
-- internal/db/sqlc/nodes.sql.go, workflow_edges.sql.go and node_types.sql.go: the statements that
-- write and read the graph of a version.
use orchex.Prelude.{
  ℕ, String, Bool, false, not, ◌&&◌, ◌||◌, List, [], ◌∷◌, Option, none, some, ◌==◌, if◌then◌else◌,
  contains, map,
}
use orchex.Result.{ok}
use orchex.Store.Tables.{NodeType, StoredNode, EdgeRow}
use orchex.Store.Effects.{StoreError, M, statement}
use orchex.Store.RunQueries.Start.{find_type}
use orchex.Save.Encode.{NodeRecord, EdgeRecord}
use orchex.Save.Load.{NodeTypeRow}

-- `INSERT … ON CONFLICT (workflow_version_id, id) DO UPDATE`
abbrev pub stored_node : ℕ → ℕ → NodeRecord → StoredNode
stored_node now v r = record {
  id = r.id;
  workflow_version_id = v;
  node_type_id = r.node_type_id;
  name = r.name;
  config = r.config;
  position_x = r.position_x;
  position_y = r.position_y;
  created_at = now;
  updated_at = now;
}

abbrev pub upsert_node : ℕ → ℕ → NodeRecord → List StoredNode → List StoredNode
upsert_node now v r [] = stored_node now v r ∷ []
upsert_node now v r (n ∷ ns) =
    let rest = upsert_node now v r ns in
    if n.workflow_version_id == v && n.id == r.id
    then record (stored_node now v r) { created_at = n.created_at } ∷ ns
    else n ∷ rest

abbrev pub upsert_all_nodes : ℕ → ℕ → List NodeRecord → List StoredNode → List StoredNode
upsert_all_nodes now v [] ns = ns
upsert_all_nodes now v (r ∷ rs) ns = upsert_all_nodes now v rs (upsert_node now v r ns)

unfoldable pub upsert_nodes : ℕ → List NodeRecord → M StoreError (Unit {0})
upsert_nodes v rs =
    statement (λ db. ok (tt, record db { nodes = upsert_all_nodes db.now v rs db.nodes }))

-- `DeleteNodesNotIn`: of the version, the nodes that `ids` does not hold go.
abbrev pub is_dropped : ℕ → List ℕ → ℕ → ℕ → Bool
is_dropped v ids version i = version == v && not (contains i ids)

abbrev pub drop_nodes : ℕ → List ℕ → List StoredNode → List StoredNode
drop_nodes v ids [] = []
drop_nodes v ids (n ∷ ns) =
    let rest = drop_nodes v ids ns in
    if is_dropped v ids n.workflow_version_id n.id then rest else n ∷ rest

-- The foreign keys of the edges cascade: an edge goes with either of its nodes.
abbrev pub has_node : ℕ → ℕ → List StoredNode → Bool
has_node v i [] = false
has_node v i (n ∷ ns) =
    let rest = has_node v i ns in (n.workflow_version_id == v && n.id == i) || rest

abbrev pub loses_node : ℕ → List ℕ → List StoredNode → EdgeRow → Bool
loses_node v ids nodes e =
    (is_dropped v ids e.workflow_version_id e.from_node_id && has_node v e.from_node_id nodes)
    || (is_dropped v ids e.workflow_version_id e.to_node_id && has_node v e.to_node_id nodes)

abbrev pub cascade : ℕ → List ℕ → List StoredNode → List EdgeRow → List EdgeRow
cascade v ids nodes [] = []
cascade v ids nodes (e ∷ es) =
    let rest = cascade v ids nodes es in if loses_node v ids nodes e then rest else e ∷ rest

unfoldable pub delete_nodes_not_in : ℕ → List ℕ → M StoreError (Unit {0})
delete_nodes_not_in v ids = statement (λ db.
    ok (
      tt,
      record db { nodes = drop_nodes v ids db.nodes; edges = cascade v ids db.nodes db.edges },
    ))

abbrev pub stored_edge : ℕ → ℕ → EdgeRecord → EdgeRow
stored_edge now v r = record {
  workflow_version_id = v;
  id = r.id;
  from_node_id = r.from_node_id;
  to_node_id = r.to_node_id;
  label = r.label;
  created_at = now;
  updated_at = now;
}

abbrev pub upsert_edge : ℕ → ℕ → EdgeRecord → List EdgeRow → List EdgeRow
upsert_edge now v r [] = stored_edge now v r ∷ []
upsert_edge now v r (e ∷ es) =
    let rest = upsert_edge now v r es in
    if e.workflow_version_id == v && e.id == r.id
    then record (stored_edge now v r) { created_at = e.created_at } ∷ es
    else e ∷ rest

abbrev pub upsert_all_edges : ℕ → ℕ → List EdgeRecord → List EdgeRow → List EdgeRow
upsert_all_edges now v [] es = es
upsert_all_edges now v (r ∷ rs) es = upsert_all_edges now v rs (upsert_edge now v r es)

unfoldable pub upsert_edges : ℕ → List EdgeRecord → M StoreError (Unit {0})
upsert_edges v rs =
    statement (λ db. ok (tt, record db { edges = upsert_all_edges db.now v rs db.edges }))

abbrev pub drop_edges : ℕ → List ℕ → List EdgeRow → List EdgeRow
drop_edges v ids [] = []
drop_edges v ids (e ∷ es) =
    let rest = drop_edges v ids es in
    if is_dropped v ids e.workflow_version_id e.id then rest else e ∷ rest

unfoldable pub delete_edges_not_in : ℕ → List ℕ → M StoreError (Unit {0})
delete_edges_not_in v ids =
    statement (λ db. ok (tt, record db { edges = drop_edges v ids db.edges }))

-- `ListNodesForPublish`: the nodes of the version with the degree bounds of their types.
pub record PublishRow : Type 0 where
  pub id : ℕ
  pub type : String
  pub config : String
  pub min_in_degree : ℕ
  pub max_in_degree : ℕ
  pub min_out_degree : ℕ
  pub max_out_degree : ℕ

abbrev pub join_bounds : StoredNode → Option NodeType → List PublishRow → List PublishRow
join_bounds n none rest = rest
join_bounds n (some t) rest =
    record {
      id = n.id;
      type = t.type;
      config = n.config;
      min_in_degree = t.min_in_degree;
      max_in_degree = t.max_in_degree;
      min_out_degree = t.min_out_degree;
      max_out_degree = t.max_out_degree;
    }
    ∷ rest

abbrev pub nodes_of : ℕ → List StoredNode → List StoredNode
nodes_of v [] = []
nodes_of v (n ∷ ns) =
    let rest = nodes_of v ns in if n.workflow_version_id == v then n ∷ rest else rest

abbrev pub join_all_bounds : List NodeType → List StoredNode → List PublishRow
join_all_bounds types [] = []
join_all_bounds types (n ∷ ns) =
    join_bounds n (find_type n.node_type_id types) (join_all_bounds types ns)

unfoldable pub list_nodes_for_publish : ℕ → M StoreError (List PublishRow)
list_nodes_for_publish v =
    statement (λ db. ok (join_all_bounds db.node_types (nodes_of v db.nodes), db))

abbrev pub edges_of : ℕ → List EdgeRow → List EdgeRow
edges_of v [] = []
edges_of v (e ∷ es) =
    let rest = edges_of v es in if e.workflow_version_id == v then e ∷ rest else rest

unfoldable pub list_edges_for_publish : ℕ → M StoreError (List EdgeRow)
list_edges_for_publish v = statement (λ db. ok (edges_of v db.edges, db))

-- `ListNodeTypes`
abbrev pub type_row : NodeType → NodeTypeRow
type_row t = record { id = t.id; type = t.type; config_schema = t.config_schema }

unfoldable pub list_node_types : M StoreError (List NodeTypeRow)
list_node_types = statement (λ db. ok (map type_row db.node_types, db))
