-- ===== src/Store/Details.antt =====
-- internal/db/sqlc/workflows.sql.go: `GetWorkflowDetail`, one version of a workflow with its graph.
-- The two JSON arrays that the statement builds are the lists that they decode to.
use orchex.Prelude.{
  ℕ, Bool, true, false, ◌&&◌, ◌||◌, List, [], ◌∷◌, Option, none, some, ltb, ◌==◌, map,
}
use orchex.Result.{Result, ok, err}
use orchex.Store.Tables.{NodeType, StoredNode, EdgeRow, WorkflowRow, WorkflowVersion, Db}
use orchex.Store.Effects.{StoreError, no_rows, M, statement}
use orchex.Store.RunQueries.Start.{find_type}
use orchex.Store.WorkflowQueries.{find_workflow, find_version, order_by}
use orchex.Store.GraphWrites.{nodes_of, edges_of}
use orchex.Save.{Node, Edge, Position}

pub record DetailRow : Type 0 where
  pub workflow : WorkflowRow
  pub graph_id : ℕ
  pub graph_version : ℕ
  pub graph_published_at : Option ℕ
  pub nodes : List Node
  pub edges : List Edge

-- `CASE WHEN position_x IS NULL AND position_y IS NULL THEN NULL`; a missing coordinate beside a
-- present one is decoded to zero.
abbrev pub position_of : Option ℕ → Option ℕ → Option Position
position_of none none = none
position_of (some x) none = some (record { x = x; y = 0 })
position_of none (some y) = some (record { x = 0; y = y })
position_of (some x) (some y) = some (record { x = x; y = y })

abbrev pub detail_node : StoredNode → NodeType → Node
detail_node n t = record {
  id = n.id;
  node_type = t.type;
  name = n.name;
  config = n.config;
  position = position_of n.position_x n.position_y;
}

abbrev pub join_detail : StoredNode → Option NodeType → List Node → List Node
join_detail n none rest = rest
join_detail n (some t) rest = detail_node n t ∷ rest

abbrev pub join_details : List NodeType → List StoredNode → List Node
join_details types [] = []
join_details types (n ∷ ns) = join_detail n (find_type n.node_type_id types) (join_details types ns)

abbrev pub detail_edge : EdgeRow → Edge
detail_edge e = record { id = e.id; from = e.from_node_id; to = e.to_node_id; label = e.label }

-- `ORDER BY created_at, id`
abbrev pub is_older : ℕ → ℕ → ℕ → ℕ → Bool
is_older created i created' j = ltb created created' || (created == created' && ltb i j)

abbrev pub node_order : StoredNode → StoredNode → Bool
node_order m n = is_older m.created_at m.id n.created_at n.id

abbrev pub edge_order : EdgeRow → EdgeRow → Bool
edge_order d e = is_older d.created_at d.id e.created_at e.id

abbrev pub graph_row :
    Db → WorkflowRow → Option WorkflowVersion → Result StoreError (DetailRow × Db)
graph_row db w none = err no_rows
graph_row db w (some v) = ok (
  record {
    workflow = w;
    graph_id = v.id;
    graph_version = v.version;
    graph_published_at = v.published_at;
    nodes = join_details db.node_types (order_by node_order (nodes_of v.id db.nodes));
    edges = map detail_edge (order_by edge_order (edges_of v.id db.edges));
  },
  db,
)

abbrev pub version_row : Db → WorkflowRow → Option ℕ → Result StoreError (DetailRow × Db)
version_row db w none = err no_rows
version_row db w (some v) = graph_row db w (find_version v db.versions)

abbrev pub wanted_version : Bool → WorkflowRow → Option ℕ
wanted_version true w = w.latest_published_version_id
wanted_version false w = some w.latest_version_id

abbrev pub detail_row : Db → Bool → Option WorkflowRow → Result StoreError (DetailRow × Db)
detail_row db published none = err no_rows
detail_row db published (some w) = version_row db w (wanted_version published w)

unfoldable pub get_workflow_detail : Bool → ℕ → M StoreError DetailRow
get_workflow_detail published i =
    statement (λ db. detail_row db published (find_workflow i db.workflows))
