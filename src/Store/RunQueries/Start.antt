-- ===== src/Store/RunQueries/Start.antt =====
-- workflow_runs.sql.go and workflows.sql.go: the queries that start a run.
use orchex.Prelude.{
  ℕ, String, Bool, true, false, List, [], ◌∷◌, ◌++◌, Option, none, some, ◌==◌, if◌then◌else◌,
  str_eq,
}
use orchex.Result.{ok}
use orchex.Store.Tables.{
  pending, manual, WorkflowStatus, published, archived, WorkflowRun, NodeRow, NodeType, StoredNode,
  WorkflowRow,
}
use orchex.Store.Effects.{StoreError, M, statement}
use orchex.Store.RunQueries.Updates.{one_row}

-- `generated` is the identifier that the column's default generates.
unfoldable pub insert_workflow_run : ℕ → ℕ → ℕ → ℕ → String → M StoreError WorkflowRun
insert_workflow_run generated workflow version node output = statement (λ db.
    let run : WorkflowRun = record {
      id = generated;
      workflow_id = workflow;
      workflow_version_id = version;
      status = pending;
      trigger_type = manual;
      current_node_id = node;
      current_node_attempt = 1;
      last_output = output;
      error = none;
      started_at = some db.now;
      paused_at = none;
      cancelled_at = none;
      completed_at = none;
      failed_at = none;
      created_at = db.now;
      updated_at = db.now;
    } in
    ok (run, record db { runs = db.runs ++ (run ∷ []) }))

-- `INNER JOIN node_types nt ON nt.id = n.node_type_id`
abbrev pub find_type : ℕ → List NodeType → Option NodeType
find_type i [] = none
find_type i (t ∷ ts) = let rest = find_type i ts in if t.id == i then some t else rest

abbrev pub join_type : StoredNode → Option NodeType → List NodeRow → List NodeRow
join_type n none rest = rest
join_type n (some t) rest =
    record {
      workflow_version_id = n.workflow_version_id;
      id = n.id;
      name = n.name;
      type = t.type;
      config = n.config;
    }
    ∷ rest

abbrev pub join_types : List NodeType → List StoredNode → List NodeRow
join_types types [] = []
join_types types (n ∷ ns) = join_type n (find_type n.node_type_id types) (join_types types ns)

-- `GetPublishedWorkflowForStart`: the zero identifier marks a missing start node.
pub record PublishedWorkflow : Type 0 where
  pub id : ℕ
  pub latest_published_version_id : Option ℕ
  pub start_node_id : ℕ

abbrev pub start_node_of : List NodeRow → Option ℕ → ℕ
start_node_of [] version = 0
start_node_of (n ∷ ns) none = 0
start_node_of (n ∷ ns) (some v) =
    let rest = start_node_of ns (some v) in
    if n.workflow_version_id == v then (if str_eq n.type "start" then n.id else rest) else rest

abbrev pub is_published : WorkflowStatus → Bool
is_published published = true
is_published _ = false

abbrev pub find_published : ℕ → List WorkflowRow → List NodeRow → Option PublishedWorkflow
find_published i [] nodes = none
find_published i (w ∷ ws) nodes =
    let rest = find_published i ws nodes in
    let row : PublishedWorkflow = record {
      id = w.id;
      latest_published_version_id = w.latest_published_version_id;
      start_node_id = start_node_of nodes w.latest_published_version_id;
    } in
    if w.id == i then (if is_published w.status then some row else rest) else rest

unfoldable pub get_published_workflow_for_start : ℕ → M StoreError PublishedWorkflow
get_published_workflow_for_start i =
    statement (λ db. one_row db (find_published i db.workflows (join_types db.node_types db.nodes)))

abbrev pub is_archived : WorkflowStatus → Bool
is_archived archived = true
is_archived _ = false

-- `WorkflowExists`
abbrev pub has_workflow : ℕ → List WorkflowRow → Bool
has_workflow i [] = false
has_workflow i (w ∷ ws) =
    let rest = has_workflow i ws in
    if w.id == i then (if is_archived w.status then rest else true) else rest

unfoldable pub workflow_exists : ℕ → M StoreError Bool
workflow_exists i = statement (λ db. ok (has_workflow i db.workflows, db))
