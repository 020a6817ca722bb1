-- ===== src/Tests/Workflows.antt =====
-- A workflow is created, saved with a start and a response, published, and saved again as a draft.
use orchex.Prelude.{
  ℕ, ◌≡◌, refl, String, true, false, [], ◌∷◌, map, List, Bool, if◌then◌else◌, str_eq, none, some,
  arith,
}
use orchex.Result.{ok}
use orchex.Http.{Body, bound, internal_error}
use orchex.Publish.Spec.{IsPublishable}
use orchex.Store.Tables.{draft, WorkflowRow, World}
use orchex.Store.Effects.{statement, in_tx, close_tx}
use orchex.Store.RunQueries.{workflow_exists}
use orchex.Store.WorkflowQueries.{
  create_workflow, get_workflow_head, create_workflow_version, touch_workflow_version,
  update_workflow, lock_workflow_for_publish, publish_workflow_head, find_workflow,
}
use orchex.Store.GraphWrites.{
  upsert_nodes, delete_nodes_not_in, upsert_edges, delete_edges_not_in, list_nodes_for_publish,
  list_edges_for_publish, list_node_types, join_all_bounds, nodes_of, edges_of,
}
use orchex.Store.Details.{get_workflow_detail}
use orchex.Save.{Node, NodeTypes, validate_saved_graph, check_node, check_edge}
use orchex.Save.Encode.{NodeRecord, encode_nodes, encode_edges}
use orchex.Save.Load.{load_node_types, load_rows}
use orchex.Publish.Graph.{new_publish_graph}
use orchex.Publish.Checks.{unique_start, validate_degrees, validate_edge_labels}
use orchex.Publish.Validate.{validate_publish_graph, validate_graph}
use orchex.Publish.Kahn.{has_cycle_kahn}
use orchex.Publish.Reach.{reachable_from_start}
use orchex.System.Steps.{failing}
use orchex.Workflows.{CreateWorkflowRequest, UpdateWorkflowRequest, WorkflowDetail, or_empty}
use orchex.Workflows.Save.{save}
use orchex.Workflows.Publish.{publish, to_publish_nodes, to_publish_edges}
use orchex.Workflows.Endpoints.{create, update, publish_workflow}
use orchex.Workflows.Kept.{published_in, stamps}
use orchex.Workflows.Invariant.{
  Libraries, updated, published_by, creates, updates, publishes, Reach, stays, steps,
  published-IsPublishable, published-frozen,
}
use orchex.Workflows.Faults.{updating, answer, answer-atomic}
use orchex.Workflows.Written.{Holds}
use orchex.Workflows.Stores.{save-stores}
use orchex.Tests.World.{start_type, response_type}

abbrev lib : Libraries String String
lib = record {
  trim_space = λ name. name;
  parse_json = λ text. some text;
  is_valid = λ schema json. true;
  compile = λ name json. some json;
  uuid_text = λ i. "";
  marshals = λ rows. true;
  save_message = λ e. "";
  graph_message = λ e. "";
  range_order = λ keys. keys;
  fair = λ ks v. refl;
}

abbrev start_world : World
start_world = record {
  db = record {
    workflows = [];
    versions = [];
    node_types = start_type ∷ response_type ∷ [];
    nodes = [];
    edges = [];
    runs = [];
    outbox = [];
    now = 100;
  };
  queue = [];
  next_handle = 0;
  faults = [];
}

abbrev flow : Body CreateWorkflowRequest
flow = bound (record { name = "flow"; description = none })

abbrev node : ℕ → String → String → Node
node i type name = record { id = i; node_type = type; name = name; config = "{}"; position = none }

abbrev graph : Body UpdateWorkflowRequest
graph = bound (record {
  name = "flow";
  description = none;
  nodes = some (node 11 "start" "in" ∷ node 12 "response" "out" ∷ []);
  edges = some (record { id = 21; from = 11; to = 12; label = "" } ∷ []);
})

abbrev no_graph : Body UpdateWorkflowRequest
no_graph = bound (record { name = "flow"; description = none; nodes = none; edges = none })

abbrev created : World
created = (create 1 5 flow (failing [] start_world)).1

abbrev saved : World
saved = updated lib 6 (some 1) graph (failing [] created)

abbrev live : World
live = published_by lib (some 1) (failing [] saved)

abbrev forked : World
forked = updated lib 7 (some 1) no_graph (failing [] live)

published_five : published_in 5 (stamps live.db) ≡ true
unfolding create_workflow create statement update workflow_exists list_node_types load_node_types
    load_rows validate_saved_graph check_node check_edge save in_tx close_tx get_workflow_head
    create_workflow_version touch_workflow_version update_workflow encode_nodes upsert_nodes
    delete_nodes_not_in upsert_edges delete_edges_not_in get_workflow_detail publish_workflow
    publish lock_workflow_for_publish list_nodes_for_publish list_edges_for_publish
    publish_workflow_head validate_publish_graph validate_graph new_publish_graph unique_start
    validate_degrees validate_edge_labels has_cycle_kahn reachable_from_start
published_five = refl

-- The head is published, so the second save makes version 7.
fork_writes_new : map (λ w. w.latest_version_id) forked.db.workflows ≡ 7 ∷ []
unfolding create_workflow create statement update workflow_exists list_node_types load_node_types
    load_rows validate_saved_graph check_node check_edge save in_tx close_tx get_workflow_head
    create_workflow_version touch_workflow_version update_workflow encode_nodes upsert_nodes
    delete_nodes_not_in upsert_edges delete_edges_not_in get_workflow_detail publish_workflow
    publish lock_workflow_for_publish list_nodes_for_publish list_edges_for_publish
    publish_workflow_head validate_publish_graph validate_graph new_publish_graph unique_start
    validate_degrees validate_edge_labels has_cycle_kahn reachable_from_start
fork_writes_new = refl

to_live : Reach lib start_world live
unfolding create_workflow create statement update workflow_exists list_node_types load_node_types
    load_rows validate_saved_graph check_node check_edge save in_tx close_tx get_workflow_head
    create_workflow_version touch_workflow_version update_workflow encode_nodes upsert_nodes
    delete_nodes_not_in upsert_edges delete_edges_not_in get_workflow_detail
to_live =
    steps {t = saved}
      (steps {t = created} (steps {t = start_world} stays (creates 1 5 flow [] (tt, tt) refl))
        (updates 6 (some 1) graph [] ((omega arith, tt), (omega arith, tt)) refl))
      (publishes (some 1) [] refl)

to_forked : Reach lib live forked
unfolding create_workflow create statement update workflow_exists list_node_types load_node_types
    load_rows validate_saved_graph check_node check_edge save in_tx close_tx get_workflow_head
    create_workflow_version touch_workflow_version update_workflow encode_nodes upsert_nodes
    delete_nodes_not_in upsert_edges delete_edges_not_in get_workflow_detail publish_workflow
    publish lock_workflow_for_publish list_nodes_for_publish list_edges_for_publish
    publish_workflow_head validate_publish_graph validate_graph new_publish_graph unique_start
    validate_degrees validate_edge_labels has_cycle_kahn reachable_from_start
to_forked =
    steps {t = live} stays
      (updates 7 (some 1) no_graph [] ((omega arith, tt), (omega arith, tt)) refl)

published-IsPublishable_example :
    IsPublishable
      (to_publish_nodes (join_all_bounds live.db.node_types (nodes_of 5 live.db.nodes)))
      (to_publish_edges (edges_of 5 live.db.edges))
published-IsPublishable_example =
    published-IsPublishable lib start_world live (refl, refl) to_live 5 published_five

published-frozen_example :
    (published_in 5 (stamps forked.db) ≡ true)
    × (nodes_of 5 forked.db.nodes ≡ nodes_of 5 live.db.nodes)
    × (edges_of 5 forked.db.edges ≡ edges_of 5 live.db.edges)
published-frozen_example =
    published-frozen lib start_world live forked (refl, refl) to_live to_forked 5 published_five

-- The commit of the update fails, after the graph was written.
abbrev no_commit : World
no_commit =
    failing
      (false ∷ false ∷ false ∷ false ∷ false ∷ false ∷ false ∷ false ∷ false ∷ false ∷ false ∷ true
        ∷ [])
      created

update_fails :
    (answer lib (updating 6 (some 1) graph) no_commit).0
    ≡ some (internal_error "failed to update workflow")
unfolding create_workflow create statement update workflow_exists list_node_types load_node_types
    load_rows validate_saved_graph check_node check_edge save in_tx close_tx get_workflow_head
    create_workflow_version touch_workflow_version update_workflow encode_nodes upsert_nodes
    delete_nodes_not_in upsert_edges delete_edges_not_in get_workflow_detail
update_fails = refl

answer-atomic_example : (answer lib (updating 6 (some 1) graph) no_commit).1.db ≡ no_commit.db
answer-atomic_example =
    answer-atomic lib (updating 6 (some 1) graph) no_commit
      (internal_error "failed to update workflow") update_fails

abbrev types : NodeTypes String
types = record {
  id_by_name = λ name. if str_eq name "start" then some 61 else some 62;
  schema_by_name = λ name. some "{}";
}

abbrev request : UpdateWorkflowRequest
request = record {
  name = "flow";
  description = none;
  nodes = some (node 11 "start" "in" ∷ node 12 "response" "out" ∷ []);
  edges = some (record { id = 21; from = 11; to = 12; label = "" } ∷ []);
}

abbrev detail : WorkflowDetail
detail = record {
  workflow = record {
    id = 1;
    name = "flow";
    description = none;
    status = draft;
    latest_version_id = 5;
    latest_published_version_id = none;
    created_at = 100;
    updated_at = 100;
    last_published_at = none;
  };
  graph = record {
    id = 5;
    version = 1;
    published_at = none;
    nodes = node 11 "start" "in" ∷ node 12 "response" "out" ∷ [];
    edges = record { id = 21; from = 11; to = 12; label = "default" } ∷ [];
  };
}

abbrev accepts : List NodeRecord → Bool
accepts rows = true

save_returns : (save accepts 6 1 request types created).0 ≡ ok detail
unfolding create_workflow create statement update workflow_exists list_node_types load_node_types
    load_rows validate_saved_graph check_node check_edge save in_tx close_tx get_workflow_head
    create_workflow_version touch_workflow_version update_workflow encode_nodes upsert_nodes
    delete_nodes_not_in upsert_edges delete_edges_not_in get_workflow_detail
save_returns = refl

save-stores_example :
    let y = (save accepts 6 1 request types created).1.db in
    (v : ℕ) × ((rows : List NodeRecord) × (encode_nodes types (or_empty request.nodes) ≡ ok rows)
      × Holds v rows (encode_edges (or_empty request.edges)) y)
    × ((r : WorkflowRow) × (find_workflow 1 y.workflows ≡ some r) × (r.latest_version_id ≡ v))
save-stores_example = save-stores accepts 6 1 request types created detail save_returns
