-- ===== src/Tests/World.antt =====
-- A small database: run 7 of workflow 1 at node 11, behind it node 12, and one job in the outbox.
use orchex.Prelude.{ℕ, String, Bool, List, [], ◌∷◌, none, some}
use orchex.Store.Tables.{
  RunStatus, manual, published, WorkflowRun, OutboxJob, NodeRow, NodeType, StoredNode, Db,
  NodeJobMessage, World,
}

abbrev pub run_at : RunStatus → WorkflowRun
run_at s = record {
  id = 7;
  workflow_id = 1;
  workflow_version_id = 5;
  status = s;
  trigger_type = manual;
  current_node_id = 11;
  current_node_attempt = 1;
  last_output = "{}";
  error = none;
  started_at = some 90;
  paused_at = none;
  cancelled_at = none;
  completed_at = none;
  failed_at = none;
  created_at = 90;
  updated_at = 95;
}

abbrev pub waiting_job : OutboxJob
waiting_job = record {
  id = 31;
  run_id = 7;
  workflow_version_id = 5;
  node_id = 11;
  attempt = 1;
  available_at = none;
  created_at = 90;
}

-- The node 11 with the name of its type.
abbrev pub start_node : NodeRow
start_node = record { workflow_version_id = 5; id = 11; name = "in"; type = "start"; config = "{}" }

abbrev pub start_type : NodeType
start_type = record {
  id = 61;
  type = "start";
  min_in_degree = 0;
  max_in_degree = 0;
  min_out_degree = 1;
  max_out_degree = 1;
  config_schema = "{}";
}

abbrev pub response_type : NodeType
response_type = record {
  id = 62;
  type = "response";
  min_in_degree = 1;
  max_in_degree = 10;
  min_out_degree = 0;
  max_out_degree = 0;
  config_schema = "{}";
}

abbrev node_at : ℕ → ℕ → String → StoredNode
node_at i type_id name = record {
  id = i;
  workflow_version_id = 5;
  node_type_id = type_id;
  name = name;
  config = "{}";
  position_x = none;
  position_y = none;
  created_at = 80;
  updated_at = 80;
}

abbrev pub db_at : RunStatus → Db
db_at s = record {
  workflows =
      record {
        id = 1;
        name = "flow";
        description = none;
        status = published;
        created_at = 80;
        updated_at = 85;
        last_published_at = some 85;
        latest_published_version_id = some 5;
        latest_version_id = 5;
      }
      ∷ [];
  versions =
      record {
        id = 5;
        workflow_id = 1;
        version = 1;
        created_at = 80;
        last_updated_at = 85;
        published_at = some 85;
      }
      ∷ [];
  node_types = start_type ∷ response_type ∷ [];
  nodes = node_at 11 61 "in" ∷ node_at 12 62 "out" ∷ [];
  edges =
      record {
        workflow_version_id = 5;
        id = 21;
        from_node_id = 11;
        to_node_id = 12;
        label = "default";
        created_at = 80;
        updated_at = 80;
      }
      ∷ [];
  runs = run_at s ∷ [];
  outbox = waiting_job ∷ [];
  now = 100;
}

abbrev pub message : NodeJobMessage
message = record { run_id = 7; workflow_version_id = 5; node_id = 11; attempt = 1 }

abbrev pub world_at : RunStatus → List Bool → World
world_at s faults = record {
  db = db_at s;
  queue = record { handle = 3; body = message; sent = 90 } ∷ [];
  next_handle = 4;
  faults = faults;
}
