-- ===== src/Store/Tables.antt =====
-- internal/db/sqlc/models.go and internal/queue/sqs.go: the rows that the execution service and
-- the worker read and write. Identifiers and points in time are numbers, and JSON is its text.
use orchex.Prelude.{ℕ, String, Bool, List, Option}

pub data RunStatus : Type 0 where
  pending running paused failed completed cancelled : RunStatus

pub data TriggerType : Type 0 where
  manual webhook scheduler : TriggerType

pub data WorkflowStatus : Type 0 where
  draft published archived : WorkflowStatus

-- `error` holds the message in the object that `FailWorkflowRun` stores.
pub record WorkflowRun : Type 0 where
  pub id : ℕ
  pub workflow_id : ℕ
  pub workflow_version_id : ℕ
  pub status : RunStatus
  pub trigger_type : TriggerType
  pub current_node_id : ℕ
  pub current_node_attempt : ℕ
  pub last_output : String
  pub error : Option String
  pub started_at : Option ℕ
  pub paused_at : Option ℕ
  pub cancelled_at : Option ℕ
  pub completed_at : Option ℕ
  pub failed_at : Option ℕ
  pub created_at : ℕ
  pub updated_at : ℕ

-- A row of `run_node_jobs_outbox`.
pub record OutboxJob : Type 0 where
  pub id : ℕ
  pub run_id : ℕ
  pub workflow_version_id : ℕ
  pub node_id : ℕ
  pub attempt : ℕ
  pub available_at : Option ℕ
  pub created_at : ℕ

-- A row of `GetNodeForExecution`: a node with the name of its type.
pub record NodeRow : Type 0 where
  pub workflow_version_id : ℕ
  pub id : ℕ
  pub name : String
  pub type : String
  pub config : String

-- A row of `node_types`, without the columns that only the documentation reads; the bounds are
-- seeded with naturals.
pub record NodeType : Type 0 where
  pub id : ℕ
  pub type : String
  pub min_in_degree : ℕ
  pub max_in_degree : ℕ
  pub min_out_degree : ℕ
  pub max_out_degree : ℕ
  pub config_schema : String

-- A row of `nodes`; a coordinate is the number that its bits spell.
pub record StoredNode : Type 0 where
  pub id : ℕ
  pub workflow_version_id : ℕ
  pub node_type_id : ℕ
  pub name : String
  pub config : String
  pub position_x : Option ℕ
  pub position_y : Option ℕ
  pub created_at : ℕ
  pub updated_at : ℕ

-- A row of `workflow_edges`; the label is one of "default", "true" and "false".
pub record EdgeRow : Type 0 where
  pub workflow_version_id : ℕ
  pub id : ℕ
  pub from_node_id : ℕ
  pub to_node_id : ℕ
  pub label : String
  pub created_at : ℕ
  pub updated_at : ℕ

pub record WorkflowRow : Type 0 where
  pub id : ℕ
  pub name : String
  pub description : Option String
  pub status : WorkflowStatus
  pub created_at : ℕ
  pub updated_at : ℕ
  pub last_published_at : Option ℕ
  pub latest_published_version_id : Option ℕ
  pub latest_version_id : ℕ

-- A row of `workflow_versions`.
pub record WorkflowVersion : Type 0 where
  pub id : ℕ
  pub workflow_id : ℕ
  pub version : ℕ
  pub created_at : ℕ
  pub last_updated_at : ℕ
  pub published_at : Option ℕ

pub record Db : Type 0 where
  pub workflows : List WorkflowRow
  pub versions : List WorkflowVersion
  pub node_types : List NodeType
  pub nodes : List StoredNode
  pub edges : List EdgeRow
  pub runs : List WorkflowRun
  pub outbox : List OutboxJob
  -- `now()` of the statement at hand
  pub now : ℕ

-- `NodeJobMessage`
pub record NodeJobMessage : Type 0 where
  pub run_id : ℕ
  pub workflow_version_id : ℕ
  pub node_id : ℕ
  pub attempt : ℕ

-- A message that SQS holds, with the time at which it was sent.
pub record Envelope : Type 0 where
  pub handle : ℕ
  pub body : NodeJobMessage
  pub sent : ℕ

-- `faults` says of each call to come whether it fails; a call past its end does not.
pub record World : Type 0 where
  pub db : Db
  pub queue : List Envelope
  pub next_handle : ℕ
  pub faults : List Bool
