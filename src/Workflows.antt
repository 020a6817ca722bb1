-- ===== src/Workflows.antt =====
-- internal/handler/workflow: the builder service's requests and replies, of types.go, and the rows
-- that they are made of. `Save`, `Publish` and `Endpoints` are save.go, publish.go and handler.go.
pub mod Save
pub mod Publish
pub mod Endpoints
pub mod Kept
pub mod Rows
pub mod Drafts
pub mod Persists
pub mod Saves
pub mod Published
pub mod Publishes
pub mod Requests
pub mod Invariant
pub mod Faults
pub mod Lookups
pub mod Written
pub mod Stores
use orchex.Prelude.{
  ℕ, String, str_eq, Bool, true, false, List, [], Option, none, some, if◌then◌else◌,
}
use orchex.Result.{Result, ok, err}
use orchex.Http.{HttpError, bad_request}
use orchex.Store.Tables.{WorkflowStatus, WorkflowRow}
use orchex.Store.Details.{DetailRow}
use orchex.Save.{Node, Edge}

pub record CreateWorkflowRequest : Type 0 where
  pub name : String
  pub description : Option String

-- A slice that the body leaves out is `none`.
pub record UpdateWorkflowRequest : Type 0 where
  pub name : String
  pub description : Option String
  pub nodes : Option (List Node)
  pub edges : Option (List Edge)

abbrev pub or_empty : {A : Type 0} → Option (List A) → List A
or_empty none = []
or_empty (some xs) = xs

-- `withEmptyGraph`
abbrev pub with_empty_graph : UpdateWorkflowRequest → UpdateWorkflowRequest
with_empty_graph r = record r { nodes = some (or_empty r.nodes); edges = some (or_empty r.edges) }

pub record Workflow : Type 0 where
  pub id : ℕ
  pub name : String
  pub description : Option String
  pub status : WorkflowStatus
  pub latest_version_id : ℕ
  pub latest_published_version_id : Option ℕ
  pub created_at : ℕ
  pub updated_at : ℕ
  pub last_published_at : Option ℕ

pub record VersionGraph : Type 0 where
  pub id : ℕ
  pub version : ℕ
  pub published_at : Option ℕ
  pub nodes : List Node
  pub edges : List Edge

pub record WorkflowDetail : Type 0 where
  pub workflow : Workflow
  pub graph : VersionGraph

pub record PublishedVersion : Type 0 where
  pub id : ℕ
  pub version : ℕ
  pub published_at : ℕ

pub record PublishWorkflowResponse : Type 0 where
  pub id : ℕ
  pub name : String
  pub description : Option String
  pub status : WorkflowStatus
  pub latest_version_id : ℕ
  pub latest_published_version_id : ℕ
  pub created_at : ℕ
  pub updated_at : ℕ
  pub last_published_at : ℕ
  pub published_version : PublishedVersion

-- `publishedRequested`
abbrev pub published_requested : String → Result HttpError Bool
published_requested version =
    if str_eq version ""
    then ok false
    else (if str_eq version "latest"
        then ok false
        else (if str_eq version "published"
            then ok true
            else err (bad_request "version must be latest or published")))

abbrev pub workflow_from_list : WorkflowRow → Workflow
workflow_from_list row = record {
  id = row.id;
  name = row.name;
  description = row.description;
  status = row.status;
  latest_version_id = row.latest_version_id;
  latest_published_version_id = row.latest_published_version_id;
  created_at = row.created_at;
  updated_at = row.updated_at;
  last_published_at = row.last_published_at;
}

abbrev pub created_workflow : WorkflowRow → WorkflowDetail
created_workflow row = record {
  workflow = workflow_from_list row;
  graph = record {
    id = row.latest_version_id;
    version = 1;
    published_at = none;
    nodes = [];
    edges = [];
  };
}

-- `detailFromRow`, of graph.go
abbrev pub detail_from_row : DetailRow → WorkflowDetail
detail_from_row row = record {
  workflow = workflow_from_list row.workflow;
  graph = record {
    id = row.graph_id;
    version = row.graph_version;
    published_at = row.graph_published_at;
    nodes = row.nodes;
    edges = row.edges;
  };
}
