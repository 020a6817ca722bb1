-- ===== src/Runs/Start.antt =====
-- internal/handler/run/start.go and `Start` of handler.go: a run of the published version.
-- `marshal` is `json.Marshal` on the start output, which is a library's.
use orchex.Prelude.{ℕ, String, Bool, true, false, Option, none, some, ◌==◌, if◌then◌else◌}
use orchex.Result.{Result, ok, err}
use orchex.Http.{HttpError, Body, bind_json, workflow_not_found, internal_error, map_query_error}
use orchex.Runs.{Run, run_from_row}
use orchex.Store.Tables.{WorkflowRun}
use orchex.Store.Effects.{
  StoreError, unavailable, missing_start_node, published_without_version, M, ◌>>=◌, ◌>>◌, return,
  throw, or_else, in_tx,
}
use orchex.Store.RunQueries.{
  get_published_workflow_for_start, insert_workflow_run, insert_run_node_job_outbox,
  workflow_exists,
}

pub record StartRunRequest : Type 0 where
  pub workflow_id : ℕ
  pub payload : String

-- `if wf.LatestPublishedVersionID == nil`
abbrev pub published_version : Option ℕ → M StoreError ℕ
published_version none = throw published_without_version
published_version (some v) = return v

abbrev pub required_start : ℕ → M StoreError ℕ
required_start node w = if node == 0 then throw missing_start_node w else return node w

-- The transaction of `start`; `run` and `job` are the identifiers that the database generates.
abbrev pub start_tx : ℕ → ℕ → ℕ → String → M StoreError WorkflowRun
start_tx run job i output = do
  wf ← get_published_workflow_for_start i
  version ← published_version wf.latest_published_version_id
  node ← required_start wf.start_node_id
  created ← insert_workflow_run run wf.id version node output
  insert_run_node_job_outbox job created.id version node
  return created

abbrev pub start_error : ℕ → StoreError → HttpError
start_error i missing_start_node = internal_error "published workflow is missing a start node"
start_error i published_without_version =
    internal_error "published workflow is missing live version"
start_error i e = map_query_error i "failed to start workflow" e

abbrev pub from_result : {A : Type 0} → Result HttpError A → M HttpError A
from_result r w = (r, w)

abbrev pub require_workflow : ℕ → Bool → M HttpError (Unit {0})
require_workflow i true = return tt
require_workflow i false = throw (workflow_not_found i)

module _ (marshal : String → Option String) where
  abbrev pub start_output : String → M StoreError String
  start_output payload w = elim (marshal payload) [
    | none ↦ (err unavailable, w)
    | some output ↦ (ok output, w)
  ]

  -- `start`
  abbrev pub start_run : ℕ → ℕ → StartRunRequest → M StoreError WorkflowRun
  start_run run job req = do
    output ← start_output req.payload
    in_tx (start_tx run job req.workflow_id output)

  -- `Start`
  unfoldable pub start : ℕ → ℕ → Body StartRunRequest → M HttpError (ℕ × Run)
  start run job body = do
    req ← from_result (bind_json body)
    found ←
        or_else (workflow_exists req.workflow_id) (λ _. internal_error "failed to start workflow")
    require_workflow req.workflow_id found
    created ← or_else (start_run run job req) (start_error req.workflow_id)
    return (201, run_from_row created)
