-- ===== src/Workflows/Endpoints.antt =====
-- internal/handler/workflow/handler.go: one function per endpoint, of the path's identifier (`none`
-- if it does not parse), the decoded body and the identifiers that the database generates.
use orchex.Prelude.{ℕ, String, Bool, List, Option, none, some, map}
use orchex.Result.{Result, ok, err}
use orchex.Http.{HttpError, bad_request, internal_error, map_query_error, Body, bind_json}
use orchex.Store.Effects.{StoreError, invalid_graph, M, ◌>>=◌, ◌>>◌, return, throw, or_else}
use orchex.Store.RunQueries.{workflow_exists}
use orchex.Store.WorkflowQueries.{create_workflow, list_workflows, archive_workflow}
use orchex.Store.GraphWrites.{list_node_types}
use orchex.Runs.Start.{from_result, require_workflow}
use orchex.Save.{SaveError, validate_saved_graph}
use orchex.Save.Encode.{NodeRecord}
use orchex.Save.Load.{load_node_types}
use orchex.Workflows.{
  Workflow, WorkflowDetail, PublishWorkflowResponse, CreateWorkflowRequest, UpdateWorkflowRequest,
  or_empty, with_empty_graph, published_requested, workflow_from_list, created_workflow,
}
use orchex.Workflows.Save.{get_detail, save}
use orchex.Workflows.Publish.{publish, loaded_types}

-- `parseID`
abbrev pub parse_workflow_id : Option ℕ → M HttpError ℕ
parse_workflow_id none = throw (bad_request "invalid workflow id")
parse_workflow_id (some i) = return i

-- `List`
unfoldable pub list : M HttpError (ℕ × List Workflow)
list = or_else list_workflows (λ _. internal_error "failed to list workflows") >>= λ rows.
    return (200, map workflow_from_list rows)

-- `Create`; `i` and `v` are the identifiers of the workflow and its first version.
unfoldable pub create : ℕ → ℕ → Body CreateWorkflowRequest → M HttpError (ℕ × WorkflowDetail)
create i v body = from_result (bind_json body) >>= λ req.
    or_else (create_workflow i v req.name req.description)
      (λ _. internal_error "failed to create workflow")
    >>= λ wf. return (201, created_workflow wf)

-- `Get`; `version` is the query parameter.
unfoldable pub get : String → Option ℕ → M HttpError (ℕ × WorkflowDetail)
get version path = parse_workflow_id path >>= λ i.
    from_result (published_requested version) >>= λ published.
    or_else (get_detail i published) (map_query_error i "failed to get workflow") >>= λ detail.
    return (200, detail)

-- `Archive`: no body.
abbrev pub require_found : ℕ → Bool × Bool → M HttpError (Unit {0})
require_found i (found, archived) = require_workflow i found

unfoldable pub archive : Option ℕ → M HttpError ℕ
archive path = parse_workflow_id path >>= λ i.
    or_else (archive_workflow i) (λ _. internal_error "failed to archive workflow") >>= λ result.
    require_found i result >> return 204

-- `handler.BadRequest(err.Error())`
abbrev pub saved_graph :
    (SaveError → String) → Result SaveError (Unit {0}) → Result HttpError (Unit {0})
saved_graph message (err e) = err (bad_request (message e))
saved_graph message (ok u) = ok u

module _ {Schema Json : Type 0} (trim_space : String → String) (parse_json : String → Option Json)
    (is_valid : Schema → Json → Bool) (compile : String → Json → Option Schema) where
  -- The messages of the two kinds of refusal are texts of the errors.
  module _ (uuid_text : ℕ → String) (marshals : List NodeRecord → Bool)
      (save_message : SaveError → String) where
    -- `Update`; `fresh` is the identifier of a new version.
    unfoldable pub update :
        ℕ → Option ℕ → Body UpdateWorkflowRequest → M HttpError (ℕ × WorkflowDetail)
    update fresh path body = parse_workflow_id path >>= λ i.
        or_else (workflow_exists i) (λ _. internal_error "failed to get workflow") >>= λ found.
        require_workflow i found
        >> (from_result (bind_json body) >>= λ bound_req.
            let req = with_empty_graph bound_req in
            or_else
              (list_node_types >>= λ rows. loaded_types (load_node_types parse_json compile rows))
              (λ _. internal_error "failed to load node types")
            >>= λ types.
                from_result (
                  saved_graph save_message (
                    validate_saved_graph trim_space parse_json is_valid uuid_text types
                      (or_empty req.nodes) (or_empty req.edges)))
                >> (or_else (save marshals fresh i req types)
                      (map_query_error i "failed to update workflow")
                    >>= λ detail. return (200, detail)))

  module _ (range_order : List ℕ → List ℕ) (graph_message : StoreError → String) where
    abbrev pub publish_error : ℕ → StoreError → HttpError
    publish_error i (invalid_graph e) = bad_request (graph_message (invalid_graph e))
    publish_error i e = map_query_error i "failed to publish workflow" e

    -- `Publish`
    unfoldable pub publish_workflow : Option ℕ → M HttpError (ℕ × PublishWorkflowResponse)
    publish_workflow path = parse_workflow_id path >>= λ i.
        or_else (publish trim_space parse_json is_valid compile range_order i) (publish_error i)
        >>= λ result. return (200, result)
