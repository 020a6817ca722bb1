-- ===== src/Workflows/Publish.antt =====
-- internal/handler/workflow/publish.go: the head version is checked and becomes the published one.
use orchex.Prelude.{ℕ, String, Bool, List, [], ◌∷◌, Option, none, some, map}
use orchex.Result.{Result, ok, err}
use orchex.Store.Tables.{WorkflowRow, EdgeRow}
use orchex.Store.Effects.{
  StoreError, unavailable, bad_types, missing_live_pointers, invalid_graph, M, ◌>>=◌, ◌>>◌, return,
  throw, in_tx,
}
use orchex.Store.WorkflowQueries.{LockedWorkflow, lock_workflow_for_publish, publish_workflow_head}
use orchex.Store.GraphWrites.{
  PublishRow, list_nodes_for_publish, list_edges_for_publish, list_node_types,
}
use orchex.Publish.Graph.{PublishNode, PublishEdge, bad_config}
use orchex.Publish.Validate.{Verdict, validate_publish_graph}
use orchex.Save.{Node, SaveError, NodeTypes, validate_config}
use orchex.Save.Load.{LoadError, load_node_types}
use orchex.Workflows.{PublishWorkflowResponse}

-- `toPublishNodes`
abbrev pub publish_node : PublishRow → PublishNode
publish_node r = record {
  id = r.id;
  type = r.type;
  min_in_degree = r.min_in_degree;
  max_in_degree = r.max_in_degree;
  min_out_degree = r.min_out_degree;
  max_out_degree = r.max_out_degree;
}

abbrev pub to_publish_nodes : List PublishRow → List PublishNode
to_publish_nodes rows = map publish_node rows

-- `toPublishEdges`
abbrev pub publish_edge : EdgeRow → PublishEdge
publish_edge r = record { from = r.from_node_id; to = r.to_node_id; label = r.label }

abbrev pub to_publish_edges : List EdgeRow → List PublishEdge
to_publish_edges rows = map publish_edge rows

-- `publishResponse`
abbrev pub publish_response : WorkflowRow → ℕ → ℕ → ℕ → ℕ → PublishWorkflowResponse
publish_response w published_version last_published version published_at = record {
  id = w.id;
  name = w.name;
  description = w.description;
  status = w.status;
  latest_version_id = w.latest_version_id;
  latest_published_version_id = published_version;
  created_at = w.created_at;
  updated_at = w.updated_at;
  last_published_at = last_published;
  published_version = record {
    id = published_version;
    version = version;
    published_at = published_at;
  };
}

-- The reply where the head is published already.
abbrev pub published_before :
    WorkflowRow → ℕ → ℕ → Option ℕ → Option ℕ → M StoreError PublishWorkflowResponse
published_before w version at (some live) (some last) =
    return (publish_response w live last version at)
published_before w version at _ _ = throw missing_live_pointers

-- The reply after the head was stamped.
abbrev pub published_now :
    WorkflowRow → ℕ → Option ℕ → Option ℕ → M StoreError PublishWorkflowResponse
published_now w version (some live) (some last) = return (publish_response w live last version last)
published_now w version _ _ = throw missing_live_pointers

-- The loops return: `none` does not come, by the theorem on `validate_publish_graph`.
abbrev pub accept : Verdict → M StoreError (Unit {0})
accept none = throw unavailable
accept (some (err e)) = throw (invalid_graph e)
accept (some (ok u)) = return tt

abbrev pub loaded_types :
    {Schema : Type 0} → Result LoadError (NodeTypes Schema) → M StoreError (NodeTypes Schema)
loaded_types (err e) = throw bad_types
loaded_types (ok types) = return types

-- The body of the loop over `validateConfig`.
abbrev pub valid_config : ℕ → Result SaveError (Unit {0}) → M StoreError (Unit {0})
valid_config i (err e) = throw (invalid_graph (bad_config i))
valid_config i (ok u) = return tt

-- What `validateConfig` is given: an identifier, a type and a configuration.
abbrev pub config_node : PublishRow → Node
config_node r = record {
  id = r.id;
  node_type = r.type;
  name = "";
  config = r.config;
  position = none;
}

module _ {Schema Json : Type 0} (trim_space : String → String) (parse_json : String → Option Json)
    (is_valid : Schema → Json → Bool) where
  abbrev pub validate_configs : NodeTypes Schema → List PublishRow → M StoreError (Unit {0})
  validate_configs types [] = return tt
  validate_configs types (r ∷ rs) =
      valid_config r.id (validate_config trim_space parse_json is_valid types (config_node r))
      >> validate_configs types rs

  module _ (compile : String → Json → Option Schema) (range_order : List ℕ → List ℕ) where
    abbrev pub publish_draft : LockedWorkflow → M StoreError PublishWorkflowResponse
    publish_draft head = list_nodes_for_publish head.workflow.latest_version_id >>= λ node_rows.
        list_edges_for_publish head.workflow.latest_version_id >>= λ edge_rows.
        list_node_types >>= λ type_rows.
        loaded_types (load_node_types parse_json compile type_rows) >>= λ types.
        validate_configs types node_rows
        >> (accept (
              validate_publish_graph range_order (to_publish_nodes node_rows)
                (to_publish_edges edge_rows))
            >> (publish_workflow_head head.workflow.latest_version_id head.workflow.id >>= λ head'.
                published_now head'.workflow head'.published_version
                  head'.workflow.latest_published_version_id head'.workflow.last_published_at))

    abbrev pub publish_locked : LockedWorkflow → Option ℕ → M StoreError PublishWorkflowResponse
    publish_locked head none = publish_draft head
    publish_locked head (some at) =
        published_before head.workflow head.head_version at
          head.workflow.latest_published_version_id head.workflow.last_published_at

    abbrev pub publish_tx : ℕ → M StoreError PublishWorkflowResponse
    publish_tx i =
        lock_workflow_for_publish i >>= λ head. publish_locked head head.head_published_at

    -- `publish`
    unfoldable pub publish : ℕ → M StoreError PublishWorkflowResponse
    publish i = in_tx (publish_tx i)
