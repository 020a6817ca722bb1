-- ===== src/Workflows/Save.antt =====
-- internal/handler/workflow/save.go: a request replaces the graph of the head version, or of a new
-- version if the head is the published one. `marshals` is whether `json.Marshal` takes the rows of
-- the nodes, whose configurations are raw JSON; the rows of the edges have only texts.
use orchex.Prelude.{ℕ, String, Bool, true, false, List, Option, none, some, ◌==◌, if◌then◌else◌}
use orchex.Result.{Result, ok, err}
use orchex.Store.Effects.{StoreError, bad_rows, M, ◌>>=◌, ◌>>◌, return, throw, in_tx}
use orchex.Store.WorkflowQueries.{
  WorkflowHead, get_workflow_head, create_workflow_version, touch_workflow_version, update_workflow,
}
use orchex.Store.GraphWrites.{upsert_nodes, delete_nodes_not_in, upsert_edges, delete_edges_not_in}
use orchex.Store.Details.{get_workflow_detail}
use orchex.Save.{Node, Edge, NodeTypes}
use orchex.Save.Encode.{NodeRecord, encode_nodes, encode_edges, map_ids}
use orchex.Workflows.{UpdateWorkflowRequest, WorkflowDetail, or_empty, detail_from_row}

-- `needsDraftFork`: the head is the published version.
abbrev pub is_version : Option ℕ → ℕ → Bool
is_version none v = false
is_version (some p) v = p == v

abbrev pub needs_draft_fork : WorkflowHead → Bool
needs_draft_fork head = is_version head.latest_published_version_id head.latest_version_id

-- `getDetail`, of graph.go
abbrev pub get_detail : ℕ → Bool → M StoreError WorkflowDetail
get_detail i published = get_workflow_detail published i >>= λ row. return (detail_from_row row)

abbrev pub touch_unless : Bool → ℕ → M StoreError (Unit {0})
touch_unless true v = return tt
touch_unless false v = touch_workflow_version v

-- The version that is written: `fresh` is the identifier of a new one.
abbrev pub version_to_write : ℕ → WorkflowHead → Bool → M StoreError ℕ
version_to_write fresh head true = create_workflow_version fresh head.id >>= λ ver. return ver.id
version_to_write fresh head false = return head.latest_version_id

module _ (marshals : List NodeRecord → Bool) where
  abbrev pub encoded : Result String (List NodeRecord) → M StoreError (List NodeRecord)
  encoded (err name) w = throw bad_rows w
  encoded (ok rows) w = if marshals rows then return rows w else throw bad_rows w

  module _ {Schema : Type 0} where
    abbrev pub persist_graph :
        ℕ → List Node → List Edge → NodeTypes Schema → Bool → M StoreError (Unit {0})
    persist_graph v nodes edges types fork = encoded (encode_nodes types nodes) >>= λ rows.
        upsert_nodes v rows
        >> (delete_nodes_not_in v (map_ids nodes (λ n. n.id))
            >> (upsert_edges v (encode_edges edges)
                >> (delete_edges_not_in v (map_ids edges (λ e. e.id)) >> touch_unless fork v)))

    abbrev pub save_tx :
        ℕ → ℕ → UpdateWorkflowRequest → NodeTypes Schema → M StoreError WorkflowDetail
    save_tx fresh i req types = get_workflow_head i >>= λ head.
        version_to_write fresh head (needs_draft_fork head) >>= λ v.
        persist_graph v (or_empty req.nodes) (or_empty req.edges) types (needs_draft_fork head)
        >> (update_workflow req.name req.description v head.id >> get_detail head.id false)

    -- `save`
    unfoldable pub save :
        ℕ → ℕ → UpdateWorkflowRequest → NodeTypes Schema → M StoreError WorkflowDetail
    save fresh i req types = in_tx (save_tx fresh i req types)
