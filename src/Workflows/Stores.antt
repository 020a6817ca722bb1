-- ===== src/Workflows/Stores.antt =====
-- save.go: what a save sends can be looked up afterwards in the head version.
use orchex.Prelude.{
  ℕ, ◌≡◌, ◌∙◌, refl, sym, subst, inl, inr, String, Bool, false, List, map, Option, none, some,
  Bool-cases,
}
use orchex.Result.{Result, ok, err}
use orchex.Store.Tables.{WorkflowRow, Db, World}
use orchex.Store.Effects.{◌>>◌}
use orchex.Store.Effects.Calls.{statement-Does, Does, >>=-Does, in_tx-Does, still-Does}
use orchex.Store.WorkflowQueries.{get_workflow_head, update_workflow, find_workflow}
use orchex.Store.Details.{DetailRow, get_workflow_detail, detail_row}
use orchex.Save.{NodeTypes}
use orchex.Save.Encode.{NodeRecord, encode_nodes, encode_edges, map_ids}
use orchex.Workflows.{UpdateWorkflowRequest, WorkflowDetail, or_empty}
use orchex.Workflows.Save.{
  needs_draft_fork, get_detail, version_to_write, encoded, persist_graph, save_tx, save,
}
use orchex.Workflows.Persists.{sets-Does}
use orchex.Workflows.Saves.{detail_row-Stays, version-Does, head-Does, ReadsHead}
use orchex.Workflows.Written.{
  Holds, encode-ids, edge_ids, find-saved, find_workflow-id, written-Does,
}

-- A detail is read of a workflow that is there.
abbrev ReadsDetail : {A : Type 0} → ℕ → Db → A → Db → Type 0
ReadsDetail i x a y = (y ≡ x) × ((r : WorkflowRow) × (find_workflow i x.workflows ≡ some r))

read-Does : (i : ℕ) → Does (λ x (a : WorkflowDetail) y. ReadsDetail i x a y) (get_detail i false)
unfolding get_workflow_detail
read-Does i =
    >>=-Does (ReadsDetail i) (λ _ x a y. y ≡ x) (ReadsDetail i) (get_workflow_detail false i) _
      (λ x a y b z (same, there) same'. (same' ∙ same, there))
      (statement-Does (ReadsDetail i) _ (λ x a y h. (
        detail_row-Stays x false (find_workflow i x.workflows) a y h,
        go x (find_workflow i x.workflows) a y refl h,
      )))
      (λ row. still-Does (λ x a y. y ≡ x) _ (λ x a h. refl))
  where
    go :
        (x : Db) (o : Option WorkflowRow) (a : DetailRow) (y : Db)
        → find_workflow i x.workflows ≡ o
        → detail_row x false o ≡ ok (a, y)
        → (r : WorkflowRow) × (find_workflow i x.workflows ≡ some r)
    go x none a y e h = cc
    go x (some r) a y e h = (r, e)

module _ (marshals : List NodeRecord → Bool) {Schema : Type 0} (fresh i : ℕ)
    (req : UpdateWorkflowRequest) (types : NodeTypes Schema) where
  -- The request's graph is in the version `v`.
  Stored : ℕ → Db → Type 0
  Stored v y =
      (rows : List NodeRecord) × (encode_nodes types (or_empty req.nodes) ≡ ok rows)
      × Holds v rows (encode_edges (or_empty req.edges)) y

  IsHeadAt : ℕ → Db → Type 0
  IsHeadAt v y =
      (r : WorkflowRow) × (find_workflow i y.workflows ≡ some r) × (r.latest_version_id ≡ v)

  encoded-Does :
      (r : Result String (List NodeRecord)) → Does (λ x a y. r ≡ ok a) (encoded marshals r)
  encoded-Does (err name) w = (record { queue = refl; next_handle = refl }, λ a e. cc)
  encoded-Does (ok rows) w = elim (Bool-cases (marshals rows)) [
    | inl t ↦ rw t (record { queue = refl; next_handle = refl }, λ a e. cc)
    | inr t ↦ rw t (record { queue = refl; next_handle = refl }, λ a e. cc)
  ]

  persist-Does :
      (v : ℕ) (fork : Bool)
      → Does
          (λ x (u : Unit {0}) y. Stored v y)
          (persist_graph marshals v (or_empty req.nodes) (or_empty req.edges) types fork)
  unfolding Stored
  persist-Does v fork =
      let ids = map_ids (or_empty req.nodes) (λ n. n.id) in
      >>=-Does (λ x rows y. encode_nodes types (or_empty req.nodes) ≡ ok rows)
        (λ rows x (u : Unit {0}) y.
          ids ≡ map (λ r. r.id) rows → Holds v rows (encode_edges (or_empty req.edges)) y)
        (λ x u y. Stored v y) (encoded marshals (encode_nodes types (or_empty req.nodes))) _
        (λ x rows y b z e done. (rows, e, done (encode-ids types (or_empty req.nodes) rows e)))
        (encoded-Does (encode_nodes types (or_empty req.nodes)))
        (λ rows.
          written-Does v rows (encode_edges (or_empty req.edges)) ids
            (map_ids (or_empty req.edges) (λ e. e.id)) fork (edge_ids (or_empty req.edges)))

  -- The graph is stored in the version that is the head.
  IsSaved : Db → Type 0
  IsSaved y = (v : ℕ) × Stored v y × IsHeadAt v y

  -- The update sets the head of every row that it meets.
  abbrev Updates : ℕ → Db → Type 0
  Updates v y =
      Stored v y
      × ((r : WorkflowRow) → find_workflow i y.workflows ≡ some r → r.latest_version_id ≡ v)

  update-Does :
      (v j : ℕ)
      → Does
          (λ x (a : WorkflowDetail) y. j ≡ i → Stored v x → IsSaved y)
          (update_workflow req.name req.description v j >> get_detail j false)
  unfolding update_workflow Stored IsHeadAt IsSaved
  update-Does v j =
      >>=-Does (λ x (u : Unit {0}) y. j ≡ i → Stored v x → Updates v y)
        (λ _ x (a : WorkflowDetail) y. ReadsDetail j x a y)
        (λ x a y. j ≡ i → Stored v x → IsSaved y) (update_workflow req.name req.description v j) _
        (λ x a y b z first (same, (r, there)) e s.
          let (stored, head) = first e s in
          let found : find_workflow i y.workflows ≡ some r = rw e at there in
          subst IsSaved (sym same) (v, stored, (r, found, head r found)))
        (sets-Does (λ x u y. j ≡ i → Stored v x → Updates v y) _
          (λ x e (rows, made, h). (
            (rows, made, record { held_nodes = h.held_nodes; held_edges = h.held_edges }),
            rw e (find-saved req.name req.description v i x.now x.workflows),
          )))
        (λ _. read-Does j)

  save_tx-Does : Does (λ x (a : WorkflowDetail) y. IsSaved y) (save_tx marshals fresh i req types)
  save_tx-Does =
      >>=-Does (ReadsHead i) (λ head x (a : WorkflowDetail) y. head.id ≡ i → IsSaved y)
        (λ x a y. IsSaved y) (get_workflow_head i) _
        (λ x head y a z (same, (w, found, is)) done.
          done (rw is (find_workflow-id i x.workflows w found)))
        (head-Does i)
        (λ head.
          >>=-Does (λ x (v : ℕ) y. Unit {0}) (λ v x (a : WorkflowDetail) y. head.id ≡ i → IsSaved y)
            (λ x a y. head.id ≡ i → IsSaved y) (version_to_write fresh head (needs_draft_fork head))
            _ (λ x v y a z _ done. done)
            (λ w. ((version-Does fresh head (needs_draft_fork head) refl w).0, λ a e. tt))
            (λ v.
              >>=-Does (λ x (u : Unit {0}) y. Stored v y)
                (λ _ x (a : WorkflowDetail) y. head.id ≡ i → Stored v x → IsSaved y)
                (λ x a y. head.id ≡ i → IsSaved y)
                (persist_graph marshals v (or_empty req.nodes) (or_empty req.edges) types
                  (needs_draft_fork head))
                _ (λ x u y a z s done e. done e s) (persist-Does v (needs_draft_fork head))
                (λ _. update-Does v head.id)))

-- A save that returns has stored the request's graph: the workflow's head is a version in which each
-- identifier is that of a node, or of an edge, exactly if the request has one with it, and then the
-- row is the encoded one, of the last node or edge with it. Nodes and edges that the version held
-- before and that the request does not name are gone.
pub save-stores :
    (marshals : List NodeRecord → Bool) {Schema : Type 0} (fresh i : ℕ)
    (req : UpdateWorkflowRequest) (types : NodeTypes Schema) (w : World) (detail : WorkflowDetail)
    → (save marshals fresh i req types w).0 ≡ ok detail
    → let y = (save marshals fresh i req types w).1.db in
      (v : ℕ) × ((rows : List NodeRecord) × (encode_nodes types (or_empty req.nodes) ≡ ok rows)
        × Holds v rows (encode_edges (or_empty req.edges)) y)
      × ((r : WorkflowRow) × (find_workflow i y.workflows ≡ some r) × (r.latest_version_id ≡ v))
unfolding save IsSaved Stored IsHeadAt
save-stores marshals fresh i req types w detail =
    (in_tx-Does (λ x a y. IsSaved marshals fresh i req types y) _
        (save_tx-Does marshals fresh i req types) w).1
      detail
