-- ===== src/Workflows/Faults.antt =====
-- handler.go under failing calls: a request that is refused or fails leaves no trace.
use orchex.Prelude.{
  ℕ, ◌≡◌, refl, ap, inl, inr, Bool-cases, arith, [], ◌∷◌, false, List, Option, none, some,
}
use orchex.Result.{Result, ok, err}
use orchex.Http.{HttpError, Body, bind_json}
use orchex.Store.Tables.{WorkflowRow, World}
use orchex.Store.Effects.{M, next_fails, ◌>>=◌, or_else, statement}
use orchex.Store.Effects.Atomic.{
  IsAtomic, IsReadOnly, statement-IsAtomic, in_tx-IsAtomic, >>=-IsAtomic, or_else-IsAtomic,
  or_else-IsReadOnly, >>=-return-IsAtomic, >>=-IsReadOnly,
}
use orchex.Store.Effects.Calls.{IsQuiet}
use orchex.Store.RunQueries.{workflow_exists}
use orchex.Store.WorkflowQueries.{
  create_workflow, archive_workflow, update_workflows, is_stored, set_archived,
}
use orchex.Store.GraphWrites.{list_node_types}
use orchex.Runs.Start.{from_result, require_workflow}
use orchex.System.Endpoints.{quiet}
use orchex.Save.{NodeTypes, validate_saved_graph}
use orchex.Save.Load.{load_node_types}
use orchex.Workflows.{
  CreateWorkflowRequest, UpdateWorkflowRequest, WorkflowDetail, PublishWorkflowResponse, or_empty,
  with_empty_graph, created_workflow,
}
use orchex.Workflows.Save.{save}
use orchex.Workflows.Publish.{publish, loaded_types}
use orchex.Workflows.Endpoints.{
  parse_workflow_id, create, update, publish_workflow, archive, saved_graph,
}
use orchex.Workflows.Requests.{
  parse-IsQuiet, require-IsQuiet, exists-IsQuiet, types-IsQuiet, list_types-IsQuiet,
}
use orchex.Workflows.Invariant.{Libraries}

-- The requests that write.
pub data Request : Type 0 where
  creating : (i v : ℕ) → Body CreateWorkflowRequest → Request
  updating : (fresh : ℕ) → Option ℕ → Body UpdateWorkflowRequest → Request
  publishing archiving : Option ℕ → Request

-- The error of the reply, if it is one, and the world after it.
abbrev pub outcome : {A : Type 0} → Result HttpError A × World → Option HttpError × World
outcome (ok a, w) = (none, w)
outcome (err e, w) = (some e, w)

IsReadOnly-quiet : {E A : Type 0} (m : M E A) → IsQuiet m → IsReadOnly m
IsReadOnly-quiet m q w = (q w).1

quiet-IsAtomic :
    {A B : Type 0} (m : M HttpError A) (k : A → M HttpError B)
    → IsQuiet m
    → ((a : A) → IsAtomic (k a))
    → IsAtomic (m >>= k)
quiet-IsAtomic m k q h = >>=-IsAtomic m k (IsReadOnly-quiet m q) h

outcome-IsAtomic :
    {A : Type 0} (m : M HttpError A)
    → IsAtomic m
    → (w : World) (e : HttpError) → (outcome (m w)).0 ≡ some e
    → (outcome (m w)).1.db ≡ w.db
outcome-IsAtomic {A} m h w e r = go (m w) (h w) r
  where
    go :
        (p : Result HttpError A × World)
        → ((x : HttpError) → p.0 ≡ err x → p.1.db ≡ w.db)
        → (outcome p).0 ≡ some e
        → (outcome p).1.db ≡ w.db
    go (ok a, w') h r = cc
    go (err x, w') h r = h x refl

create-IsAtomic : (i v : ℕ) (body : Body CreateWorkflowRequest) → IsAtomic (create i v body)
unfolding create create_workflow
create-IsAtomic i v body =
    quiet-IsAtomic (from_result (bind_json body)) _ (quiet (bind_json body)) (λ req.
      >>=-return-IsAtomic (or_else (create_workflow i v req.name req.description) _)
        (λ wf. (201, created_workflow wf))
        (or_else-IsAtomic (create_workflow i v req.name req.description) _ (statement-IsAtomic _)))

module _ {Schema Json : Type 0} (lib : Libraries Schema Json) where
  abbrev updating_by : ℕ → Option ℕ → Body UpdateWorkflowRequest → M HttpError (ℕ × WorkflowDetail)
  updating_by =
      update lib.trim_space lib.parse_json lib.is_valid lib.compile lib.uuid_text lib.marshals
        lib.save_message

  abbrev publishing_by : Option ℕ → M HttpError (ℕ × PublishWorkflowResponse)
  publishing_by =
      publish_workflow lib.trim_space lib.parse_json lib.is_valid lib.compile lib.range_order
        lib.graph_message

  abbrev pub answer : Request → World → Option HttpError × World
  answer (creating i v body) w = outcome (create i v body w)
  answer (updating fresh path body) w = outcome (updating_by fresh path body w)
  answer (publishing path) w = outcome (publishing_by path w)
  answer (archiving path) w = outcome (archive path w)

  update-IsAtomic :
      (fresh : ℕ) (path : Option ℕ) (body : Body UpdateWorkflowRequest)
      → IsAtomic (updating_by fresh path body)
  unfolding update save
  update-IsAtomic fresh path body =
      quiet-IsAtomic (parse_workflow_id path) _ (parse-IsQuiet path) (λ i.
        >>=-IsAtomic (or_else (workflow_exists i) _) _
          (or_else-IsReadOnly (workflow_exists i) _
            (IsReadOnly-quiet (workflow_exists i) (exists-IsQuiet i)))
          (λ found. quiet-IsAtomic (require_workflow i found) _ (require-IsQuiet i found) (λ _.
            quiet-IsAtomic (from_result (bind_json body)) _ (quiet (bind_json body)) (λ req.
              >>=-IsAtomic
                (or_else
                  (list_node_types >>= λ rows.
                    loaded_types (load_node_types lib.parse_json lib.compile rows))
                  _)
                _
                (or_else-IsReadOnly _ _ (
                  >>=-IsReadOnly list_node_types _
                    (IsReadOnly-quiet list_node_types list_types-IsQuiet)
                    (λ rows.
                      IsReadOnly-quiet
                        (loaded_types (load_node_types lib.parse_json lib.compile rows))
                        (types-IsQuiet (load_node_types lib.parse_json lib.compile rows)))))
                (λ types.
                  quiet-IsAtomic (from_result (refused req types)) _ (quiet (refused req types))
                    (λ _.
                      >>=-return-IsAtomic
                        (or_else (save lib.marshals fresh i (with_empty_graph req) types) _)
                        (λ detail. (200, detail))
                        (or_else-IsAtomic (save lib.marshals fresh i (with_empty_graph req) types) _
                          (in_tx-IsAtomic _))))))))
    where
      refused : UpdateWorkflowRequest → NodeTypes Schema → Result HttpError (Unit {0})
      refused req types = saved_graph lib.save_message (
          validate_saved_graph lib.trim_space lib.parse_json lib.is_valid lib.uuid_text types
            (or_empty (with_empty_graph req).nodes) (or_empty (with_empty_graph req).edges))

  publish-IsAtomic : (path : Option ℕ) → IsAtomic (publishing_by path)
  unfolding publish_workflow publish
  publish-IsAtomic path = quiet-IsAtomic (parse_workflow_id path) _ (parse-IsQuiet path) (λ i.
      >>=-return-IsAtomic
        (or_else (publish lib.trim_space lib.parse_json lib.is_valid lib.compile lib.range_order i)
          _)
        (λ result. (200, result))
        (or_else-IsAtomic
          (publish lib.trim_space lib.parse_json lib.is_valid lib.compile lib.range_order i) _
          (in_tx-IsAtomic _)))

update_workflows_absent :
    (i : ℕ) (f : WorkflowRow → WorkflowRow) (ws : List WorkflowRow)
    → is_stored i ws ≡ false
    → update_workflows i f ws ≡ ws
update_workflows_absent i f [] h = refl
update_workflows_absent i f (w ∷ ws) h = ground (arith, update_workflows_absent i f ws)

-- `Archive` replies with 404 after its update, which then met no row.
archive-IsAtomic : (path : Option ℕ) → IsAtomic (archive path)
unfolding archive archive_workflow statement
archive-IsAtomic none w e h = refl
archive-IsAtomic (some i) w e h = elim (Bool-cases (next_fails w.faults)) [
  | inl f ↦ rw f
  | inr f ↦ rw f (elim (Bool-cases (is_stored i w.db.workflows)) [
    | inl there ↦ cc (rw (f, there) at h)
    | inr gone ↦ rw gone (
        ap (λ ws. record w.db { workflows = ws })
          (update_workflows_absent i (set_archived w.db.now) w.db.workflows gone))
  ])
]

-- Whatever calls fail, a request to create, update, publish or archive a workflow that is answered
-- with an error leaves the database as it was.
pub answer-atomic :
    {Schema Json : Type 0} (lib : Libraries Schema Json) (r : Request) (w : World) (e : HttpError)
    → (answer lib r w).0 ≡ some e
    → (answer lib r w).1.db ≡ w.db
answer-atomic lib (creating i v body) w e h =
    outcome-IsAtomic (create i v body) (create-IsAtomic i v body) w e h
answer-atomic lib (updating fresh path body) w e h =
    outcome-IsAtomic (updating_by lib fresh path body) (update-IsAtomic lib fresh path body) w e h
answer-atomic lib (publishing path) w e h =
    outcome-IsAtomic (publishing_by lib path) (publish-IsAtomic lib path) w e h
answer-atomic lib (archiving path) w e h =
    outcome-IsAtomic (archive path) (archive-IsAtomic path) w e h
