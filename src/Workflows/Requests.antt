-- ===== src/Workflows/Requests.antt =====
-- handler.go: what each endpoint keeps, whatever calls fail.
use orchex.Prelude.{
  ℕ, ◌≡◌, refl, subst, String, Bool, true, false, List, [], ◌∷◌, ◌++◌, Option, none, some, All-map,
  All-join,
}
use orchex.Result.{Result, ok, err}
use orchex.GoMap.{IsRangeOrder}
use orchex.Http.{HttpError, internal_error, Body, bind_json}
use orchex.Store.Tables.{Db}
use orchex.Store.Effects.{StoreError, ◌>>=◌, ◌>>◌, return, or_else}
use orchex.Store.Effects.Calls.{
  Ensures, IsQuiet, quiet-Ensures, Ensures-quiet, or_else-Ensures, Writes-Ensures, statement-Writes,
}
use orchex.Store.RunQueries.{workflow_exists}
use orchex.Store.WorkflowQueries.{
  create_workflow, new_workflow, new_version, archive_workflow, update_workflows, set_archived,
}
use orchex.Store.GraphWrites.{list_node_types}
use orchex.Runs.Start.{from_result, require_workflow}
use orchex.System.Endpoints.{quiet, statement-IsQuiet}
use orchex.Save.{SaveError, NodeTypes, validate_saved_graph}
use orchex.Save.Encode.{NodeRecord}
use orchex.Save.Load.{LoadError, load_node_types}
use orchex.Workflows.{CreateWorkflowRequest, UpdateWorkflowRequest, or_empty, with_empty_graph}
use orchex.Workflows.Save.{save}
use orchex.Workflows.Publish.{publish, loaded_types}
use orchex.Workflows.Endpoints.{
  parse_workflow_id, create, archive, require_found, update, saved_graph, publish_workflow,
}
use orchex.Workflows.Kept.{stamps, HasHead, IsKept, Keeps, Keeps-refl, Keeps-trans}
use orchex.Workflows.Drafts.{IsFreshVersion, draft-Keeps, draft-IsDraftOf}
use orchex.Workflows.Saves.{save-Ensures}
use orchex.Workflows.Published.{archive-Keeps}
use orchex.Workflows.Publishes.{publish-Ensures}

-- An endpoint that generates the identifier `v` of a version.
abbrev pub KeepsWith : ℕ → Db → Db → Type 0
KeepsWith v x y = IsKept x → IsFreshVersion v x → Keeps x y

abbrev pub KeepsOn : Db → Db → Type 0
KeepsOn x y = IsKept x → Keeps x y

KeepsWith-refl : (v : ℕ) (x : Db) → KeepsWith v x x
KeepsWith-refl v x k f = Keeps-refl x k

create-Keeps :
    (i v now : ℕ) (name : String) (description : Option String) (x : Db)
    → KeepsWith v x (record x {
      workflows = x.workflows ++ (new_workflow i v name description now ∷ []);
      versions = x.versions ++ (new_version v i 1 now ∷ []);
    })
create-Keeps i v now name description x k f =
    let y : Db = record x { versions = x.versions ++ (new_version v i 1 now ∷ []) } in
    let first = draft-Keeps v i 1 now x k f in
    let own = draft-IsDraftOf v i 1 now x f in
    Keeps-trans x y _ first (record {
      kept = record {
        heads =
            All-join (HasHead (stamps y)) x.workflows (new_workflow i v name description now ∷ [])
              first.kept.heads
              (
                (λ alive.
                    All-map (stamps y)
                      (λ s is e. let (mine, un) = is e in (mine, λ t at. absurd (un t at))) own),
                tt,
              );
        valid = first.kept.valid;
      };
      frozen = λ u p. (p, record { types = refl; nodes = refl; edges = refl });
    })

pub create-Ensures :
    (i v : ℕ) (body : Body CreateWorkflowRequest) → Ensures (KeepsWith v) (create i v body)
unfolding create create_workflow
create-Ensures i v body =
    quiet-Ensures (KeepsWith v) (from_result (bind_json body)) _ (KeepsWith-refl v)
      (quiet (bind_json body))
      (λ req.
        Ensures-quiet (KeepsWith v)
          (or_else (create_workflow i v req.name req.description)
            (λ _. internal_error "failed to create workflow"))
          _
          (or_else-Ensures (KeepsWith v) (create_workflow i v req.name req.description) _ (
            Writes-Ensures (KeepsWith v) (create_workflow i v req.name req.description)
              (KeepsWith-refl v)
              (statement-Writes (KeepsWith v) _ (λ x a y h.
                let e : record x {
                  workflows = x.workflows ++ (new_workflow i v req.name req.description x.now ∷ []);
                  versions = x.versions ++ (new_version v i 1 x.now ∷ []);
                }
                    ≡ y =
                  cc in
                subst (KeepsWith v x) e (create-Keeps i v x.now req.name req.description x)))))
          (λ wf w. (record { queue = refl; next_handle = refl }, refl)))

pub parse-IsQuiet : (path : Option ℕ) → IsQuiet (parse_workflow_id path)
parse-IsQuiet none w = (record { queue = refl; next_handle = refl }, refl)
parse-IsQuiet (some i) w = (record { queue = refl; next_handle = refl }, refl)

pub require-IsQuiet : (i : ℕ) (b : Bool) → IsQuiet (require_workflow i b)
require-IsQuiet i true w = (record { queue = refl; next_handle = refl }, refl)
require-IsQuiet i false w = (record { queue = refl; next_handle = refl }, refl)

pub exists-IsQuiet : (i : ℕ) → IsQuiet (workflow_exists i)
unfolding workflow_exists
exists-IsQuiet i = statement-IsQuiet _ (λ db a db' h. cc)

pub archive-Ensures : (path : Option ℕ) → Ensures KeepsOn (archive path)
unfolding archive archive_workflow
archive-Ensures path =
    quiet-Ensures KeepsOn (parse_workflow_id path) _ Keeps-refl (parse-IsQuiet path) (λ i.
      Ensures-quiet KeepsOn
        (or_else (archive_workflow i) (λ _. internal_error "failed to archive workflow")) _
        (or_else-Ensures KeepsOn (archive_workflow i) _ (
          Writes-Ensures KeepsOn (archive_workflow i) Keeps-refl (
            statement-Writes KeepsOn _ (λ x a y h.
              let e : record x { workflows = update_workflows i (set_archived x.now) x.workflows }
                  ≡ y =
                cc in
              subst (KeepsOn x) e (archive-Keeps i x.now x)))))
        (λ result. required i result))
  where
    required : (i : ℕ) (p : Bool × Bool) → IsQuiet {A = ℕ} (require_found i p >> return 204)
    required i (true, b) w = (record { queue = refl; next_handle = refl }, refl)
    required i (false, b) w = (record { queue = refl; next_handle = refl }, refl)

pub types-IsQuiet :
    {Schema : Type 0} (r : Result LoadError (NodeTypes Schema)) → IsQuiet (loaded_types r)
types-IsQuiet (err e) w = (record { queue = refl; next_handle = refl }, refl)
types-IsQuiet (ok types) w = (record { queue = refl; next_handle = refl }, refl)

pub list_types-IsQuiet : IsQuiet list_node_types
unfolding list_node_types
list_types-IsQuiet = statement-IsQuiet _ (λ db a db' h. cc)

module _ {Schema Json : Type 0} (trim_space : String → String) (parse_json : String → Option Json)
    (is_valid : Schema → Json → Bool) (compile : String → Json → Option Schema) where
  module _ (uuid_text : ℕ → String) (marshals : List NodeRecord → Bool)
      (save_message : SaveError → String) where
    pub update-Ensures :
        (fresh : ℕ) (path : Option ℕ) (body : Body UpdateWorkflowRequest)
        → Ensures (KeepsWith fresh) (
            update trim_space parse_json is_valid compile uuid_text marshals save_message fresh path
              body)
    unfolding update
    update-Ensures fresh path body =
        let P = KeepsWith fresh in
        let same = KeepsWith-refl fresh in
        quiet-Ensures P (parse_workflow_id path) _ same (parse-IsQuiet path) (λ i.
          quiet-Ensures P (or_else (workflow_exists i) _) _ same
            (or_else-Ensures (λ x y. y ≡ x) (workflow_exists i) _ (exists-IsQuiet i))
            (λ found.
              quiet-Ensures P (require_workflow i found) _ same (require-IsQuiet i found) (λ _.
                quiet-Ensures P (from_result (bind_json body)) _ same (quiet (bind_json body))
                  (λ req.
                    quiet-Ensures P
                      (or_else
                        (list_node_types >>= λ rows.
                          loaded_types (load_node_types parse_json compile rows))
                        _)
                      _ same
                      (or_else-Ensures (λ x y. y ≡ x) _ _
                        (Ensures-quiet (λ x y. y ≡ x) list_node_types _ list_types-IsQuiet
                          (λ rows. types-IsQuiet (load_node_types parse_json compile rows))))
                      (λ types.
                        quiet-Ensures P (from_result (refused req types)) _ same
                          (quiet (refused req types))
                          (λ _.
                            Ensures-quiet P
                              (or_else (save marshals fresh i (with_empty_graph req) types) _) _
                              (or_else-Ensures P
                                (save marshals fresh i (with_empty_graph req) types) _
                                (save-Ensures marshals fresh i (with_empty_graph req) types))
                              (λ detail w.
                                (record { queue = refl; next_handle = refl }, refl))))))))
      where
        refused : UpdateWorkflowRequest → NodeTypes Schema → Result HttpError (Unit {0})
        refused req types = saved_graph save_message (
            validate_saved_graph trim_space parse_json is_valid uuid_text types
              (or_empty (with_empty_graph req).nodes) (or_empty (with_empty_graph req).edges))

  module _ (range_order : List ℕ → List ℕ) (fair : IsRangeOrder range_order)
      (graph_message : StoreError → String) where
    pub publish_workflow-Ensures :
        (path : Option ℕ)
        → Ensures KeepsOn
            (publish_workflow trim_space parse_json is_valid compile range_order graph_message path)
    unfolding publish_workflow
    publish_workflow-Ensures path =
        quiet-Ensures KeepsOn (parse_workflow_id path) _ Keeps-refl (parse-IsQuiet path) (λ i.
          Ensures-quiet KeepsOn
            (or_else (publish trim_space parse_json is_valid compile range_order i) _) _
            (or_else-Ensures KeepsOn (publish trim_space parse_json is_valid compile range_order i)
              _ (publish-Ensures trim_space parse_json is_valid compile range_order fair i))
            (λ result w. (record { queue = refl; next_handle = refl }, refl)))
