-- ===== src/Store/WorkflowQueries.antt =====
-- internal/db/sqlc/workflows.sql.go and workflow_versions.sql.go: the statements of the builder
-- service. Each is one step, and one that a constraint of the tables refuses counts as a fault.
use orchex.Prelude.{
  ℕ, ◌+◌, String, Bool, true, false, ◌&&◌, ◌||◌, List, [], ◌∷◌, ◌++◌, Option, none, some, ltb, ◌==◌,
  if◌then◌else◌,
}
use orchex.Result.{Result, ok, err}
use orchex.Store.Tables.{draft, published, archived, WorkflowRow, WorkflowVersion, Db}
use orchex.Store.Effects.{StoreError, no_rows, M, statement}
use orchex.Store.RunQueries.{is_archived, has_workflow}

-- `WHERE id = $1 AND status != 'archived'`
abbrev pub find_workflow : ℕ → List WorkflowRow → Option WorkflowRow
find_workflow i [] = none
find_workflow i (w ∷ ws) =
    let rest = find_workflow i ws in
    if w.id == i then (if is_archived w.status then rest else some w) else rest

abbrev pub update_workflows : ℕ → (WorkflowRow → WorkflowRow) → List WorkflowRow → List WorkflowRow
update_workflows i f [] = []
update_workflows i f (w ∷ ws) =
    let rest = update_workflows i f ws in
    if w.id == i then (if is_archived w.status then w ∷ rest else f w ∷ rest) else w ∷ rest

abbrev pub find_version : ℕ → List WorkflowVersion → Option WorkflowVersion
find_version v [] = none
find_version v (x ∷ xs) = let rest = find_version v xs in if x.id == v then some x else rest

-- `CreateWorkflow`: the identifiers of the workflow and of its first version are generated.
abbrev pub new_workflow : ℕ → ℕ → String → Option String → ℕ → WorkflowRow
new_workflow i v name description now = record {
  id = i;
  name = name;
  description = description;
  status = draft;
  created_at = now;
  updated_at = now;
  last_published_at = none;
  latest_published_version_id = none;
  latest_version_id = v;
}

abbrev pub new_version : ℕ → ℕ → ℕ → ℕ → WorkflowVersion
new_version v i number now = record {
  id = v;
  workflow_id = i;
  version = number;
  created_at = now;
  last_updated_at = now;
  published_at = none;
}

unfoldable pub create_workflow : ℕ → ℕ → String → Option String → M StoreError WorkflowRow
create_workflow i v name description = statement (λ db.
    let w = new_workflow i v name description db.now in
    ok (
      w,
      record db {
        workflows = db.workflows ++ (w ∷ []);
        versions = db.versions ++ (new_version v i 1 db.now ∷ []);
      },
    ))

-- `CreateWorkflowVersion`: `COALESCE(MAX(version), 0) + 1` over the versions of the workflow.
abbrev pub max_version : ℕ → List WorkflowVersion → ℕ
max_version i [] = 0
max_version i (x ∷ xs) =
    let rest = max_version i xs in
    if x.workflow_id == i then (if ltb rest x.version then x.version else rest) else rest

unfoldable pub create_workflow_version : ℕ → ℕ → M StoreError WorkflowVersion
create_workflow_version v i = statement (λ db.
    let x = new_version v i (max_version i db.versions + 1) db.now in
    ok (x, record db { versions = db.versions ++ (x ∷ []) }))

-- `TouchWorkflowVersion`: the trigger sets the time of the last update.
abbrev pub touch_version : ℕ → ℕ → List WorkflowVersion → List WorkflowVersion
touch_version v now [] = []
touch_version v now (x ∷ xs) =
    let rest = touch_version v now xs in
    if x.id == v then record x { last_updated_at = now } ∷ rest else x ∷ rest

unfoldable pub touch_workflow_version : ℕ → M StoreError (Unit {0})
touch_workflow_version v =
    statement (λ db. ok (tt, record db { versions = touch_version v db.now db.versions }))

-- `GetWorkflowHead`
pub record WorkflowHead : Type 0 where
  pub id : ℕ
  pub latest_published_version_id : Option ℕ
  pub latest_version_id : ℕ

abbrev pub head_row : Db → Option WorkflowRow → Result StoreError (WorkflowHead × Db)
head_row db none = err no_rows
head_row db (some w) = ok (
  record {
    id = w.id;
    latest_published_version_id = w.latest_published_version_id;
    latest_version_id = w.latest_version_id;
  },
  db,
)

unfoldable pub get_workflow_head : ℕ → M StoreError WorkflowHead
get_workflow_head i = statement (λ db. head_row db (find_workflow i db.workflows))

-- `UpdateWorkflow`
abbrev pub set_saved : String → Option String → ℕ → ℕ → WorkflowRow → WorkflowRow
set_saved name description v now w = record w {
  name = name;
  description = description;
  latest_version_id = v;
  updated_at = now;
}

unfoldable pub update_workflow : String → Option String → ℕ → ℕ → M StoreError (Unit {0})
update_workflow name description v i = statement (λ db. ok (
  tt,
  record db { workflows = update_workflows i (set_saved name description v db.now) db.workflows },
))

-- `LockWorkflowForPublish`: the workflow with the number and the time of publication of its head.
pub record LockedWorkflow : Type 0 where
  pub workflow : WorkflowRow
  pub head_version : ℕ
  pub head_published_at : Option ℕ

abbrev pub with_head :
    Db → WorkflowRow → Option WorkflowVersion → Result StoreError (LockedWorkflow × Db)
with_head db w none = err no_rows
with_head db w (some v) =
    ok (record { workflow = w; head_version = v.version; head_published_at = v.published_at }, db)

abbrev pub locked : Db → Option WorkflowRow → Result StoreError (LockedWorkflow × Db)
locked db none = err no_rows
locked db (some w) = with_head db w (find_version w.latest_version_id db.versions)

unfoldable pub lock_workflow_for_publish : ℕ → M StoreError LockedWorkflow
lock_workflow_for_publish i = statement (λ db. locked db (find_workflow i db.workflows))

-- `PublishWorkflowHead`: the first part of the statement stamps the draft, the second points the
-- workflow at it. If the second meets no row, the statement's transaction undoes the first.
abbrev pub is_unpublished : Option ℕ → Bool
is_unpublished none = true
is_unpublished (some t) = false

abbrev pub is_draft : ℕ → ℕ → WorkflowVersion → Bool
is_draft v i x = x.id == v && (x.workflow_id == i && is_unpublished x.published_at)

abbrev pub find_draft : ℕ → ℕ → List WorkflowVersion → Option WorkflowVersion
find_draft v i [] = none
find_draft v i (x ∷ xs) = let rest = find_draft v i xs in if is_draft v i x then some x else rest

abbrev pub stamp_version : ℕ → ℕ → ℕ → List WorkflowVersion → List WorkflowVersion
stamp_version v i now [] = []
stamp_version v i now (x ∷ xs) =
    let rest = stamp_version v i now xs in
    if is_draft v i x
    then record x { published_at = some now; last_updated_at = now } ∷ rest
    else x ∷ rest

abbrev pub set_published : ℕ → ℕ → WorkflowRow → WorkflowRow
set_published v now w = record w {
  status = published;
  latest_published_version_id = some v;
  last_published_at = some now;
  updated_at = now;
}

-- `AND w.latest_version_id = pv.id`
abbrev pub publish_row : ℕ → ℕ → WorkflowRow → WorkflowRow
publish_row v now w = if w.latest_version_id == v then set_published v now w else w

pub record PublishedHead : Type 0 where
  pub workflow : WorkflowRow
  pub published_version : ℕ

abbrev pub publish_rows :
    Db
    → ℕ
    → ℕ
    → Option WorkflowVersion
    → Option WorkflowRow
    → Result StoreError (PublishedHead × Db)
publish_rows db v i none _ = err no_rows
publish_rows db v i (some x) none = err no_rows
publish_rows db v i (some x) (some w) =
    if w.latest_version_id == v
    then ok (
      record { workflow = set_published v db.now w; published_version = x.version },
      record db {
        workflows = update_workflows i (publish_row v db.now) db.workflows;
        versions = stamp_version v i db.now db.versions;
      },
    )
    else err no_rows

unfoldable pub publish_workflow_head : ℕ → ℕ → M StoreError PublishedHead
publish_workflow_head v i =
    statement
      (λ db. publish_rows db v i (find_draft v i db.versions) (find_workflow i db.workflows))

-- `ArchiveWorkflow`: whether there is a workflow, and whether it is archived now.
abbrev pub is_stored : ℕ → List WorkflowRow → Bool
is_stored i [] = false
is_stored i (w ∷ ws) = let rest = is_stored i ws in w.id == i || rest

abbrev pub set_archived : ℕ → WorkflowRow → WorkflowRow
set_archived now w = record w { status = archived; updated_at = now }

unfoldable pub archive_workflow : ℕ → M StoreError (Bool × Bool)
archive_workflow i = statement (λ db. ok (
  (is_stored i db.workflows, has_workflow i db.workflows),
  record db { workflows = update_workflows i (set_archived db.now) db.workflows },
))

-- `ListWorkflows`: `ORDER BY updated_at DESC, id`.
abbrev pub unarchived : List WorkflowRow → List WorkflowRow
unarchived [] = []
unarchived (w ∷ ws) = let rest = unarchived ws in if is_archived w.status then rest else w ∷ rest

abbrev pub is_newer : WorkflowRow → WorkflowRow → Bool
is_newer w x = ltb x.updated_at w.updated_at || (x.updated_at == w.updated_at && ltb w.id x.id)

abbrev pub insert_by : {A : Type 0} → (A → A → Bool) → A → List A → List A
insert_by before a [] = a ∷ []
insert_by before a (b ∷ bs) =
    let rest = insert_by before a bs in if before b a then b ∷ rest else a ∷ b ∷ bs

abbrev pub order_by : {A : Type 0} → (A → A → Bool) → List A → List A
order_by before [] = []
order_by before (a ∷ bs) = insert_by before a (order_by before bs)

unfoldable pub list_workflows : M StoreError (List WorkflowRow)
list_workflows = statement (λ db. ok (order_by is_newer (unarchived db.workflows), db))
