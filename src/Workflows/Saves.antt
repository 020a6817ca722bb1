-- ===== src/Workflows/Saves.antt =====
-- save.go: a save keeps the published versions.
use orchex.Prelude.{
  ℕ, ◌+◌, ◌≡◌, refl, sym, subst, ◌∙◌, String, Bool, true, false, List, [], ◌∷◌, ◌++◌, Option, none,
  some, arith, All-map,
}
use orchex.Result.{Result, ok}
use orchex.Store.Tables.{WorkflowRow, WorkflowVersion, Db}
use orchex.Store.Effects.{StoreError, ◌>>◌}
use orchex.Store.Effects.Calls.{
  Does, Ensures, statement-Does, >>=-Does, in_tx-Writes, Writes-Ensures, still-Does,
}
use orchex.Store.WorkflowQueries.{
  WorkflowHead, get_workflow_head, head_row, create_workflow_version, update_workflow,
  find_workflow, find_workflow, new_version, max_version,
}
use orchex.Store.Details.{DetailRow, get_workflow_detail, detail_row, version_row, graph_row}
use orchex.Save.{NodeTypes}
use orchex.Save.Encode.{NodeRecord}
use orchex.Workflows.{UpdateWorkflowRequest, WorkflowDetail, or_empty}
use orchex.Workflows.Save.{
  is_version, needs_draft_fork, get_detail, version_to_write, persist_graph, save_tx, save,
}
use orchex.Workflows.Kept.{
  stamps, HasHead, IsKept, Keeps, Keeps-refl, Keeps-trans, find_workflow-found,
}
use orchex.Workflows.Drafts.{
  IsDraftOf, IsFreshVersion, Only-Keeps, update-Keeps, draft-IsDraftOf, draft-Keeps,
}
use orchex.Workflows.Persists.{WritesOnly, sets-Does, persist_graph-Does}

-- The workflow of a head.
abbrev pub IsHead : ℕ → WorkflowHead → Db → Type 0
IsHead i head x =
    (w : WorkflowRow) × (find_workflow i x.workflows ≡ some w)
    × (head ≡ record {
      id = w.id;
      latest_published_version_id = w.latest_published_version_id;
      latest_version_id = w.latest_version_id;
    })

abbrev pub ReadsHead : ℕ → Db → WorkflowHead → Db → Type 0
ReadsHead i x head y = (y ≡ x) × IsHead i head x

pub head-Does : (i : ℕ) → Does (ReadsHead i) (get_workflow_head i)
unfolding get_workflow_head
head-Does i =
    statement-Does (ReadsHead i) _ (λ x head y h. go x head y (find_workflow i x.workflows) refl h)
  where
    go :
        (x : Db) (head : WorkflowHead) (y : Db) (o : Option WorkflowRow)
        → find_workflow i x.workflows ≡ o
        → head_row x o ≡ ok (head, y)
        → ReadsHead i x head y
    go x head y none e h = cc
    go x head y (some w) e h = (cc, (w, e, cc))

-- A head that is not the published version is a draft of the workflow.
head-IsDraftOf :
    (i : ℕ) (head : WorkflowHead) (x : Db)
    → IsKept x
    → IsHead i head x
    → needs_draft_fork head ≡ false
    → IsDraftOf head.latest_version_id head.id (stamps x)
head-IsDraftOf i head x k (w, found, e) unlive =
    let (has, _, alive) = find_workflow-found i x.workflows w (HasHead (stamps x)) found k.heads in
    rw e (
      All-map (stamps x)
        (λ s is own.
          let (mine, live) = is own in
          (
            mine,
            λ t at.
                let u : is_version w.latest_published_version_id w.latest_version_id ≡ false =
                  rw e at unlive in
                absurd (ground (arith, u, live t at, own)),
          ))
        (has alive))

-- The version that is written is a draft of the head's workflow, made anew if need be.
abbrev Chooses : ℕ → WorkflowHead → Db → ℕ → Db → Type 0
Chooses fresh head x v y =
    IsKept x
    → IsFreshVersion fresh x
    → (needs_draft_fork head ≡ false → IsDraftOf head.latest_version_id head.id (stamps x))
    → Keeps x y × IsDraftOf v head.id (stamps y)

abbrev Makes : ℕ → WorkflowHead → Db → WorkflowVersion → Db → Type 0
Makes fresh head x ver y =
    IsKept x → IsFreshVersion fresh x → Keeps x y × IsDraftOf ver.id head.id (stamps y)

abbrev draft_for : ℕ → WorkflowHead → Db → WorkflowVersion
draft_for fresh head x = new_version fresh head.id (max_version head.id x.versions + 1) x.now

made :
    (fresh : ℕ) (head : WorkflowHead) (x : Db) (ver : WorkflowVersion) (y : Db)
    → ◌≡◌ {A = Result StoreError (WorkflowVersion × Db)}
        (ok (
          draft_for fresh head x,
          record x { versions = x.versions ++ (draft_for fresh head x ∷ []) },
        ))
        (ok (ver, y))
    → Makes fresh head x ver y
made fresh head x ver y h k f =
    let number = max_version head.id x.versions + 1 in
    let same : draft_for fresh head x ≡ ver = cc in
    let d : record x { versions = x.versions ++ (draft_for fresh head x ∷ []) } ≡ y = cc in
    subst (λ z. Keeps x y × IsDraftOf z.id head.id (stamps y)) same
      (subst (λ z. Keeps x z × IsDraftOf fresh head.id (stamps z)) d
        (
          draft-Keeps fresh head.id number x.now x k f,
          draft-IsDraftOf fresh head.id number x.now x f,
        ))

pub version-Does :
    (fresh : ℕ) (head : WorkflowHead) (b : Bool)
    → needs_draft_fork head ≡ b
    → Does (Chooses fresh head) (version_to_write fresh head b)
unfolding create_workflow_version
version-Does fresh head false e =
    still-Does (Chooses fresh head) (ok head.latest_version_id) (λ x v h k f d.
      let same : head.latest_version_id ≡ v = cc in
      (Keeps-refl x k, subst (λ n. IsDraftOf n head.id (stamps x)) same (d e)))
version-Does fresh head true e =
    >>=-Does (Makes fresh head) (λ ver x v y. (y ≡ x) × (v ≡ ver.id)) (Chooses fresh head) _ _
      (λ x ver y v z made (same, named) k f d. rw (same, named) (made k f))
      (statement-Does (Makes fresh head) _ (λ x ver y h. made fresh head x ver y h))
      (λ ver. still-Does (λ x v y. (y ≡ x) × (v ≡ ver.id)) (ok ver.id) (λ x v h. (refl, cc)))

abbrev Stays : {A : Type 0} → Db → A → Db → Type 0
Stays x a y = y ≡ x

graph_row-Stays :
    (x : Db) (w : WorkflowRow) (o : Option WorkflowVersion) (a : DetailRow) (y : Db)
    → graph_row x w o ≡ ok (a, y)
    → y ≡ x
graph_row-Stays x w none a y h = cc
graph_row-Stays x w (some v) a y h = cc

version_row-Stays :
    (x : Db) (w : WorkflowRow) (o : Option ℕ) (a : DetailRow) (y : Db)
    → version_row x w o ≡ ok (a, y)
    → y ≡ x
version_row-Stays x w none a y h = cc
version_row-Stays x w (some v) a y h = graph_row-Stays x w _ a y h

pub detail_row-Stays :
    (x : Db) (published : Bool) (o : Option WorkflowRow) (a : DetailRow) (y : Db)
    → detail_row x published o ≡ ok (a, y)
    → y ≡ x
detail_row-Stays x published none a y h = cc
detail_row-Stays x published (some w) a y h = version_row-Stays x w _ a y h

pub detail-Does :
    (i : ℕ) (published : Bool) → Does (λ x (a : WorkflowDetail) y. y ≡ x) (get_detail i published)
unfolding get_workflow_detail
detail-Does i published =
    >>=-Does Stays (λ _. Stays) Stays (get_workflow_detail published i) _
      (λ x a y b z first next. next ∙ first)
      (statement-Does Stays _ (λ x a y h. detail_row-Stays x published _ a y h))
      (λ row. still-Does Stays _ (λ x a h. refl))

-- The rest of a save, once its version is a draft.
abbrev Finishes : {A : Type 0} → ℕ → ℕ → Db → A → Db → Type 0
Finishes v i x a y = IsKept x → IsDraftOf v i (stamps x) → Keeps x y

update-Does :
    (name : String) (description : Option String) (v i : ℕ)
    → Does (Finishes v i) (update_workflow name description v i >> get_detail i false)
unfolding update_workflow
update-Does name description v i =
    >>=-Does (Finishes v i) (λ _. Stays) (Finishes v i) (update_workflow name description v i) _
      (λ x a y b z done same k d. subst (Keeps x) (sym same) (done k d))
      (sets-Does (Finishes v i) _ (λ x k d. update-Keeps name description v i x.now x k d))
      (λ _. detail-Does i false)

module _ (marshals : List NodeRecord → Bool) {Schema : Type 0} (fresh i : ℕ)
    (req : UpdateWorkflowRequest) (types : NodeTypes Schema) where
  written-Does :
      (head : WorkflowHead) (v : ℕ)
      → Does (Finishes v head.id) (
          persist_graph marshals v
            (or_empty req.nodes)
            (or_empty req.edges)
            types
            (needs_draft_fork head)
          >> (update_workflow req.name req.description v head.id >> get_detail head.id false))
  written-Does head v =
      >>=-Does (WritesOnly v) (λ _. Finishes v head.id) (Finishes v head.id)
        (persist_graph marshals v (or_empty req.nodes) (or_empty req.edges) types
          (needs_draft_fork head))
        _
        (λ x a y b z only done k d.
          let first = Only-Keeps v head.id x y k d only in
          Keeps-trans x y z first (done first.kept (rw only.stamped d)))
        (persist_graph-Does marshals v (or_empty req.nodes) (or_empty req.edges) types
          (needs_draft_fork head))
        (λ _. update-Does req.name req.description v head.id)

  abbrev Saves : {A : Type 0} → Db → A → Db → Type 0
  Saves x a y = IsKept x → IsFreshVersion fresh x → Keeps x y

  save_tx-Does :
      Does
        (λ x (a : WorkflowDetail) y. IsKept x → IsFreshVersion fresh x → Keeps x y)
        (save_tx marshals fresh i req types)
  save_tx-Does =
      >>=-Does (ReadsHead i) (λ head x a y. IsHead i head x → Saves x a y) Saves
        (get_workflow_head i) _
        (λ x head y a z (same, is) done. subst (λ d. IsHead i head d → Saves d a z) same done is)
        (head-Does i)
        (λ head.
          >>=-Does (Chooses fresh head) (λ v. Finishes v head.id)
            (λ x a y. IsHead i head x → Saves x a y)
            (version_to_write fresh head (needs_draft_fork head)) _
            (λ x v y a z chosen done is k f.
              let (first, d) = chosen k f (head-IsDraftOf i head x k is) in
              Keeps-trans x y z first (done first.kept d))
            (version-Does fresh head (needs_draft_fork head) refl) (λ v. written-Does head v))

  pub save-Ensures :
      Ensures
        (λ x y. IsKept x → IsFreshVersion fresh x → Keeps x y)
        (save marshals fresh i req types)
  unfolding save
  save-Ensures =
      Writes-Ensures (λ x y. IsKept x → IsFreshVersion fresh x → Keeps x y) _
        (λ x k f. Keeps-refl x k)
        (in_tx-Writes (λ x y. IsKept x → IsFreshVersion fresh x → Keeps x y) _ save_tx-Does)
