-- ===== src/System/Begin.antt =====
-- internal/handler/run/start.go: a run begins together with its first job.
use orchex.Prelude.{
  ℕ, ◌≡◌, refl, subst, ◌∙◌, ◌⊎◌, inl, inr, String, Bool, true, false, List, [], ◌∷◌, ◌++◌, Option,
  none, some, arith, ◌==◌, ==_iff, Bool-cases,
}
use orchex.Result.{Result, ok, err}
use orchex.Http.{Body, bind_json}
use orchex.Store.Tables.{WorkflowRun, Db, World}
use orchex.Store.Effects.{StoreError, unavailable, ◌>>=◌, ◌>>◌, return, or_else, in_tx}
use orchex.Store.Effects.Calls.{
  Does, Ensures, IsQuiet, SameQueue, statement-Does, >>=-Does, in_tx-Writes, Writes-Ensures,
  or_else-Ensures, quiet-Ensures, Ensures-quiet,
}
use orchex.Store.RunQueries.{
  find_run, new_job, insert_run_node_job_outbox, insert_workflow_run,
  get_published_workflow_for_start, workflow_exists,
}
use orchex.Runs.Start.{
  StartRunRequest, published_version, required_start, start_tx, start_output, start_run, start,
  from_result, require_workflow,
}
use orchex.System.Grows.{Grows, Grows-refl, one_row-same}
use orchex.System.Endpoints.{quiet, statement-IsQuiet}

find_run-append :
    (i : ℕ) (runs : List WorkflowRun) (r q : WorkflowRun)
    → find_run i (runs ++ (r ∷ [])) ≡ some q
    → (find_run i runs ≡ some q) ⊎ (r.id ≡ i)
find_run-append i [] r q h = elim (Bool-cases (r.id == i)) [
  | inl same ↦ inr ((==_iff r.id i).0 same)
  | inr other ↦ cc (rw other at h)
]
find_run-append i (x ∷ runs) r q h = elim (Bool-cases (x.id == i)) [
  | inl same ↦ inl (rw same (rw same at h))
  | inr other ↦ rw other (find_run-append i runs r q (rw other at h))
]

begin-Grows :
    (job : ℕ) (run : WorkflowRun) (version node now : ℕ) (x : Db)
    → Grows job x (record x {
      runs = x.runs ++ (run ∷ []);
      outbox = x.outbox ++ (new_job job run.id version node now ∷ []);
    })
begin-Grows job run version node now x = record {
  added = new_job job run.id version node now ∷ [];
  outbox = refl;
  ids = (refl, tt);
  owned = ((λ _. refl, tt), tt);
  wakes = λ i (r, found, active). elim (find_run-append i x.runs run r found) [
    | inl before ↦ inl (r, before, active)
    | inr same ↦ inr (ground arith)
  ];
}

abbrev Stays : {B : Type 0} → Db → B → Db → Type 0
Stays x b y = y ≡ x

abbrev Adds : {B : Type 0} → (job version node : ℕ) → WorkflowRun → Db → B → Db → Type 0
Adds job version node r x b y =
    y ≡ record x { outbox = x.outbox ++ (new_job job r.id version node x.now ∷ []) }

inserted :
    (x : Db) (run r : WorkflowRun) (y : Db)
    → ◌≡◌ {A = Result StoreError (WorkflowRun × Db)}
        (ok (run, record x { runs = x.runs ++ (run ∷ []) }))
        (ok (r, y))
    → y ≡ record x { runs = x.runs ++ (r ∷ []) }
inserted x run r y h =
    let e : run ≡ r = cc in
    let d : y ≡ record x { runs = x.runs ++ (run ∷ []) } = cc in d ∙ rw e refl

tx-Does :
    (run job i : ℕ) (output : String) → Does (λ x r y. Grows job x y) (start_tx run job i output)
unfolding get_published_workflow_for_start insert_workflow_run insert_run_node_job_outbox
tx-Does run job i output =
    >>=-Does Stays (λ _ x r y. Grows job x y) (λ x r y. Grows job x y) _ _
      (λ x a y b z same g. subst (λ d. Grows job d z) same g)
      (statement-Does Stays _ (λ x a y h. one_row-same x _ a y h))
      (λ wf.
        >>=-Does Stays (λ _ x r y. Grows job x y) (λ x r y. Grows job x y) _ _
          (λ x a y b z same g. subst (λ d. Grows job d z) same g)
          (version-Does wf.latest_published_version_id)
          (λ version.
            >>=-Does Stays (λ _ x r y. Grows job x y) (λ x r y. Grows job x y) _ _
              (λ x a y b z same g. subst (λ d. Grows job d z) same g) (node-Does wf.start_node_id)
              (λ node. writes_rows version node wf.id)))
  where
    writes_rows :
        (version node workflow : ℕ)
        → Does
            (λ x r y. Grows job x y)
            (insert_workflow_run run workflow version node output >>= λ created.
              insert_run_node_job_outbox job created.id version node >> return created)
    writes_rows version node workflow =
        >>=-Does (λ x r y. y ≡ record x { runs = x.runs ++ (r ∷ []) }) (Adds job version node)
          (λ x r y. Grows job x y) _ _
          (λ x a y b z e d. rw (d, e) (begin-Grows job a version node x.now x))
          (statement-Does _ _ (λ x a y h. inserted x _ a y h))
          (λ a.
            >>=-Does (Adds job version node a) (λ _ x b y. y ≡ x) (Adds job version node a) _ _
              (λ x u y b z d same. same ∙ d)
              (statement-Does (Adds job version node a) _ (λ x u y h. cc))
              (λ u w. (record { queue = refl; next_handle = refl }, λ b e. refl)))

    version-Does : (o : Option ℕ) → Does Stays (published_version o)
    version-Does none w = (record { queue = refl; next_handle = refl }, λ a h. refl)
    version-Does (some v) w = (record { queue = refl; next_handle = refl }, λ a h. refl)

    node-Does : (n : ℕ) → Does Stays (required_start n)
    node-Does n w = elim (Bool-cases (n == 0)) [
      | inl t ↦ rw t (record { queue = refl; next_handle = refl }, λ a h. refl)
      | inr t ↦ rw t (record { queue = refl; next_handle = refl }, λ a h. refl)
    ]

exists-IsQuiet : (i : ℕ) → IsQuiet (workflow_exists i)
unfolding workflow_exists
exists-IsQuiet i = statement-IsQuiet _ (λ db a db' h. cc)

required-IsQuiet : (i : ℕ) (b : Bool) → IsQuiet (require_workflow i b)
required-IsQuiet i true w = (record { queue = refl; next_handle = refl }, refl)
required-IsQuiet i false w = (record { queue = refl; next_handle = refl }, refl)

module _ (marshal : String → Option String) (run job : ℕ) where
  output-IsQuiet : (payload : String) → IsQuiet (start_output marshal payload)
  output-IsQuiet payload w = go (marshal payload)
    where
      go :
          (o : Option String)
          → let p : Result StoreError String × World = elim o [
            | none ↦ (err unavailable, w)
            | some output ↦ (ok output, w)
          ] in
            SameQueue w p.1 × (p.1.db ≡ w.db)
      go none = (record { queue = refl; next_handle = refl }, refl)
      go (some output) = (record { queue = refl; next_handle = refl }, refl)

  run-Ensures : (req : StartRunRequest) → Ensures (Grows job) (start_run marshal run job req)
  run-Ensures req =
      quiet-Ensures (Grows job) (start_output marshal req.payload) _ (Grows-refl job)
        (output-IsQuiet req.payload)
        (λ output.
          Writes-Ensures (Grows job) (in_tx (start_tx run job req.workflow_id output))
            (Grows-refl job) (in_tx-Writes (Grows job) _ (tx-Does run job req.workflow_id output)))

  pub start-Ensures :
      (body : Body StartRunRequest) → Ensures (Grows job) (start marshal run job body)
  unfolding start
  start-Ensures body =
      quiet-Ensures (Grows job) (from_result (bind_json body)) _ (Grows-refl job)
        (quiet (bind_json body))
        (λ req.
          quiet-Ensures (Grows job) (or_else (workflow_exists req.workflow_id) _) _ (Grows-refl job)
            (or_else-Ensures (λ x y. y ≡ x) (workflow_exists req.workflow_id) _
              (exists-IsQuiet req.workflow_id))
            (λ found.
              quiet-Ensures (Grows job) (require_workflow req.workflow_id found) _ (Grows-refl job)
                (required-IsQuiet req.workflow_id found)
                (λ _.
                  Ensures-quiet (Grows job) (or_else (start_run marshal run job req) _) _
                    (or_else-Ensures (Grows job) (start_run marshal run job req) _
                      (run-Ensures req))
                    (λ created w. (record { queue = refl; next_handle = refl }, refl)))))
