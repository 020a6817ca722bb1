-- ===== src/System/Work.antt =====
-- internal/worker: the worker's calls make a run active only together with a job of its own.
use orchex.Prelude.{
  ℕ, ◌<◌, ◌≡◌, refl, subst, inl, inr, String, false, [], ◌∷◌, ◌++◌, arith, Bool-cases, Option-cases,
}
use orchex.Result.{ok}
use orchex.Store.Tables.{WorkflowRun, Db, World}
use orchex.Store.Effects.{statement}
use orchex.Store.Effects.Calls.{
  Does, Ensures, statement-Does, statement-Writes, >>=-Does, in_tx-Writes, Writes-Ensures,
}
use orchex.Store.RunQueries.{
  find_run, update_run, new_job, advance_workflow_run, complete_workflow_run, fail_workflow_run,
  insert_run_node_job_outbox, set_advanced, set_completed, set_failed,
}
use orchex.Store.GraphQueries.{get_next_node_for_execution}
use orchex.Worker.{ExecResult, is_active, persist_node_result, advance}
use orchex.Worker.Relay.Waiting.{jobs_for, jobs_for-append}
use orchex.Worker.Settles.{persist-Settles}
use orchex.System.Grows.{IsActiveIn, Grows, Grows-refl, idles-Grows, row-Grows, one_row-same}

idle-Writes :
    (job i : ℕ) (f : ℕ → WorkflowRun → WorkflowRun)
    → ((now : ℕ) (r : WorkflowRun) → (f now r).id ≡ r.id)
    → ((now : ℕ) (r : WorkflowRun) → is_active (f now r).status ≡ false)
    → Does
        (λ x (u : Unit {0}) y. Grows job x y)
        (statement (λ db. ok (tt, record db { runs = update_run i (f db.now) db.runs })))
idle-Writes job i f keep idle =
    statement-Does (λ x u y. Grows job x y) _
      (λ x u y h.
        let e : y ≡ record x { runs = update_run i (f x.now) x.runs } = cc in
        rw e (idles-Grows i (f x.now) (keep x.now) job x (idle x.now)))

advance-Does :
    (job : ℕ) (run : WorkflowRun) (node : ℕ) (result : ExecResult)
    → Does (λ x u y. Grows job x y) (advance job run node result)
unfolding get_next_node_for_execution advance_workflow_run insert_run_node_job_outbox
advance-Does job run node result =
    >>=-Does (λ x n y. y ≡ x) (λ _ x u y. Grows job x y) (λ x u y. Grows job x y) _ _
      (λ x a y b z same g. subst (λ d. Grows job d z) same g)
      (statement-Does (λ x n y. y ≡ x) _ (λ x n y h. one_row-same x _ n y h))
      (λ next.
        >>=-Does (Moves next) (λ _. Adds next) (λ x u y. Grows job x y) _ _
          (λ x a y b z u d.
            rw (d, u)
              (row-Grows run.id (set_advanced next result.output x.now) (λ r. refl) job
                run.workflow_version_id next x.now x))
          (statement-Does (Moves next) _ (λ x u y h. cc))
          (λ u. statement-Does (Adds next) _ (λ x u y h. cc)))
  where
    Moves : ℕ → Db → Unit {0} → Db → Type 0
    Moves next x u y =
        y ≡ record x { runs = update_run run.id (set_advanced next result.output x.now) x.runs }

    Adds : ℕ → Db → Unit {0} → Db → Type 0
    Adds next x u y = y ≡ record x {
      outbox = x.outbox ++ (new_job job run.id run.workflow_version_id next x.now ∷ []);
    }

pub persist-Ensures :
    (job : ℕ) (run : WorkflowRun) (node : ℕ) (result : ExecResult)
    → Ensures (Grows job) (persist_node_result job run node result)
unfolding persist_node_result complete_workflow_run
persist-Ensures job run node result w = elim (Bool-cases result.completed) [
  | inl c ↦ rw c (
      Writes-Ensures (Grows job) _ (Grows-refl job)
        (in_tx-Writes (Grows job) _
          (idle-Writes job run.id (set_completed result.output) (λ now r. refl) (λ now r. refl)))
        w)
  | inr c ↦ rw c (
      Writes-Ensures (Grows job) _ (Grows-refl job)
        (in_tx-Writes (Grows job) _ (advance-Does job run node result)) w)
]

pub fail-Ensures :
    (job i : ℕ) (message : String) → Ensures (Grows job) (fail_workflow_run i message)
unfolding fail_workflow_run
fail-Ensures job i message = Writes-Ensures (Grows job) _ (Grows-refl job) (
    statement-Writes (Grows job) _ (λ x u y h.
      let e : y ≡ record x { runs = update_run i (set_failed message x.now) x.runs } = cc in
      rw e (idles-Grows i (set_failed message x.now) (λ r. refl) job x (λ r. refl))))

-- After a result was persisted, an active run has a row.
pub persist-settles :
    (job : ℕ) (run : WorkflowRun) (node : ℕ) (result : ExecResult) (w : World)
    → let p = persist_node_result job run node result w in
      p.0 ≡ ok tt → IsActiveIn run.id p.1.db → 0 < jobs_for run.id p.1.db.outbox
persist-settles job run node result w done (q, there, active) =
    elim (Option-cases (find_run run.id w.db.runs)) [
      | inl gone ↦
          let g = (persist-Ensures job run node result w).1 in
          elim (g.wakes run.id (q, there, active)) [
            | inl (r, found, _) ↦ cc
            | inr row ↦ rw g.outbox (omega (arith, row, jobs_for-append run.id w.db.outbox g.added))
          ]
      | inr (r, found) ↦ elim (persist-Settles job run node result r w found) [
        | inl ((e, failed), _, _) ↦ cc
        | inr (_, inr row) ↦ row
        | inr (_, inl (q', there', idle)) ↦ cc
      ]
    ]
