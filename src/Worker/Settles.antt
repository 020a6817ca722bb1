-- ===== src/Worker/Settles.antt =====
-- internal/worker/persistence.go under failing calls: the transaction settles what the run needs.
use orchex.Prelude.{
  ℕ, ◌<◌, ◌≡◌, refl, ◌⊎◌, inl, inr, String, false, List, [], ◌∷◌, ◌++◌, some, arith, Bool-cases,
  Option-cases,
}
use orchex.Result.{Result, ok, err}
use orchex.Store.Tables.{WorkflowRun, OutboxJob, World}
use orchex.Store.Effects.{StoreError, statement, in_tx, next_fails, tried, close_tx}
use orchex.Store.RunQueries.{
  find_run, new_job, advance_workflow_run, complete_workflow_run, insert_run_node_job_outbox,
}
use orchex.Store.GraphQueries.{find_next, get_next_node_for_execution}
use orchex.Runs.Actions.{find-update_self}
use orchex.Worker.{ExecResult, is_active, persist_node_result, advance}
use orchex.Worker.Relay.Waiting.{jobs_for, jobs_for-append}

-- The run is stored and no worker is to run it.
abbrev pub Rests : ℕ → World → Type 0
Rests i w = (r : WorkflowRun) × (find_run i w.db.runs ≡ some r) × (is_active r.status ≡ false)

-- A call either fails and changes no row and no message, or leaves the run at rest or with a row.
abbrev pub Settles : ℕ → World → Result StoreError (Unit {0}) × World → Type 0
Settles i w p =
    (((e : StoreError) × (p.0 ≡ err e)) × (p.1.db ≡ w.db) × (p.1.queue ≡ w.queue))
    ⊎ ((p.0 ≡ ok tt) × (Rests i p.1 ⊎ (0 < jobs_for i p.1.db.outbox)))

complete-Settles :
    (run : WorkflowRun) (output : String) (r : WorkflowRun) (w : World)
    → find_run run.id w.db.runs ≡ some r
    → Settles run.id w (in_tx (complete_workflow_run run.id output) w)
unfolding in_tx statement complete_workflow_run
complete-Settles run output r w found = elim (Bool-cases (next_fails w.faults)) [
  | inl f ↦ rw f (inl ((_, refl), refl, refl))
  | inr f ↦ rw f (elim (Bool-cases (next_fails (tried w).faults)) [
    | inl g ↦ rw g (inl ((_, refl), refl, refl))
    | inr g ↦ rw g (elim (Bool-cases (next_fails (tried (tried w)).faults)) [
      | inl h ↦ rw h (inl ((_, refl), refl, refl))
      | inr h ↦
          rw h (inr (refl, inl (_, find-update_self run.id _ w.db.runs r (λ x. refl) found, refl)))
    ])
  ])
]

-- The row that the transaction adds is one of the run's.
new_row :
    (job i version next now : ℕ) (js : List OutboxJob)
    → 0 < jobs_for i (js ++ (new_job job i version next now ∷ []))
new_row job i version next now js =
    ground (arith, jobs_for-append i js (new_job job i version next now ∷ []))

advance-Settles :
    (job : ℕ) (run : WorkflowRun) (node : ℕ) (result : ExecResult) (w : World)
    → Settles run.id w (in_tx (advance job run node result) w)
unfolding in_tx statement close_tx get_next_node_for_execution advance_workflow_run
    insert_run_node_job_outbox
advance-Settles job run node result w = elim (Bool-cases (next_fails w.faults)) [
  | inl f ↦ rw f (inl ((_, refl), refl, refl))
  | inr f ↦ rw f (elim (Bool-cases (next_fails (tried w).faults)) [
    | inl g ↦ rw g (inl ((_, refl), refl, refl))
    | inr g ↦
        rw g
          (elim (Option-cases
            (find_next run.workflow_version_id node result.next_edge_label w.db.edges)) [
              | inl none_there ↦ rw none_there (inl ((_, refl), refl, refl))
              | inr (next, there) ↦
                  rw there (elim (Bool-cases (next_fails (tried (tried w)).faults)) [
                    | inl h ↦ rw h (inl ((_, refl), refl, refl))
                    | inr h ↦
                        rw h (elim (Bool-cases (next_fails (tried (tried (tried w))).faults)) [
                          | inl k ↦ rw k (inl ((_, refl), refl, refl))
                          | inr k ↦
                              rw k
                                (elim (Bool-cases
                                  (next_fails (tried (tried (tried (tried w)))).faults)) [
                                    | inl c ↦ rw c (inl ((_, refl), refl, refl))
                                    | inr c ↦ rw c (
                                        inr (
                                          refl,
                                          inr (
                                              new_row job run.id run.workflow_version_id next
                                                w.db.now w.db.outbox),
                                        ))
                                  ])
                        ])
                  ])
            ])
  ])
]

pub persist-Settles :
    (job : ℕ) (run : WorkflowRun) (node : ℕ) (result : ExecResult) (r : WorkflowRun) (w : World)
    → find_run run.id w.db.runs ≡ some r
    → Settles run.id w (persist_node_result job run node result w)
unfolding persist_node_result
persist-Settles job run node result r w found = elim (Bool-cases result.completed) [
  | inl c ↦ rw c (complete-Settles run result.output r w found)
  | inr c ↦ rw c (advance-Settles job run node result w)
]
