-- ===== src/Worker/Keeps.antt =====
-- internal/worker/handler.go: a message that a worker handles leaves its run with a job.
use orchex.Prelude.{
  ℕ, ◌<◌, ◌≡◌, refl, subst, ◌⊎◌, inl, inr, String, Bool, true, false, some, arith, Bool-cases,
  Option-cases,
}
use orchex.Result.{Result, ok, err}
use orchex.Store.Tables.{WorkflowRun, NodeRow, NodeJobMessage, World}
use orchex.Store.Effects.{StoreError, statement, delete_message, next_fails}
use orchex.Store.RunQueries.Start.{join_types}
use orchex.Store.RunQueries.{find_run, get_workflow_run, fail_workflow_run}
use orchex.Store.GraphQueries.{find_node, get_node_for_execution}
use orchex.Runs.Actions.{find-update_self, find_run-id}
use orchex.Worker.{
  ExecResult, Stage, received, admitted, loaded, handled, finished, is_active, persist_node_result,
  proceed, again, handle_node_job, after_persist, after_execute,
}
use orchex.Worker.Relay.Waiting.{jobs_for, waiting}
use orchex.Worker.Settles.{Rests, Settles, persist-Settles}

-- What a stage owes the run: at rest, or a job; before the message is deleted, a row of the outbox.
abbrev pub Owes : ℕ → Stage × World → Type 0
Owes i (handled, w) = Rests i w ⊎ (0 < jobs_for i w.db.outbox)
Owes i (_, w) = Rests i w ⊎ (0 < waiting i w)

-- The stage works on the run `i`, which is stored once it was read.
abbrev pub WorksOn : ℕ → Stage × World → Type 0
WorksOn i (received m, w) = m.run_id ≡ i
WorksOn i (admitted run, w) = (run.id ≡ i) × ((r : WorkflowRun) × (find_run i w.db.runs ≡ some r))
WorksOn i (loaded run node, w) =
    (run.id ≡ i) × ((r : WorkflowRun) × (find_run i w.db.runs ≡ some r))
WorksOn i (_, w) = Unit

abbrev pub IsCovered : ℕ → Stage × World → Type 0
IsCovered i p = WorksOn i p × Owes i p

after_persist-IsCovered :
    (i : ℕ) (w : World) (p : Result StoreError (Unit {0}) × World)
    → Settles i w p
    → Rests i w ⊎ (0 < waiting i w)
    → IsCovered i (after_persist p)
after_persist-IsCovered i w (err e, w') (inl (_, d, q)) o = (tt, rw (d, q) o)
after_persist-IsCovered i w (ok u, w') (inl ((e, f), _, _)) o = cc
after_persist-IsCovered i w (err e, w') (inr (f, _)) o = cc
after_persist-IsCovered i w (ok u, w') (inr (_, s)) o = (tt, s)

module _ (execute : NodeRow → String → Result String ExecResult) (job handle i : ℕ) where
  received-IsCovered :
      (m : NodeJobMessage) (w : World)
      → IsCovered i (received m, w)
      → IsCovered i (proceed execute job handle (received m) w)
  unfolding proceed get_workflow_run statement
  received-IsCovered m w (on, owed) = elim (Bool-cases (next_fails w.faults)) [
    | inl f ↦ rw f (tt, owed)
    | inr f ↦
        rw (f, on)
          (elim (Option-cases (find_run i w.db.runs)) [
            | inl gone ↦ rw gone (tt, owed)
            | inr (r, found) ↦ rw found (elim (Bool-cases (is_active r.status)) [
              | inl active ↦ rw active ((find_run-id i w.db.runs r found, (r, found)), owed)
              | inr idle ↦ rw idle (tt, inl (r, found, idle))
            ])
          ])
  ]

  admitted-IsCovered :
      (run : WorkflowRun) (w : World)
      → IsCovered i (admitted run, w)
      → IsCovered i (proceed execute job handle (admitted run) w)
  unfolding proceed get_node_for_execution statement
  admitted-IsCovered run w (on, owed) = elim (Bool-cases (next_fails w.faults)) [
    | inl f ↦ rw f (tt, owed)
    | inr f ↦
        rw f
          (elim (Option-cases (
            find_node run.workflow_version_id run.current_node_id
              (join_types w.db.node_types w.db.nodes))) [
                | inl gone ↦ rw gone (tt, owed)
                | inr (node, found) ↦ rw found (on, owed)
              ])
  ]

  failed-IsCovered :
      (run r : WorkflowRun) (message : String) (w : World)
      → run.id ≡ i
      → find_run i w.db.runs ≡ some r
      → Rests i w ⊎ (0 < waiting i w)
      → IsCovered i (finished, (fail_workflow_run run.id message w).1)
  unfolding fail_workflow_run statement
  failed-IsCovered run r message w same found owed = elim (Bool-cases (next_fails w.faults)) [
    | inl f ↦ rw f (tt, owed)
    | inr f ↦ rw (f, same) (tt, inl (_, find-update_self i _ w.db.runs r (λ x. refl) found, refl))
  ]

  loaded-IsCovered :
      (run : WorkflowRun) (node : NodeRow) (w : World)
      → IsCovered i (loaded run node, w)
      → IsCovered i (proceed execute job handle (loaded run node) w)
  unfolding proceed
  loaded-IsCovered run node w ((same, (r, found)), owed) = go (execute node run.last_output)
    where
      go : (res : Result String ExecResult) → IsCovered i (after_execute job run node.id res w)
      go (err message) = failed-IsCovered run r message w same found owed
      go (ok result) =
          after_persist-IsCovered i w (persist_node_result job run node.id result w)
            (subst (λ x. Settles x w (persist_node_result job run node.id result w)) same
              (persist-Settles job run node.id result r w (rw same found)))
            owed

  handled-IsCovered :
      (w : World) → IsCovered i (handled, w) → IsCovered i (proceed execute job handle handled w)
  unfolding proceed delete_message
  handled-IsCovered w (on, inl rests) = elim (Bool-cases (next_fails w.faults)) [
    | inl f ↦ rw f (tt, inl rests)
    | inr f ↦ rw f (tt, inl rests)
  ]
  handled-IsCovered w (on, inr row) = elim (Bool-cases (next_fails w.faults)) [
    | inl f ↦ rw f (tt, inr (omega arith))
    | inr f ↦ rw f (tt, inr (omega arith))
  ]

  step-IsCovered : (p : Stage × World) → IsCovered i p → IsCovered i (again execute job handle p)
  unfolding proceed
  step-IsCovered (received m, w) c = received-IsCovered m w c
  step-IsCovered (admitted run, w) c = admitted-IsCovered run w c
  step-IsCovered (loaded run node, w) c = loaded-IsCovered run node w c
  step-IsCovered (handled, w) c = handled-IsCovered w c
  step-IsCovered (finished, w) c = c

  owed-plainly : (p : Stage × World) → IsCovered i p → Rests i p.1 ⊎ (0 < waiting i p.1)
  owed-plainly (received m, w) (_, o) = o
  owed-plainly (admitted run, w) (_, o) = o
  owed-plainly (loaded run node, w) (_, o) = o
  owed-plainly (handled, w) (_, inl rests) = inl rests
  owed-plainly (handled, w) (_, inr row) = inr (omega arith)
  owed-plainly (finished, w) (_, o) = o

-- Whatever calls fail, and whatever the node's execution returns, a worker that handles a message
-- of a run leaves the run stored and neither pending nor running, or leaves a job for it in the
-- outbox or the queue, provided that the queue held a message or the outbox a job for it before.
pub handle_node_job-keeps :
    (execute : NodeRow → String → Result String ExecResult) (job handle : ℕ) (down : Bool)
    (m : NodeJobMessage) (w : World)
    → 0 < waiting m.run_id w
    → let w' = handle_node_job execute job down handle (some m) w in
      Rests m.run_id w' ⊎ (0 < waiting m.run_id w')
unfolding handle_node_job
handle_node_job-keeps execute job handle true m w h = inr h
handle_node_job-keeps execute job handle false m w h =
    let step = step-IsCovered execute job handle m.run_id in
    owed-plainly execute job handle m.run_id _
      (step _ (step _ (step _ (step (received m, w) (refl, inr h)))))
