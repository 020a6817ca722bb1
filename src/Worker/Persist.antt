-- ===== src/Worker/Persist.antt =====
-- internal/worker: what `persistNodeResult` and `handleNodeJob` leave behind.
use orchex.Prelude.{
  ℕ, ◌≡◌, ◌≢◌, ◌⊎◌, inl, inr, refl, String, eq_iff, Bool, true, false, List, [], ◌∷◌, ◌++◌, Option,
  none, some, arith, All, Bool-cases,
}
use orchex.Result.{Result, ok, err}
use orchex.Store.Tables.{
  RunStatus, pending, running, paused, completed, failed, cancelled, WorkflowRun, NodeRow, EdgeRow,
  NodeJobMessage, World,
}
use orchex.Store.Effects.{
  StoreError, no_rows, statement, in_tx, without, delete_message, next_fails, tried,
}
use orchex.Store.RunQueries.{
  find_run, update_run, new_job, set_advanced, set_completed, get_workflow_run,
  advance_workflow_run, complete_workflow_run, insert_run_node_job_outbox,
}
use orchex.Store.GraphQueries.{find_next, get_next_node_for_execution}
use orchex.Runs.Actions.{find-update_self, find-update_ne}
use orchex.Worker.{ExecResult, is_active, persist_node_result, proceed, handle_node_job}

module _ (job : ℕ) (run : WorkflowRun) (node : ℕ) (result : ExecResult) (w : World)
    (calm : w.faults ≡ []) where
  pub advanced :
      (next : ℕ)
      → result.completed ≡ false
      → find_next run.workflow_version_id node result.next_edge_label w.db.edges ≡ some next
      → persist_node_result job run node result w ≡ (
        ok tt,
        record w {
          db = record w.db {
            runs = update_run run.id (set_advanced next result.output w.db.now) w.db.runs;
            outbox = w.db.outbox ++ (new_job job run.id run.workflow_version_id next w.db.now ∷ []);
          };
          faults = [];
        },
      )
  unfolding persist_node_result in_tx statement get_next_node_for_execution advance_workflow_run
      insert_run_node_job_outbox
  advanced next c n = ground arith

  ended :
      result.completed ≡ true
      → persist_node_result job run node result w ≡ (
        ok tt,
        record w {
          db = record w.db {
            runs = update_run run.id (set_completed result.output w.db.now) w.db.runs;
          };
          faults = [];
        },
      )
  unfolding persist_node_result in_tx statement complete_workflow_run
  ended c = ground arith

  no_successor :
      result.completed ≡ false
      → find_next run.workflow_version_id node result.next_edge_label w.db.edges ≡ none
      → persist_node_result job run node result w ≡ (err no_rows, record w { faults = [] })
  unfolding persist_node_result in_tx statement get_next_node_for_execution
  no_successor c n = ground arith

-- An edge of the version that goes out of the node with the label.
abbrev pub Leads : ℕ → ℕ → String → EdgeRow → Type 0
Leads version node label e =
    (e.workflow_version_id ≡ version) × (e.from_node_id ≡ node) × (e.label ≡ label)

pub find_next-first :
    (version node : ℕ) (label : String) (before after : List EdgeRow) (e : EdgeRow)
    → All (λ d. ¬ Leads version node label d) before
    → Leads version node label e
    → find_next version node label (before ++ (e ∷ after)) ≡ some e.to_node_id
find_next-first version node label [] after e none_before (v, n, l) =
    ground (arith, eq_iff e.label label)
find_next-first version node label (d ∷ before) after e none_before leads =
    let ih = find_next-first version node label before after e none_before.1 leads in
    let other = none_before.0 in ground (arith, other, ih, eq_iff d.label label)

find_next-none :
    (version node : ℕ) (label : String) (es : List EdgeRow)
    → All (λ d. ¬ Leads version node label d) es
    → find_next version node label es ≡ none
find_next-none version node label [] h = refl
find_next-none version node label (e ∷ es) h =
    let other = h.0 in
    ground (arith, other, find_next-none version node label es h.1, eq_iff e.label label)

-- What one persisted result leaves of the run `r` and of the outbox.
pub record Persisted (job : ℕ) (run : WorkflowRun) (node : ℕ) (result : ExecResult)
    (r : WorkflowRun) (w : World) (p : Result StoreError (Unit {0}) × World) : Type 0 where
  pub ends :
      result.completed ≡ true
      → (p.0 ≡ ok tt)
        × (find_run run.id p.1.db.runs
            ≡ some (record r {
              status = completed;
              last_output = result.output;
              completed_at = some w.db.now;
              updated_at = w.db.now;
            }))
        × (p.1.db.outbox ≡ w.db.outbox)
  pub goes_on :
      (before after : List EdgeRow) (e : EdgeRow)
      → result.completed ≡ false
      → w.db.edges ≡ before ++ (e ∷ after)
      → All (λ d. ¬ Leads run.workflow_version_id node result.next_edge_label d) before
      → Leads run.workflow_version_id node result.next_edge_label e
      → (p.0 ≡ ok tt)
        × (find_run run.id p.1.db.runs
            ≡ some (record r {
              status = running;
              current_node_id = e.to_node_id;
              current_node_attempt = 1;
              last_output = result.output;
              updated_at = w.db.now;
            }))
        × (p.1.db.outbox
            ≡ w.db.outbox
              ++ (record {
                id = job;
                run_id = run.id;
                workflow_version_id = run.workflow_version_id;
                node_id = e.to_node_id;
                attempt = 1;
                available_at = none;
                created_at = w.db.now;
              }
                  ∷ []))
  pub stuck :
      result.completed ≡ false
      → All (λ d. ¬ Leads run.workflow_version_id node result.next_edge_label d) w.db.edges
      → (p.0 ≡ err no_rows) × (p.1.db ≡ w.db)
  pub others : (j : ℕ) → run.id ≢ j → find_run j p.1.db.runs ≡ find_run j w.db.runs
  pub queue : p.1.queue ≡ w.queue

others_of :
    (job : ℕ) (run : WorkflowRun) (node : ℕ) (result : ExecResult) (w : World)
    → w.faults ≡ []
    → (b : Bool) → result.completed ≡ b
    → (o : Option ℕ) → find_next run.workflow_version_id node result.next_edge_label w.db.edges ≡ o
    → let p = persist_node_result job run node result w in
      ((j : ℕ) → run.id ≢ j → find_run j p.1.db.runs ≡ find_run j w.db.runs) × (p.1.queue ≡ w.queue)
others_of job run node result w calm true c o e =
    rw (ended job run node result w calm c)
      (λ j d. find-update_ne run.id j _ w.db.runs (λ x. refl) d, refl)
others_of job run node result w calm false c none e =
    rw (no_successor job run node result w calm c e) (λ j d. refl, refl)
others_of job run node result w calm false c (some next) e =
    rw (advanced job run node result w calm next c e)
      (λ j d. find-update_ne run.id j _ w.db.runs (λ x. refl) d, refl)

-- With no failing call, and whatever status and node the stored run has come to, a result for
-- `node` is persisted as follows. A final one makes the run completed with the result's output and
-- adds no job. Any other moves the run to the end of the first edge of the version from `node` with
-- the result's label, as running with that output at its first attempt, and adds one job for that
-- end. If there is no such edge, the call fails and changes nothing. Other runs and the queue stay
-- as they are.
pub persist_node_result-Persisted :
    (job : ℕ) (run : WorkflowRun) (node : ℕ) (result : ExecResult) (r : WorkflowRun) (w : World)
    → w.faults ≡ []
    → find_run run.id w.db.runs ≡ some r
    → Persisted job run node result r w (persist_node_result job run node result w)
persist_node_result-Persisted job run node result r w calm found = record {
  ends = λ c.
      rw (ended job run node result w calm c)
        (refl, find-update_self run.id _ w.db.runs r (λ x. refl) found, refl);
  goes_on = λ before after e c split first leads.
      rw
        (advanced job run node result w calm e.to_node_id c (
          rw split (
            find_next-first run.workflow_version_id node result.next_edge_label before after e first
              leads)))
        (refl, find-update_self run.id _ w.db.runs r (λ x. refl) found, refl);
  stuck = λ c no_edge.
      rw
        (no_successor job run node result w calm c
          (find_next-none run.workflow_version_id node result.next_edge_label w.db.edges no_edge))
        (refl, refl);
  others = (others_of job run node result w calm result.completed refl _ refl).0;
  queue = (others_of job run node result w calm result.completed refl _ refl).1;
}

-- What becomes of a message that executes nothing: the database is as it was, and the message with
-- the handle is gone, at least if no call fails, or the queue is as it was.
pub record Skips (handle : ℕ) (w w' : World) : Type 0 where
  pub database : w'.db ≡ w.db
  pub queue : (w'.queue ≡ w.queue) ⊎ (w'.queue ≡ without handle w.queue)
  pub deleted : w.faults ≡ [] → w'.queue ≡ without handle w.queue

not_active : (s : RunStatus) → s ≢ pending → s ≢ running → is_active s ≡ false
not_active pending p r = absurd (p refl)
not_active running p r = absurd (r refl)
not_active paused p r = refl
not_active completed p r = refl
not_active failed p r = refl
not_active cancelled p r = refl

-- A message whose run is neither pending nor running executes nothing, for any executor and with any
-- calls failing: the database is as it was, and the queue loses at most the message. If no call
-- fails, the message is deleted.
pub handle_node_job-inactive :
    (execute : NodeRow → String → Result String ExecResult) (job handle : ℕ) (m : NodeJobMessage)
    (w : World) (r : WorkflowRun)
    → find_run m.run_id w.db.runs ≡ some r
    → r.status ≢ pending
    → r.status ≢ running
    → Skips handle w (handle_node_job execute job false handle (some m) w)
unfolding handle_node_job proceed get_workflow_run statement delete_message
handle_node_job-inactive execute job handle m w r found waits runs =
    let idle = not_active r.status waits runs in
    record {
      database = ground arith;
      queue = elim (Bool-cases (next_fails w.faults)) [
        | inl first ↦ inl (ground arith)
        | inr first ↦ elim (Bool-cases (next_fails (tried w).faults)) [
          | inl second ↦ inl (ground arith)
          | inr second ↦ inr (ground arith)
        ]
      ];
      deleted = λ calm. ground arith;
    }

-- Only the run's identifier is read from a message: two messages for the same run are handled
-- alike, whatever node and attempt they name, so an old message executes the current node.
pub handle_node_job-stale :
    (execute : NodeRow → String → Result String ExecResult) (job handle : ℕ) (m m' : NodeJobMessage)
    (w : World)
    → m.run_id ≡ m'.run_id
    → handle_node_job execute job false handle (some m) w
      ≡ handle_node_job execute job false handle (some m') w
unfolding handle_node_job proceed
handle_node_job-stale execute job handle m m' w e = rw e refl
