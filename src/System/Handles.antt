-- ===== src/System/Handles.antt =====
-- internal/worker: a call of a worker, at each stage of its message.
use orchex.Prelude.{
  ℕ, ◌<◌, ◌≡◌, ◌≢◌, refl, subst, ◌∙◌, inl, inr, String, true, false, List, ◌∷◌, ◌++◌, Option, none,
  some, arith, Bool-cases, All-map, All-append, All-join,
}
use orchex.Result.{Result, ok, err}
use orchex.Store.Tables.{WorkflowRun, NodeRow, NodeJobMessage, Envelope, World}
use orchex.Store.Effects.{StoreError, statement, finish, next_fails, without, delete_message, tried}
use orchex.Store.RunQueries.Start.{join_types}
use orchex.Store.RunQueries.{find_run, one_row, get_workflow_run, fail_workflow_run}
use orchex.Store.GraphQueries.{find_node, get_node_for_execution}
use orchex.Worker.{
  ExecResult, Stage, received, admitted, loaded, handled, finished, is_active, persist_node_result,
  proceed, after_run, after_node, after_persist, after_execute,
}
use orchex.Worker.Relay.Waiting.{jobs_for}
use orchex.Runs.Actions.{find_run-id}
use orchex.System.Grows.{IsActiveIn}
use orchex.System.Work.{persist-Ensures, persist-settles, fail-Ensures}
use orchex.System.Withdraws.{IsKeyed-without, Ours-without}
use orchex.System.Steps.{IsFresh}
use orchex.System.Sight.{in_sight, in_sight-skip, in_sight-hide, in_sight-drop, live-without}
use orchex.System.Sound.{
  IsSound, Ours, failing-IsSound, Grows-IsSound, moves-IsSound, hides-IsSound,
}

abbrev at_stage : List (ℕ × Stage) → List (ℕ × Stage) → ℕ → Stage → List (ℕ × Stage)
at_stage before after h st = before ++ ((h, st) ∷ after)

abbrev IsSoundAt : List Envelope → List (ℕ × Stage) → List (ℕ × Stage) → ℕ → Stage × World → Type 0
IsSoundAt ds before after h (st, w) = IsSound ds w (at_stage before after h st)

module _ (ds : List Envelope) (execute : NodeRow → String → Result String ExecResult)
    (before after : List (ℕ × Stage)) (h job : ℕ) where
  mine : (w : World) (st : Stage) → IsSound ds w (at_stage before after h st) → Ours w.queue (h, st)
  mine w st s = (All-append (Ours w.queue) before ((h, st) ∷ after) s.ours).1.0

  received-IsSound :
      (m : NodeJobMessage) (w : World)
      → IsSoundAt ds before after h (received m, w)
      → IsSoundAt ds before after h (proceed execute job h (received m) w)
  unfolding proceed get_workflow_run statement
  received-IsSound m w s = elim (Bool-cases (next_fails w.faults)) [
    | inl f ↦ rw f (moves-IsSound ds before after (tried w) h (received m) finished refl tt s')
    | inr f ↦ rw f (go (find_run m.run_id w.db.runs) refl)
  ]
    where
      s' : IsSoundAt ds before after h (received m, tried w)
      s' = failing-IsSound ds _ w _ s

      admit :
          (r : WorkflowRun)
          → find_run m.run_id w.db.runs ≡ some r
          → IsSoundAt ds before after h (after_run (ok r, tried w))
      admit r found = elim (Bool-cases (is_active r.status)) [
        | inl active ↦ rw active (
            moves-IsSound ds before after (tried w) h (received m) (admitted r) refl
              (rw (find_run-id m.run_id w.db.runs r found) (mine w (received m) s)) s')
        | inr idle ↦ rw idle (
            hides-IsSound ds before after (tried w) h (received m) m.run_id (mine w (received m) s)
              (λ (q, there, active). cc) s')
      ]

      go :
          (o : Option WorkflowRun)
          → find_run m.run_id w.db.runs ≡ o
          → IsSoundAt ds before after h (after_run (finish (tried w) (one_row w.db o)))
      go none found = moves-IsSound ds before after (tried w) h (received m) finished refl tt s'
      go (some r) found = admit r found

  admitted-IsSound :
      (run : WorkflowRun) (w : World)
      → IsSoundAt ds before after h (admitted run, w)
      → IsSoundAt ds before after h (proceed execute job h (admitted run) w)
  unfolding proceed get_node_for_execution statement
  admitted-IsSound run w s = elim (Bool-cases (next_fails w.faults)) [
    | inl f ↦ rw f (moves-IsSound ds before after (tried w) h (admitted run) finished refl tt s')
    | inr f ↦ rw f (
        go (
          find_node run.workflow_version_id run.current_node_id
            (join_types w.db.node_types w.db.nodes)))
  ]
    where
      s' : IsSoundAt ds before after h (admitted run, tried w)
      s' = failing-IsSound ds _ w _ s

      go :
          (o : Option NodeRow)
          → IsSoundAt ds before after h (after_node run (finish (tried w) (one_row w.db o)))
      go none = moves-IsSound ds before after (tried w) h (admitted run) finished refl tt s'
      go (some node) =
          moves-IsSound ds before after (tried w) h (admitted run) (loaded run node) refl
            (mine w (admitted run) s) s'

  loaded-IsSound :
      (run : WorkflowRun) (node : NodeRow) (w : World)
      → IsFresh job w
      → IsSoundAt ds before after h (loaded run node, w)
      → IsSoundAt ds before after h (proceed execute job h (loaded run node) w)
  unfolding proceed
  loaded-IsSound run node w fresh s = go (execute node run.last_output)
    where
      persisted :
          (result : ExecResult) (p : Result StoreError (Unit {0}) × World)
          → (p.0 ≡ ok tt → IsActiveIn run.id p.1.db → 0 < jobs_for run.id p.1.db.outbox)
          → IsSound ds p.1 (at_stage before after h (loaded run node))
          → IsSoundAt ds before after h (after_persist p)
      persisted result (err e, x) settles s₁ =
          moves-IsSound ds before after x h (loaded run node) finished refl tt s₁
      persisted result (ok u, x) settles s₁ =
          hides-IsSound ds before after x h (loaded run node) run.id (mine x (loaded run node) s₁)
            (settles refl) s₁

      go :
          (res : Result String ExecResult)
          → IsSoundAt ds before after h (after_execute job run node.id res w)
      go (err message) =
          let (q, g) = fail-Ensures job run.id message w in
          let x = (fail_workflow_run run.id message w).1 in
          moves-IsSound ds before after x h (loaded run node) finished refl tt
            (Grows-IsSound ds job w x _ s fresh q g)
      go (ok result) =
          let (q, g) = persist-Ensures job run node.id result w in
          let p = persist_node_result job run node.id result w in
          persisted result p (persist-settles job run node.id result w)
            (Grows-IsSound ds job w p.1 _ s fresh q g)

  deleted-IsSound :
      (w w' : World)
      → w'.db ≡ w.db
      → w'.queue ≡ without h w.queue
      → w'.next_handle ≡ w.next_handle
      → IsSound ds w (at_stage before after h handled)
      → IsSound ds w' (at_stage before after h finished)
  deleted-IsSound w w' d q n s =
      let (g, g') = All-append _ before ((h, handled) ∷ after) s.given in
      let (o, o') = All-append _ before ((h, handled) ∷ after) s.ours in
      record {
        rows = rw d s.rows;
        keyed = IsKeyed-without w w' h q n s.keyed;
        given = rw n (All-join _ before ((h, finished) ∷ after) g (g'.0, g'.1));
        ours = rw q (
            All-map _ (Ours-without w.queue h)
              (All-join _ before ((h, finished) ∷ after) o (tt, o'.1)));
        covered = λ i active.
            let c = s.covered i (subst (IsActiveIn i) d active) in
            let l =
              live-without i h (in_sight (at_stage before after h handled))
                (in_sight (at_stage before after h finished)) w.queue hidden shown in
            rw (d, q) (omega (arith, c, l));
      }
    where
      hidden : in_sight (at_stage before after h handled) h ≡ false
      hidden = in_sight-hide before after h h ∙ ground arith

      shown :
          (x : ℕ)
          → h ≢ x
          → in_sight (at_stage before after h handled) x ≡ true
          → in_sight (at_stage before after h finished) x ≡ true
      shown x ne seen =
          in_sight-skip before after h finished x refl
          ∙ in_sight-drop before after (h, handled) x seen

  handled-IsSound :
      (w : World)
      → IsSoundAt ds before after h (handled, w)
      → IsSoundAt ds before after h (proceed execute job h handled w)
  unfolding proceed delete_message
  handled-IsSound w s = elim (Bool-cases (next_fails w.faults)) [
    | inl f ↦ rw f (
        moves-IsSound ds before after (tried w) h handled finished refl tt
          (failing-IsSound ds _ w _ s))
    | inr f ↦ rw f (deleted-IsSound w _ refl refl refl s)
  ]

  pub proceed-IsSound :
      (st : Stage) (w : World)
      → IsFresh job w
      → IsSoundAt ds before after h (st, w)
      → IsSoundAt ds before after h (proceed execute job h st w)
  unfolding proceed
  proceed-IsSound (received m) w fresh s = received-IsSound m w s
  proceed-IsSound (admitted run) w fresh s = admitted-IsSound run w s
  proceed-IsSound (loaded run node) w fresh s = loaded-IsSound run node w fresh s
  proceed-IsSound handled w fresh s = handled-IsSound w s
  proceed-IsSound finished w fresh s = s
