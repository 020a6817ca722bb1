-- ===== src/Runs/Diagram.antt =====
-- The state diagram of a run, as README.md ("Pause", "Resume", "Stop", "Retry") states it, the two
-- entries of it in which the code differs, and the four endpoints under one name each.
use orchex.Prelude.{ℕ, Bool, true, false, Option, none, some}
use orchex.Http.{HttpError}
use orchex.Store.Tables.{RunStatus, pending, running, paused, failed, cancelled}
use orchex.Store.Effects.{M}
use orchex.Runs.{Run, pause, stop, resume, retry}

pub data Action : Type 0 where
  pausing resuming stopping retrying : Action

-- The status after an action, where the diagram has one.
abbrev pub target : Action → RunStatus → Option RunStatus
target pausing pending = some paused
target pausing running = some paused
target pausing paused = some paused
target resuming paused = some running
target stopping pending = some cancelled
target stopping running = some cancelled
target stopping paused = some cancelled
target stopping cancelled = some cancelled
target resuming running = some running
target retrying failed = some running
target retrying running = some running
target _ _ = none

-- README.md has Resume and Retry of a running run as idempotent, with the reply 200; the code
-- refuses both.
abbrev pub diverges : Action → RunStatus → Bool
diverges resuming running = true
diverges retrying running = true
diverges _ _ = false

abbrev pub perform : Action → ℕ → Option ℕ → M HttpError (ℕ × Run)
perform pausing job = pause
perform resuming job = resume job
perform stopping job = stop
perform retrying job = retry job
