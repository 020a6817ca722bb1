-- ===== src/Worker/Relay/Waiting.antt =====
-- The jobs that wait for a run, in the outbox and in the queue.
use orchex.Prelude.{
  ℕ, ◌+◌, ◌≤◌, Bool, true, ◌&&◌, ◌≡◌, ◌≢◌, refl, inl, inr, List, [], ◌∷◌, ◌++◌, arith, ◌==◌,
  if◌then◌else◌, Bool-cases, All, some,
}
use orchex.Store.Tables.{RunStatus, WorkflowRun, OutboxJob, Envelope, World}
use orchex.Store.RunQueries.{find_run, drop_job}

abbrev pub jobs_for : ℕ → List OutboxJob → ℕ
jobs_for i [] = 0
jobs_for i (j ∷ js) = (if j.run_id == i then 1 else 0) + jobs_for i js

pub jobs_for-append :
    (i : ℕ) (js ks : List OutboxJob) → jobs_for i (js ++ ks) ≡ jobs_for i js + jobs_for i ks
jobs_for-append i [] ks = omega arith
jobs_for-append i (j ∷ js) ks = omega (arith, jobs_for-append i js ks)

abbrev pub messages_for : ℕ → List Envelope → ℕ
messages_for i [] = 0
messages_for i (e ∷ es) = (if e.body.run_id == i then 1 else 0) + messages_for i es

-- How many jobs the outbox and the queue hold for a run.
abbrev pub waiting : ℕ → World → ℕ
waiting i w = jobs_for i w.db.outbox + messages_for i w.queue

-- The messages for a run whose handles are visible: a message that a worker is about to delete no
-- longer counts.
abbrev pub live : ℕ → (ℕ → Bool) → List Envelope → ℕ
live i visible [] = 0
live i visible (e ∷ es) =
    (if e.body.run_id == i && visible e.handle then 1 else 0) + live i visible es

pub live-append :
    (i : ℕ) (visible : ℕ → Bool) (es fs : List Envelope)
    → live i visible (es ++ fs) ≡ live i visible es + live i visible fs
live-append i visible [] fs = omega arith
live-append i visible (e ∷ es) fs = omega (arith, live-append i visible es fs)

pub live_all : (i : ℕ) (es : List Envelope) → live i (λ h. true) es ≡ messages_for i es
live_all i [] = refl
live_all i (e ∷ es) = ground (arith, live_all i es)

-- How many jobs of a run the outbox holds, and the queue in sight.
abbrev pub open_jobs : ℕ → (ℕ → Bool) → World → ℕ
open_jobs i visible w = jobs_for i w.db.outbox + live i visible w.queue

-- The handles that the queue has not given out are visible.
abbrev pub SeesNew : (ℕ → Bool) → World → Type 0
SeesNew visible w = (h : ℕ) → w.next_handle ≤ h → visible h ≡ true

-- Rows with the identifier `d` belong to the run `x`: an identifier names one row.
abbrev pub Owns : ℕ → ℕ → List OutboxJob → Type 0
Owns d x = All (λ k. k.id ≡ d → k.run_id ≡ x)

pub jobs_for-drop :
    (i d x : ℕ) (js : List OutboxJob)
    → i ≢ x
    → Owns d x js
    → jobs_for i (drop_job d js) ≡ jobs_for i js
jobs_for-drop i d x [] ne o = refl
jobs_for-drop i d x (j ∷ js) ne o = ground (arith, jobs_for-drop i d x js)

pub Owns-drop : (c x d : ℕ) (js : List OutboxJob) → Owns c x js → Owns c x (drop_job d js)
Owns-drop c x d [] o = tt
Owns-drop c x d (j ∷ js) o = elim (Bool-cases (j.id == d)) [
  | inl same ↦ rw same (Owns-drop c x d js o.1)
  | inr other ↦ rw other (o.0, Owns-drop c x d js o.1)
]

-- Every listed job owns its identifier and comes with the status of its run.
abbrev pub Listed : World → List (OutboxJob × RunStatus) → Type 0
Listed w = All (λ p.
    Owns p.0.id p.0.run_id w.db.outbox
    × ((r : WorkflowRun) → find_run p.0.run_id w.db.runs ≡ some r → r.status ≡ p.1))

pub Listed-drop :
    (w w' : World) (d : ℕ) (js : List (OutboxJob × RunStatus))
    → w'.db.runs ≡ w.db.runs
    → w'.db.outbox ≡ drop_job d w.db.outbox
    → Listed w js
    → Listed w' js
Listed-drop w w' d [] r o l = tt
Listed-drop w w' d ((j, s) ∷ js) r o l = (
  (rw o (Owns-drop j.id j.run_id d w.db.outbox l.0.0), rw r l.0.1),
  Listed-drop w w' d js r o l.1,
)
