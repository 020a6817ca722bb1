-- ===== src/System/Grows.antt =====
-- What the transactions of the services do to the runs and the outbox: a run becomes active only
-- together with a job of its own.
use orchex.Prelude.{
  ℕ, ◌<◌, ◌≡◌, refl, sym, ◌∙◌, ◌⊎◌, inl, inr, true, false, List, [], ◌∷◌, ◌++◌, Option, none, some,
  arith, ◌==◌, ==_iff, Bool-cases, Option-cases, All,
}
use mathlib.Core.List.{append-nil}
use orchex.Result.{ok}
use orchex.Store.Tables.{WorkflowRun, OutboxJob, Db}
use orchex.Store.RunQueries.{find_run, update_run, new_job, one_row}
use orchex.Runs.Actions.{find-update_self, find-update_ne}
use orchex.Worker.{is_active}
use orchex.Worker.Relay.Waiting.{jobs_for}
use orchex.Worker.Relay.Keeps.{HasOwnedRows}

-- The run is stored and pending or running.
abbrev pub IsActiveIn : ℕ → Db → Type 0
IsActiveIn i db = (r : WorkflowRun) × (find_run i db.runs ≡ some r) × (is_active r.status ≡ true)

-- The outbox grew by rows with the identifier `job`, and a run that became active has one of them.
pub record Grows (job : ℕ) (x y : Db) : Type 0 where
  pub added : List OutboxJob
  pub outbox : y.outbox ≡ x.outbox ++ added
  pub ids : All (λ k. k.id ≡ job) added
  pub owned : HasOwnedRows added
  pub wakes : (i : ℕ) → IsActiveIn i y → IsActiveIn i x ⊎ (0 < jobs_for i added)

pub Grows-refl : (job : ℕ) (x : Db) → Grows job x x
Grows-refl job x = record {
  added = [];
  outbox = sym (append-nil x.outbox);
  ids = tt;
  owned = tt;
  wakes = λ i a. inl a;
}

-- A query for one row leaves the database as it is.
pub one_row-same :
    {A : Type 0} (db : Db) (o : Option A) (a : A) (after : Db)
    → one_row db o ≡ ok (a, after)
    → after ≡ db
one_row-same db none a after h = cc
one_row-same db (some x) a after h = cc

find-update_none :
    (i : ℕ) (f : WorkflowRun → WorkflowRun) (runs : List WorkflowRun)
    → ((x : WorkflowRun) → (f x).id ≡ x.id)
    → find_run i runs ≡ none
    → find_run i (update_run i f runs) ≡ none
find-update_none i f [] keep h = refl
find-update_none i f (x ∷ xs) keep h = ground (arith, keep x, find-update_none i f xs keep)

module _ (i : ℕ) (f : WorkflowRun → WorkflowRun) (keep : (x : WorkflowRun) → (f x).id ≡ x.id) where
  -- A run that is active after the update was updated or was active before.
  update-wakes :
      (x : Db) (j : ℕ)
      → IsActiveIn j (record x { runs = update_run i f x.runs })
      → (i ≡ j) ⊎ IsActiveIn j x
  update-wakes x j (r, found, active) = elim (Bool-cases (i == j)) [
    | inl same ↦ inl ((==_iff i j).0 same)
    | inr other ↦ inr (r, sym (find-update_ne i j f x.runs keep (ground arith)) ∙ found, active)
  ]

  -- An update after which the run is not active.
  pub idles-Grows :
      (job : ℕ) (x : Db)
      → ((r : WorkflowRun) → is_active (f r).status ≡ false)
      → Grows job x (record x { runs = update_run i f x.runs })
  idles-Grows job x idle = record {
    added = [];
    outbox = sym (append-nil x.outbox);
    ids = tt;
    owned = tt;
    wakes = wakes;
  }
    where
      wakes :
          (j : ℕ)
          → IsActiveIn j (record x { runs = update_run i f x.runs })
          → IsActiveIn j x ⊎ (0 < jobs_for j [])
      wakes j (r, found, active) = elim (update-wakes x j (r, found, active)) [
        | inr before ↦ inl before
        | inl same ↦ elim (Option-cases (find_run i x.runs)) [
          | inl gone ↦ cc (sym (find-update_none i f x.runs keep gone), found, same)
          | inr (q, there) ↦
              cc (sym (find-update_self i f x.runs q keep there), found, same, idle q, active)
        ]
      ]

  -- An update with a row for the run.
  pub row-Grows :
      (job version node now : ℕ) (x : Db)
      → Grows job x (record x {
        runs = update_run i f x.runs;
        outbox = x.outbox ++ (new_job job i version node now ∷ []);
      })
  row-Grows job version node now x = record {
    added = new_job job i version node now ∷ [];
    outbox = refl;
    ids = (refl, tt);
    owned = ((λ _. refl, tt), tt);
    wakes = λ j a. elim (update-wakes x j a) [
      | inl same ↦ inr (ground arith)
      | inr before ↦ inl before
    ];
  }
