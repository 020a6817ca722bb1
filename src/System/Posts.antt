-- ===== src/System/Posts.antt =====
-- internal/execution/relay.go: a round changes no run, adds no row to the outbox, and gives each
-- message that it sends a handle of its own.
use orchex.Prelude.{
  ℕ, suc, ◌≤◌, ◌<◌, ◌≡◌, refl, ◌∙◌, inl, inr, List, [], ◌∷◌, ◌++◌, arith, ◌==◌, Bool-cases, All,
  All-map, All-join,
}
use orchex.Result.{Result, ok, err}
use orchex.Store.Tables.{RunStatus, OutboxJob, Envelope, Db, World}
use orchex.Store.Effects.{StoreError, continue, send, next_fails, statement, tried, close_tx, in_tx}
use orchex.Store.RunQueries.{drop_job, delete_run_node_job_outbox, lock_due_run_node_jobs_outbox}
use orchex.Worker.{is_active}
use orchex.Worker.Relay.{send_if_active, relay_jobs, relay}

-- The messages with the handle `h` are for the run `i`.
abbrev pub IsFor : ℕ → ℕ → List Envelope → Type 0
IsFor h i = All (λ e. e.handle ≡ h → e.body.run_id ≡ i)

-- The queue gave out each handle once, to messages of one run.
pub record IsKeyed (w : World) : Type 0 where
  pub given : All (λ e. e.handle < w.next_handle) w.queue
  pub owned : All (λ e. IsFor e.handle e.body.run_id w.queue) w.queue

pub record Posts (w w' : World) : Type 1 where
  pub runs : w'.db.runs ≡ w.db.runs
  pub handles : w.next_handle ≤ w'.next_handle
  pub keyed : IsKeyed w → IsKeyed w'
  pub ours : (h i : ℕ) → h < w.next_handle → IsFor h i w.queue → IsFor h i w'.queue
  pub rows : (P : OutboxJob → Type 0) → All P w.db.outbox → All P w'.db.outbox

Posts-refl : (w : World) → Posts w w
Posts-refl w = record {
  runs = refl;
  handles = omega arith;
  keyed = λ k. k;
  ours = λ h i b f. f;
  rows = λ P a. a;
}

Posts-trans : (u v w : World) → Posts u v → Posts v w → Posts u w
Posts-trans u v w a b = record {
  runs = b.runs ∙ a.runs;
  handles = omega (arith, a.handles, b.handles);
  keyed = λ k. b.keyed (a.keyed k);
  ours = λ h i lt f. b.ours h i (omega (arith, a.handles)) (a.ours h i lt f);
  rows = λ P x. b.rows P (a.rows P x);
}

tried-Posts : (w : World) → Posts w (tried w)
tried-Posts w = record {
  runs = refl;
  handles = omega arith;
  keyed = λ k. record { given = k.given; owned = k.owned };
  ours = λ h i b f. f;
  rows = λ P a. a;
}

All-snoc :
    {A : Type 0} (P : A → Type 0) (xs : List A) (x : A) → All P xs → P x → All P (xs ++ (x ∷ []))
All-snoc P xs x h p = All-join P xs (x ∷ []) h (p, tt)

All-drop : (P : OutboxJob → Type 0) (d : ℕ) (js : List OutboxJob) → All P js → All P (drop_job d js)
All-drop P d [] h = tt
All-drop P d (j ∷ js) h = elim (Bool-cases (j.id == d)) [
  | inl same ↦ rw same (All-drop P d js h.1)
  | inr other ↦ rw other (h.0, All-drop P d js h.1)
]

-- A new message is the only one with its handle.
fresh-IsFor :
    (e : Envelope) (es : List Envelope)
    → All (λ x. x.handle < e.handle) es
    → (i : ℕ) → IsFor e.handle i es
fresh-IsFor e es given i = All-map es (λ x lt same. absurd (omega arith)) given

snoc-IsKeyed :
    (w : World) (e : Envelope)
    → e.handle ≡ w.next_handle
    → IsKeyed w
    → IsKeyed (record w { queue = w.queue ++ (e ∷ []); next_handle = suc w.next_handle })
snoc-IsKeyed w e new k = record {
  given = All-snoc _ w.queue e (All-map w.queue (λ x lt. omega arith) k.given) (omega arith);
  owned = All-snoc _ w.queue e (old w.queue k.given k.owned) (
      All-snoc _ w.queue e
        (fresh-IsFor e w.queue (All-map w.queue (λ x lt. omega arith) k.given) e.body.run_id)
        (λ _. refl));
}
  where
    old :
        (es : List Envelope)
        → All (λ x. x.handle < w.next_handle) es
        → All (λ x. IsFor x.handle x.body.run_id w.queue) es
        → All (λ x. IsFor x.handle x.body.run_id (w.queue ++ (e ∷ []))) es
    old [] g o = tt
    old (x ∷ xs) g o =
        (All-snoc _ w.queue e o.0 (λ same. absurd (omega (arith, g.0))), old xs g.1 o.1)

send_if_active-Posts :
    (j : OutboxJob) (s : RunStatus) (w : World) → Posts w (send_if_active j s w).1
send_if_active-Posts j s w = elim (Bool-cases (is_active s)) [
  | inr idle ↦ rw idle (Posts-refl w)
  | inl active ↦ rw active (
      unfold send in
      elim (Bool-cases (next_fails w.faults)) [
        | inl f ↦ rw f (tried-Posts w)
        | inr f ↦ rw f (record {
          runs = refl;
          handles = omega arith;
          keyed = λ k.
              let k' = snoc-IsKeyed w _ refl k in record { given = k'.given; owned = k'.owned };
          ours = λ h i b o. All-snoc _ w.queue _ o (λ same. absurd (omega arith));
          rows = λ P a. a;
        })
      ])
]

delete-Posts : (d : ℕ) (w : World) → Posts w (delete_run_node_job_outbox d w).1
unfolding delete_run_node_job_outbox statement
delete-Posts d w = elim (Bool-cases (next_fails w.faults)) [
  | inl f ↦ rw f (tried-Posts w)
  | inr f ↦ rw f (record {
    runs = refl;
    handles = omega arith;
    keyed = λ k. record { given = k.given; owned = k.owned };
    ours = λ h i b f. f;
    rows = λ P a. All-drop P d w.db.outbox a;
  })
]

continue-Posts :
    {A B : Type 0} (w : World) (p : Result StoreError A × World)
    (k : A → World → Result StoreError B × World)
    → Posts w p.1
    → ((a : A) (x : World) → Posts x (k a x).1)
    → Posts w (continue p k).1
continue-Posts w (err e, x) k first next = first
continue-Posts w (ok a, x) k first next = Posts-trans w x (k a x).1 first (next a x)

relay_jobs-Posts : (js : List (OutboxJob × RunStatus)) (w : World) → Posts w (relay_jobs js w).1
unfolding relay_jobs
relay_jobs-Posts [] w = Posts-refl w
relay_jobs-Posts ((j, s) ∷ js) w =
    continue-Posts w (send_if_active j s w) _ (send_if_active-Posts j s w) (λ _ x.
      continue-Posts x (delete_run_node_job_outbox j.id x) _ (delete-Posts j.id x)
        (λ _ y. relay_jobs-Posts js y))

lock-Posts : (w : World) → Posts w (lock_due_run_node_jobs_outbox w).1
unfolding lock_due_run_node_jobs_outbox statement
lock-Posts w = elim (Bool-cases (next_fails w.faults)) [
  | inl f ↦ rw f (tried-Posts w)
  | inr f ↦ rw f (tried-Posts w)
]

-- A rollback keeps what was sent.
rollback-Posts : (w x : World) (d : Db) → d ≡ w.db → Posts w x → Posts w (record x { db = d })
rollback-Posts w x d same p = record {
  runs = rw same refl;
  handles = p.handles;
  keyed = λ k. let k' = p.keyed k in record { given = k'.given; owned = k'.owned };
  ours = p.ours;
  rows = λ P a. rw same a;
}

close-Posts :
    (w : World) (p : Result StoreError (Unit {0}) × World)
    → Posts w p.1
    → Posts w (close_tx w.db p).1
unfolding close_tx
close-Posts w (err e, x) p = rollback-Posts w x w.db refl p
close-Posts w (ok u, x) p = elim (Bool-cases (next_fails x.faults)) [
  | inl f ↦ rw f (
      Posts-trans w (record x { db = w.db }) _ (rollback-Posts w x w.db refl p)
        (tried-Posts (record x { db = w.db })))
  | inr f ↦ rw f (Posts-trans w x (tried x) p (tried-Posts x))
]

-- One round of the relay.
pub relay-Posts : (w : World) → Posts w (relay w).1
unfolding relay in_tx
relay-Posts w = elim (Bool-cases (next_fails w.faults)) [
  | inl f ↦ rw f (tried-Posts w)
  | inr f ↦ rw f (
      Posts-trans w (tried w) _ (tried-Posts w) (
        close-Posts (tried w) (continue (lock_due_run_node_jobs_outbox (tried w)) relay_jobs) (
          continue-Posts (tried w) (lock_due_run_node_jobs_outbox (tried w)) _
            (lock-Posts (tried w)) relay_jobs-Posts)))
]
