-- ===== src/System/Sound.antt =====
-- The state of the services in which every active run has a job in sight, and how it is kept where
-- the services meet.
use orchex.Prelude.{
  ℕ, zero, suc, ◌+◌, ◌<◌, ◌⊎◌, ◌≡◌, ◌≢◌, refl, sym, subst, ◌∙◌, inl, inr, Bool, true, false, List,
  [], ◌∷◌, ◌++◌, arith, ◌==◌, ==_iff, Bool-cases, All, All-map, All-append, All-join, some,
}
use orchex.Store.Tables.{OutboxJob, Envelope, World}
use orchex.Store.RunQueries.{find_run}
use orchex.Store.Effects.Calls.{SameQueue}
use orchex.Worker.{Stage, received, admitted, loaded, handled, finished}
use orchex.Worker.Relay.{relay}
use orchex.Worker.Relay.Waiting.{jobs_for, jobs_for-append, messages_for, open_jobs, Owns}
use orchex.Worker.Relay.Keeps.{HasOwnedRows, relay-keeps_open}
use orchex.System.Grows.{IsActiveIn, Grows}
use orchex.System.Posts.{IsFor, IsKeyed, Posts, relay-Posts}
use orchex.System.Steps.{IsFresh, failing}
use orchex.System.Sight.{
  is_handled, in_sight, in_sight_new, in_sight-skip, in_sight-hide, in_sight-drop, live_mono,
  live-le,
}

-- The message that a worker handles is for the run that it works on.
abbrev pub Ours : List Envelope → ℕ × Stage → Type 0
Ours q (h, received m) = IsFor h m.run_id q
Ours q (h, admitted run) = IsFor h run.id q
Ours q (h, loaded run node) = IsFor h run.id q
Ours q (h, _) = Unit

-- `ds` are the messages that SQS took out of the queue.
pub record IsSound (ds : List Envelope) (w : World) (ps : List (ℕ × Stage)) : Type 0 where
  pub rows : HasOwnedRows w.db.outbox
  pub keyed : IsKeyed w
  pub given : All (λ p. p.0 < w.next_handle) ps
  pub ours : All (Ours w.queue) ps
  pub covered : (i : ℕ) → IsActiveIn i w.db → 0 < open_jobs i (in_sight ps) w + messages_for i ds

-- Rows with a fresh identifier.
HasOwnedRows-append :
    (job : ℕ) (js ks : List OutboxJob)
    → All (λ k. k.id ≢ job) js
    → All (λ k. k.id ≡ job) ks
    → HasOwnedRows js
    → HasOwnedRows ks
    → HasOwnedRows (js ++ ks)
HasOwnedRows-append job js ks fresh ids old new =
    All-join _ js ks (olds js fresh old) (All-map ks (λ k h. h) (news ks ids new))
  where
    olds :
        (xs : List OutboxJob)
        → All (λ k. k.id ≢ job) xs
        → All (λ j. Owns j.id j.run_id js) xs
        → All (λ j. Owns j.id j.run_id (js ++ ks)) xs
    olds [] f o = tt
    olds (x ∷ xs) f o = (
      All-join _ js ks o.0 (All-map ks (λ k id same. absurd (omega (arith, f.0))) ids),
      olds xs f.1 o.1,
    )

    news :
        (xs : List OutboxJob)
        → All (λ k. k.id ≡ job) xs
        → All (λ j. Owns j.id j.run_id ks) xs
        → All (λ j. Owns j.id j.run_id (js ++ ks)) xs
    news [] f o = tt
    news (x ∷ xs) f o = (
      All-join _ js ks (All-map js (λ k ne same. absurd (omega (arith, f.0, ne))) fresh) o.0,
      news xs f.1 o.1,
    )

abbrev pub IsWaiting : ℕ → ℕ → Type 0
IsWaiting a b = (0 < a) ⊎ (0 < b)

pub either_waits : (a b : ℕ) → 0 < a + b → IsWaiting a b
either_waits a zero h = inl (omega arith)
either_waits a (suc b) h = inr (omega arith)

module _ (ds : List Envelope) where
  pub failing-IsSound :
      (faults : List Bool) (w : World) (ps : List (ℕ × Stage))
      → IsSound ds w ps
      → IsSound ds (failing faults w) ps
  failing-IsSound faults w ps s = record {
    rows = s.rows;
    keyed = record { given = s.keyed.given; owned = s.keyed.owned };
    given = s.given;
    ours = s.ours;
    covered = s.covered;
  }

  -- A transaction of one of the services.
  pub Grows-IsSound :
      (job : ℕ) (w w' : World) (ps : List (ℕ × Stage))
      → IsSound ds w ps
      → IsFresh job w
      → SameQueue w w'
      → Grows job w.db w'.db
      → IsSound ds w' ps
  Grows-IsSound job w w' ps s fresh q g = record {
    rows = rw g.outbox (HasOwnedRows-append job w.db.outbox g.added fresh g.ids s.rows g.owned);
    keyed = record {
      given = rw (q.queue, q.next_handle) s.keyed.given;
      owned = rw q.queue s.keyed.owned;
    };
    given = rw q.next_handle s.given;
    ours = rw q.queue s.ours;
    covered = λ i active.
        rw (g.outbox, q.queue)
          (elim (g.wakes i active) [
            | inl before ↦ omega (arith, s.covered i before, jobs_for-append i w.db.outbox g.added)
            | inr row ↦ omega (arith, row, jobs_for-append i w.db.outbox g.added)
          ]);
  }

  -- A round of the relay.
  pub relay-IsSound :
      (w : World) (ps : List (ℕ × Stage)) → IsSound ds w ps → IsSound ds (relay w).1 ps
  relay-IsSound w ps s =
      let p = relay-Posts w in
      record {
        rows =
            p.rows _
              (All-map w.db.outbox (λ j. p.rows (λ k. k.id ≡ j.id → k.run_id ≡ j.run_id)) s.rows);
        keyed = p.keyed s.keyed;
        given = All-map ps (λ x lt. omega (arith, lt, p.handles)) s.given;
        ours = still p ps s.given s.ours;
        covered = λ i (r, found, active).
            let there : find_run i w.db.runs ≡ some r = sym (rw p.runs refl) ∙ found in
            elim (either_waits _ _ (s.covered i (r, there, active))) [
              | inl job ↦
                  let kept =
                    relay-keeps_open i (in_sight ps) r active w there s.rows
                      (λ h le. in_sight_new w.next_handle h ps s.given le) job in
                  omega (arith, kept)
              | inr gone ↦ omega (arith, gone)
            ];
      }
    where
      still :
          Posts w (relay w).1
          → (xs : List (ℕ × Stage)) → All (λ x. x.0 < w.next_handle) xs
          → All (Ours w.queue) xs
          → All (Ours (relay w).1.queue) xs
      still p [] g o = tt
      still p ((h, received m) ∷ xs) g o = (p.ours h m.run_id g.0 o.0, still p xs g.1 o.1)
      still p ((h, admitted run) ∷ xs) g o = (p.ours h run.id g.0 o.0, still p xs g.1 o.1)
      still p ((h, loaded run node) ∷ xs) g o = (p.ours h run.id g.0 o.0, still p xs g.1 o.1)
      still p ((h, handled) ∷ xs) g o = (tt, still p xs g.1 o.1)
      still p ((h, finished) ∷ xs) g o = (tt, still p xs g.1 o.1)

  -- A worker receives a message of the queue.
  pub receives-IsSound :
      (w : World) (ps : List (ℕ × Stage)) (before after : List Envelope) (e : Envelope)
      → w.queue ≡ before ++ (e ∷ after)
      → IsSound ds w ps
      → IsSound ds w ((e.handle, received e.body) ∷ ps)
  receives-IsSound w ps before after e queue s = record {
    rows = s.rows;
    keyed = s.keyed;
    given = (at (λ x. x.handle < w.next_handle) s.keyed.given, s.given);
    ours = (at (λ x. IsFor x.handle x.body.run_id w.queue) s.keyed.owned, s.ours);
    covered = λ i active. omega (
      arith,
      s.covered i active,
      live-le i (in_sight ps) (in_sight ((e.handle, received e.body) ∷ ps)) w.queue
          (λ h seen. in_sight-skip [] ps e.handle (received e.body) h refl ∙ seen),
    );
  }
    where
      at : (P : Envelope → Type 0) → All P w.queue → P e
      at P a = (All-append P before (e ∷ after) (subst (All P) queue a)).1.0

  module _ (before after : List (ℕ × Stage)) where
    -- A worker leaves.
    pub leaves-IsSound :
        (w : World) (p : ℕ × Stage)
        → IsSound ds w (before ++ (p ∷ after))
        → IsSound ds w (before ++ after)
    leaves-IsSound w p s =
        let (g, g') = All-append _ before (p ∷ after) s.given in
        let (o, o') = All-append _ before (p ∷ after) s.ours in
        record {
          rows = s.rows;
          keyed = s.keyed;
          given = All-join _ before after g g'.1;
          ours = All-join _ before after o o'.1;
          covered = λ i active. omega (
            arith,
            s.covered i active,
            live-le i (in_sight (before ++ (p ∷ after))) (in_sight (before ++ after)) w.queue
                (in_sight-drop before after p),
          );
        }

    -- A worker comes to a stage at which it does not delete its message.
    pub moves-IsSound :
        (w : World) (h : ℕ) (st st' : Stage)
        → is_handled st' ≡ false
        → Ours w.queue (h, st')
        → IsSound ds w (before ++ ((h, st) ∷ after))
        → IsSound ds w (before ++ ((h, st') ∷ after))
    moves-IsSound w h st st' open' mine s =
        let (g, g') = All-append _ before ((h, st) ∷ after) s.given in
        let (o, o') = All-append _ before ((h, st) ∷ after) s.ours in
        record {
          rows = s.rows;
          keyed = s.keyed;
          given = All-join _ before ((h, st') ∷ after) g (g'.0, g'.1);
          ours = All-join _ before ((h, st') ∷ after) o (mine, o'.1);
          covered = λ i active. omega (
            arith,
            s.covered i active,
            live-le i (in_sight (before ++ ((h, st) ∷ after)))
                (in_sight (before ++ ((h, st') ∷ after))) w.queue
                (λ x seen.
                  in_sight-skip before after h st' x open'
                  ∙ in_sight-drop before after (h, st) x seen),
          );
        }

    -- A worker is about to delete its message: the run that it worked on is not active, or has a row.
    pub hides-IsSound :
        (w : World) (h : ℕ) (st : Stage) (i : ℕ)
        → IsFor h i w.queue
        → (IsActiveIn i w.db → 0 < jobs_for i w.db.outbox)
        → IsSound ds w (before ++ ((h, st) ∷ after))
        → IsSound ds w (before ++ ((h, handled) ∷ after))
    hides-IsSound w h st i mine row s =
        let (g, g') = All-append _ before ((h, st) ∷ after) s.given in
        let (o, o') = All-append _ before ((h, st) ∷ after) s.ours in
        record {
          rows = s.rows;
          keyed = s.keyed;
          given = All-join _ before ((h, handled) ∷ after) g (g'.0, g'.1);
          ours = All-join _ before ((h, handled) ∷ after) o (tt, o'.1);
          covered = λ j active. elim (Bool-cases (i == j)) [
            | inl same ↦
                let e : i ≡ j = (==_iff i j).0 same in
                let r = subst (λ x. IsActiveIn x w.db → 0 < jobs_for x w.db.outbox) e row active in
                omega (arith, r)
            | inr other ↦ omega (
              arith,
              s.covered j active,
              live_mono j (in_sight (before ++ ((h, st) ∷ after)))
                  (in_sight (before ++ ((h, handled) ∷ after))) w.queue
                  (All-map w.queue (λ e for run seen. still_seen e for run (ground arith) seen)
                    mine),
            )
          ];
        }
      where
        still_seen :
            {j : ℕ} (e : Envelope)
            → (e.handle ≡ h → e.body.run_id ≡ i)
            → e.body.run_id ≡ j
            → i ≢ j
            → in_sight (before ++ ((h, st) ∷ after)) e.handle ≡ true
            → in_sight (before ++ ((h, handled) ∷ after)) e.handle ≡ true
        still_seen e for run other seen =
            in_sight-hide before after h e.handle
            ∙ ground (arith, in_sight-drop before after (h, st) e.handle seen)
