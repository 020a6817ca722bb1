-- ===== src/System/Withdraws.antt =====
-- Messages that leave the queue: deleted by a worker, or taken out by SQS.
use orchex.Prelude.{
  ℕ, zero, suc, ◌+◌, ◌≤◌, ◌<◌, ◌≡◌, ◌≢◌, refl, ap, ◌∙◌, subst, inl, inr, Bool, List, [], ◌∷◌, ◌++◌,
  arith, ◌==◌, ==_iff, Bool-cases, All, All-map, All-append,
}
use orchex.Store.Tables.{OutboxJob, Envelope, World}
use orchex.Store.Effects.{without}
use orchex.Worker.{Stage, received, admitted, loaded, handled, finished}
use orchex.Worker.Relay.Waiting.{live, jobs_for, messages_for, open_jobs}
use orchex.System.Posts.{IsFor, IsKeyed}
use orchex.System.Steps.{without_jobs}
use orchex.System.Sight.{in_sight}
use orchex.System.Sound.{IsSound, Ours}

All-without : (P : Envelope → Type 0) (h : ℕ) (es : List Envelope) → All P es → All P (without h es)
unfolding without
All-without P h [] a = tt
All-without P h (e ∷ es) a = elim (Bool-cases (e.handle == h)) [
  | inl same ↦ rw same (All-without P h es a.1)
  | inr other ↦ rw other (a.0, All-without P h es a.1)
]

-- Every message of the queue without `h` was one of it.
pub IsKeyed-without :
    (w w' : World) (h : ℕ)
    → w'.queue ≡ without h w.queue
    → w'.next_handle ≡ w.next_handle
    → IsKeyed w
    → IsKeyed w'
IsKeyed-without w w' h q n k = record {
  given = rw (q, n) (All-without _ h w.queue k.given);
  owned = rw q (
      All-without _ h w.queue (
        All-map w.queue
          (λ e. All-without (λ x. x.handle ≡ e.handle → x.body.run_id ≡ e.body.run_id) h w.queue)
          k.owned));
}

pub Ours-without : (q : List Envelope) (h : ℕ) (p : ℕ × Stage) → Ours q p → Ours (without h q) p
Ours-without q h (k, received m) o = All-without _ h q o
Ours-without q h (k, admitted run) o = All-without _ h q o
Ours-without q h (k, loaded run node) o = All-without _ h q o
Ours-without q h (k, handled) o = tt
Ours-without q h (k, finished) o = tt

-- A message of one run that leaves is none of another.
live-withdrawn :
    (i k r : ℕ) (u : ℕ → Bool) (es : List Envelope)
    → r ≢ i
    → IsFor k r es
    → live i u es ≤ live i u (without k es)
unfolding without
live-withdrawn i k r u [] ne f = omega arith
live-withdrawn i k r u (e ∷ es) ne f =
    let mine = f.0 in ground (arith, mine, live-withdrawn i k r u es ne f.1)

-- SQS takes a message out of the queue.
pub withdraw-IsSound :
    (ds : List Envelope) (w : World) (ps : List (ℕ × Stage)) (before after : List Envelope)
    (e : Envelope)
    → w.queue ≡ before ++ (e ∷ after)
    → IsSound ds w ps
    → IsSound (e ∷ ds) (record w { queue = without e.handle w.queue }) ps
withdraw-IsSound ds w ps before after e queue s = record {
  rows = s.rows;
  keyed =
      IsKeyed-without w (record w { queue = without e.handle w.queue }) e.handle refl refl s.keyed;
  given = s.given;
  ours = All-map ps (Ours-without w.queue e.handle) s.ours;
  covered = λ i active. elim (Bool-cases (e.body.run_id == i)) [
    | inl same ↦ ground arith
    | inr other ↦
        let kept =
          live-withdrawn i e.handle e.body.run_id (in_sight ps) w.queue (ground arith) mine in
        let before_it = s.covered i active in ground (arith, kept, before_it)
  ];
}
  where
    mine : IsFor e.handle e.body.run_id w.queue
    mine =
        (All-append (λ x. IsFor x.handle x.body.run_id w.queue) before (e ∷ after)
          (subst (All (λ x. IsFor x.handle x.body.run_id w.queue)) queue s.keyed.owned)).1.0

messages_for-without_jobs :
    (i : ℕ) (js : List OutboxJob) (ds : List Envelope)
    → jobs_for i js ≡ 0
    → messages_for i (without_jobs js ds) ≡ messages_for i ds
messages_for-without_jobs i js [] none_there = refl
messages_for-without_jobs i js (e ∷ ds) none_there =
    let ih = messages_for-without_jobs i js ds none_there in
    elim (Bool-cases (e.body.run_id == i)) [
      | inl same ↦
          let here : e.body.run_id ≡ i = (==_iff e.body.run_id i).0 same in
          let no_job : jobs_for e.body.run_id js ≡ 0 =
            ap (λ (x : ℕ). jobs_for x js) here ∙ none_there in
          ground (arith, no_job, ih)
      | inr other ↦ ground (arith, ih)
    ]

-- A run with a row in the outbox needs none of the messages that it lost.
pub without_jobs-IsSound :
    (ds : List Envelope) (w : World) (ps : List (ℕ × Stage))
    → IsSound ds w ps
    → IsSound (without_jobs w.db.outbox ds) w ps
without_jobs-IsSound ds w ps s = record {
  rows = s.rows;
  keyed = s.keyed;
  given = s.given;
  ours = s.ours;
  covered = λ i active. owed i (jobs_for i w.db.outbox) refl (s.covered i active);
}
  where
    owed :
        (i n : ℕ)
        → jobs_for i w.db.outbox ≡ n
        → 0 < open_jobs i (in_sight ps) w + messages_for i ds
        → 0 < open_jobs i (in_sight ps) w + messages_for i (without_jobs w.db.outbox ds)
    owed i zero e h = omega (arith, e, messages_for-without_jobs i w.db.outbox ds e)
    owed i (suc n) e h = omega (arith, e)
