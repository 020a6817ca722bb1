-- ===== src/System/Sight.antt =====
-- Which messages are in sight: those that no worker is about to delete.
use orchex.Prelude.{
  ℕ, ◌≤◌, ◌<◌, ◌≡◌, ◌≢◌, refl, ap, Bool, true, false, ◌&&◌, not, List, [], ◌∷◌, ◌++◌, arith, ◌==◌,
  All,
}
use orchex.Store.Tables.{Envelope}
use orchex.Store.Effects.{without}
use orchex.Worker.{Stage, handled}
use orchex.Worker.Relay.Waiting.{live}

abbrev pub is_handled : Stage → Bool
is_handled handled = true
is_handled _ = false

abbrev pub in_sight : List (ℕ × Stage) → ℕ → Bool
in_sight [] h = true
in_sight ((k, st) ∷ ps) h = not (k == h && is_handled st) && in_sight ps h

pub in_sight_new :
    (n h : ℕ) (ps : List (ℕ × Stage)) → All (λ p. p.0 < n) ps → n ≤ h → in_sight ps h ≡ true
in_sight_new n h [] b le = refl
in_sight_new n h ((k, st) ∷ ps) b le = ground (arith, in_sight_new n h ps b.1 le, b.0)

-- A worker that is not about to delete its message hides nothing.
pub in_sight-skip :
    (before after : List (ℕ × Stage)) (k : ℕ) (st : Stage) (h : ℕ)
    → is_handled st ≡ false
    → in_sight (before ++ ((k, st) ∷ after)) h ≡ in_sight (before ++ after) h
in_sight-skip [] after k st h other = ground arith
in_sight-skip ((j, x) ∷ before) after k st h other =
    ap (λ b. not (j == h && is_handled x) && b) (in_sight-skip before after k st h other)

-- One that is hides its message.
pub in_sight-hide :
    (before after : List (ℕ × Stage)) (k : ℕ) (h : ℕ)
    → in_sight (before ++ ((k, handled) ∷ after)) h ≡ not (k == h) && in_sight (before ++ after) h
in_sight-hide [] after k h = ground arith
in_sight-hide ((j, x) ∷ before) after k h = ground (arith, in_sight-hide before after k h)

pub live_mono :
    (i : ℕ) (u v : ℕ → Bool) (es : List Envelope)
    → All (λ e. e.body.run_id ≡ i → u e.handle ≡ true → v e.handle ≡ true) es
    → live i u es ≤ live i v es
live_mono i u v [] h = omega arith
live_mono i u v (e ∷ es) h = ground (arith, live_mono i u v es h.1, h.0)

-- Deleting a hidden message leaves those in sight.
pub live-without :
    (i k : ℕ) (u v : ℕ → Bool) (es : List Envelope)
    → u k ≡ false
    → ((h : ℕ) → k ≢ h → u h ≡ true → v h ≡ true)
    → live i u es ≤ live i v (without k es)
unfolding without
live-without i k u v [] hidden rest = omega arith
live-without i k u v (e ∷ es) hidden rest =
    ground (arith, live-without i k u v es hidden rest, rest e.handle)

-- Without a worker at least as much is in sight.
pub in_sight-drop :
    (before after : List (ℕ × Stage)) (p : ℕ × Stage) (h : ℕ)
    → in_sight (before ++ (p ∷ after)) h ≡ true
    → in_sight (before ++ after) h ≡ true
in_sight-drop [] after (k, st) h e = ground arith
in_sight-drop ((j, x) ∷ before) after p h e = ground (arith, in_sight-drop before after p h)

pub live-le :
    (i : ℕ) (u v : ℕ → Bool) (es : List Envelope)
    → ((h : ℕ) → u h ≡ true → v h ≡ true)
    → live i u es ≤ live i v es
live-le i u v [] le = omega arith
live-le i u v (e ∷ es) le = ground (arith, live-le i u v es le, le e.handle)
