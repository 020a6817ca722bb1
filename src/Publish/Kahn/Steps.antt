-- ===== src/Publish/Kahn/Steps.antt =====
-- publish_validate.go: the copy of the degrees, the first queue and one round of `hasCycleKahn`,
-- in terms of the arcs that are left.
use orchex.Prelude.{
  ℕ, zero, suc, ◌+◌, ◌-◌, ◌<◌, ◌≡◌, refl, sym, ◌&&◌, List, [], ◌∷◌, ◌++◌, arith, ◌==◌,
  if◌then◌else◌, count, contains, count-append, ==_iff, ap, Bool-cases, inl, inr, ◌∙◌,
}
use orchex.GoMap
use orchex.GoMap.{GoMap, count-add_key}
use orchex.Publish.Kahn.{ℤ, pos, decrement, is_zero, copy_degrees, sources, relax}

decrement-pos : (n : ℕ) → 0 < n → decrement (pos n) ≡ pos (n - 1)
decrement-pos zero h = absurd (omega arith)
decrement-pos (suc n) h = ap pos (omega arith)

-- The copy reads like the original.
pub at-copy_degrees :
    (deg : GoMap ℕ) (ks : List ℕ) (v : ℕ)
    → (count v ks ≡ 0 → deg.at v ≡ 0)
    → (copy_degrees deg ks).at v ≡ pos (deg.at v)
unfolding copy_degrees
at-copy_degrees deg [] v h = ap pos (sym (h refl))
at-copy_degrees deg (k ∷ ks) v h = elim (Bool-cases (k == v)) [
  | inl same ↦ rw same (ap (λ (x : ℕ). pos (deg.at x)) ((==_iff k v).0 same))
  | inr other ↦ rw other (at-copy_degrees deg ks v (λ c. h (ground arith)))
]

pub count-keys-copy_degrees :
    (deg : GoMap ℕ) (ks : List ℕ) (v : ℕ)
    → count v (copy_degrees deg ks).keys ≡ (if contains v ks then 1 else 0)
unfolding copy_degrees
count-keys-copy_degrees deg [] v = refl
count-keys-copy_degrees deg (k ∷ ks) v =
    ground (arith, count-add_key v k (copy_degrees deg ks).keys, count-keys-copy_degrees deg ks v)

pub count-sources :
    (degs : GoMap ℤ) (ks : List ℕ) (v : ℕ)
    → count v (sources degs ks) ≡ (if is_zero (degs.at v) then count v ks else 0)
unfolding sources
count-sources degs [] v = ground arith
count-sources degs (k ∷ ks) v = ground (arith, count-sources degs ks v)

-- A target with `n` more arcs to come after this one.
decremented :
    (w : ℕ) (ws : List ℕ) (d : ℤ) (n : ℕ)
    → d ≡ pos (n + count w (w ∷ ws))
    → decrement d ≡ pos (n + count w ws)
decremented w ws d n h = ground (arith, decrement-pos (n + count w (w ∷ ws)))

module _ (r : ℕ → ℕ) where
  -- `r v` arcs lead into v beside those from the vertex of this round, whose targets are `ws`.
  abbrev pub Leaves : List ℕ → GoMap ℤ → Type 0
  Leaves ws degs = (v : ℕ) → degs.at v ≡ pos (r v + count v ws)

  Leaves-set :
      (w : ℕ) (ws : List ℕ) (degs : GoMap ℤ)
      → Leaves (w ∷ ws) degs
      → Leaves ws (GoMap.set degs w (decrement (degs.at w)))
  Leaves-set w ws degs h v = ground (arith, h v, decremented w ws (degs.at w) (r w) (h w))

  -- After the round the degrees count the other arcs.
  pub at-relax :
      (ws : List ℕ) (degs : GoMap ℤ) (queue : List ℕ)
      → Leaves ws degs
      → (v : ℕ) → (relax (degs, queue) ws).0.at v ≡ pos (r v)
  unfolding relax
  at-relax [] degs queue h v = ground (arith, h v)
  at-relax (w ∷ ws) degs queue h v =
      at-relax ws (GoMap.set degs w (decrement (degs.at w)))
        (if is_zero (decrement (degs.at w)) then queue ++ (w ∷ []) else queue)
        (Leaves-set w ws degs h) v

  -- One target is queued if no arc into it is left.
  count-push :
      (w : ℕ) (ws queue : List ℕ) (d : ℤ) (v : ℕ)
      → d ≡ pos (r w + count w ws)
      → count v (if is_zero d then queue ++ (w ∷ []) else queue)
        ≡ count v queue + (if w == v then (if r w + count w ws == 0 then 1 else 0) else 0)
  count-push w ws queue d v h = ground (arith, count-append v queue (w ∷ []))

  push_once :
      (w : ℕ) (ws : List ℕ) (v c : ℕ)
      → c
          + (if w == v then (if r w + count w ws == 0 then 1 else 0) else 0)
          + (if r v == 0 && contains v ws then 1 else 0)
        ≡ c + (if r v == 0 && contains v (w ∷ ws) then 1 else 0)
  push_once w ws v c = ground arith

  -- The round queues exactly the targets that no arc is left into.
  pub count-relax :
      (ws : List ℕ) (degs : GoMap ℤ) (queue : List ℕ)
      → Leaves ws degs
      → (v : ℕ)
      → count v (relax (degs, queue) ws).1
        ≡ count v queue + (if r v == 0 && contains v ws then 1 else 0)
  unfolding relax
  count-relax [] degs queue h v = ground arith
  count-relax (w ∷ ws) degs queue h v =
      let d = decrement (degs.at w) in
      let queue' = (if is_zero d then queue ++ (w ∷ []) else queue) in
      count-relax ws (GoMap.set degs w d) queue' (Leaves-set w ws degs h) v
      ∙ rw (count-push w ws queue d v (decremented w ws (degs.at w) (r w) (h w)))
          (push_once w ws v (count v queue))
