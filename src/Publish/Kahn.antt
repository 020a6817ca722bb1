-- ===== src/Publish/Kahn.antt =====
-- publish_validate.go: `hasCycleKahn`. The `range` over the degrees visits the keys in an order
-- of the runtime's choice, `range_order`. The queue loop takes fuel; `none` means that it ran out.
pub mod Steps
pub mod Loop
pub mod Decides
use orchex.Prelude.{
  ℕ, zero, suc, ◌+◌, ◌*◌, Bool, true, false, not, List, [], ◌∷◌, ◌++◌, Option, none, some, ◌==◌,
  if◌then◌else◌,
}
use mathlib.Core.Option
use orchex.GoMap
use orchex.GoMap.{GoMap, make, size}
use orchex.Publish.Graph.{PublishGraph}

-- Go's `int`, which `in[v]--` may take below 0: `negsuc n` is -(n + 1).
pub data ℤ : Type 0 where
  pos negsuc : ℕ → ℤ

abbrev pub decrement : ℤ → ℤ
decrement (pos zero) = negsuc zero
decrement (pos (suc n)) = pos n
decrement (negsuc n) = negsuc (suc n)

abbrev pub is_zero : ℤ → Bool
is_zero (pos n) = n == 0
is_zero (negsuc n) = false

-- The copy of `g.inDegree`.
pub copy_degrees : GoMap ℕ → List ℕ → GoMap ℤ
copy_degrees deg [] = make (pos 0)
copy_degrees deg (id ∷ ids) = GoMap.set (copy_degrees deg ids) id (pos (deg.at id))

-- The keys whose degree is 0, in the order of the visit.
pub sources : GoMap ℤ → List ℕ → List ℕ
sources degs [] = []
sources degs (id ∷ ids) =
    let rest = sources degs ids in if is_zero (degs.at id) then id ∷ rest else rest

-- The loop over `g.adj[u]`.
pub relax : GoMap ℤ × List ℕ → List ℕ → GoMap ℤ × List ℕ
relax (degs, queue) [] = (degs, queue)
relax (degs, queue) (v ∷ vs) =
    relax
      (
        GoMap.set degs v (decrement (degs.at v)),
        (if is_zero (decrement (degs.at v)) then queue ++ (v ∷ []) else queue),
      )
      vs

-- The loop while the queue is not empty: the number of the nodes that it removed.
pub kahn_loop : (ℕ → List ℕ) → ℕ → GoMap ℤ → List ℕ → ℕ → Option ℕ
kahn_loop adj zero degs [] removed = some removed
kahn_loop adj zero degs (u ∷ queue) removed = none
kahn_loop adj (suc fuel) degs [] removed = some removed
kahn_loop adj (suc fuel) degs (u ∷ queue) removed =
    let after = relax (degs, queue) (adj u) in kahn_loop adj fuel after.0 after.1 (suc removed)

module _ (range_order : List ℕ → List ℕ) where
  unfoldable pub has_cycle_kahn : PublishGraph → Option Bool
  unfolding copy_degrees sources relax kahn_loop
  has_cycle_kahn g =
      let degs = copy_degrees g.in_degree g.in_degree.keys in
      let queue = sources degs (range_order degs.keys) in
      Option.map (λ (removed : ℕ). not (removed == size g.by_id))
        (kahn_loop g.adj.at (size g.by_id) degs queue 0)
