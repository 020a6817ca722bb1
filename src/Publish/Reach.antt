-- ===== src/Publish/Reach.antt =====
-- publish_validate.go: `reachableFromStart`. The queue loop takes fuel; `none` means that it ran
-- out.
pub mod Loop
pub mod Decides
use orchex.Prelude.{ℕ, zero, suc, List, [], ◌∷◌, ◌++◌, Option, none, some, ◌==◌, if◌then◌else◌}
use mathlib.Core.Option
use orchex.Result.{Result, ok, err}
use orchex.GoMap
use orchex.GoMap.{GoMap, make, has, size}
use orchex.Publish.Graph.{PublishNode, PublishGraph, GraphError, not_reachable}

-- `map[uuid.UUID]struct{}`
abbrev pub Visited : Type 0
Visited = GoMap (Unit {0})

-- The body of the loop over `g.adj[u]`.
pub visit : Visited × List ℕ → ℕ → Visited × List ℕ
visit (visited, queue) v =
    if has visited v then (visited, queue) else (GoMap.set visited v tt, queue ++ (v ∷ []))

pub explore : Visited × List ℕ → List ℕ → Visited × List ℕ
unfolding visit
explore s [] = s
explore s (v ∷ vs) = explore (visit s v) vs

pub reach_loop : (ℕ → List ℕ) → ℕ → Visited → List ℕ → Option Visited
reach_loop adj zero visited [] = some visited
reach_loop adj zero visited (u ∷ queue) = none
reach_loop adj (suc fuel) visited [] = some visited
reach_loop adj (suc fuel) visited (u ∷ queue) =
    let after = explore (visited, queue) (adj u) in reach_loop adj fuel after.0 after.1

-- The loop that names the first node which was not visited.
pub first_unvisited : Visited → List PublishNode → Result GraphError (Unit {0})
first_unvisited visited [] = ok tt
first_unvisited visited (n ∷ ns) =
    let rest = first_unvisited visited ns in
    if has visited n.id then rest else err (not_reachable n.id)

pub verdict : PublishGraph → Visited → Result GraphError (Unit {0})
verdict g visited = if size visited == size g.by_id then ok tt else first_unvisited visited g.nodes

unfoldable pub reachable_from_start : PublishGraph → ℕ → Option (Result GraphError (Unit {0}))
unfolding explore reach_loop first_unvisited verdict
reachable_from_start g start =
    Option.map (verdict g)
      (reach_loop g.adj.at (size g.by_id) (GoMap.set (make tt) start tt) (start ∷ []))
