-- ===== src/Publish/Validate.antt =====
-- publish_validate.go: `validatePublishGraph`. The two loops over a queue run on fuel, so the
-- result is `none` if it runs out.
use orchex.Prelude.{ℕ, true, false, List, [], ◌∷◌, Option, none, some}
use orchex.Result.{Result, ok, err}
use orchex.Publish.Graph.{
  PublishNode, PublishEdge, PublishGraph, GraphError, empty_graph, contains_cycle,
  new_publish_graph,
}
use orchex.Publish.Checks.{unique_start, validate_degrees, validate_edge_labels}
use orchex.Publish.Kahn.{has_cycle_kahn}
use orchex.Publish.Reach.{reachable_from_start}

abbrev pub Verdict : Type 0
Verdict = Option (Result GraphError (Unit {0}))

-- The code after a check that returned: on to `next`, or out with the error.
abbrev pub check : {A : Type 0} → Result GraphError A → (A → Verdict) → Verdict
check (ok a) next = next a
check (err e) next = some (err e)

module _ (range_order : List ℕ → List ℕ) where
  unfoldable pub validate_acyclic : PublishGraph → ℕ → Verdict
  validate_acyclic g start = elim (has_cycle_kahn range_order g) [
    | none ↦ none
    | some true ↦ some (err contains_cycle)
    | some false ↦ reachable_from_start g start
  ]

  unfoldable pub validate_graph : PublishGraph → Verdict
  unfolding validate_acyclic
  validate_graph g = check (unique_start g) (λ start.
      check (validate_degrees g)
        (λ _. check (validate_edge_labels g) (λ _. validate_acyclic g start)))

  unfoldable pub validate_publish_graph : List PublishNode → List PublishEdge → Verdict
  unfolding validate_graph
  validate_publish_graph [] edges = some (err empty_graph)
  validate_publish_graph (n ∷ ns) edges = validate_graph (new_publish_graph (n ∷ ns) edges)
