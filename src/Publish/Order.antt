-- ===== src/Publish/Order.antt =====
-- publish_validate.go: the random order of `range` over a map does not show in any result, the
-- choice of the error included.
use orchex.Prelude.{ℕ, ◌≡◌, refl, sym, ap, ◌∙◌, Bool, true, false, List, [], ◌∷◌, some}
use orchex.GoMap.{IsRangeOrder}
use orchex.Digraph.{Cycle}
use orchex.Publish.Graph.{PublishNode, PublishEdge, new_publish_graph}
use orchex.Publish.Graph.Built.{new_publish_graph-IsBuilt}
use orchex.Publish.Kahn.{has_cycle_kahn}
use orchex.Publish.Kahn.Decides.{has_cycle_kahn_decides}
use orchex.Publish.Spec.{inner_arcs}
use orchex.Publish.Validate.{validate_acyclic, validate_graph, validate_publish_graph}

-- `hasCycleKahn` on the graph of any nodes and edges returns, and what it returns is true exactly
-- if the graph has a cycle: true gives a cycle, and false refutes every cycle.
pub has_cycle_kahn_correct :
    (range_order : List ℕ → List ℕ) (nodes : List PublishNode) (edges : List PublishEdge)
    → IsRangeOrder range_order
    → (cyclic : Bool) × (has_cycle_kahn range_order (new_publish_graph nodes edges) ≡ some cyclic)
      × (cyclic ≡ true → Cycle (inner_arcs nodes edges))
      × (cyclic ≡ false → ¬ Cycle (inner_arcs nodes edges))
has_cycle_kahn_correct range_order nodes edges r =
    has_cycle_kahn_decides nodes edges (new_publish_graph nodes edges)
      (new_publish_graph-IsBuilt nodes edges) range_order r

same_answer :
    {P : Type 0} (a b : Bool)
    → (a ≡ true → P)
    → (a ≡ false → ¬ P)
    → (b ≡ true → P)
    → (b ≡ false → ¬ P)
    → a ≡ b
same_answer true true _ _ _ _ = refl
same_answer true false at af bt bf = absurd (bf refl (at refl))
same_answer false true at af bt bf = absurd (af refl (bt refl))
same_answer false false _ _ _ _ = refl

module _ (r₁ r₂ : List ℕ → List ℕ) (h₁ : IsRangeOrder r₁) (h₂ : IsRangeOrder r₂)
    (nodes : List PublishNode) (edges : List PublishEdge) where
  kahn_same :
      has_cycle_kahn r₁ (new_publish_graph nodes edges)
      ≡ has_cycle_kahn r₂ (new_publish_graph nodes edges)
  kahn_same =
      let (a, ea, at, af) = has_cycle_kahn_correct r₁ nodes edges h₁ in
      let (b, eb, bt, bf) = has_cycle_kahn_correct r₂ nodes edges h₂ in
      ea ∙ ap some (same_answer a b at af bt bf) ∙ sym eb

  graph_same :
      validate_graph r₁ (new_publish_graph nodes edges)
      ≡ validate_graph r₂ (new_publish_graph nodes edges)
  unfolding validate_graph
  graph_same = let g = new_publish_graph nodes edges in rw (kahn_same, validate_acyclic) refl

-- Two runs on the same nodes and edges return the same, whatever the orders in which each of them
-- ranges over the maps.
pub validate_publish_graph-order :
    (r₁ r₂ : List ℕ → List ℕ) (nodes : List PublishNode) (edges : List PublishEdge)
    → IsRangeOrder r₁
    → IsRangeOrder r₂
    → validate_publish_graph r₁ nodes edges ≡ validate_publish_graph r₂ nodes edges
unfolding validate_publish_graph
validate_publish_graph-order r₁ r₂ [] edges h₁ h₂ = refl
validate_publish_graph-order r₁ r₂ (n ∷ ns) edges h₁ h₂ = graph_same r₁ r₂ h₁ h₂ (n ∷ ns) edges
