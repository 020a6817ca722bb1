-- ===== src/Publish/Checks/Nodes.antt =====
-- publish_validate.go: the loops of `validateDegrees` and `validateEdgeLabels` accept exactly the
-- nodes that have the degrees and labels of their type.
use orchex.Prelude.{ℕ, ◌≡◌, ◌≢◌, ◌↔◌, ◌⊎◌, refl, true, List, [], ◌∷◌, arith, All, eq_iff, String}
use orchex.Result.{ok, >>-eq-ok}
use orchex.Digraph.{Arcs, in_degree, out_degree}
use orchex.Publish.Graph.{PublishNode, PublishEdge, PublishGraph}
use orchex.Publish.Checks.{
  validate_node_degrees, degrees_loop, validate_node_labels, labels_loop, has_labels,
  default_labels, node_type_conditional, edge_label_default, edge_label_true, edge_label_false,
}
use orchex.Publish.Spec.{HasDegrees, HasLabels, labels_from}

degrees_of :
    (g : PublishGraph) (n : PublishNode) (es : Arcs)
    → g.in_degree.at n.id ≡ in_degree es n.id
    → g.out_degree.at n.id ≡ out_degree es n.id
    → (validate_node_degrees g n ≡ ok tt) ↔ HasDegrees es n
unfolding validate_node_degrees
degrees_of g n es i o = ground arith

pub degrees_loop_iff :
    (g : PublishGraph) (ns : List PublishNode) (es : Arcs)
    → ((v : ℕ) → g.in_degree.at v ≡ in_degree es v)
    → ((v : ℕ) → g.out_degree.at v ≡ out_degree es v)
    → (degrees_loop g ns ≡ ok tt) ↔ All (HasDegrees es) ns
unfolding degrees_loop
degrees_loop_iff g [] es i o = (λ _. tt, λ _. refl)
degrees_loop_iff g (n ∷ ns) es i o =
    let (split, join) = >>-eq-ok (validate_node_degrees g n) (degrees_loop g ns) in
    let (sound, full) = degrees_of g n es (i n.id) (o n.id) in
    let (sound', full') = degrees_loop_iff g ns es i o in
    (λ h. let (a, b) = split h in (sound a, sound' b), λ h. join (full h.0, full' h.1))

-- Two labels that cover two different ones are these, in either order.
covers_iff :
    (t f : String) (ls : List String)
    → t ≢ f
    → (has_labels ls (t ∷ f ∷ []) ≡ true) ↔ ((ls ≡ t ∷ f ∷ []) ⊎ (ls ≡ f ∷ t ∷ []))
unfolding has_labels
covers_iff t f [] d = ground arith
covers_iff t f (a ∷ []) d = ground arith
covers_iff t f (a ∷ b ∷ []) d = ground (arith, eq_iff a t, eq_iff a f, eq_iff b t, eq_iff b f)
covers_iff t f (a ∷ b ∷ c ∷ ls) d = ground arith

true-ne-false : edge_label_true ≢ edge_label_false
true-ne-false e = cc ((eq_iff edge_label_true edge_label_false).1 e)

default_labels_iff :
    (n : PublishNode) (ls : List String)
    → (default_labels n ls ≡ ok tt) ↔ All (λ l. l ≡ edge_label_default) ls
unfolding default_labels
default_labels_iff n [] = (λ _. tt, λ _. refl)
default_labels_iff n (l ∷ ls) = ground (arith, eq_iff l edge_label_default, default_labels_iff n ls)

labels_of :
    (g : PublishGraph) (n : PublishNode) (es : List PublishEdge)
    → g.out_labels.at n.id ≡ labels_from es n.id
    → (validate_node_labels g n ≡ ok tt) ↔ HasLabels es n
unfolding validate_node_labels
labels_of g n es l = rw l (
    ground (
      arith,
      eq_iff n.type node_type_conditional,
      covers_iff edge_label_true edge_label_false (labels_from es n.id) true-ne-false,
      default_labels_iff n (labels_from es n.id),
    ))

pub labels_loop_iff :
    (g : PublishGraph) (ns : List PublishNode) (es : List PublishEdge)
    → ((v : ℕ) → g.out_labels.at v ≡ labels_from es v)
    → (labels_loop g ns ≡ ok tt) ↔ All (HasLabels es) ns
unfolding labels_loop
labels_loop_iff g [] es l = (λ _. tt, λ _. refl)
labels_loop_iff g (n ∷ ns) es l =
    let (split, join) = >>-eq-ok (validate_node_labels g n) (labels_loop g ns) in
    let (sound, full) = labels_of g n es (l n.id) in
    let (sound', full') = labels_loop_iff g ns es l in
    (λ h. let (a, b) = split h in (sound a, sound' b), λ h. join (full h.0, full' h.1))
