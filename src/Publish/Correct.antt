-- ===== src/Publish/Correct.antt =====
-- publish_validate.go: `validatePublishGraph` against the predicate of `Spec`.
use orchex.Prelude.{
  ℕ, ◌+◌, ◌<◌, ◌≡◌, ◌↔◌, refl, ◌∙◌, Bool, true, false, List, [], ◌∷◌, ◌++◌, arith, All, count, some,
  subst,
}
use orchex.Result.{Result, ok, err}
use orchex.Digraph.{Walk, Cycle}
use orchex.GoMap.{IsRangeOrder}
use orchex.Publish.Graph.{
  PublishNode, PublishEdge, PublishGraph, GraphError, empty_graph, contains_cycle,
  new_publish_graph,
}
use orchex.Publish.Graph.Built.{IsBuilt, new_publish_graph-IsBuilt}
use orchex.Publish.Checks.{unique_start, validate_degrees, validate_edge_labels}
use orchex.Publish.Checks.Start.{the_start-HasOneStart}
use orchex.Publish.Checks.Nodes.{degrees_loop_iff, labels_loop_iff}
use orchex.Publish.Kahn.{has_cycle_kahn}
use orchex.Publish.Kahn.Decides.{has_cycle_kahn_decides}
use orchex.Publish.Reach.{reachable_from_start}
use orchex.Publish.Reach.Decides.{reachable_from_start_decides}
use orchex.Publish.Spec.{
  ids, inner_edges, inner_arcs, HasOneStart, HasDegrees, HasLabels, IsPublishable,
}
use orchex.Publish.Validate.{
  Verdict, check, validate_acyclic, validate_graph, validate_publish_graph,
}

-- The verdict is given, and it is "accepted" exactly if `P` holds.
abbrev pub Decides {ℓ} : Verdict → Type ℓ → Type ℓ
Decides v P = (r : Result GraphError (Unit {0})) × (v ≡ some r) × (r ≡ ok tt → P) × (P → r ≡ ok tt)

Decides-check :
    {P Q : Type 0} (m : Result GraphError (Unit {0})) (next : Unit {0} → Verdict)
    → ((m ≡ ok tt) ↔ P)
    → (P → Decides (next tt) Q)
    → Decides (check m next) (P × Q)
Decides-check (err e) next p d = (err e, refl, λ h. cc, λ h. absurd (cc (p.1 h.0)))
Decides-check (ok tt) next p d =
    let (r, e, to, from) = d (p.0 refl) in (r, e, λ h. (p.0 refl, to h), λ h. from h.1)

ids-append :
    (xs ys : List PublishNode) (v : ℕ)
    → count v (ids (xs ++ ys)) ≡ count v (ids xs) + count v (ids ys)
ids-append [] ys v = omega arith
ids-append (x ∷ xs) ys v = omega (arith, ids-append xs ys v)

start-mem : (nodes : List PublishNode) (s : ℕ) → HasOneStart nodes s → 0 < count s (ids nodes)
start-mem nodes s h = rw h.split (ground (arith, ids-append h.before (h.node ∷ h.after) s, h.named))

module _ (range_order : List ℕ → List ℕ) (r : IsRangeOrder range_order) (nodes : List PublishNode)
    (edges : List PublishEdge) (g : PublishGraph) (b : IsBuilt nodes edges g) where
  cyclic_verdict :
      (s : ℕ)
      → has_cycle_kahn range_order g ≡ some true
      → validate_acyclic range_order g s ≡ some (err contains_cycle)
  unfolding validate_acyclic
  cyclic_verdict s e = rw (e, validate_acyclic)

  acyclic_verdict :
      (s : ℕ)
      → has_cycle_kahn range_order g ≡ some false
      → validate_acyclic range_order g s ≡ reachable_from_start g s
  unfolding validate_acyclic
  acyclic_verdict s e = rw (e, validate_acyclic)

  abbrev IsSound : ℕ → Type 0
  IsSound s =
      (¬ Cycle (inner_arcs nodes edges)) × All (λ n. Walk (inner_arcs nodes edges) s n.id) nodes

  acyclic_decides :
      (s : ℕ) → HasOneStart nodes s → Decides (validate_acyclic range_order g s) (IsSound s)
  acyclic_decides s one =
      let (cyclic, e, found, free) = has_cycle_kahn_decides nodes edges g b range_order r in
      go cyclic e found free
    where
      go :
          (cyclic : Bool)
          → has_cycle_kahn range_order g ≡ some cyclic
          → (cyclic ≡ true → Cycle (inner_arcs nodes edges))
          → (cyclic ≡ false → ¬ Cycle (inner_arcs nodes edges))
          → Decides (validate_acyclic range_order g s) (IsSound s)
      go true e found free =
          (err contains_cycle, cyclic_verdict s e, λ h. cc, λ h. absurd (h.0 (found refl)))
      go false e found free =
          let (res, e', to, from) =
            reachable_from_start_decides nodes edges g b s (start-mem nodes s one) in
          (res, acyclic_verdict s e ∙ e', λ h. (free refl, to h), λ h. from h.1)

  abbrev HoldsFrom : ℕ → Type 0
  HoldsFrom s =
      All (HasDegrees (inner_arcs nodes edges)) nodes
      × (All (HasLabels (inner_edges nodes edges)) nodes × IsSound s)

  degrees_iff : (validate_degrees g ≡ ok tt) ↔ All (HasDegrees (inner_arcs nodes edges)) nodes
  degrees_iff =
      unfold validate_degrees in
      (rw b.nodes_eq (degrees_loop_iff g nodes (inner_arcs nodes edges) b.ins b.outs))

  labels_iff : (validate_edge_labels g ≡ ok tt) ↔ All (HasLabels (inner_edges nodes edges)) nodes
  labels_iff =
      unfold validate_edge_labels in
      (rw b.nodes_eq (labels_loop_iff g nodes (inner_edges nodes edges) b.labels))

  after_start : ℕ → Verdict
  after_start s =
      check (validate_degrees g)
        (λ _. check (validate_edge_labels g) (λ _. validate_acyclic range_order g s))

  after_start_decides : (s : ℕ) → HasOneStart nodes s → Decides (after_start s) (HoldsFrom s)
  unfolding after_start
  after_start_decides s one =
      Decides-check (validate_degrees g) _ degrees_iff
        (λ _. Decides-check (validate_edge_labels g) _ labels_iff (λ _. acyclic_decides s one))

  start_iff : (s : ℕ) → (unique_start g ≡ ok s) ↔ HasOneStart nodes s
  start_iff s = unfold unique_start in (rw b.nodes_eq (the_start-HasOneStart nodes s))

  publishable :
      (s : ℕ)
      → HasOneStart nodes s
      → (HoldsFrom s → IsPublishable nodes edges) × (IsPublishable nodes edges → HoldsFrom s)
  publishable s one = (
    λ h. record {
      start = s;
      one_start = one;
      degrees = h.0;
      labels = h.1.0;
      acyclic = h.1.1.0;
      reachable = h.1.1.1;
    },
    λ p.
        let e : p.start ≡ s = cc ((start_iff p.start).1 p.one_start, (start_iff s).1 one) in
        (
          p.degrees,
          (
            p.labels,
            (
              p.acyclic,
              subst (λ x. All (λ n. Walk (inner_arcs nodes edges) x n.id) nodes) e p.reachable,
            ),
          ),
        ),
  )

  validate_graph_lem : validate_graph range_order g ≡ check (unique_start g) (λ s. after_start s)
  unfolding after_start validate_graph
  validate_graph_lem = refl

  pub validate_graph_decides : Decides (validate_graph range_order g) (IsPublishable nodes edges)
  validate_graph_decides = go (unique_start g) refl
    where
      go :
          (m : Result GraphError ℕ)
          → unique_start g ≡ m
          → Decides (validate_graph range_order g) (IsPublishable nodes edges)
      go (err x) e =
          (err x, validate_graph_lem ∙ rw e, λ h. cc, λ p. cc ((start_iff p.start).1 p.one_start))
      go (ok s) e =
          let one = (start_iff s).0 e in
          let (res, e', to, from) = after_start_decides s one in
          let (built, taken) = publishable s one in
          (res, validate_graph_lem ∙ rw e e', λ h. built (to h), λ p. from (taken p))

-- `validatePublishGraph` always returns, and it returns no error exactly for a graph that is
-- publishable: one start node, the degrees and the edge labels of every node's type, no cycle,
-- and every node reachable from the start node. This holds for every order in which the runtime
-- may range over the maps.
pub validate_publish_graph-decides :
    (range_order : List ℕ → List ℕ) (nodes : List PublishNode) (edges : List PublishEdge)
    → IsRangeOrder range_order
    → (res : Result GraphError (Unit {0})) × (validate_publish_graph range_order nodes edges
        ≡ some res)
      × ((res ≡ ok tt) ↔ IsPublishable nodes edges)
unfolding validate_publish_graph
validate_publish_graph-decides range_order [] edges r = (
  err empty_graph,
  refl,
  (λ h. cc, λ p. no_empty p.one_start.before p.one_start.node p.one_start.after p.one_start.split),
)
  where
    no_empty :
        (xs : List PublishNode) (n : PublishNode) (ys : List PublishNode)
        → [] ≡ xs ++ (n ∷ ys)
        → err empty_graph ≡ ok tt
    no_empty [] n ys h = cc
    no_empty (x ∷ xs) n ys h = cc
validate_publish_graph-decides range_order (n ∷ ns) edges r =
    let (res, e, to, from) =
      validate_graph_decides range_order r (n ∷ ns) edges (new_publish_graph (n ∷ ns) edges)
        (new_publish_graph-IsBuilt (n ∷ ns) edges) in
    (res, e, (to, from))
