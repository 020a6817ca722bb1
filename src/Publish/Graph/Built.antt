-- ===== src/Publish/Graph/Built.antt =====
-- publish_validate.go: what the maps of the graph that `newPublishGraph` builds hold.
use orchex.Prelude.{
  ℕ, ◌+◌, ◌<◌, ◌≡◌, refl, ap, ◌∙◌, sym, ltb, Bool, List, [], ◌∷◌, ◌++◌, arith, ◌==◌, if◌then◌else◌,
  count, contains, Bool-cases, inl, inr, ==_iff,
}
use mathlib.Core.List.{append_assoc, append-nil}
use mathlib.Core.Path.{fun_ext}
use orchex.Digraph.{in_degree, out_degree, targets}
use orchex.GoMap.{add_key, count-add_key}
use orchex.Publish.Graph.{
  PublishNode, PublishEdge, PublishGraph, empty_publish_graph, add_node, add_nodes, link, add_edge,
  add_edges, new_publish_graph,
}
use orchex.Publish.Spec.{ids, kept, arcs, labels_from, inner_edges, inner_arcs}

-- `h` is `g` with the edges `es` linked in.
pub record IsLinked (g : PublishGraph) (es : List PublishEdge) (h : PublishGraph) : Type 0 where
  pub nodes : h.nodes ≡ g.nodes
  pub by_id : h.by_id ≡ g.by_id
  pub keys : h.in_degree.keys ≡ g.in_degree.keys
  pub adj : (u : ℕ) → h.adj.at u ≡ g.adj.at u ++ targets (arcs es) u
  pub ins : (v : ℕ) → h.in_degree.at v ≡ g.in_degree.at v + in_degree (arcs es) v
  pub outs : (u : ℕ) → h.out_degree.at u ≡ g.out_degree.at u + out_degree (arcs es) u
  pub labels : (u : ℕ) → h.out_labels.at u ≡ g.out_labels.at u ++ labels_from es u

add_key_old : (k : ℕ) (ks : List ℕ) → 0 < count k ks → add_key k ks ≡ ks
add_key_old k ks h = ground arith

IsLinked-nil : (g : PublishGraph) → IsLinked g [] g
IsLinked-nil g = record {
  nodes = refl;
  by_id = refl;
  keys = refl;
  adj = λ u. sym (append-nil (g.adj.at u));
  ins = λ v. omega arith;
  outs = λ u. omega arith;
  labels = λ u. sym (append-nil (g.out_labels.at u));
}

-- Appending at one key, then at that key again.
append_at {ℓ} :
    {A : Type ℓ} (m : ℕ → List A) (k u : ℕ) (a : A) (rest : List A)
    → (if k == u then m k ++ (a ∷ []) else m u) ++ rest ≡ m u ++ (if k == u then a ∷ rest else rest)
append_at m k u a rest = elim (Bool-cases (k == u)) [
  | inl same ↦
      rw same
        (append_assoc (m k) (a ∷ []) rest ∙ ap (λ (x : ℕ). m x ++ (a ∷ rest)) ((==_iff k u).0 same))
  | inr other ↦ rw other
]

IsLinked-cons :
    (g : PublishGraph) (e : PublishEdge) (es : List PublishEdge) (h : PublishGraph)
    → 0 < count e.to g.in_degree.keys
    → IsLinked (link g e) es h
    → IsLinked g (e ∷ es) h
unfolding link
IsLinked-cons g e es h known l = record {
  nodes = l.nodes;
  by_id = l.by_id;
  keys = l.keys ∙ add_key_old e.to g.in_degree.keys known;
  adj = λ u. l.adj u ∙ append_at g.adj.at e.from u e.to (targets (arcs es) u);
  ins = λ v. ground (arith, l.ins v);
  outs = λ u. ground (arith, l.outs u);
  labels = λ u. l.labels u ∙ append_at g.out_labels.at e.from u e.label (labels_from es u);
}

link_maps :
    (g : PublishGraph) (e : PublishEdge) (K : List ℕ)
    → 0 < count e.to K
    → g.by_id.keys ≡ K
    → g.in_degree.keys ≡ K
    → ((link g e).by_id.keys ≡ K) × ((link g e).in_degree.keys ≡ K)
unfolding link
link_maps g e K known b i = (b, rw i (add_key_old e.to K known))

add_edge_lem :
    (g : PublishGraph) (e : PublishEdge) (K : List ℕ)
    → g.by_id.keys ≡ K
    → add_edge g e ≡ (if contains e.from K then (if contains e.to K then link g e else g) else g)
unfolding add_edge
add_edge_lem g e K b = rw b

IsLinked-add_edges :
    (g : PublishGraph) (K : List ℕ) (es : List PublishEdge)
    → g.by_id.keys ≡ K
    → g.in_degree.keys ≡ K
    → IsLinked g (kept (λ v. contains v K) es) (add_edges g es)
unfolding add_edges
IsLinked-add_edges g K [] b i = IsLinked-nil g
IsLinked-add_edges g K (e ∷ es) b i = elim (Bool-cases (contains e.from K)) [
  | inr out ↦ rw (add_edge_lem g e K b, out) (IsLinked-add_edges g K es b i)
  | inl from_in ↦ elim (Bool-cases (contains e.to K)) [
    | inr out ↦ rw (add_edge_lem g e K b, from_in, out) (IsLinked-add_edges g K es b i)
    | inl to_in ↦
        let known : 0 < count e.to K = ground arith in
        let (b', i') = link_maps g e K known b i in
        let rest = IsLinked-add_edges (link g e) K es b' i' in
        rw (add_edge_lem g e K b, from_in, to_in)
          (IsLinked-cons g e (kept (λ v. contains v K) es) (add_edges (link g e) es)
            (rw (← i) at known) rest)
  ]
]

-- Before any edge: every list is empty and every counter is 0.
pub record IsFresh (g : PublishGraph) : Type 0 where
  pub keys : g.in_degree.keys ≡ g.by_id.keys
  pub adj : (u : ℕ) → g.adj.at u ≡ []
  pub ins : (v : ℕ) → g.in_degree.at v ≡ 0
  pub outs : (u : ℕ) → g.out_degree.at u ≡ 0
  pub labels : (u : ℕ) → g.out_labels.at u ≡ []

IsFresh-add_node : (g : PublishGraph) (n : PublishNode) → IsFresh g → IsFresh (add_node g n)
unfolding add_node
IsFresh-add_node g n f = record {
  keys = ap (add_key n.id) f.keys;
  adj = λ u. ground (arith, f.adj u);
  ins = λ v. ground (arith, f.ins v);
  outs = λ u. ground (arith, f.outs u);
  labels = f.labels;
}

IsFresh-add_nodes :
    (g : PublishGraph) (ns : List PublishNode) → IsFresh g → IsFresh (add_nodes g ns)
unfolding add_nodes
IsFresh-add_nodes g [] f = f
IsFresh-add_nodes g (n ∷ ns) f = IsFresh-add_nodes (add_node g n) ns (IsFresh-add_node g n f)

nodes-add_nodes : (g : PublishGraph) (ns : List PublishNode) → (add_nodes g ns).nodes ≡ g.nodes
unfolding add_nodes add_node
nodes-add_nodes g [] = refl
nodes-add_nodes g (n ∷ ns) = nodes-add_nodes (add_node g n) ns

-- Each identifier is a key once.
count-add_nodes :
    (g : PublishGraph) (ns : List PublishNode) (v : ℕ)
    → count v g.by_id.keys ≡ (if ltb 0 (count v g.by_id.keys) then 1 else 0)
    → count v (add_nodes g ns).by_id.keys
      ≡ (if ltb 0 (count v g.by_id.keys + count v (ids ns)) then 1 else 0)
unfolding add_nodes add_node
count-add_nodes g [] v d = ground arith
count-add_nodes g (n ∷ ns) v d =
    ground (arith, count-add_key v n.id g.by_id.keys, count-add_nodes (add_node g n) ns v)

-- What `newPublishGraph` returns, in terms of the edges between the nodes.
pub record IsBuilt (nodes : List PublishNode) (edges : List PublishEdge) (g : PublishGraph)
    : Type 0 where
  pub nodes_eq : g.nodes ≡ nodes
  pub keys : (v : ℕ) → count v g.by_id.keys ≡ (if contains v (ids nodes) then 1 else 0)
  pub in_keys : g.in_degree.keys ≡ g.by_id.keys
  pub adj : (u : ℕ) → g.adj.at u ≡ targets (inner_arcs nodes edges) u
  pub ins : (v : ℕ) → g.in_degree.at v ≡ in_degree (inner_arcs nodes edges) v
  pub outs : (u : ℕ) → g.out_degree.at u ≡ out_degree (inner_arcs nodes edges) u
  pub labels : (u : ℕ) → g.out_labels.at u ≡ labels_from (inner_edges nodes edges) u

empty-IsFresh : (nodes : List PublishNode) → IsFresh (empty_publish_graph nodes)
unfolding empty_publish_graph
empty-IsFresh nodes = record {
  keys = refl;
  adj = λ _. refl;
  ins = λ _. refl;
  outs = λ _. refl;
  labels = λ _. refl;
}

all_nodes : List PublishNode → PublishGraph
all_nodes nodes = add_nodes (empty_publish_graph nodes) nodes

count-all_nodes :
    (nodes : List PublishNode) (v : ℕ)
    → count v (all_nodes nodes).by_id.keys ≡ (if contains v (ids nodes) then 1 else 0)
unfolding all_nodes
count-all_nodes nodes v =
    unfold empty_publish_graph in
    (count-add_nodes (empty_publish_graph nodes) nodes v refl ∙ ground arith)

all_nodes_eq : (nodes : List PublishNode) → (all_nodes nodes).nodes ≡ nodes
unfolding all_nodes
all_nodes_eq nodes =
    nodes-add_nodes (empty_publish_graph nodes) nodes ∙ unfold empty_publish_graph in refl

all_nodes-IsFresh : (nodes : List PublishNode) → IsFresh (all_nodes nodes)
unfolding all_nodes
all_nodes-IsFresh nodes = IsFresh-add_nodes (empty_publish_graph nodes) nodes (empty-IsFresh nodes)

kept_same :
    (K L : List ℕ) (edges : List PublishEdge)
    → ((v : ℕ) → count v K ≡ (if contains v L then 1 else 0))
    → kept (λ v. contains v K) edges ≡ kept (λ v. contains v L) edges
kept_same K L edges h =
    let same : (v : ℕ) → contains v K ≡ contains v L = λ v. ground (arith, h v) in
    ap (λ (known : ℕ → Bool). kept known edges) (fun_ext same)

new_publish_graph_lem :
    (nodes : List PublishNode) (edges : List PublishEdge)
    → new_publish_graph nodes edges ≡ add_edges (all_nodes nodes) edges
unfolding new_publish_graph all_nodes
new_publish_graph_lem nodes edges = refl

built :
    (nodes : List PublishNode) (edges : List PublishEdge) (g h : PublishGraph)
    → IsFresh g
    → ((v : ℕ) → count v g.by_id.keys ≡ (if contains v (ids nodes) then 1 else 0))
    → g.nodes ≡ nodes
    → IsLinked g (inner_edges nodes edges) h
    → IsBuilt nodes edges h
built nodes edges g h f keys n l = record {
  nodes_eq = l.nodes ∙ n;
  keys = λ v. rw l.by_id (keys v);
  in_keys = rw l.by_id (l.keys ∙ f.keys);
  adj = λ u. l.adj u ∙ rw (f.adj u);
  ins = λ v. omega (arith, l.ins v, f.ins v);
  outs = λ u. omega (arith, l.outs u, f.outs u);
  labels = λ u. l.labels u ∙ rw (f.labels u);
}

pub new_publish_graph-IsBuilt :
    (nodes : List PublishNode) (edges : List PublishEdge)
    → IsBuilt nodes edges (new_publish_graph nodes edges)
new_publish_graph-IsBuilt nodes edges =
    let g = all_nodes nodes in
    let fresh = all_nodes-IsFresh nodes in
    let linked = IsLinked-add_edges g g.by_id.keys edges refl fresh.keys in
    rw (new_publish_graph_lem nodes edges) (
      built nodes edges g (add_edges g edges) fresh (count-all_nodes nodes) (all_nodes_eq nodes)
        (rw (kept_same g.by_id.keys (ids nodes) edges (count-all_nodes nodes)) at linked))
