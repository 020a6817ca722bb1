-- ===== src/Publish/Checks.antt =====
-- publish_validate.go: the start node, the degrees and the edge labels.
pub mod Start
pub mod Nodes
use orchex.Prelude.{
  ℕ, ◌+◌, String, str_eq, Bool, true, false, ◌&&◌, ◌||◌, not, List, [], ◌∷◌, ltb, ◌==◌,
  if◌then◌else◌, length,
}
use orchex.Result.{Result, ok, err, ◌>>=◌, ◌>>◌, fail_if}
use orchex.GoMap.{GoMap}
use orchex.Publish.Graph.{
  PublishNode, PublishGraph, GraphError, no_start, many_starts, bad_in_degree, bad_out_degree,
  conditional_labels, bad_label,
}

abbrev pub node_type_start : String
node_type_start = "start"

abbrev pub node_type_conditional : String
node_type_conditional = "conditional"

abbrev pub edge_label_default : String
edge_label_default = "default"

abbrev pub edge_label_true : String
edge_label_true = "true"

abbrev pub edge_label_false : String
edge_label_false = "false"

-- The identifiers of the start nodes, in order.
abbrev pub starts : List PublishNode → List ℕ
starts [] = []
starts (n ∷ ns) =
    let rest = starts ns in if str_eq n.type node_type_start then n.id ∷ rest else rest

-- The `switch` on `len(starts)`.
abbrev pub the_start : List ℕ → Result GraphError ℕ
the_start [] = err no_start
the_start (id ∷ []) = ok id
the_start (i ∷ j ∷ ids) = err (many_starts (length (i ∷ j ∷ ids)))

unfoldable pub unique_start : PublishGraph → Result GraphError ℕ
unique_start g = the_start (starts g.nodes)

-- The body of the loop of `validateDegrees`.
pub validate_node_degrees : PublishGraph → PublishNode → Result GraphError (Unit {0})
validate_node_degrees g n = do
  let in_deg = g.in_degree.at n.id
  let out_deg = g.out_degree.at n.id
  fail_if (ltb in_deg n.min_in_degree || ltb n.max_in_degree in_deg)
      (bad_in_degree n.id n.type n.min_in_degree n.max_in_degree in_deg)
  fail_if (ltb out_deg n.min_out_degree || ltb n.max_out_degree out_deg)
      (bad_out_degree n.id n.type n.min_out_degree n.max_out_degree out_deg)

pub degrees_loop : PublishGraph → List PublishNode → Result GraphError (Unit {0})
unfolding validate_node_degrees
degrees_loop g [] = ok tt
degrees_loop g (n ∷ ns) = validate_node_degrees g n >> degrees_loop g ns

unfoldable pub validate_degrees : PublishGraph → Result GraphError (Unit {0})
unfolding degrees_loop
validate_degrees g = degrees_loop g g.nodes

-- `_, ok := seen[label]` for the set of the labels in `got`.
abbrev pub seen : String → List String → Bool
seen l [] = false
seen l (x ∷ xs) = let rest = seen l xs in if str_eq x l then true else rest

all_seen : List String → List String → Bool
all_seen [] got = true
all_seen (l ∷ want) got = seen l got && all_seen want got

pub has_labels : List String → List String → Bool
unfolding all_seen
has_labels got want = length got == length want && all_seen want got

-- The inner loop of the `default` branch.
pub default_labels : PublishNode → List String → Result GraphError (Unit {0})
default_labels n [] = ok tt
default_labels n (l ∷ ls) =
    fail_if (not (str_eq l edge_label_default)) (bad_label n.id n.type edge_label_default l)
    >> default_labels n ls

pub validate_node_labels : PublishGraph → PublishNode → Result GraphError (Unit {0})
unfolding has_labels default_labels
validate_node_labels g n =
    let labels = g.out_labels.at n.id in
    if str_eq n.type node_type_conditional
    then fail_if (not (has_labels labels (edge_label_true ∷ edge_label_false ∷ [])))
        (conditional_labels n.id)
    else default_labels n labels

pub labels_loop : PublishGraph → List PublishNode → Result GraphError (Unit {0})
unfolding validate_node_labels
labels_loop g [] = ok tt
labels_loop g (n ∷ ns) = validate_node_labels g n >> labels_loop g ns

unfoldable pub validate_edge_labels : PublishGraph → Result GraphError (Unit {0})
unfolding labels_loop
validate_edge_labels g = labels_loop g g.nodes
