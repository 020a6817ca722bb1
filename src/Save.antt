-- ===== src/Save.antt =====
-- internal/handler/workflow/graph.go: `validateGraph`, the check of the graph that a request to
-- save a workflow carries. A UUID is a number, `uuid.Nil` is 0; the set of the identifiers seen and
-- the map of the names or keys seen are lists, newest first. `strings.TrimSpace`, the JSON schema
-- library and the text of a UUID are parameters. `Spec` states what is accepted, and `Guards`,
-- `UniqueNodes`, `UniqueEdges` and `Correct` prove that exactly that is.
pub mod Key
pub mod Spec
pub mod Guards
pub mod UniqueNodes
pub mod UniqueEdges
pub mod Correct
pub mod Encode
pub mod Rows
pub mod Load
use orchex.Prelude.{
  ℕ, String, str_eq, Bool, true, false, not, ◌||◌, List, [], ◌∷◌, Option, none, some, ◌==◌,
  if◌then◌else◌, contains,
}
use orchex.Result.{Result, ok, err, ◌>>=◌, ◌>>◌, fail_if}
use Prim.Native.String.{◌++◌}

-- A `float64` is the number that its bits spell.
pub record Position : Type 0 where
  pub x : ℕ
  pub y : ℕ

pub record Node : Type 0 where
  pub id : ℕ
  pub node_type : String
  pub name : String
  pub config : String
  pub position : Option Position

pub record Edge : Type 0 where
  pub id : ℕ
  pub from : ℕ
  pub to : ℕ
  pub label : String

-- One constructor for each message, with the values that the message shows.
pub data SaveError : Type 0 where
  missing_node_id missing_edge_id : SaveError
  duplicate_node_id missing_name duplicate_edge_id : ℕ → SaveError
  shared_name : ℕ → ℕ → String → SaveError
  unknown_type invalid_json config_mismatch : ℕ → String → SaveError
  unknown_source unknown_target : ℕ → ℕ → SaveError
  invalid_label : ℕ → String → SaveError
  shared_label : ℕ → String → ℕ → ℕ → SaveError

pub record NodeTypes (Schema : Type 0) : Type 0 where
  pub id_by_name : String → Option ℕ
  pub schema_by_name : String → Option Schema

-- `m[k]` and whether it is there, in a map from texts to identifiers.
abbrev pub lookup : String → List (String × ℕ) → Option ℕ
lookup k [] = none
lookup k ((l, v) ∷ rest) = let found = lookup k rest in if str_eq l k then some v else found

-- `if other, exists := m[k]; exists { return ... }`
abbrev pub fail_if_some : {A : Type 0} → Option A → (A → SaveError) → Result SaveError (Unit {0})
fail_if_some none e = ok tt
fail_if_some (some a) e = err (e a)

abbrev pub fail_if_none : {A : Type 0} → Option A → SaveError → Result SaveError (Unit {0})
fail_if_none none e = err e
fail_if_none (some a) e = ok tt

-- `len(config) == 0` stands for an empty object.
abbrev pub config_text : String → String
config_text config = if str_eq config "" then "{}" else config

abbrev pub edge_label : String → String
edge_label raw = if str_eq raw "" then "default" else raw

abbrev pub valid_edge_label : String → Bool
valid_edge_label label = str_eq label "default" || (str_eq label "true" || str_eq label "false")

module _ {Schema Json : Type 0} (trim_space : String → String) (parse_json : String → Option Json)
    (is_valid : Schema → Json → Bool) where
  abbrev pub validate_instance : Node → Schema → Option Json → Result SaveError (Unit {0})
  validate_instance n sch none = err (invalid_json n.id n.node_type)
  validate_instance n sch (some inst) =
      fail_if (not (is_valid sch inst)) (config_mismatch n.id n.node_type)

  abbrev pub validate_schema : Node → Option Schema → Result SaveError (Unit {0})
  validate_schema n none = err (unknown_type n.id n.node_type)
  validate_schema n (some sch) = validate_instance n sch (parse_json (config_text n.config))

  abbrev pub validate_config : NodeTypes Schema → Node → Result SaveError (Unit {0})
  validate_config types n = validate_schema n (types.schema_by_name n.node_type)

  -- The body of the loop of `uniqueNodes`.
  unfoldable pub check_node :
      NodeTypes Schema → List ℕ → List (String × ℕ) → Node → Result SaveError (Unit {0})
  check_node types seen_ids names n = do
    fail_if (n.id == 0) missing_node_id
    fail_if (contains n.id seen_ids) (duplicate_node_id n.id)
    fail_if (str_eq (trim_space n.name) "") (missing_name n.id)
    fail_if_some (lookup n.name names) (λ other. shared_name other n.id n.name)
    fail_if_none (types.id_by_name n.node_type) (unknown_type n.id n.node_type)
    validate_config types n

  unfoldable pub unique_nodes :
      NodeTypes Schema → List ℕ → List (String × ℕ) → List Node → Result SaveError (List ℕ)
  unique_nodes types seen_ids names [] = ok seen_ids
  unique_nodes types seen_ids names (n ∷ ns) =
      check_node types seen_ids names n
      >> unique_nodes types (n.id ∷ seen_ids) ((n.name, n.id) ∷ names) ns

module _ (uuid_text : ℕ → String) where
  abbrev pub source_label : Edge → String
  source_label e = (uuid_text e.from ++ ":") ++ edge_label e.label

  -- The body of the loop of `uniqueEdges`.
  unfoldable pub check_edge :
      List ℕ → List ℕ → List (String × ℕ) → Edge → Result SaveError (Unit {0})
  check_edge nodes seen_ids by_source_label e = do
    fail_if (e.id == 0) missing_edge_id
    fail_if (contains e.id seen_ids) (duplicate_edge_id e.id)
    fail_if (not (contains e.from nodes)) (unknown_source e.id e.from)
    fail_if (not (contains e.to nodes)) (unknown_target e.id e.to)
    fail_if (not (valid_edge_label (edge_label e.label))) (invalid_label e.id e.label)
    fail_if_some (lookup (source_label e) by_source_label)
        (λ other. shared_label e.from (edge_label e.label) other e.id)

  unfoldable pub unique_edges :
      List ℕ → List ℕ → List (String × ℕ) → List Edge → Result SaveError (Unit {0})
  unique_edges nodes seen_ids by_source_label [] = ok tt
  unique_edges nodes seen_ids by_source_label (e ∷ es) =
      check_edge nodes seen_ids by_source_label e
      >> unique_edges nodes (e.id ∷ seen_ids) ((source_label e, e.id) ∷ by_source_label) es

module _ {Schema Json : Type 0} (trim_space : String → String) (parse_json : String → Option Json)
    (is_valid : Schema → Json → Bool) (uuid_text : ℕ → String) where
  -- `validateGraph` of workflow/graph.go.
  unfoldable pub validate_saved_graph :
      NodeTypes Schema → List Node → List Edge → Result SaveError (Unit {0})
  unfolding unique_nodes unique_edges
  validate_saved_graph types nodes edges = do
    known ← unique_nodes trim_space parse_json is_valid types [] [] nodes
    unique_edges uuid_text known [] [] edges
