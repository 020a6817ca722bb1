-- ===== src/Save/Encode.antt =====
-- internal/handler/workflow/save.go: the rows that `encodeNodes` and `encodeEdges` make of a
-- request, before `json.Marshal`, and `mapIDs`.
use orchex.Prelude.{ℕ, String, List, [], ◌∷◌, map, Option, none, some}
use orchex.Result.{Result, ok, err, ◌>>=◌}
use orchex.Save.{Position, Node, Edge, NodeTypes, config_text, edge_label}

pub record NodeRecord : Type 0 where
  pub id : ℕ
  pub node_type_id : ℕ
  pub name : String
  pub config : String
  pub position_x : Option ℕ
  pub position_y : Option ℕ

pub record EdgeRecord : Type 0 where
  pub id : ℕ
  pub from_node_id : ℕ
  pub to_node_id : ℕ
  pub label : String

abbrev pub coords : Option Position → Option ℕ × Option ℕ
coords none = (none, none)
coords (some p) = (some p.x, some p.y)

-- The error names the type that is not known.
abbrev pub known_type : String → Option ℕ → Result String ℕ
known_type name none = err name
known_type name (some i) = ok i

abbrev pub encode_node : ℕ → Node → NodeRecord
encode_node type_id n = record {
  id = n.id;
  node_type_id = type_id;
  name = n.name;
  config = config_text n.config;
  position_x = (coords n.position).0;
  position_y = (coords n.position).1;
}

unfoldable pub encode_nodes :
    {Schema : Type 0} → NodeTypes Schema → List Node → Result String (List NodeRecord)
encode_nodes types [] = ok []
encode_nodes types (n ∷ ns) = do
  type_id ← known_type n.node_type (types.id_by_name n.node_type)
  rest ← encode_nodes types ns
  ok (encode_node type_id n ∷ rest)

abbrev pub encode_edge : Edge → EdgeRecord
encode_edge e = record {
  id = e.id;
  from_node_id = e.from;
  to_node_id = e.to;
  label = edge_label e.label;
}

abbrev pub encode_edges : List Edge → List EdgeRecord
encode_edges es = map encode_edge es

abbrev pub map_ids : {A : Type 0} → List A → (A → ℕ) → List ℕ
map_ids items id = map id items
