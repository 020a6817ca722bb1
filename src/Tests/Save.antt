-- ===== src/Tests/Save.antt =====
-- graph.go on a small request, with simple functions in place of the libraries.
use Prim.Native.String.{[] as empty, ◌∷◌ as cons}
use Prim.Native.Char.{Char, code}
use orchex.Prelude.{
  ℕ, zero, suc, String, ◌≡◌, ◌≢◌, ap, arith, refl, true, Bool, List, [], ◌∷◌, Option, none, some,
  str_eq, eq_iff, if◌then◌else◌,
}
use orchex.Result.{ok, err}
use orchex.Save.{Node, Edge, NodeTypes, check_node, check_edge, shared_label, validate_saved_graph}
use orchex.Save.Key.{HasNoColon, colon}
use orchex.Save.Spec.{IsSavable, Pairwise}
use orchex.Save.Load.{
  NodeTypeRow, no_types, add_type, AreTypesOf, Compiles, load_rows, load_node_types,
  load_node_types_lem,
}
use orchex.Save.Encode.{NodeRecord, encode_nodes, encode_edges, map_ids}
use orchex.Save.Rows.{
  AreRowsOf, AreDifferentNodeRows, IsEdgeRow, AreDifferentRows, encode_nodes_total,
}
use orchex.Prelude.{All}
use orchex.Save.Correct.{validate_saved_graph-decides}

abbrev letter : Char
letter = "a"

-- A text without a colon for every number.
abbrev text_of : ℕ → String
text_of zero = empty
text_of (suc n) = cons letter (text_of n)

text_of-injective : (a b : ℕ) → text_of a ≡ text_of b → a ≡ b
text_of-injective zero zero e = refl
text_of-injective zero (suc b) e = cc
text_of-injective (suc a) zero e = cc
text_of-injective (suc a) (suc b) e = ap suc (text_of-injective a b cc)

letter-ne-colon : letter ≢ colon
letter-ne-colon e = let codes : 97 ≡ 58 = ap code e in absurd (omega (arith, codes))

text_of-HasNoColon : (a : ℕ) → HasNoColon (text_of a)
text_of-HasNoColon zero = tt
text_of-HasNoColon (suc a) = (letter-ne-colon, text_of-HasNoColon a)

abbrev same_text : String → String
same_text s = s

abbrev read_json : String → Option String
read_json s = if str_eq s "" then none else some s

abbrev fits_any : ℕ → String → Bool
fits_any schema instance_ = true

abbrev types : NodeTypes ℕ
types = record {
  id_by_name = λ name.
      if str_eq name "start" then some 1 else (if str_eq name "response" then some 2 else none);
  schema_by_name = λ name.
      if str_eq name "start" then some 1 else (if str_eq name "response" then some 2 else none);
}

abbrev nodes : List Node
nodes =
    (record {
      id = 3;
      node_type = "start";
      name = "Begin";
      config = "";
      position = some (record { x = 1; y = 2 });
    })
    ∷ (record { id = 4; node_type = "response"; name = "End"; config = "{}"; position = none })
    ∷ []

abbrev edge : ℕ → String → Edge
edge i label = record { id = i; from = 3; to = 4; label = label }

validate_saved_graph-decides_example :
    IsSavable same_text read_json fits_any types nodes (edge 5 "" ∷ edge 6 "true" ∷ [])
unfolding validate_saved_graph check_node check_edge
validate_saved_graph-decides_example =
    (validate_saved_graph-decides same_text read_json fits_any text_of text_of-injective
        text_of-HasNoColon types nodes (edge 5 "" ∷ edge 6 "true" ∷ [])).0
      refl

-- No label and "default" are one label.
shared_label_test :
    validate_saved_graph same_text read_json fits_any text_of types nodes
      (edge 5 "" ∷ edge 6 "default" ∷ [])
    ≡ err (shared_label 3 "default" 5 6)
unfolding validate_saved_graph check_node check_edge
shared_label_test = refl

encode_nodes_total_example :
    let edges = edge 5 "" ∷ edge 6 "true" ∷ [] in
    ((rows : List NodeRecord) × (encode_nodes types nodes ≡ ok rows)
      × AreRowsOf types nodes rows
      × Pairwise AreDifferentNodeRows rows)
    × All (IsEdgeRow (map_ids nodes (λ n. n.id))) (encode_edges edges)
    × Pairwise AreDifferentRows (encode_edges edges)
unfolding validate_saved_graph check_node check_edge
encode_nodes_total_example =
    encode_nodes_total same_text read_json fits_any text_of text_of-injective text_of-HasNoColon
      types nodes (edge 5 "" ∷ edge 6 "true" ∷ []) refl

abbrev compiled : String → String → Option ℕ
compiled name doc = some 8

abbrev rows : List NodeTypeRow
rows =
    (record { id = 1; type = "start"; config_schema = "" })
    ∷ (record { id = 2; type = "response"; config_schema = "{}" })
    ∷ []

abbrev known_types : NodeTypes ℕ
known_types =
    add_type (record { id = 2; type = "response"; config_schema = "{}" }) 8
      (add_type (record { id = 1; type = "start"; config_schema = "" }) 8 no_types)

load_node_types_lem_example :
    (All (λ row. (s : ℕ) × Compiles read_json compiled row s) rows
      → (loaded : NodeTypes ℕ) × (load_node_types read_json compiled rows ≡ ok loaded))
    × ((loaded : NodeTypes ℕ)
        → load_node_types read_json compiled rows ≡ ok loaded
        → AreTypesOf read_json compiled rows loaded)
load_node_types_lem_example =
    load_node_types_lem read_json compiled rows
      ((λ e. cc ((eq_iff "start" "response").1 e), tt), (tt, tt))

-- The rows of the example load.
load_node_types_test : load_node_types read_json compiled rows ≡ ok known_types
unfolding load_node_types load_rows
load_node_types_test = refl
