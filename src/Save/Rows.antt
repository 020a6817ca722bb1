-- ===== src/Save/Rows.antt =====
-- save.go: a request that `validateGraph` accepts can be written.
use orchex.Prelude.{
  ℕ, ◌<◌, String, ◌≡◌, ◌≢◌, ◌⊎◌, inl, inr, refl, sym, ◌∙◌, ap, Bool, List, [], ◌∷◌, Option, some,
  count, All, All-map,
}
use orchex.Result.{ok}
use orchex.Save.{Node, Edge, NodeTypes, edge_label, validate_saved_graph}
use orchex.Save.Key.{HasNoColon}
use orchex.Save.Spec.{
  Pairwise, AreDifferentNodes, AreDifferentEdges, IsSavableEdge, node_ids, IsDefault,
}
use orchex.Save.Guards.{same_label_iff, IsDefault-iff}
use orchex.Save.Correct.{validate_saved_graph-decides}
use orchex.Save.Encode.{
  NodeRecord, EdgeRecord, encode_node, encode_nodes, encode_edge, encode_edges, map_ids,
}

-- The row of a node, with the type's identifier.
abbrev pub IsRowOf : {Schema : Type 0} → NodeTypes Schema → Node → NodeRecord → Type 0
IsRowOf types n r =
    (types.id_by_name n.node_type ≡ some r.node_type_id) × (r ≡ encode_node r.node_type_id n)

abbrev pub AreRowsOf : {Schema : Type 0} → NodeTypes Schema → List Node → List NodeRecord → Type 0
AreRowsOf types [] [] = Unit
AreRowsOf types [] (r ∷ rs) = ⊥
AreRowsOf types (n ∷ ns) [] = ⊥
AreRowsOf types (n ∷ ns) (r ∷ rs) = IsRowOf types n r × AreRowsOf types ns rs

-- What the tables demand of the rows of a version's nodes: their key and their unique names.
abbrev pub AreDifferentNodeRows : NodeRecord → NodeRecord → Type 0
AreDifferentNodeRows r s = (r.id ≢ s.id) × (r.name ≢ s.name)

-- What the tables demand of an edge's row: its key, its unique source and label, its label type.
abbrev pub AreDifferentRows : EdgeRecord → EdgeRecord → Type 0
AreDifferentRows r s = (r.id ≢ s.id) × ¬ ((r.from_node_id ≡ s.from_node_id) × (r.label ≡ s.label))

abbrev pub IsEdgeRow : List ℕ → EdgeRecord → Type 0
IsEdgeRow nodes r =
    (0 < count r.from_node_id nodes)
    × (0 < count r.to_node_id nodes)
    × ((r.label ≡ "default") ⊎ ((r.label ≡ "true") ⊎ (r.label ≡ "false")))

All-encode :
    (P : Edge → Type 0) (Q : EdgeRecord → Type 0)
    → ((e : Edge) → P e → Q (encode_edge e))
    → (es : List Edge) → All P es
    → All Q (encode_edges es)
All-encode P Q f [] h = tt
All-encode P Q f (e ∷ es) h = (f e h.0, All-encode P Q f es h.1)

different_rows :
    (es : List Edge) → Pairwise AreDifferentEdges es → Pairwise AreDifferentRows (encode_edges es)
different_rows [] h = tt
different_rows (e ∷ es) h = (
  All-encode (AreDifferentEdges e) (AreDifferentRows (encode_edge e))
      (λ d g. (g.0, λ same. g.1 (same.0, (same_label_iff e.label d.label).0 same.1))) es h.0,
  different_rows es h.1,
)

module _ {Schema : Type 0} (types : NodeTypes Schema) where
  apart :
      (n : Node) (r : NodeRecord) (ns : List Node) (rs : List NodeRecord)
      → (r.id ≡ n.id) × (r.name ≡ n.name)
      → AreRowsOf types ns rs
      → All (AreDifferentNodes n) ns
      → All (AreDifferentNodeRows r) rs
  apart n r [] [] same rows d = tt
  apart n r [] (s ∷ rs) same rows d = absurd rows
  apart n r (m ∷ ns) [] same rows d = absurd rows
  apart n r (m ∷ ns) (s ∷ rs) (i, x) (row, rows) (d, ds) = (
    (
      λ e. d.0 (sym i ∙ (e ∙ ap (λ (y : NodeRecord). y.id) row.1)),
      λ e. d.1 (sym x ∙ (e ∙ ap (λ (y : NodeRecord). y.name) row.1)),
    ),
    apart n r ns rs (i, x) rows ds,
  )

  different_node_rows :
      (ns : List Node) (rs : List NodeRecord)
      → AreRowsOf types ns rs
      → Pairwise AreDifferentNodes ns
      → Pairwise AreDifferentNodeRows rs
  different_node_rows [] [] rows d = tt
  different_node_rows [] (r ∷ rs) rows d = absurd rows
  different_node_rows (n ∷ ns) [] rows d = absurd rows
  different_node_rows (n ∷ ns) (r ∷ rs) (row, rows) (d, ds) = (
    apart n r ns rs (ap (λ (y : NodeRecord). y.id) row.1, ap (λ (y : NodeRecord). y.name) row.1)
        rows d,
    different_node_rows ns rs rows ds,
  )

row_ids : (nodes : List Node) → map_ids nodes (λ n. n.id) ≡ node_ids nodes
row_ids [] = refl
row_ids (n ∷ ns) = ap (λ (l : List ℕ). n.id ∷ l) (row_ids ns)

label_row :
    (l : String)
    → IsDefault l ⊎ ((l ≡ "true") ⊎ (l ≡ "false"))
    → (edge_label l ≡ "default") ⊎ ((edge_label l ≡ "true") ⊎ (edge_label l ≡ "false"))
label_row l (inl d) = inl ((IsDefault-iff l).1 d)
label_row l (inr (inl t)) = inr (inl (rw t refl))
label_row l (inr (inr f)) = inr (inr (rw f refl))

encodes :
    {Schema : Type 0} (types : NodeTypes Schema) (nodes : List Node)
    → All (λ n. (i : ℕ) × (types.id_by_name n.node_type ≡ some i)) nodes
    → (rows : List NodeRecord) × (encode_nodes types nodes ≡ ok rows) × AreRowsOf types nodes rows
unfolding encode_nodes
encodes types [] h = ([], refl, tt)
encodes types (n ∷ ns) ((i, known), h) =
    let (rows, made, matched) = encodes types ns h in
    (encode_node i n ∷ rows, rw (known, made) refl, ((known, refl), matched))

module _ {Schema Json : Type 0} (trim_space : String → String) (parse_json : String → Option Json)
    (is_valid : Schema → Json → Bool) (uuid_text : ℕ → String)
    (text_injective : (a b : ℕ) → uuid_text a ≡ uuid_text b → a ≡ b)
    (no_colon : (a : ℕ) → HasNoColon (uuid_text a)) where
  -- Where the text of a UUID has no colon and differs from that of every other, a request that
  -- `validateGraph` accepts becomes rows, before `json.Marshal`, without an error: every node becomes
  -- a row with the identifier of its type, no two node rows share an identifier or a name, every edge
  -- becomes a row with two ends among the identifiers that mapIDs keeps and one of the labels
  -- default, true and false, and no two edge rows share an identifier or both their source and their
  -- label.
  pub encode_nodes_total :
      (types : NodeTypes Schema) (nodes : List Node) (edges : List Edge)
      → validate_saved_graph trim_space parse_json is_valid uuid_text types nodes edges ≡ ok tt
      → ((rows : List NodeRecord) × (encode_nodes types nodes ≡ ok rows)
          × AreRowsOf types nodes rows
          × Pairwise AreDifferentNodeRows rows)
        × All (IsEdgeRow (map_ids nodes (λ n. n.id))) (encode_edges edges)
        × Pairwise AreDifferentRows (encode_edges edges)
  encode_nodes_total types nodes edges accepted =
      let good =
        (validate_saved_graph-decides trim_space parse_json is_valid uuid_text text_injective
            no_colon types nodes edges).0
          accepted in
      let (rows, made, matched) =
        encodes types nodes (All-map nodes (λ n g. g.2) good.good_nodes) in
      (
        (rows, made, matched, different_node_rows types nodes rows matched good.different_nodes),
        rw (row_ids nodes) (
            All-encode (IsSavableEdge (node_ids nodes)) (IsEdgeRow (node_ids nodes))
              (λ e g. (g.1, g.2, label_row e.label g.3)) edges good.good_edges),
        different_rows edges good.different_edges,
      )
