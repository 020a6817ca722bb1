-- ===== src/Save/Correct.antt =====
-- graph.go: `validateGraph` accepts exactly the savable graphs.
use orchex.Prelude.{ℕ, String, ◌≡◌, ◌↔◌, refl, Bool, List, [], Option, arith, All, All-map}
use orchex.Result.{ok, >>=-eq-ok}
use orchex.Save.{Node, Edge, NodeTypes, unique_nodes, validate_saved_graph}
use orchex.Save.Key.{HasNoColon}
use orchex.Save.Spec.{node_ids, IsSavableEdge, IsSavable}
use orchex.Save.Guards.{All-intro}
use orchex.Save.UniqueNodes.{gather, count-gather, unique_nodes_iff}
use orchex.Save.UniqueEdges.{unique_edges_iff}

-- The set after the loop holds the identifiers of the nodes, so an edge's ends are among them.
edges_known :
    (nodes : List Node) (edges : List Edge)
    → All (IsSavableEdge (gather nodes [])) edges ↔ All (IsSavableEdge (node_ids nodes)) edges
edges_known nodes edges = (
  λ h.
      All-map edges
        (λ e g. (
          g.0,
          omega (arith, g.1, count-gather e.from nodes []),
          omega (arith, g.2, count-gather e.to nodes []),
          g.3,
        ))
        h,
  λ h.
      All-map edges
        (λ e g. (
          g.0,
          omega (arith, g.1, count-gather e.from nodes []),
          omega (arith, g.2, count-gather e.to nodes []),
          g.3,
        ))
        h,
)

module _ {Schema Json : Type 0} (trim_space : String → String) (parse_json : String → Option Json)
    (is_valid : Schema → Json → Bool) (uuid_text : ℕ → String)
    (text_injective : (a b : ℕ) → uuid_text a ≡ uuid_text b → a ≡ b)
    (no_colon : (a : ℕ) → HasNoColon (uuid_text a)) where
  -- Where the text of a UUID has no colon and differs from that of every other, `validateGraph`
  -- accepts a request's nodes and edges exactly if every node has an identifier, a name that is not
  -- blank, a known type and a configuration that is JSON and fits the type's schema, no two nodes
  -- share an identifier or a name, every edge has an identifier, two ends among the nodes and one of
  -- the labels default, true and false, where no label stands for default, and no two edges share
  -- an identifier or both their source and their label.
  pub validate_saved_graph-decides :
      (types : NodeTypes Schema) (nodes : List Node) (edges : List Edge)
      → (validate_saved_graph trim_space parse_json is_valid uuid_text types nodes edges ≡ ok tt)
        ↔ IsSavable trim_space parse_json is_valid types nodes edges
  unfolding validate_saved_graph
  validate_saved_graph-decides types nodes edges =
      let (sound_nodes, full_nodes) =
        unique_nodes_iff trim_space parse_json is_valid types [] [] nodes (gather nodes []) in
      let (sound_edges, full_edges) =
        unique_edges_iff uuid_text text_injective no_colon (gather nodes []) [] [] edges in
      let (to_ids, of_ids) = edges_known nodes edges in
      (
        λ h.
            let (known, through, rest) =
              >>=-eq-ok (unique_nodes trim_space parse_json is_valid types [] [] nodes) _ h in
            let ((good, _, different), same) =
              (unique_nodes_iff trim_space parse_json is_valid types [] [] nodes known).0 through in
            let (good', _, different') = sound_edges (rw same rest) in
            record {
              good_nodes = good;
              different_nodes = different;
              good_edges = to_ids good';
              different_edges = different';
            },
        λ h.
            rw
              (full_nodes
                ((h.good_nodes, All-intro _ (λ n. (refl, tt)) nodes, h.different_nodes), refl))
              (full_edges
                (of_ids h.good_edges, All-intro _ (λ e. (refl, tt)) edges, h.different_edges)),
      )
