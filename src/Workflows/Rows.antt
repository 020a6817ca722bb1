-- ===== src/Workflows/Rows.antt =====
-- The statements of nodes.sql.go and workflow_edges.sql.go write the rows of one version only.
use orchex.Prelude.{ℕ, ◌≡◌, ◌≢◌, refl, ◌∙◌, inl, inr, List, [], ◌∷◌, map, arith, ◌==◌, Bool-cases}
use orchex.Store.Tables.{WorkflowVersion, StoredNode, EdgeRow}
use orchex.Store.WorkflowQueries.{touch_version}
use orchex.Store.GraphWrites.{
  nodes_of, edges_of, upsert_node, upsert_all_nodes, drop_nodes, cascade, upsert_edge,
  upsert_all_edges, drop_edges,
}
use orchex.Save.Encode.{NodeRecord, EdgeRecord}
use orchex.Workflows.Kept.{stamp}

module _ (u v : ℕ) (ne : u ≢ v) where
  nodes_of-upsert :
      (now : ℕ) (r : NodeRecord) (ns : List StoredNode)
      → nodes_of u (upsert_node now v r ns) ≡ nodes_of u ns
  nodes_of-upsert now r [] = ground arith
  nodes_of-upsert now r (n ∷ ns) = ground (arith, nodes_of-upsert now r ns)

  pub nodes_of-upsert_all :
      (now : ℕ) (rs : List NodeRecord) (ns : List StoredNode)
      → nodes_of u (upsert_all_nodes now v rs ns) ≡ nodes_of u ns
  nodes_of-upsert_all now [] ns = refl
  nodes_of-upsert_all now (r ∷ rs) ns =
      nodes_of-upsert_all now rs (upsert_node now v r ns) ∙ nodes_of-upsert now r ns

  pub nodes_of-drop :
      (ids : List ℕ) (ns : List StoredNode) → nodes_of u (drop_nodes v ids ns) ≡ nodes_of u ns
  nodes_of-drop ids [] = refl
  nodes_of-drop ids (n ∷ ns) = ground (arith, nodes_of-drop ids ns)

  pub edges_of-cascade :
      (ids : List ℕ) (ns : List StoredNode) (es : List EdgeRow)
      → edges_of u (cascade v ids ns es) ≡ edges_of u es
  edges_of-cascade ids ns [] = refl
  edges_of-cascade ids ns (e ∷ es) = ground (arith, edges_of-cascade ids ns es)

  edges_of-upsert :
      (now : ℕ) (r : EdgeRecord) (es : List EdgeRow)
      → edges_of u (upsert_edge now v r es) ≡ edges_of u es
  edges_of-upsert now r [] = ground arith
  edges_of-upsert now r (e ∷ es) = ground (arith, edges_of-upsert now r es)

  pub edges_of-upsert_all :
      (now : ℕ) (rs : List EdgeRecord) (es : List EdgeRow)
      → edges_of u (upsert_all_edges now v rs es) ≡ edges_of u es
  edges_of-upsert_all now [] es = refl
  edges_of-upsert_all now (r ∷ rs) es =
      edges_of-upsert_all now rs (upsert_edge now v r es) ∙ edges_of-upsert now r es

  pub edges_of-drop :
      (ids : List ℕ) (es : List EdgeRow) → edges_of u (drop_edges v ids es) ≡ edges_of u es
  edges_of-drop ids [] = refl
  edges_of-drop ids (e ∷ es) = ground (arith, edges_of-drop ids es)

pub stamp-touch :
    (v now : ℕ) (xs : List WorkflowVersion) → map stamp (touch_version v now xs) ≡ map stamp xs
stamp-touch v now [] = refl
stamp-touch v now (x ∷ xs) = elim (Bool-cases (x.id == v)) [
  | inl same ↦ rw (same, stamp-touch v now xs) refl
  | inr other ↦ rw (other, stamp-touch v now xs) refl
]
