-- ===== src/Workflows/Written.antt =====
-- save.go: the statements of `persistGraph`, by what can be looked up after them.
use orchex.Prelude.{
  ℕ, ◌≡◌, refl, subst, ap, String, Bool, true, false, List, [], ◌∷◌, map, Option, some, arith,
}
use orchex.Result.{ok, >>=-eq-ok}
use orchex.Store.Tables.{WorkflowRow, StoredNode, EdgeRow, Db}
use orchex.Store.Effects.{◌>>◌}
use orchex.Store.Effects.Calls.{Does, >>=-Does, still-Does}
use orchex.Store.WorkflowQueries.{
  touch_workflow_version, find_workflow, update_workflows, set_saved,
}
use orchex.Store.GraphWrites.{
  upsert_nodes, delete_nodes_not_in, upsert_edges, delete_edges_not_in, upsert_all_nodes,
  upsert_all_edges,
}
use orchex.Save.{Node, Edge, NodeTypes}
use orchex.Save.Encode.{
  NodeRecord, EdgeRecord, known_type, encode_node, encode_nodes, encode_edges, map_ids,
}
use orchex.Workflows.Save.{touch_unless}
use orchex.Workflows.Persists.{sets-Does}
use orchex.Workflows.Lookups.{node_at, edge_at, node_of, edge_of, node_at-written, edge_at-written}

-- The version `v` holds exactly these nodes, and these edges.
abbrev pub HoldsNodes : ℕ → List NodeRecord → Db → Type 0
HoldsNodes v rows y = (j : ℕ) → node_at v j y.nodes ≡ node_of j rows

abbrev pub HoldsEdges : ℕ → List EdgeRecord → Db → Type 0
HoldsEdges v rows y = (j : ℕ) → edge_at v j y.edges ≡ edge_of j rows

abbrev pub Upserted : ℕ → List NodeRecord → Db → Type 0
Upserted v rows y =
    (now : ℕ) × ((ns : List StoredNode) × (y.nodes ≡ upsert_all_nodes now v rows ns))

abbrev pub UpsertedEdges : ℕ → List EdgeRecord → Db → Type 0
UpsertedEdges v rows y =
    (now : ℕ) × ((es : List EdgeRow) × (y.edges ≡ upsert_all_edges now v rows es))

pub encode-ids :
    {Schema : Type 0} (types : NodeTypes Schema) (nodes : List Node) (rows : List NodeRecord)
    → encode_nodes types nodes ≡ ok rows
    → map_ids nodes (λ n. n.id) ≡ map (λ r. r.id) rows
unfolding encode_nodes
encode-ids types [] rows h = let e : [] ≡ rows = cc in subst (λ rs. [] ≡ map (λ r. r.id) rs) e refl
encode-ids types (n ∷ ns) rows h =
    let (i, known, h') = >>=-eq-ok (known_type n.node_type (types.id_by_name n.node_type)) _ h in
    let (rest, e, h'') = >>=-eq-ok (encode_nodes types ns) _ h' in
    let same : encode_node i n ∷ rest ≡ rows = cc in
    subst (λ rs. n.id ∷ map_ids ns (λ m. m.id) ≡ map (λ r. r.id) rs) same
      (ap (λ (l : List ℕ). n.id ∷ l) (encode-ids types ns rest e))

pub edge_ids :
    (edges : List Edge) → map_ids edges (λ e. e.id) ≡ map (λ r. r.id) (encode_edges edges)
edge_ids [] = refl
edge_ids (e ∷ es) = ap (λ (l : List ℕ). e.id ∷ l) (edge_ids es)

pub find-saved :
    (name : String) (description : Option String) (v i now : ℕ) (ws : List WorkflowRow)
    (w : WorkflowRow)
    → find_workflow i (update_workflows i (set_saved name description v now) ws) ≡ some w
    → w.latest_version_id ≡ v
find-saved name description v i now [] w h = cc
find-saved name description v i now (x ∷ xs) w h =
    ground (arith, find-saved name description v i now xs w)

pub find_workflow-id :
    (i : ℕ) (ws : List WorkflowRow) (w : WorkflowRow) → find_workflow i ws ≡ some w → w.id ≡ i
find_workflow-id i [] w h = cc
find_workflow-id i (x ∷ xs) w h = ground (arith, find_workflow-id i xs w)

-- The graph that a save leaves in the version `v`.
pub record Holds (v : ℕ) (nodes : List NodeRecord) (edges : List EdgeRecord) (y : Db) : Type 0 where
  pub held_nodes : HoldsNodes v nodes y
  pub held_edges : HoldsEdges v edges y

module _ (v : ℕ) (rows : List NodeRecord) where
  upsert-Does : Does (λ x (u : Unit {0}) y. Upserted v rows y) (upsert_nodes v rows)
  unfolding upsert_nodes
  upsert-Does = sets-Does (λ x u y. Upserted v rows y) _ (λ x. (x.now, (x.nodes, refl)))

  delete-Does :
      (ids : List ℕ)
      → Does
          (λ x (u : Unit {0}) y.
            ids ≡ map (λ r. r.id) rows → Upserted v rows x → HoldsNodes v rows y)
          (delete_nodes_not_in v ids)
  unfolding delete_nodes_not_in
  delete-Does ids =
      sets-Does (λ x u y. ids ≡ map (λ r. r.id) rows → Upserted v rows x → HoldsNodes v rows y) _
        (λ x e (now, (ns, e')) j. rw (e, e') (node_at-written v j now rows ns))

  module _ (es : List EdgeRecord) where
    upsert_edges-Does :
        Does
          (λ x (u : Unit {0}) y. HoldsNodes v rows x → HoldsNodes v rows y × UpsertedEdges v es y)
          (upsert_edges v es)
    unfolding upsert_edges
    upsert_edges-Does =
        sets-Does (λ x u y. HoldsNodes v rows x → HoldsNodes v rows y × UpsertedEdges v es y) _
          (λ x h. (h, (x.now, (x.edges, refl))))

    delete_edges-Does :
        (ids : List ℕ)
        → ids ≡ map (λ r. r.id) es
        → Does
            (λ x (u : Unit {0}) y. HoldsNodes v rows x × UpsertedEdges v es x → Holds v rows es y)
            (delete_edges_not_in v ids)
    unfolding delete_edges_not_in
    delete_edges-Does ids e =
        sets-Does (λ x u y. HoldsNodes v rows x × UpsertedEdges v es x → Holds v rows es y) _
          (λ x (h, (now, (ds, e'))). record {
            held_nodes = h;
            held_edges = λ j. rw (e, e') (edge_at-written v j now es ds);
          })

    touch-Does :
        (fork : Bool)
        → Does (λ x (u : Unit {0}) y. Holds v rows es x → Holds v rows es y) (touch_unless fork v)
    unfolding touch_workflow_version
    touch-Does true =
        still-Does (λ x u y. Holds v rows es x → Holds v rows es y) (ok tt) (λ x a e h. h)
    touch-Does false =
        sets-Does (λ x u y. Holds v rows es x → Holds v rows es y) _
          (λ x h. record { held_nodes = h.held_nodes; held_edges = h.held_edges })

    -- The statements in their order.
    pub written-Does :
        (ids eids : List ℕ) (fork : Bool)
        → eids ≡ map (λ r. r.id) es
        → Does
            (λ x (u : Unit {0}) y. ids ≡ map (λ r. r.id) rows → Holds v rows es y)
            (upsert_nodes v rows
              >> (delete_nodes_not_in v ids
                  >> (upsert_edges v es >> (delete_edges_not_in v eids >> touch_unless fork v))))
    written-Does ids eids fork e' =
        >>=-Does (λ x (u : Unit {0}) y. Upserted v rows y)
          (λ _ x (u : Unit {0}) y.
            ids ≡ map (λ r. r.id) rows → Upserted v rows x → Holds v rows es y)
          (λ x u y. ids ≡ map (λ r. r.id) rows → Holds v rows es y) (upsert_nodes v rows) _
          (λ x a y b z up rest e. rest e up) upsert-Does
          (λ _.
            >>=-Does
              (λ x (u : Unit {0}) y.
                ids ≡ map (λ r. r.id) rows → Upserted v rows x → HoldsNodes v rows y)
              (λ _ x (u : Unit {0}) y. HoldsNodes v rows x → Holds v rows es y)
              (λ x u y. ids ≡ map (λ r. r.id) rows → Upserted v rows x → Holds v rows es y)
              (delete_nodes_not_in v ids) _ (λ x a y b z first rest e up. rest (first e up))
              (delete-Does ids)
              (λ _.
                >>=-Does
                  (λ x (u : Unit {0}) y.
                    HoldsNodes v rows x → HoldsNodes v rows y × UpsertedEdges v es y)
                  (λ _ x (u : Unit {0}) y.
                    HoldsNodes v rows x × UpsertedEdges v es x → Holds v rows es y)
                  (λ x u y. HoldsNodes v rows x → Holds v rows es y) (upsert_edges v es) _
                  (λ x a y b z first rest h. rest (first h)) upsert_edges-Does
                  (λ _.
                    >>=-Does
                      (λ x (u : Unit {0}) y.
                        HoldsNodes v rows x × UpsertedEdges v es x → Holds v rows es y)
                      (λ _ x (u : Unit {0}) y. Holds v rows es x → Holds v rows es y)
                      (λ x u y. HoldsNodes v rows x × UpsertedEdges v es x → Holds v rows es y)
                      (delete_edges_not_in v eids) _ (λ x a y b z first rest h. rest (first h))
                      (delete_edges-Does eids e') (λ _. touch-Does fork))))
