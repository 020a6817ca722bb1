-- ===== src/Workflows/Persists.antt =====
-- save.go: `persistGraph` writes one version only.
use orchex.Prelude.{ℕ, ◌≡◌, refl, subst, inl, inr, String, Bool, true, false, List, Bool-cases}
use orchex.Result.{Result, ok, err}
use orchex.Store.Tables.{Db}
use orchex.Store.Effects.{StoreError, bad_rows, M, ◌>>=◌, statement}
use orchex.Store.Effects.Calls.{Does, statement-Does, >>=-Does, still-Does}
use orchex.Store.WorkflowQueries.{touch_workflow_version}
use orchex.Store.GraphWrites.{upsert_nodes, delete_nodes_not_in, upsert_edges, delete_edges_not_in}
use orchex.Save.{Node, Edge, NodeTypes}
use orchex.Save.Encode.{NodeRecord, EdgeRecord, encode_nodes, encode_edges, map_ids}
use orchex.Workflows.Save.{touch_unless, encoded, persist_graph}
use orchex.Workflows.Rows.{
  nodes_of-upsert_all, nodes_of-drop, edges_of-cascade, edges_of-upsert_all, edges_of-drop,
  stamp-touch,
}
use orchex.Workflows.Drafts.{Only, Only-trans}

abbrev pub WritesOnly : {A : Type 0} → ℕ → Db → A → Db → Type 0
WritesOnly v x a y = Only v x y

Only-refl : (v : ℕ) (x : Db) → Only v x x
Only-refl v x = record {
  workflows = refl;
  stamped = refl;
  rows = λ u ne. record { types = refl; nodes = refl; edges = refl };
}

-- A statement that returns nothing.
pub sets-Does :
    (P : Db → Unit {0} → Db → Type 0) (f : Db → Db)
    → ((x : Db) → P x tt (f x))
    → Does P (statement (λ db. ok (tt, f db)))
sets-Does P f h =
    statement-Does P _ (λ x u y e. let same : f x ≡ y = cc in subst (P x tt) same (h x))

then_only :
    {A B : Type 0} (v : ℕ) (m : M StoreError A) (k : A → M StoreError B)
    → Does (WritesOnly v) m
    → ((a : A) → Does (WritesOnly v) (k a))
    → Does (WritesOnly v) (m >>= k)
then_only v m k =
    >>=-Does (WritesOnly v) (λ _. WritesOnly v) (WritesOnly v) m k
      (λ x a y b z first next. Only-trans v x y z first next)

module _ (marshals : List NodeRecord → Bool) where
  encoded-Does :
      (v : ℕ) (r : Result String (List NodeRecord)) → Does (WritesOnly v) (encoded marshals r)
  encoded-Does v (err name) = still-Does (WritesOnly v) (err bad_rows) (λ x a e. Only-refl v x)
  encoded-Does v (ok rows) = λ w. elim (Bool-cases (marshals rows)) [
    | inl t ↦ rw t (record { queue = refl; next_handle = refl }, λ a e. Only-refl v w.db)
    | inr t ↦ rw t (record { queue = refl; next_handle = refl }, λ a e. Only-refl v w.db)
  ]

touch-Does : (fork : Bool) (v : ℕ) → Does (WritesOnly v) (touch_unless fork v)
unfolding touch_workflow_version
touch-Does true v = still-Does (WritesOnly v) (ok tt) (λ x a e. Only-refl v x)
touch-Does false v = sets-Does (WritesOnly v) _ (λ x. record {
  workflows = refl;
  stamped = stamp-touch v x.now x.versions;
  rows = λ u ne. record { types = refl; nodes = refl; edges = refl };
})

upsert_nodes-Does : (v : ℕ) (rows : List NodeRecord) → Does (WritesOnly v) (upsert_nodes v rows)
unfolding upsert_nodes
upsert_nodes-Does v rows = sets-Does (WritesOnly v) _ (λ x. record {
  workflows = refl;
  stamped = refl;
  rows = λ u ne. record {
    types = refl;
    nodes = nodes_of-upsert_all u v ne x.now rows x.nodes;
    edges = refl;
  };
})

delete_nodes-Does : (v : ℕ) (ids : List ℕ) → Does (WritesOnly v) (delete_nodes_not_in v ids)
unfolding delete_nodes_not_in
delete_nodes-Does v ids = sets-Does (WritesOnly v) _ (λ x. record {
  workflows = refl;
  stamped = refl;
  rows = λ u ne. record {
    types = refl;
    nodes = nodes_of-drop u v ne ids x.nodes;
    edges = edges_of-cascade u v ne ids x.nodes x.edges;
  };
})

upsert_edges-Does : (v : ℕ) (rows : List EdgeRecord) → Does (WritesOnly v) (upsert_edges v rows)
unfolding upsert_edges
upsert_edges-Does v rows = sets-Does (WritesOnly v) _ (λ x. record {
  workflows = refl;
  stamped = refl;
  rows = λ u ne. record {
    types = refl;
    nodes = refl;
    edges = edges_of-upsert_all u v ne x.now rows x.edges;
  };
})

delete_edges-Does : (v : ℕ) (ids : List ℕ) → Does (WritesOnly v) (delete_edges_not_in v ids)
unfolding delete_edges_not_in
delete_edges-Does v ids = sets-Does (WritesOnly v) _ (λ x. record {
  workflows = refl;
  stamped = refl;
  rows = λ u ne. record { types = refl; nodes = refl; edges = edges_of-drop u v ne ids x.edges };
})

pub persist_graph-Does :
    {Schema : Type 0} (marshals : List NodeRecord → Bool) (v : ℕ) (nodes : List Node)
    (edges : List Edge) (types : NodeTypes Schema) (fork : Bool)
    → Does (WritesOnly v) (persist_graph marshals v nodes edges types fork)
persist_graph-Does marshals v nodes edges types fork =
    then_only v (encoded marshals (encode_nodes types nodes)) _
      (encoded-Does marshals v (encode_nodes types nodes))
      (λ rows. then_only v (upsert_nodes v rows) _ (upsert_nodes-Does v rows) (λ _.
        then_only v (delete_nodes_not_in v (map_ids nodes (λ n. n.id))) _
          (delete_nodes-Does v (map_ids nodes (λ n. n.id)))
          (λ _.
            then_only v (upsert_edges v (encode_edges edges)) _
              (upsert_edges-Does v (encode_edges edges))
              (λ _.
                then_only v (delete_edges_not_in v (map_ids edges (λ e. e.id))) _
                  (delete_edges-Does v (map_ids edges (λ e. e.id))) (λ _. touch-Does fork v)))))
