-- ===== src/Workflows/Invariant.antt =====
-- internal/handler/workflow: any sequence of requests to the builder service keeps what is
-- published. The steps are its endpoints that write, each with calls that may fail; listing and
-- reading, the other services and the clock leave its tables as they are.
use orchex.Prelude.{ℕ, ◌≡◌, refl, subst, String, Bool, true, List, [], Option}
use orchex.GoMap.{IsRangeOrder}
use orchex.Http.{Body}
use orchex.Store.Tables.{Db, World}
use orchex.Store.Effects.{StoreError}
use orchex.Store.GraphWrites.{join_all_bounds, nodes_of, edges_of}
use orchex.Save.{SaveError}
use orchex.Save.Encode.{NodeRecord}
use orchex.Publish.Spec.{IsPublishable}
use orchex.System.Steps.{failing}
use orchex.Workflows.{CreateWorkflowRequest, UpdateWorkflowRequest}
use orchex.Workflows.Endpoints.{create, update, publish_workflow, archive}
use orchex.Workflows.Publish.{to_publish_nodes, to_publish_edges}
use orchex.Workflows.Kept.{
  stamps, published_in, published_in_iff, IsKept, IsValid, HasPublishableGraph, Keeps, Keeps-refl,
  Keeps-trans,
}
use orchex.Workflows.Drafts.{IsFreshVersion}
use orchex.Workflows.Requests.{
  create-Ensures, update-Ensures, publish_workflow-Ensures, archive-Ensures,
}

-- The tables of the builder service are as they were.
pub record SameTables (x y : Db) : Type 0 where
  pub workflows : y.workflows ≡ x.workflows
  pub versions : y.versions ≡ x.versions
  pub node_types : y.node_types ≡ x.node_types
  pub nodes : y.nodes ≡ x.nodes
  pub edges : y.edges ≡ x.edges

-- What the libraries do for the builder service, and the order of a `range` over a map.
pub record Libraries (Schema Json : Type 0) : Type 0 where
  pub trim_space : String → String
  pub parse_json : String → Option Json
  pub is_valid : Schema → Json → Bool
  pub compile : String → Json → Option Schema
  pub uuid_text : ℕ → String
  pub marshals : List NodeRecord → Bool
  pub save_message : SaveError → String
  pub graph_message : StoreError → String
  pub range_order : List ℕ → List ℕ
  pub fair : IsRangeOrder range_order

module _ {Schema Json : Type 0} (lib : Libraries Schema Json) where
  abbrev pub updated : ℕ → Option ℕ → Body UpdateWorkflowRequest → World → World
  updated fresh path body w =
      (update lib.trim_space lib.parse_json lib.is_valid lib.compile lib.uuid_text lib.marshals
        lib.save_message fresh path body w).1

  abbrev pub published_by : Option ℕ → World → World
  published_by path w =
      (publish_workflow lib.trim_space lib.parse_json lib.is_valid lib.compile lib.range_order
        lib.graph_message path w).1

  pub data Step (s t : World) : Type 0 where
    creates :
        (i v : ℕ) (body : Body CreateWorkflowRequest) (faults : List Bool)
        → IsFreshVersion v s.db
        → t ≡ (create i v body (failing faults s)).1
        → Step s t
    updates :
        (fresh : ℕ) (path : Option ℕ) (body : Body UpdateWorkflowRequest) (faults : List Bool)
        → IsFreshVersion fresh s.db
        → t ≡ updated fresh path body (failing faults s)
        → Step s t
    publishes :
        (path : Option ℕ) (faults : List Bool) → t ≡ published_by path (failing faults s) → Step s t
    archives :
        (path : Option ℕ) (faults : List Bool) → t ≡ (archive path (failing faults s)).1 → Step s t
    elsewhere : SameTables s.db t.db → Step s t

  pub data Reach (s : World) : World → Type 0 where
    stays : Reach s s
    steps : {t u : World} → Reach s t → Step t u → Reach s u

  same-Keeps : (x y : Db) → SameTables x y → IsKept x → Keeps x y
  same-Keeps x y e k = record {
    kept = record {
      heads = rw (e.workflows, e.versions) k.heads;
      valid = rw (e.versions, e.node_types, e.nodes, e.edges) k.valid;
    };
    frozen = λ u p. (
      rw e.versions p,
      record { types = e.node_types; nodes = rw e.nodes refl; edges = rw e.edges refl },
    );
  }

  Step-Keeps : {s t : World} → Step s t → IsKept s.db → Keeps s.db t.db
  Step-Keeps {s} (creates i v body faults f e) k =
      rw e ((create-Ensures i v body (failing faults s)).1 k f)
  Step-Keeps {s} (updates fresh path body faults f e) k = rw e (
      (update-Ensures lib.trim_space lib.parse_json lib.is_valid lib.compile lib.uuid_text
          lib.marshals lib.save_message fresh path body (failing faults s)).1
        k f)
  Step-Keeps {s} (publishes path faults e) k = rw e (
      (publish_workflow-Ensures lib.trim_space lib.parse_json lib.is_valid lib.compile
          lib.range_order lib.fair lib.graph_message path (failing faults s)).1
        k)
  Step-Keeps {s} (archives path faults e) k = rw e ((archive-Ensures path (failing faults s)).1 k)
  Step-Keeps {s} {t} (elsewhere e) k = same-Keeps s.db t.db e k

  Reach-Keeps : {s t : World} → Reach s t → IsKept s.db → Keeps s.db t.db
  Reach-Keeps {s} stays k = Keeps-refl s.db k
  Reach-Keeps {s} (steps r st) k =
      let first = Reach-Keeps r k in Keeps-trans s.db _ _ first (Step-Keeps st first.kept)

abbrev pub HasNoWorkflow : Db → Type 0
HasNoWorkflow db = (db.workflows ≡ []) × (db.versions ≡ [])

empty-IsKept : (db : Db) → HasNoWorkflow db → IsKept db
empty-IsKept db (no_workflow, no_version) = record {
  heads = rw no_workflow tt;
  valid = rw no_version tt;
}

-- Start with no workflow and no version, and let requests create, update, publish and archive
-- workflows in any order, with any calls failing, where identifiers of new versions are fresh. Then
-- every published version has a publishable graph: one start node, the degrees and edge labels of
-- every node's type, no cycle, and every node reachable from the start node.
pub published-IsPublishable :
    {Schema Json : Type 0} (lib : Libraries Schema Json) (s t : World)
    → HasNoWorkflow s.db
    → Reach lib s t
    → (u : ℕ) → published_in u (stamps t.db) ≡ true
    → IsPublishable
        (to_publish_nodes (join_all_bounds t.db.node_types (nodes_of u t.db.nodes)))
        (to_publish_edges (edges_of u t.db.edges))
published-IsPublishable lib s t empty r u p =
    let k = (Reach-Keeps lib r (empty-IsKept s.db empty)).kept in
    let (q, valid, same, (at, e)) = published_in_iff u (stamps t.db) p (IsValid t.db) k.valid in
    subst (HasPublishableGraph t.db) same (valid at e)

-- Start with no workflow and no version, and let requests lead to a state `t` and then to a state
-- `z`, in any order, with any calls failing, where identifiers of new versions are fresh. Then every
-- version that is published in `t` is published in `z`, with the same nodes and the same edges.
pub published-frozen :
    {Schema Json : Type 0} (lib : Libraries Schema Json) (s t z : World)
    → HasNoWorkflow s.db
    → Reach lib s t
    → Reach lib t z
    → (u : ℕ) → published_in u (stamps t.db) ≡ true
    → (published_in u (stamps z.db) ≡ true)
      × (nodes_of u z.db.nodes ≡ nodes_of u t.db.nodes)
      × (edges_of u z.db.edges ≡ edges_of u t.db.edges)
published-frozen lib s t z empty r r' u p =
    let k = (Reach-Keeps lib r (empty-IsKept s.db empty)).kept in
    let (p', same) = (Reach-Keeps lib r' k).frozen u p in (p', same.nodes, same.edges)
