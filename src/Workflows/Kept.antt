-- ===== src/Workflows/Kept.antt =====
-- The tables of the builder service as save.go and publish.go keep them: a published version holds
-- a publishable graph, and a head that is published is the live version of its workflow.
use orchex.Prelude.{
  ℕ, ◌≡◌, refl, subst, ◌∙◌, inl, inr, Bool, true, false, not, ◌&&◌, ◌||◌, List, [], ◌∷◌, map,
  Option, none, some, arith, ◌==◌, ==_iff, Bool-cases, All,
}
use orchex.Store.Tables.{WorkflowRow, WorkflowVersion, Db}
use orchex.Store.RunQueries.{is_archived}
use orchex.Store.WorkflowQueries.{find_workflow, update_workflows, is_unpublished}
use orchex.Store.GraphWrites.{join_all_bounds, nodes_of, edges_of}
use orchex.Publish.Spec.{IsPublishable}
use orchex.Workflows.Publish.{to_publish_nodes, to_publish_edges}

-- What publishing reads of a version.
pub record Stamp : Type 0 where
  pub id : ℕ
  pub workflow_id : ℕ
  pub published_at : Option ℕ

abbrev pub stamp : WorkflowVersion → Stamp
stamp x = record { id = x.id; workflow_id = x.workflow_id; published_at = x.published_at }

abbrev pub stamps : Db → List Stamp
stamps db = map stamp db.versions

-- Whether a version is published.
abbrev pub published_in : ℕ → List Stamp → Bool
published_in u [] = false
published_in u (s ∷ ss) = (s.id == u && not (is_unpublished s.published_at)) || published_in u ss

-- The graph of the version `u` may be published.
abbrev pub HasPublishableGraph : Db → ℕ → Type 0
HasPublishableGraph db u =
    IsPublishable (to_publish_nodes (join_all_bounds db.node_types (nodes_of u db.nodes)))
      (to_publish_edges (edges_of u db.edges))

-- The head of a workflow is a version of its own, and live if it is published.
abbrev pub IsHeadOf : WorkflowRow → Stamp → Type 0
IsHeadOf w s =
    s.id ≡ w.latest_version_id
    → (s.workflow_id ≡ w.id)
      × ((t : ℕ) → s.published_at ≡ some t → w.latest_published_version_id ≡ some s.id)

abbrev pub HasHead : List Stamp → WorkflowRow → Type 0
HasHead ss w = is_archived w.status ≡ false → All (IsHeadOf w) ss

abbrev pub IsValid : Db → Stamp → Type 0
IsValid db s = (t : ℕ) → s.published_at ≡ some t → HasPublishableGraph db s.id

pub record IsKept (db : Db) : Type 0 where
  pub heads : All (HasHead (stamps db)) db.workflows
  pub valid : All (IsValid db) (stamps db)

-- The rows of the version `u` are as they were.
pub record HasSameRows (u : ℕ) (x y : Db) : Type 0 where
  pub types : y.node_types ≡ x.node_types
  pub nodes : nodes_of u y.nodes ≡ nodes_of u x.nodes
  pub edges : edges_of u y.edges ≡ edges_of u x.edges

-- What a transaction keeps: the state, and every published version with its rows.
pub record Keeps (x y : Db) : Type 0 where
  pub kept : IsKept y
  pub frozen :
      (u : ℕ)
      → published_in u (stamps x) ≡ true
      → (published_in u (stamps y) ≡ true) × HasSameRows u x y

pub Keeps-refl : (x : Db) → IsKept x → Keeps x x
Keeps-refl x k = record {
  kept = k;
  frozen = λ u p. (p, record { types = refl; nodes = refl; edges = refl });
}

pub Keeps-trans : (x y z : Db) → Keeps x y → Keeps y z → Keeps x z
Keeps-trans x y z a b = record {
  kept = b.kept;
  frozen = λ u p.
      let (p', r) = a.frozen u p in
      let (p'', r') = b.frozen u p' in
      (
        p'',
        record {
          types = r'.types ∙ r.types;
          nodes = r'.nodes ∙ r.nodes;
          edges = r'.edges ∙ r.edges;
        },
      );
}

pub same_rows-HasPublishableGraph :
    (u : ℕ) (x y : Db) → HasSameRows u x y → HasPublishableGraph x u → HasPublishableGraph y u
same_rows-HasPublishableGraph u x y r g = rw (r.types, r.nodes, r.edges) g

pub published_in_iff :
    (u : ℕ) (ss : List Stamp)
    → published_in u ss ≡ true
    → (P : Stamp → Type 0) → All P ss
    → (s : Stamp) × P s × (s.id ≡ u) × ((t : ℕ) × (s.published_at ≡ some t))
published_in_iff u [] p P a = cc
published_in_iff u (s ∷ ss) p P a = elim (Bool-cases (published_in u ss)) [
  | inl later ↦ published_in_iff u ss later P a.1
  | inr before ↦ here before s.published_at refl
]
  where
    here :
        published_in u ss ≡ false
        → (o : Option ℕ) → s.published_at ≡ o
        → (q : Stamp) × P q × (q.id ≡ u) × ((t : ℕ) × (q.published_at ≡ some t))
    here before none e = absurd (ground (arith, p, before, e))
    here before (some t) e = (s, a.0, ground (arith, p, before), (t, e))

pub find_workflow-found :
    (i : ℕ) (ws : List WorkflowRow) (w : WorkflowRow) (P : WorkflowRow → Type 0)
    → find_workflow i ws ≡ some w
    → All P ws
    → P w × (w.id ≡ i) × (is_archived w.status ≡ false)
find_workflow-found i [] w P h a = cc
find_workflow-found i (x ∷ xs) w P h a = elim (Bool-cases (x.id == i)) [
  | inr other ↦ find_workflow-found i xs w P (rw other at h) a.1
  | inl same ↦ elim (Bool-cases (is_archived x.status)) [
    | inl gone ↦ find_workflow-found i xs w P (rw (same, gone) at h) a.1
    | inr there ↦
        let e : some x ≡ some w = rw (same, there) at h in
        let d : x ≡ w = cc in
        subst (λ y. P y × (y.id ≡ i) × (is_archived y.status ≡ false)) d
          (a.0, (==_iff x.id i).0 same, there)
  ]
]

pub All-update :
    (P Q : WorkflowRow → Type 0) (i : ℕ) (f : WorkflowRow → WorkflowRow) (ws : List WorkflowRow)
    → ((w : WorkflowRow) → P w → w.id ≡ i → is_archived w.status ≡ false → Q (f w))
    → ((w : WorkflowRow) → P w → (w.id ≡ i → is_archived w.status ≡ true) → Q w)
    → All P ws
    → All Q (update_workflows i f ws)
All-update P Q i f [] hit miss a = tt
All-update P Q i f (w ∷ ws) hit miss a = elim (Bool-cases (w.id == i)) [
  | inr other ↦
      rw other (miss w a.0 (λ same. absurd (ground arith)), All-update P Q i f ws hit miss a.1)
  | inl same ↦ elim (Bool-cases (is_archived w.status)) [
    | inl gone ↦ rw (same, gone) (miss w a.0 (λ _. gone), All-update P Q i f ws hit miss a.1)
    | inr there ↦
        rw (same, there)
          (hit w a.0 ((==_iff w.id i).0 same) there, All-update P Q i f ws hit miss a.1)
  ]
]
