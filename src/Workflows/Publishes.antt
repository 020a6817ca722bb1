-- ===== src/Workflows/Publishes.antt =====
-- publish.go: a publication keeps the published versions, and publishes what was checked.
use orchex.Prelude.{
  ℕ, ◌≡◌, refl, sym, subst, inl, inr, String, Bool, List, [], ◌∷◌, Option, none, some, ◌==◌,
  Bool-cases,
}
use orchex.Result.{Result, ok, err}
use orchex.Store.Tables.{WorkflowRow, WorkflowVersion, EdgeRow, Db, World}
use orchex.Store.Effects.{
  StoreError, bad_types, unavailable, invalid_graph, missing_live_pointers, M, ◌>>=◌, ◌>>◌,
  statement,
}
use orchex.Store.Effects.Calls.{
  Does, Ensures, statement-Does, >>=-Does, in_tx-Writes, Writes-Ensures, still-Does,
}
use orchex.Store.WorkflowQueries.{
  LockedWorkflow, PublishedHead, lock_workflow_for_publish, publish_workflow_head, publish_rows,
  locked, with_head, find_version, find_workflow, find_draft, set_published, update_workflows,
  publish_row, stamp_version,
}
use orchex.Store.GraphWrites.{
  PublishRow, list_nodes_for_publish, list_edges_for_publish, list_node_types, join_all_bounds,
  nodes_of, edges_of,
}
use orchex.Publish.Graph.{bad_config}
use orchex.Publish.Validate.{Verdict, validate_publish_graph}
use orchex.Publish.Correct.{validate_publish_graph-decides}
use orchex.GoMap.{IsRangeOrder}
use orchex.Save.{SaveError, NodeTypes, validate_config}
use orchex.Save.Load.{LoadError, load_node_types}
use orchex.Workflows.{PublishWorkflowResponse}
use orchex.Workflows.Publish.{
  to_publish_nodes, to_publish_edges, published_before, published_now, accept, loaded_types,
  valid_config, config_node, validate_configs, publish_draft, publish_locked, publish,
}
use orchex.Workflows.Kept.{IsKept, HasPublishableGraph, Keeps, Keeps-refl}
use orchex.Workflows.Published.{publish-Keeps}

abbrev Stays : {A : Type 0} → Db → A → Db → Type 0
Stays x a y = y ≡ x

Stays-then :
    {A B : Type 0} (Q : Db → B → Db → Type 0) (m : M StoreError A) (k : A → M StoreError B)
    → Does Stays m
    → ((a : A) → Does Q (k a))
    → Does Q (m >>= k)
Stays-then Q m k = >>=-Does Stays (λ _. Q) Q m k (λ x a y b z same q. subst (λ d. Q d b z) same q)

returns-Does : {A : Type 0} (r : Result StoreError A) → Does Stays (λ (w : World). (r, w))
returns-Does r = still-Does Stays r (λ x a e. refl)

-- A query reads the database.
reads-Does :
    {A : Type 0} (f : Db → A)
    → Does (λ x a y. (y ≡ x) × (a ≡ f x)) (statement (λ db. ok (f db, db)))
reads-Does f = statement-Does (λ x a y. (y ≡ x) × (a ≡ f x)) _ (λ x a y h. (cc, cc))

locked-Stays :
    (x : Db) (o : Option WorkflowRow) (a : LockedWorkflow) (y : Db) → locked x o ≡ ok (a, y) → y ≡ x
locked-Stays x none a y h = cc
locked-Stays x (some w) a y h = go (find_version w.latest_version_id x.versions) h
  where
    go : (o : Option WorkflowVersion) → with_head x w o ≡ ok (a, y) → y ≡ x
    go none h = cc
    go (some v) h = cc

lock-Does : (i : ℕ) → Does Stays (lock_workflow_for_publish i)
unfolding lock_workflow_for_publish
lock-Does i = statement-Does Stays _ (λ x a y h. locked-Stays x _ a y h)

before-Does :
    (w : WorkflowRow) (version at : ℕ) (o p : Option ℕ)
    → Does Stays (published_before w version at o p)
before-Does w version at none p = returns-Does (err missing_live_pointers)
before-Does w version at (some live) none = returns-Does (err missing_live_pointers)
before-Does w version at (some live) (some last) = returns-Does _

now-Does :
    (w : WorkflowRow) (version : ℕ) (o p : Option ℕ) → Does Stays (published_now w version o p)
now-Does w version none p = returns-Does (err missing_live_pointers)
now-Does w version (some live) none = returns-Does (err missing_live_pointers)
now-Does w version (some live) (some last) = returns-Does _

abbrev Accepts : {A : Type 0} → Verdict → Db → A → Db → Type 0
Accepts verdict x a y = (y ≡ x) × (verdict ≡ some (ok tt))

accept-Does : (verdict : Verdict) → Does (Accepts verdict) (accept verdict)
accept-Does none = still-Does (Accepts none) (err unavailable) (λ x a e. cc)
accept-Does (some (err r)) =
    still-Does (Accepts (some (err r))) (err (invalid_graph r)) (λ x a e. cc)
accept-Does (some (ok u)) = still-Does (Accepts (some (ok u))) (ok tt) (λ x a e. (refl, refl))

types-Does :
    {Schema : Type 0} (r : Result LoadError (NodeTypes Schema)) → Does Stays (loaded_types r)
types-Does (err e) = returns-Does (err bad_types)
types-Does (ok types) = returns-Does (ok types)

-- The statement that publishes, where the graph of the version was checked.
Publishes : {A : Type 0} → ℕ → Db → A → Db → Type 0
Publishes v x a y = HasPublishableGraph x v → IsKept x → Keeps x y

abbrev published_db : Db → ℕ → ℕ → Db
published_db x v i = record x {
  workflows = update_workflows i (publish_row v x.now) x.workflows;
  versions = stamp_version v i x.now x.versions;
}

head-Does : (v i : ℕ) → Does (Publishes v) (publish_workflow_head v i)
unfolding publish_workflow_head Publishes
head-Does v i = statement-Does (Publishes v) _ (λ x a y h graph k.
    go x a y (find_draft v i x.versions) (find_workflow i x.workflows) h graph k)
  where
    go :
        (x : Db) (a : PublishedHead) (y : Db) (o : Option WorkflowVersion) (p : Option WorkflowRow)
        → publish_rows x v i o p ≡ ok (a, y)
        → HasPublishableGraph x v
        → IsKept x
        → Keeps x y
    go x a y none p h graph k = cc
    go x a y (some d) none h graph k = cc
    go x a y (some d) (some w) h graph k = elim (Bool-cases (w.latest_version_id == v)) [
      | inr other ↦ cc (rw other at h)
      | inl same ↦
          let e : ok (
            record { workflow = set_published v x.now w; published_version = d.version },
            published_db x v i,
          )
              ≡ ok (a, y) =
            rw same at h in
          let after : published_db x v i ≡ y = cc e in
          subst (Keeps x) after (publish-Keeps v i x.now x k graph)
    ]

module _ {Schema Json : Type 0} (trim_space : String → String) (parse_json : String → Option Json)
    (is_valid : Schema → Json → Bool) where
  configs-Does :
      (types : NodeTypes Schema) (rows : List PublishRow)
      → Does Stays (validate_configs trim_space parse_json is_valid types rows)
  configs-Does types [] = returns-Does (ok tt)
  configs-Does types (r ∷ rs) =
      Stays-then Stays
        (valid_config r.id (validate_config trim_space parse_json is_valid types (config_node r))) _
        (config-Does r.id _) (λ _. configs-Does types rs)
    where
      config-Does : (i : ℕ) (r : Result SaveError (Unit {0})) → Does Stays (valid_config i r)
      config-Does i (err e) = returns-Does (err (invalid_graph (bad_config i)))
      config-Does i (ok u) = returns-Does (ok tt)

  module _ (compile : String → Json → Option Schema) (range_order : List ℕ → List ℕ)
      (fair : IsRangeOrder range_order) where
    -- What the check accepts may be published.
    accepted-HasPublishableGraph :
        (x : Db) (v : ℕ)
        → validate_publish_graph range_order
            (to_publish_nodes (join_all_bounds x.node_types (nodes_of v x.nodes)))
            (to_publish_edges (edges_of v x.edges))
          ≡ some (ok tt)
        → HasPublishableGraph x v
    accepted-HasPublishableGraph x v e =
        let (res, e', (to, from)) =
          validate_publish_graph-decides range_order
            (to_publish_nodes (join_all_bounds x.node_types (nodes_of v x.nodes)))
            (to_publish_edges (edges_of v x.edges)) fair in
        to (cc (e, e'))

    -- The end of a publication, with the rows that were read.
    abbrev Checks : {A : Type 0} → ℕ → List PublishRow → List EdgeRow → Db → A → Db → Type 0
    Checks v rows es x a y =
        rows ≡ join_all_bounds x.node_types (nodes_of v x.nodes)
        → es ≡ edges_of v x.edges
        → IsKept x
        → Keeps x y

    abbrev verdict_on : List PublishRow → List EdgeRow → Verdict
    verdict_on rows es =
        validate_publish_graph range_order (to_publish_nodes rows) (to_publish_edges es)

    publish_head-Does :
        (v i : ℕ)
        → Does
            (λ x (a : PublishWorkflowResponse) y. Publishes v x a y)
            (publish_workflow_head v i >>= λ head'.
              published_now head'.workflow head'.published_version
                head'.workflow.latest_published_version_id head'.workflow.last_published_at)
    unfolding Publishes
    publish_head-Does v i =
        >>=-Does (Publishes v) (λ _. Stays) (Publishes v) (publish_workflow_head v i) _
          (λ x a y b z done same graph k. subst (Keeps x) (sym same) (done graph k)) (head-Does v i)
          (λ head'. now-Does head'.workflow head'.published_version _ _)

    checked-Does :
        (v i : ℕ) (rows : List PublishRow) (es : List EdgeRow)
        → Does
            (λ x (a : PublishWorkflowResponse) y. Checks v rows es x a y)
            (accept (verdict_on rows es)
              >> (publish_workflow_head v i >>= λ head'.
                  published_now head'.workflow head'.published_version
                    head'.workflow.latest_published_version_id head'.workflow.last_published_at))
    unfolding Publishes
    checked-Does v i rows es =
        >>=-Does (Accepts (verdict_on rows es)) (λ _. Publishes v) (Checks v rows es)
          (accept (verdict_on rows es)) _
          (λ x a y b z (same, fine) done e e' k.
            subst (λ d. HasPublishableGraph d v → IsKept d → Keeps d z) same done
              (accepted-HasPublishableGraph x v (rw (e, e') at fine)) k)
          (accept-Does (verdict_on rows es)) (λ _. publish_head-Does v i)

    draft-Does :
        (head : LockedWorkflow)
        → Does
            (λ x (a : PublishWorkflowResponse) y. IsKept x → Keeps x y)
            (publish_draft trim_space parse_json is_valid compile range_order head)
    unfolding list_nodes_for_publish list_edges_for_publish list_node_types
    draft-Does head =
        let v = head.workflow.latest_version_id in
        >>=-Does (λ x a y. (y ≡ x) × (a ≡ join_all_bounds x.node_types (nodes_of v x.nodes)))
          (λ rows x (b : PublishWorkflowResponse) y.
            rows ≡ join_all_bounds x.node_types (nodes_of v x.nodes) → IsKept x → Keeps x y)
          (λ x b y. IsKept x → Keeps x y) (list_nodes_for_publish v) _
          (λ x a y b z (same, is) done.
            subst
              (λ d. a ≡ join_all_bounds d.node_types (nodes_of v d.nodes) → IsKept d → Keeps d z)
              same done is)
          (reads-Does (λ x. join_all_bounds x.node_types (nodes_of v x.nodes)))
          (λ rows.
            >>=-Does (λ x a y. (y ≡ x) × (a ≡ edges_of v x.edges)) (Checks v rows)
              (λ x (b : PublishWorkflowResponse) y.
                rows ≡ join_all_bounds x.node_types (nodes_of v x.nodes) → IsKept x → Keeps x y)
              (list_edges_for_publish v) _
              (λ x a y b z (same, is) done e. subst (λ d. Checks v rows a d b z) same done e is)
              (reads-Does (λ x. edges_of v x.edges))
              (λ es.
                Stays-then (Checks v rows es) list_node_types _
                  (statement-Does Stays _ (λ x a y h. cc))
                  (λ type_rows.
                    Stays-then (Checks v rows es)
                      (loaded_types (load_node_types parse_json compile type_rows)) _
                      (types-Does (load_node_types parse_json compile type_rows))
                      (λ types.
                        Stays-then (Checks v rows es)
                          (validate_configs trim_space parse_json is_valid types rows) _
                          (configs-Does types rows)
                          (λ _. checked-Does v head.workflow.id rows es)))))

    locked-Does :
        (head : LockedWorkflow) (o : Option ℕ)
        → Does
            (λ x (a : PublishWorkflowResponse) y. IsKept x → Keeps x y)
            (publish_locked trim_space parse_json is_valid compile range_order head o)
    locked-Does head none = draft-Does head
    locked-Does head (some at) = λ w.
        let (q, d) =
          before-Does head.workflow head.head_version at head.workflow.latest_published_version_id
            head.workflow.last_published_at w in
        (q, λ a e k. subst (Keeps w.db) (sym (d a e)) (Keeps-refl w.db k))

    pub publish-Ensures :
        (i : ℕ)
        → Ensures
            (λ x y. IsKept x → Keeps x y)
            (publish trim_space parse_json is_valid compile range_order i)
    unfolding publish
    publish-Ensures i =
        Writes-Ensures (λ x y. IsKept x → Keeps x y) _ Keeps-refl
          (in_tx-Writes (λ x y. IsKept x → Keeps x y) _
            (Stays-then (λ x (a : PublishWorkflowResponse) y. IsKept x → Keeps x y)
              (lock_workflow_for_publish i) _ (lock-Does i)
              (λ head. locked-Does head head.head_published_at)))
