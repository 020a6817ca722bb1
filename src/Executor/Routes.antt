-- ===== src/Executor/Routes.antt =====
-- conditional.go and publish_validate.go together: the label that a conditional node returns has
-- an edge.
use orchex.Prelude.{
  ℕ, ◌+◌, String, str_eq, eq_iff, ◌≡◌, ◌≢◌, ◌⊎◌, inl, inr, sym, ◌∙◌, subst, List, [], ◌∷◌, ◌++◌,
  Option, some, Bool, false, Bool-cases, arith, if◌then◌else◌, All, All-append,
}
use orchex.Result.{ok}
use orchex.Publish.Graph.{PublishNode, PublishEdge}
use orchex.Publish.Checks.{node_type_conditional, edge_label_true, edge_label_false}
use orchex.Publish.Spec.{HasLabels, inner_edges, labels_from}
use orchex.Publish.Validate.{validate_publish_graph}
use orchex.Publish.Correct.{validate_publish_graph-decides}
use orchex.GoMap.{IsRangeOrder}
use orchex.Worker.{ExecResult}
use orchex.Executor.{Json, Fields, executed, execute_conditional}
use orchex.Executor.Compare.{Compares}
use orchex.Executor.Conditional.{execute_conditional-Branches}

-- How often a label stands in a list.
abbrev pub times : String → List String → ℕ
times l [] = 0
times l (x ∷ xs) = (if str_eq x l then 1 else 0) + times l xs

differ : edge_label_true ≢ edge_label_false
differ e = cc ((eq_iff edge_label_true edge_label_false).1 e)

each_once :
    (t f l : String) (ls : List String)
    → t ≢ f
    → (ls ≡ t ∷ f ∷ []) ⊎ (ls ≡ f ∷ t ∷ [])
    → (l ≡ t) ⊎ (l ≡ f)
    → times l ls ≡ 1
each_once t f l ls d (inl order) (inl which) =
    rw (order, which) (ground (arith, eq_iff t t, eq_iff f t))
each_once t f l ls d (inl order) (inr which) =
    rw (order, which) (ground (arith, eq_iff f f, eq_iff t f))
each_once t f l ls d (inr order) (inl which) =
    rw (order, which) (ground (arith, eq_iff t t, eq_iff f t))
each_once t f l ls d (inr order) (inr which) =
    rw (order, which) (ground (arith, eq_iff f f, eq_iff t f))

-- The run goes on, by one of the two labels.
abbrev GoesOn : ExecResult → Type 0
GoesOn r = (r.completed ≡ false) × ((r.next_edge_label ≡ "true") ⊎ (r.next_edge_label ≡ "false"))

module _ (decode_config : String → Option String) (parse_json : String → Option Json)
    (marshal : Fields → Option String) (split : String → String → List String)
    (trim_space : String → String) (deep_equal : Json → Json → Bool) where
  label_of :
      {expression label : String} {input : Fields}
      → Compares decode_config parse_json marshal split trim_space deep_equal expression input label
      → (label ≡ "true") ⊎ (label ≡ "false")
  label_of c = elim (Bool-cases (deep_equal c.value c.expected)) [
    | inl same ↦ inl (c.equal same)
    | inr other ↦ inr (c.different other)
  ]

  returned_label :
      (config input : String) (r : ExecResult)
      → execute_conditional decode_config parse_json marshal split trim_space deep_equal config
          input
        ≡ executed r
      → (r.completed ≡ false) × ((r.next_edge_label ≡ "true") ⊎ (r.next_edge_label ≡ "false"))
  returned_label config input r h =
      elim (execute_conditional-Branches decode_config parse_json marshal split trim_space
        deep_equal config input) [
          | inl (_, _, _, _, inl (r', e, b)) ↦
              let same : r' ≡ r = cc (sym e ∙ h) in
              subst GoesOn same (b.goes_on, label_of b.compares_parts)
          | inl (_, _, _, _, inr (_, e, _, _)) ↦ cc (sym e ∙ h)
          | inr (_, e, _) ↦ cc (sym e ∙ h)
        ]

  -- On a graph that validatePublishGraph accepted, a conditional node that returns a result does not
  -- end the run, and exactly one of the edges from it to a node of the graph has the result's label.
  pub conditional_routes :
      (range_order : List ℕ → List ℕ) (nodes before after : List PublishNode) (n : PublishNode)
      (edges : List PublishEdge) (config input : String) (r : ExecResult)
      → IsRangeOrder range_order
      → validate_publish_graph range_order nodes edges ≡ some (ok tt)
      → nodes ≡ before ++ (n ∷ after)
      → n.type ≡ node_type_conditional
      → execute_conditional decode_config parse_json marshal split trim_space deep_equal config
          input
        ≡ executed r
      → (r.completed ≡ false)
        × (times r.next_edge_label (labels_from (inner_edges nodes edges) n.id) ≡ 1)
  conditional_routes range_order nodes before after n edges config input r o accepted place kind h =
      let (res, decided, (to, from)) = validate_publish_graph-decides range_order nodes edges o in
      let good = to (cc (sym decided ∙ accepted)) in
      let labels = subst (All (HasLabels (inner_edges nodes edges))) place good.labels in
      let (_, (here, _)) = All-append _ before (n ∷ after) labels in
      let (goes_on, which) = returned_label config input r h in
      (
        goes_on,
        each_once edge_label_true edge_label_false r.next_edge_label _ differ (here.0 kind) which,
      )
