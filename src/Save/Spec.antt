-- ===== src/Save/Spec.antt =====
-- graph.go: what `validateGraph` is to accept, without reference to the order of its tests.
use orchex.Prelude.{
  ℕ, ◌<◌, String, ◌≡◌, ◌≢◌, ◌⊎◌, true, List, [], ◌∷◌, Option, some, Bool, All, count,
}
use orchex.Save.{Node, Edge, NodeTypes, config_text}

-- Any two members, at different positions, are related.
abbrev pub Pairwise : {A : Type 0} → (A → A → Type 0) → List A → Type 0
Pairwise R [] = Unit
Pairwise R (x ∷ xs) = All (R x) xs × Pairwise R xs

abbrev pub node_ids : List Node → List ℕ
node_ids [] = []
node_ids (n ∷ ns) = n.id ∷ node_ids ns

abbrev pub AreDifferentNodes : Node → Node → Type 0
AreDifferentNodes n m = (n.id ≢ m.id) × (n.name ≢ m.name)

abbrev pub IsDefault : String → Type 0
IsDefault label = (label ≡ "") ⊎ (label ≡ "default")

abbrev pub AreSameLabel : String → String → Type 0
AreSameLabel l m = (l ≡ m) ⊎ (IsDefault l × IsDefault m)

-- Two edges from one node have different labels, where no label stands for "default".
abbrev pub AreDifferentEdges : Edge → Edge → Type 0
AreDifferentEdges e d = (e.id ≢ d.id) × ¬ ((e.from ≡ d.from) × AreSameLabel e.label d.label)

-- An identifier, two ends among the nodes and one of the three labels or none.
abbrev pub IsSavableEdge : List ℕ → Edge → Type 0
IsSavableEdge nodes e =
    (e.id ≢ 0)
    × (0 < count e.from nodes)
    × (0 < count e.to nodes)
    × (IsDefault e.label ⊎ ((e.label ≡ "true") ⊎ (e.label ≡ "false")))

module _ {Schema Json : Type 0} (trim_space : String → String) (parse_json : String → Option Json)
    (is_valid : Schema → Json → Bool) where
  -- The configuration is JSON that fits the schema of the node's type.
  pub record HasValidConfig (types : NodeTypes Schema) (n : Node) : Type 0 where
    pub schema : Schema
    pub instance_ : Json
    pub has_schema : types.schema_by_name n.node_type ≡ some schema
    pub parses : parse_json (config_text n.config) ≡ some instance_
    pub fits : is_valid schema instance_ ≡ true

  abbrev pub IsSavableNode : NodeTypes Schema → Node → Type 0
  IsSavableNode types n =
      (n.id ≢ 0)
      × (trim_space n.name ≢ "")
      × ((i : ℕ) × (types.id_by_name n.node_type ≡ some i))
      × HasValidConfig types n

  pub record IsSavable (types : NodeTypes Schema) (nodes : List Node) (edges : List Edge)
      : Type 0 where
    pub good_nodes : All (IsSavableNode types) nodes
    pub different_nodes : Pairwise AreDifferentNodes nodes
    pub good_edges : All (IsSavableEdge (node_ids nodes)) edges
    pub different_edges : Pairwise AreDifferentEdges edges
