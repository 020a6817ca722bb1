-- ===== src/Workflows/Lookups.antt =====
-- What the statements of save.go leave to be found in a version.
use orchex.Prelude.{
  ℕ, ◌≡◌, refl, sym, ◌∙◌, inl, inr, true, false, ◌&&◌, List, [], ◌∷◌, map, Option, none, some,
  arith, ◌==◌, Bool-cases, if◌then◌else◌, contains,
}
use orchex.Store.Tables.{StoredNode, EdgeRow}
use orchex.Store.GraphWrites.{
  upsert_node, upsert_all_nodes, drop_nodes, upsert_edge, upsert_all_edges, drop_edges,
}
use orchex.Save.Encode.{NodeRecord, EdgeRecord}

-- The row of a node, without its times.
abbrev pub node_record : StoredNode → NodeRecord
node_record n = record {
  id = n.id;
  node_type_id = n.node_type_id;
  name = n.name;
  config = n.config;
  position_x = n.position_x;
  position_y = n.position_y;
}

abbrev pub edge_record : EdgeRow → EdgeRecord
edge_record e = record {
  id = e.id;
  from_node_id = e.from_node_id;
  to_node_id = e.to_node_id;
  label = e.label;
}

-- The row with a key.
abbrev pub node_at : ℕ → ℕ → List StoredNode → Option NodeRecord
node_at v j [] = none
node_at v j (n ∷ ns) =
    let rest = node_at v j ns in
    if n.workflow_version_id == v && n.id == j then some (node_record n) else rest

abbrev pub edge_at : ℕ → ℕ → List EdgeRow → Option EdgeRecord
edge_at v j [] = none
edge_at v j (e ∷ es) =
    let rest = edge_at v j es in
    if e.workflow_version_id == v && e.id == j then some (edge_record e) else rest

abbrev pub or : {A : Type 0} → Option A → Option A → Option A
or none o = o
or (some a) o = some a

-- The last record with an identifier: it is the one that stays.
abbrev pub node_of : ℕ → List NodeRecord → Option NodeRecord
node_of j [] = none
node_of j (r ∷ rs) = or (node_of j rs) (if r.id == j then some r else none)

abbrev pub edge_of : ℕ → List EdgeRecord → Option EdgeRecord
edge_of j [] = none
edge_of j (r ∷ rs) = or (edge_of j rs) (if r.id == j then some r else none)

or_or : {A : Type 0} (o p q : Option A) → or (or o p) q ≡ or o (or p q)
or_or none p q = refl
or_or (some a) p q = refl

module _ (v j : ℕ) where
  node_at-upsert :
      (now : ℕ) (r : NodeRecord) (ns : List StoredNode)
      → node_at v j (upsert_node now v r ns)
        ≡ or (if r.id == j then some r else none) (node_at v j ns)
  node_at-upsert now r [] = ground arith
  node_at-upsert now r (n ∷ ns) = ground (arith, node_at-upsert now r ns)

  node_at-upsert_all :
      (now : ℕ) (rs : List NodeRecord) (ns : List StoredNode)
      → node_at v j (upsert_all_nodes now v rs ns) ≡ or (node_of j rs) (node_at v j ns)
  node_at-upsert_all now [] ns = refl
  node_at-upsert_all now (r ∷ rs) ns =
      node_at-upsert_all now rs (upsert_node now v r ns)
      ∙ rw (node_at-upsert now r ns) (sym (or_or (node_of j rs) _ (node_at v j ns)))

  node_at-drop :
      (ids : List ℕ) (ns : List StoredNode)
      → node_at v j (drop_nodes v ids ns) ≡ (if contains j ids then node_at v j ns else none)
  node_at-drop ids [] = ground arith
  node_at-drop ids (n ∷ ns) = ground (arith, node_at-drop ids ns)

  edge_at-upsert :
      (now : ℕ) (r : EdgeRecord) (es : List EdgeRow)
      → edge_at v j (upsert_edge now v r es)
        ≡ or (if r.id == j then some r else none) (edge_at v j es)
  edge_at-upsert now r [] = ground arith
  edge_at-upsert now r (e ∷ es) = ground (arith, edge_at-upsert now r es)

  edge_at-upsert_all :
      (now : ℕ) (rs : List EdgeRecord) (es : List EdgeRow)
      → edge_at v j (upsert_all_edges now v rs es) ≡ or (edge_of j rs) (edge_at v j es)
  edge_at-upsert_all now [] es = refl
  edge_at-upsert_all now (r ∷ rs) es =
      edge_at-upsert_all now rs (upsert_edge now v r es)
      ∙ rw (edge_at-upsert now r es) (sym (or_or (edge_of j rs) _ (edge_at v j es)))

  edge_at-drop :
      (ids : List ℕ) (es : List EdgeRow)
      → edge_at v j (drop_edges v ids es) ≡ (if contains j ids then edge_at v j es else none)
  edge_at-drop ids [] = ground arith
  edge_at-drop ids (e ∷ es) = ground (arith, edge_at-drop ids es)

node_of-absent :
    (j : ℕ) (rs : List NodeRecord) → contains j (map (λ r. r.id) rs) ≡ false → node_of j rs ≡ none
node_of-absent j [] h = refl
node_of-absent j (r ∷ rs) h = ground (arith, node_of-absent j rs)

node_of-present :
    (j : ℕ) (rs : List NodeRecord)
    → contains j (map (λ r. r.id) rs) ≡ true
    → (a : NodeRecord) × (node_of j rs ≡ some a)
node_of-present j [] h = cc
node_of-present j (r ∷ rs) h = elim (Bool-cases (contains j (map (λ r. r.id) rs))) [
  | inl later ↦ let (a, e) = node_of-present j rs later in (a, rw e refl)
  | inr last ↦ (r, rw (node_of-absent j rs last) (ground (arith, h, last)))
]

node_of-kept :
    (j : ℕ) (rs : List NodeRecord) (o : Option NodeRecord)
    → (if contains j (map (λ r. r.id) rs) then or (node_of j rs) o else none) ≡ node_of j rs
node_of-kept j rs o = elim (Bool-cases (contains j (map (λ r. r.id) rs))) [
  | inl there ↦ let (a, e) = node_of-present j rs there in rw (there, e) refl
  | inr gone ↦ rw gone (sym (node_of-absent j rs gone))
]

edge_of-absent :
    (j : ℕ) (rs : List EdgeRecord) → contains j (map (λ r. r.id) rs) ≡ false → edge_of j rs ≡ none
edge_of-absent j [] h = refl
edge_of-absent j (r ∷ rs) h = ground (arith, edge_of-absent j rs)

edge_of-present :
    (j : ℕ) (rs : List EdgeRecord)
    → contains j (map (λ r. r.id) rs) ≡ true
    → (a : EdgeRecord) × (edge_of j rs ≡ some a)
edge_of-present j [] h = cc
edge_of-present j (r ∷ rs) h = elim (Bool-cases (contains j (map (λ r. r.id) rs))) [
  | inl later ↦ let (a, e) = edge_of-present j rs later in (a, rw e refl)
  | inr last ↦ (r, rw (edge_of-absent j rs last) (ground (arith, h, last)))
]

edge_of-kept :
    (j : ℕ) (rs : List EdgeRecord) (o : Option EdgeRecord)
    → (if contains j (map (λ r. r.id) rs) then or (edge_of j rs) o else none) ≡ edge_of j rs
edge_of-kept j rs o = elim (Bool-cases (contains j (map (λ r. r.id) rs))) [
  | inl there ↦ let (a, e) = edge_of-present j rs there in rw (there, e) refl
  | inr gone ↦ rw gone (sym (edge_of-absent j rs gone))
]

-- After the rows are written and the others are deleted, a version holds exactly the rows.
pub node_at-written :
    (v j now : ℕ) (rs : List NodeRecord) (ns : List StoredNode)
    → node_at v j (drop_nodes v (map (λ r. r.id) rs) (upsert_all_nodes now v rs ns)) ≡ node_of j rs
node_at-written v j now rs ns =
    node_at-drop v j (map (λ r. r.id) rs) (upsert_all_nodes now v rs ns)
    ∙ rw (node_at-upsert_all v j now rs ns) (node_of-kept j rs (node_at v j ns))

pub edge_at-written :
    (v j now : ℕ) (rs : List EdgeRecord) (es : List EdgeRow)
    → edge_at v j (drop_edges v (map (λ r. r.id) rs) (upsert_all_edges now v rs es)) ≡ edge_of j rs
edge_at-written v j now rs es =
    edge_at-drop v j (map (λ r. r.id) rs) (upsert_all_edges now v rs es)
    ∙ rw (edge_at-upsert_all v j now rs es) (edge_of-kept j rs (edge_at v j es))
