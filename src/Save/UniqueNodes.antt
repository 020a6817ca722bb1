-- ===== src/Save/UniqueNodes.antt =====
-- graph.go: `uniqueNodes` accepts exactly the savable nodes with different identifiers and names.
use orchex.Prelude.{
  ℕ, ◌+◌, String, ◌≡◌, ◌≢◌, ◌↔◌, inl, inr, refl, sym, ◌∙◌, Bool, true, List, [], ◌∷◌, Option, arith,
  count, All, All-map, Option-cases,
}
use orchex.Result.{ok}
use orchex.Save.{Node, NodeTypes, config_text, validate_config, check_node, unique_nodes}
use orchex.Save.Spec.{Pairwise, node_ids, AreDifferentNodes, HasValidConfig, IsSavableNode}
use orchex.Save.Guards.{
  then_iff, both_iff, is_zero_iff, seen_iff, text_iff, fail_if_none_iff, absent_iff, All-and,
}

-- A node whose identifier and name were not seen before.
abbrev pub IsNewNode : List ℕ → List (String × ℕ) → Node → Type 0
IsNewNode seen_ids names n =
    (count n.id seen_ids ≡ 0) × All (λ (p : String × ℕ). p.0 ≢ n.name) names

IsNewNode-cons :
    (seen_ids : List ℕ) (names : List (String × ℕ)) (n m : Node)
    → IsNewNode (n.id ∷ seen_ids) ((n.name, n.id) ∷ names) m
      ↔ (AreDifferentNodes n m × IsNewNode seen_ids names m)
IsNewNode-cons seen_ids names n m = ground arith

-- The set of the identifiers after the loop.
abbrev pub gather : List Node → List ℕ → List ℕ
gather [] seen_ids = seen_ids
gather (n ∷ ns) seen_ids = gather ns (n.id ∷ seen_ids)

pub count-gather :
    (v : ℕ) (ns : List Node) (l : List ℕ)
    → count v (gather ns l) ≡ count v l + count v (node_ids ns)
count-gather v [] l = omega arith
count-gather v (n ∷ ns) l = omega (arith, count-gather v ns (n.id ∷ l))

module _ {Schema Json : Type 0} (trim_space : String → String) (parse_json : String → Option Json)
    (is_valid : Schema → Json → Bool) where
  config_iff :
      (types : NodeTypes Schema) (n : Node)
      → (validate_config trim_space parse_json is_valid types n ≡ ok tt)
        ↔ HasValidConfig trim_space parse_json is_valid types n
  config_iff types n = elim (Option-cases (types.schema_by_name n.node_type)) [
    | inl missing ↦ rw missing (λ h. cc, λ h. cc (sym missing ∙ h.has_schema))
    | inr (sch, found) ↦ rw found (elim (Option-cases (parse_json (config_text n.config))) [
      | inl bad ↦ rw bad (λ h. cc, λ h. cc (sym bad ∙ h.parses))
      | inr (inst, read) ↦ rw read (
        λ h. record {
          schema = sch;
          instance_ = inst;
          has_schema = found;
          parses = read;
          fits = ground arith;
        },
        λ h.
            let same : is_valid sch inst ≡ true =
              cc (sym found ∙ h.has_schema, sym read ∙ h.parses, h.fits) in
            rw same refl,
      )
    ])
  ]

  node_iff :
      (types : NodeTypes Schema) (seen_ids : List ℕ) (names : List (String × ℕ)) (n : Node)
      → (check_node trim_space parse_json is_valid types seen_ids names n ≡ ok tt)
        ↔ (IsSavableNode trim_space parse_json is_valid types n × IsNewNode seen_ids names n)
  unfolding check_node
  node_iff types seen_ids names n =
      let (split, join) = both_iff _ _ (is_zero_iff n.id _) (
        both_iff _ _ (seen_iff n.id seen_ids _) (
          both_iff _ _ (text_iff (trim_space n.name) "" _) (
            both_iff _ _ (absent_iff n.name names _) (
              both_iff _ _ (fail_if_none_iff (types.id_by_name n.node_type) _)
                (config_iff types n))))) in
      (
        λ h. let (a, (b, (c, (d, (e, f))))) = split h in ((a, c, e, f), (b, d)),
        λ h. let ((a, c, e, f), (b, d)) = h in join (a, (b, (c, (d, (e, f))))),
      )

  abbrev AreGoodNodes : NodeTypes Schema → List ℕ → List (String × ℕ) → List Node → Type 0
  AreGoodNodes types seen_ids names ns =
      All (IsSavableNode trim_space parse_json is_valid types) ns
      × All (IsNewNode seen_ids names) ns
      × Pairwise AreDifferentNodes ns

  good-cons :
      (types : NodeTypes Schema) (seen_ids : List ℕ) (names : List (String × ℕ)) (n : Node)
      (ns : List Node)
      → AreGoodNodes types seen_ids names (n ∷ ns) ↔ (
          (IsSavableNode trim_space parse_json is_valid types n × IsNewNode seen_ids names n)
          × AreGoodNodes types (n.id ∷ seen_ids) ((n.name, n.id) ∷ names) ns)
  good-cons types seen_ids names n ns =
      let (split, join) = All-and (AreDifferentNodes n) (IsNewNode seen_ids names) ns in
      (
        λ h.
            let ((a, as'), (b, bs), (d, ds)) = h in
            (
              (a, b),
              (as', All-map ns (λ m. (IsNewNode-cons seen_ids names n m).1) (join (d, bs)), ds),
            ),
        λ h.
            let ((a, b), (as', news, ds)) = h in
            let (d, bs) = split (All-map ns (λ m. (IsNewNode-cons seen_ids names n m).0) news) in
            ((a, as'), (b, bs), (d, ds)),
      )

  pub unique_nodes_iff :
      (types : NodeTypes Schema) (seen_ids : List ℕ) (names : List (String × ℕ)) (ns : List Node)
      (out : List ℕ)
      → (unique_nodes trim_space parse_json is_valid types seen_ids names ns ≡ ok out)
        ↔ (AreGoodNodes types seen_ids names ns × (gather ns seen_ids ≡ out))
  unfolding unique_nodes
  unique_nodes_iff types seen_ids names [] out = (λ h. ((tt, tt, tt), cc), λ h. cc)
  unique_nodes_iff types seen_ids names (n ∷ ns) out =
      let (split, join) = then_iff _ _ out in
      let (sound, full) = node_iff types seen_ids names n in
      let (sound', full') =
        unique_nodes_iff types (n.id ∷ seen_ids) ((n.name, n.id) ∷ names) ns out in
      let (out_of, into) = good-cons types seen_ids names n ns in
      (
        λ h. let (a, b) = split h in let (good, same) = sound' b in (into (sound a, good), same),
        λ h. let (a, b) = out_of h.0 in join (full a, full' (b, h.1)),
      )
