-- ===== src/Save/UniqueEdges.antt =====
-- graph.go: `uniqueEdges` accepts exactly the savable edges with different identifiers, and
-- different labels where the source is the same.
use orchex.Prelude.{ℕ, String, ◌≡◌, ◌≢◌, ◌↔◌, refl, List, [], ◌∷◌, arith, count, All, All-map}
use orchex.Result.{ok}
use orchex.Save.{Edge, edge_label, source_label, check_edge, unique_edges}
use orchex.Save.Key.{HasNoColon, key_parts}
use orchex.Save.Spec.{AreSameLabel, Pairwise, AreDifferentEdges, IsSavableEdge}
use orchex.Save.Guards.{
  both_iff, is_zero_iff, seen_iff, known_iff, label_iff, same_label_iff, absent_iff, All-and,
}

-- An edge whose identifier and key were not seen before.
abbrev pub IsNewEdge : (ℕ → String) → List ℕ → List (String × ℕ) → Edge → Type 0
IsNewEdge uuid_text seen_ids by_source_label e =
    (count e.id seen_ids ≡ 0)
    × All (λ (p : String × ℕ). p.0 ≢ source_label uuid_text e) by_source_label

module _ (uuid_text : ℕ → String) (text_injective : (a b : ℕ) → uuid_text a ≡ uuid_text b → a ≡ b)
    (no_colon : (a : ℕ) → HasNoColon (uuid_text a)) where
  key_iff :
      (e d : Edge)
      → (source_label uuid_text e ≡ source_label uuid_text d)
        ↔ ((e.from ≡ d.from) × AreSameLabel e.label d.label)
  key_iff e d =
      let (to_same, of_same) = same_label_iff e.label d.label in
      (
        λ h.
            let (same_text, same_label) =
              key_parts (uuid_text e.from) (uuid_text d.from) (edge_label e.label)
                (edge_label d.label) (no_colon e.from) (no_colon d.from) h in
            (text_injective e.from d.from same_text, to_same same_label),
        λ h. let (from, label) = h in rw (from, of_same label) refl,
      )

  IsNewEdge-cons :
      (seen_ids : List ℕ) (keys : List (String × ℕ)) (e d : Edge)
      → IsNewEdge uuid_text (e.id ∷ seen_ids) ((source_label uuid_text e, e.id) ∷ keys) d
        ↔ (AreDifferentEdges e d × IsNewEdge uuid_text seen_ids keys d)
  IsNewEdge-cons seen_ids keys e d = ground (arith, key_iff e d)

  edge_iff :
      (nodes seen_ids : List ℕ) (keys : List (String × ℕ)) (e : Edge)
      → (check_edge uuid_text nodes seen_ids keys e ≡ ok tt)
        ↔ (IsSavableEdge nodes e × IsNewEdge uuid_text seen_ids keys e)
  unfolding check_edge
  edge_iff nodes seen_ids keys e =
      let (split, join) = both_iff _ _ (is_zero_iff e.id _) (
        both_iff _ _ (seen_iff e.id seen_ids _) (
          both_iff _ _ (known_iff e.from nodes _) (
            both_iff _ _ (known_iff e.to nodes _) (
              both_iff _ _ (label_iff e.label _)
                (absent_iff (source_label uuid_text e) keys _))))) in
      (
        λ h. let (a, (b, (c, (d, (l, f))))) = split h in ((a, c, d, l), (b, f)),
        λ h. let ((a, c, d, l), (b, f)) = h in join (a, (b, (c, (d, (l, f))))),
      )

  abbrev AreGoodEdges : List ℕ → List ℕ → List (String × ℕ) → List Edge → Type 0
  AreGoodEdges nodes seen_ids keys es =
      All (IsSavableEdge nodes) es
      × All (IsNewEdge uuid_text seen_ids keys) es
      × Pairwise AreDifferentEdges es

  good-cons :
      (nodes seen_ids : List ℕ) (keys : List (String × ℕ)) (e : Edge) (es : List Edge)
      → AreGoodEdges nodes seen_ids keys (e ∷ es) ↔ (
          (IsSavableEdge nodes e × IsNewEdge uuid_text seen_ids keys e)
          × AreGoodEdges nodes (e.id ∷ seen_ids) ((source_label uuid_text e, e.id) ∷ keys) es)
  good-cons nodes seen_ids keys e es =
      let (split, join) = All-and (AreDifferentEdges e) (IsNewEdge uuid_text seen_ids keys) es in
      (
        λ h.
            let ((a, as'), (b, bs), (d, ds)) = h in
            (
              (a, b),
              (as', All-map es (λ m. (IsNewEdge-cons seen_ids keys e m).1) (join (d, bs)), ds),
            ),
        λ h.
            let ((a, b), (as', news, ds)) = h in
            let (d, bs) = split (All-map es (λ m. (IsNewEdge-cons seen_ids keys e m).0) news) in
            ((a, as'), (b, bs), (d, ds)),
      )

  pub unique_edges_iff :
      (nodes seen_ids : List ℕ) (keys : List (String × ℕ)) (es : List Edge)
      → (unique_edges uuid_text nodes seen_ids keys es ≡ ok tt)
        ↔ AreGoodEdges nodes seen_ids keys es
  unfolding unique_edges
  unique_edges_iff nodes seen_ids keys [] = (λ h. (tt, tt, tt), λ h. refl)
  unique_edges_iff nodes seen_ids keys (e ∷ es) =
      let (split, join) =
        both_iff _ _ (edge_iff nodes seen_ids keys e)
          (unique_edges_iff nodes (e.id ∷ seen_ids) ((source_label uuid_text e, e.id) ∷ keys) es) in
      let (out_of, into) = good-cons nodes seen_ids keys e es in
      (λ h. into (split h), λ h. join (out_of h))
