-- ===== src/Workflows/Published.antt =====
-- `PublishWorkflowHead` on the tables: the stamped version holds the graph that was checked.
use orchex.Prelude.{
  ℕ, ◌≡◌, refl, sym, subst, ◌∙◌, ap, inl, inr, true, List, [], ◌∷◌, map, some, arith, ◌==◌, ==_iff,
  Bool-cases, All,
}
use orchex.Store.Tables.{WorkflowRow, WorkflowVersion, Db}
use orchex.Store.RunQueries.{is_archived}
use orchex.Store.WorkflowQueries.{
  update_workflows, publish_row, stamp_version, is_draft, set_archived,
}
use orchex.Workflows.Kept.{
  Stamp, stamp, stamps, published_in, IsHeadOf, HasHead, IsValid, IsKept, HasPublishableGraph,
  Keeps, All-update,
}

module _ (v i now : ℕ) where
  All-stamp :
      (P Q : Stamp → Type 0) (xs : List WorkflowVersion)
      → ((s : Stamp) → P s → Q s)
      → ((s : Stamp)
          → P s
          → s.id ≡ v
          → s.workflow_id ≡ i
          → Q (record s { published_at = some now }))
      → All P (map stamp xs)
      → All Q (map stamp (stamp_version v i now xs))
  All-stamp P Q [] old new a = tt
  All-stamp P Q (x ∷ xs) old new a = elim (Bool-cases (is_draft v i x)) [
    | inr other ↦ rw other (old (stamp x) a.0, All-stamp P Q xs old new a.1)
    | inl same ↦ rw same (
      new (stamp x) a.0 (ground (arith, same)) (ground (arith, same)),
      All-stamp P Q xs old new a.1,
    )
  ]

  published_in-stamp :
      (u : ℕ) (xs : List WorkflowVersion)
      → published_in u (map stamp xs) ≡ true
      → published_in u (map stamp (stamp_version v i now xs)) ≡ true
  published_in-stamp u [] p = cc
  published_in-stamp u (x ∷ xs) p = elim (Bool-cases (is_draft v i x)) [
    | inr other ↦ rw other (ground (arith, published_in-stamp u xs))
    | inl same ↦ rw same (ground (arith, published_in-stamp u xs))
  ]

  -- A workflow that the update meets.
  met-HasHead :
      (ss : List WorkflowVersion) (w : WorkflowRow)
      → All (IsHeadOf w) (map stamp ss)
      → All (IsHeadOf (publish_row v now w)) (map stamp (stamp_version v i now ss))
  met-HasHead ss w h = elim (Bool-cases (w.latest_version_id == v)) [
    | inl same ↦
        let e : w.latest_version_id ≡ v = (==_iff w.latest_version_id v).0 same in
        rw same (
          All-stamp (IsHeadOf w) _ ss (λ s is own. ((is own).0, λ t at. ap some (sym e ∙ sym own)))
            (λ s is _ _ own. ((is own).0, λ t at. ap some (sym e ∙ sym own))) h)
    | inr other ↦ rw other (
        All-stamp (IsHeadOf w) (IsHeadOf w) ss (λ s is. is)
          (λ s is named _ own. absurd (ground (arith, other, named, own))) h)
  ]

  -- A workflow that it does not meet.
  missed-HasHead :
      (ss : List WorkflowVersion) (w : WorkflowRow)
      → (w.id ≡ i → is_archived w.status ≡ true)
      → HasHead (map stamp ss) w
      → HasHead (map stamp (stamp_version v i now ss)) w
  missed-HasHead ss w gone h alive =
      All-stamp (IsHeadOf w) (IsHeadOf w) ss (λ s is. is)
        (λ s is named mine own. absurd (cc (gone (sym (is own).0 ∙ mine), alive))) (h alive)

  pub publish-Keeps :
      (x : Db)
      → IsKept x
      → HasPublishableGraph x v
      → Keeps x (record x {
        workflows = update_workflows i (publish_row v now) x.workflows;
        versions = stamp_version v i now x.versions;
      })
  publish-Keeps x k graph = record {
    kept = record {
      heads =
          All-update (HasHead (stamps x)) (HasHead (map stamp (stamp_version v i now x.versions))) i
            _ x.workflows (λ w h same alive _. met-HasHead x.versions w (h alive))
            (λ w h gone. missed-HasHead x.versions w gone h) k.heads;
      valid =
          All-stamp (IsValid x) _ x.versions (λ s is. is)
            (λ s is named _ t e. subst (HasPublishableGraph x) (sym named) graph) k.valid;
    };
    frozen = λ u p.
        (published_in-stamp u x.versions p, record { types = refl; nodes = refl; edges = refl });
  }

-- `ArchiveWorkflow`
pub archive-Keeps :
    (i now : ℕ) (x : Db)
    → IsKept x
    → Keeps x (record x { workflows = update_workflows i (set_archived now) x.workflows })
archive-Keeps i now x k = record {
  kept = record {
    heads =
        All-update (HasHead (stamps x)) (HasHead (stamps x)) i _ x.workflows
          (λ w h same alive dead. cc) (λ w h _. h) k.heads;
    valid = k.valid;
  };
  frozen = λ u p. (p, record { types = refl; nodes = refl; edges = refl });
}
