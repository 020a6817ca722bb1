-- ===== src/Workflows/Drafts.antt =====
-- save.go on the tables: a draft is written, and no published version.
use orchex.Prelude.{
  ℕ, ◌≡◌, ◌≢◌, refl, sym, ◌∙◌, inl, inr, String, true, false, List, [], ◌∷◌, ◌++◌, map, ap, Option,
  some, arith, Bool-cases, All, All-map, All-join,
}
use orchex.Store.Tables.{WorkflowRow, Db}
use orchex.Store.WorkflowQueries.{update_workflows, new_version, set_saved}
use orchex.Workflows.Kept.{
  Stamp, stamp, stamps, published_in, published_in_iff, HasHead, IsValid, IsKept, HasSameRows,
  Keeps, same_rows-HasPublishableGraph, All-update,
}

-- The versions with the identifier `v` are unpublished and belong to the workflow `i`.
abbrev pub IsDraftOf : ℕ → ℕ → List Stamp → Type 0
IsDraftOf v i = All (λ s. s.id ≡ v → (s.workflow_id ≡ i) × ((t : ℕ) → s.published_at ≢ some t))

-- `gen_random_uuid()`: the identifier is of no version and of no head.
abbrev pub IsFreshVersion : ℕ → Db → Type 0
IsFreshVersion v db =
    All (λ s. s.id ≢ v) (stamps db) × All (λ w. w.latest_version_id ≢ v) db.workflows

-- Only rows of the version `v` change.
pub record Only (v : ℕ) (x y : Db) : Type 0 where
  pub workflows : y.workflows ≡ x.workflows
  pub stamped : stamps y ≡ stamps x
  pub rows : (u : ℕ) → u ≢ v → HasSameRows u x y

pub Only-trans : (v : ℕ) (x y z : Db) → Only v x y → Only v y z → Only v x z
Only-trans v x y z a b = record {
  workflows = b.workflows ∙ a.workflows;
  stamped = b.stamped ∙ a.stamped;
  rows = λ u ne.
      let r = a.rows u ne in
      let q = b.rows u ne in
      record { types = q.types ∙ r.types; nodes = q.nodes ∙ r.nodes; edges = q.edges ∙ r.edges };
}

IsDraftOf-unpublished : (v i : ℕ) (ss : List Stamp) → IsDraftOf v i ss → published_in v ss ≡ false
IsDraftOf-unpublished v i ss d = elim (Bool-cases (published_in v ss)) [
  | inr unpublished ↦ unpublished
  | inl p ↦ let (s, d', same, (t, e)) = published_in_iff v ss p _ d in absurd ((d' same).1 t e)
]

still-IsValid :
    (v : ℕ) (x y : Db) (ss : List Stamp)
    → published_in v ss ≡ false
    → ((u : ℕ) → u ≢ v → HasSameRows u x y)
    → All (IsValid x) ss
    → All (IsValid y) ss
still-IsValid v x y [] un rows a = tt
still-IsValid v x y (s ∷ ss) un rows a = (
  λ t e. same_rows-HasPublishableGraph s.id x y (rows s.id (other t e)) (a.0 t e),
  still-IsValid v x y ss (ground (arith, un)) rows a.1,
)
  where
    other : (t : ℕ) → s.published_at ≡ some t → s.id ≢ v
    other t e same = absurd (ground (arith, un, e, same))

pub Only-Keeps : (v i : ℕ) (x y : Db) → IsKept x → IsDraftOf v i (stamps x) → Only v x y → Keeps x y
Only-Keeps v i x y k d o =
    let un = IsDraftOf-unpublished v i (stamps x) d in
    record {
      kept = record {
        heads = rw (o.workflows, o.stamped) k.heads;
        valid = rw o.stamped (still-IsValid v x y (stamps x) un o.rows k.valid);
      };
      frozen = λ u p. (rw o.stamped p, o.rows u (λ same. absurd (ground (arith, un, p, same))));
    }

-- `UpdateWorkflow`
pub update-Keeps :
    (name : String) (description : Option String) (v i now : ℕ) (x : Db)
    → IsKept x
    → IsDraftOf v i (stamps x)
    → Keeps x
        (record x { workflows = update_workflows i (set_saved name description v now) x.workflows })
update-Keeps name description v i now x k d = record {
  kept = record {
    heads =
        All-update (HasHead (stamps x)) (HasHead (stamps x)) i _ x.workflows
          (λ w h same alive _.
            All-map (stamps x)
              (λ s own is. let (mine, un) = own is in (mine ∙ sym same, λ t e. absurd (un t e))) d)
          (λ w h _. h) k.heads;
    valid = k.valid;
  };
  frozen = λ u p. (p, record { types = refl; nodes = refl; edges = refl });
}

map-append : {A B : Type 0} (f : A → B) (xs ys : List A) → map f (xs ++ ys) ≡ map f xs ++ map f ys
map-append f [] ys = refl
map-append f (x ∷ xs) ys = ap (λ l. f x ∷ l) (map-append f xs ys)

published_in-append :
    (u : ℕ) (ss rs : List Stamp) → published_in u ss ≡ true → published_in u (ss ++ rs) ≡ true
published_in-append u [] rs p = cc
published_in-append u (s ∷ ss) rs p = ground (arith, published_in-append u ss rs)

-- A new version.
pub draft-IsDraftOf :
    (v i number now : ℕ) (x : Db)
    → IsFreshVersion v x
    → IsDraftOf v i
        (stamps (record x { versions = x.versions ++ (new_version v i number now ∷ []) }))
draft-IsDraftOf v i number now x f =
    rw (map-append stamp x.versions (new_version v i number now ∷ [])) (
      All-join _ (stamps x) (stamp (new_version v i number now) ∷ [])
        (All-map (stamps x) (λ s ne same. absurd (ne same)) f.0) ((λ _. (refl, λ t e. cc)), tt))

pub draft-Keeps :
    (v i number now : ℕ) (x : Db)
    → IsKept x
    → IsFreshVersion v x
    → Keeps x (record x { versions = x.versions ++ (new_version v i number now ∷ []) })
draft-Keeps v i number now x k f =
    let more = map-append stamp x.versions (new_version v i number now ∷ []) in
    record {
      kept = record {
        heads = rw more (with_draft x.workflows k.heads f.1);
        valid = rw more (
            All-join _ (stamps x) (stamp (new_version v i number now) ∷ []) k.valid
              ((λ t e. cc), tt));
      };
      frozen = λ u p. (
        rw more (published_in-append u (stamps x) (stamp (new_version v i number now) ∷ []) p),
        record { types = refl; nodes = refl; edges = refl },
      );
    }
  where
    with_draft :
        (ws : List WorkflowRow)
        → All (HasHead (stamps x)) ws
        → All (λ w. w.latest_version_id ≢ v) ws
        → All (HasHead (stamps x ++ (stamp (new_version v i number now) ∷ []))) ws
    with_draft [] h ne = tt
    with_draft (w ∷ ws) h ne = (
      λ alive.
          All-join _ (stamps x) (stamp (new_version v i number now) ∷ []) (h.0 alive)
            ((λ is. absurd (ne.0 (sym is))), tt),
      with_draft ws h.1 ne.1,
    )
