-- ===== src/Digraph/Degrees.antt =====
-- Arcs counted by where they come from.
use orchex.Prelude.{
  ℕ, ◌+◌, ◌<◌, ◌≡◌, refl, inl, inr, List, [], ◌∷◌, arith, ◌==◌, if◌then◌else◌, count, contains,
  ◌&&◌, not, Bool-cases,
}
use orchex.Digraph.{Arcs, Arc, multiplicity, targets, in_degree}

-- The arcs into `v` that come from outside `P`.
abbrev pub in_degree_outside : Arcs → List ℕ → ℕ → ℕ
in_degree_outside [] P v = 0
in_degree_outside ((x, w) ∷ es) P v =
    (if w == v && not (contains x P) then 1 else 0) + in_degree_outside es P v

pub in_degree_outside-nil : (es : Arcs) (v : ℕ) → in_degree_outside es [] v ≡ in_degree es v
in_degree_outside-nil [] v = refl
in_degree_outside-nil ((x, w) ∷ es) v = ground (arith, in_degree_outside-nil es v)

pub count-targets : (es : Arcs) (u v : ℕ) → count v (targets es u) ≡ multiplicity es u v
count-targets [] u v = refl
count-targets ((x, w) ∷ es) u v = ground (arith, count-targets es u v)

-- A vertex that joins `P` takes its arcs along.
pub in_degree_outside-cons :
    (es : Arcs) (P : List ℕ) (u v : ℕ)
    → count u P ≡ 0
    → in_degree_outside es P v ≡ in_degree_outside es (u ∷ P) v + multiplicity es u v
in_degree_outside-cons [] P u v h = refl
in_degree_outside-cons ((x, w) ∷ es) P u v h = ground (arith, in_degree_outside-cons es P u v)

-- If no arc from outside is left, the sources of all arcs are in `P`.
pub source_of_outside :
    (es : Arcs) (P : List ℕ) (u v : ℕ) → in_degree_outside es P v ≡ 0 → Arc es u v → 0 < count u P
source_of_outside [] P u v z h = absurd (omega arith)
source_of_outside ((x, w) ∷ es) P u v z h = ground (arith, source_of_outside es P u v)

-- If an arc from outside is left, it can be found.
pub outside_source :
    (es : Arcs) (P : List ℕ) (v : ℕ)
    → 0 < in_degree_outside es P v
    → (u : ℕ) × Arc es u v × (count u P ≡ 0)
outside_source [] P v h = absurd (omega arith)
outside_source ((x, w) ∷ es) P v h = elim (Bool-cases (w == v && not (contains x P))) [
  | inl t ↦ (x, ground arith, ground arith)
  | inr f ↦ let (u, arc, out) = outside_source es P v (ground arith) in (u, ground arith, out)
]
