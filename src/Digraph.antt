-- ===== src/Digraph.antt =====
-- Directed graphs as lists of arcs: the notions by which the theorems on graphs are stated.
pub mod Degrees
pub mod Walks
use orchex.Prelude.{ℕ, ◌+◌, ◌<◌, ◌≡◌, List, [], ◌∷◌, ◌==◌, if◌then◌else◌, count, ◌&&◌}

-- An arc (u, v) leads from u to v. An arc may occur more than once.
abbrev pub Arcs : Type 0
Arcs = List (ℕ × ℕ)

-- How often an arc occurs.
abbrev pub multiplicity : Arcs → ℕ → ℕ → ℕ
multiplicity [] u v = 0
multiplicity ((x, w) ∷ es) u v = (if x == u && w == v then 1 else 0) + multiplicity es u v

abbrev pub Arc : Arcs → ℕ → ℕ → Type 0
Arc es u v = 0 < multiplicity es u v

-- The heads of the arcs out of `u`, in order.
abbrev pub targets : Arcs → ℕ → List ℕ
targets [] u = []
targets ((x, w) ∷ es) u = let rest = targets es u in if x == u then w ∷ rest else rest

abbrev pub in_degree : Arcs → ℕ → ℕ
in_degree [] v = 0
in_degree ((x, w) ∷ es) v = (if w == v then 1 else 0) + in_degree es v

abbrev pub out_degree : Arcs → ℕ → ℕ
out_degree [] u = 0
out_degree ((x, w) ∷ es) u = (if x == u then 1 else 0) + out_degree es u

-- The walks from `u`.
pub data Walk (es : Arcs) (u : ℕ) : ℕ → Type 0 where
  here : Walk es u u
  step : {v w : ℕ} → Walk es u v → Arc es v w → Walk es u w

-- A closed walk with at least one arc.
abbrev pub Cycle : Arcs → Type 0
Cycle es = (u : ℕ) × (v : ℕ) × Arc es u v × Walk es v u

-- Every arc joins two of the vertices.
abbrev pub Within : List ℕ → Arcs → Type 0
Within vs es = (u v : ℕ) → Arc es u v → (0 < count u vs) × (0 < count v vs)
