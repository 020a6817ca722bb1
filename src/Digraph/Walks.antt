-- ===== src/Digraph/Walks.antt =====
-- Walks, closure under predecessors, and the pigeonhole argument that finds a cycle.
use orchex.Prelude.{
  ℕ, zero, suc, ◌+◌, ◌≤◌, ◌<◌, ◌≡◌, inl, inr, List, [], ◌∷◌, arith, ◌==◌, count, contains, length,
  length-le_of_count, Bool-cases, ==_iff, subst,
}
use orchex.Digraph.{Arcs, Arc, Walk, here, step, Cycle}

pub Walk-cons : (es : Arcs) (u v : ℕ) {w : ℕ} → Arc es u v → Walk es v w → Walk es u w
Walk-cons es u v a here = step here a
Walk-cons es u v a (step p b) = step (Walk-cons es u v a p) b

-- Every vertex of the list has its predecessors further down: a topological order, read from the
-- end of the list.
abbrev pub IsTopological : Arcs → List ℕ → Type 0
IsTopological es [] = Unit
IsTopological es (v ∷ P) = ((u : ℕ) → Arc es u v → 0 < count u P) × IsTopological es P

abbrev IsClosed : Arcs → List ℕ → Type 0
IsClosed es P = (u v : ℕ) → Arc es u v → 0 < count v P → 0 < count u P

IsTopological-IsClosed : (es : Arcs) (P : List ℕ) → IsTopological es P → IsClosed es P
IsTopological-IsClosed es [] t u v a m = absurd (omega arith)
IsTopological-IsClosed es (x ∷ P) t u v a m = elim (Bool-cases (x == v)) [
  | inl same ↦
      let e : x ≡ v = (==_iff x v).0 same in
      let before : 0 < count u P = t.0 u (ground arith) in ground arith
  | inr other ↦
      let before : 0 < count u P = IsTopological-IsClosed es P t.1 u v a (ground arith) in
      ground arith
]

Walk-source :
    (es : Arcs) (P : List ℕ) (u : ℕ) {v : ℕ}
    → IsClosed es P
    → Walk es u v
    → 0 < count v P
    → 0 < count u P
Walk-source es P u c here m = m
Walk-source es P u c (step {v} {w} p a) m = Walk-source es P u c p (c v w a m)

-- No closed walk meets a vertex of a topologically ordered list without repetition.
pub IsTopological-no_cycle :
    (es : Arcs) (P : List ℕ) (u v : ℕ)
    → IsTopological es P
    → ((w : ℕ) → count w P ≤ 1)
    → 0 < count v P
    → Arc es u v
    → Walk es v u
    → ⊥
IsTopological-no_cycle es [] u v t d m a p = absurd (omega arith)
IsTopological-no_cycle es (x ∷ P) u v t d m a p = elim (Bool-cases (x == v)) [
  | inl same ↦
      let from_tail : 0 < count u P = t.0 u (ground arith) in
      let again = Walk-source es P v (IsTopological-IsClosed es P t.1) p from_tail in
      ground (arith, d v)
  | inr other ↦ IsTopological-no_cycle es P u v t.1 (λ w. ground (arith, d w)) (ground arith) a p
]

-- If every vertex of a set has a predecessor in the set, a chain of predecessors inside a finite
-- set of vertices closes on itself.
pub backward_chain :
    (es : Arcs) (vs : List ℕ) (In : ℕ → Type 0)
    → ((v : ℕ) → In v → 0 < count v vs)
    → ((v : ℕ) → In v → (u : ℕ) × Arc es u v × In u)
    → (fuel : ℕ) (h : ℕ) (chain : List ℕ) → In h
    → ((v : ℕ) → 0 < count v chain → Walk es h v)
    → ((v : ℕ) → count v chain ≤ count v vs)
    → length vs < length chain + fuel
    → Cycle es
backward_chain es vs In inside pred zero h chain i w c n =
    absurd (omega (arith, length-le_of_count chain vs c))
backward_chain es vs In inside pred (suc fuel) h chain i w c n =
    let (u, arc, iu) = pred h i in
    elim (Bool-cases (contains u chain)) [
      | inl old ↦ (u, h, arc, w u (ground arith))
      | inr new ↦
          backward_chain es vs In inside pred fuel u (u ∷ chain) iu
            (λ v m. elim (Bool-cases (u == v)) [
              | inl same ↦ subst (λ x. Walk es u x) ((==_iff u v).0 same) here
              | inr other ↦ Walk-cons es u h arc (w v (ground arith))
            ])
            (λ v. ground (arith, c v, inside u iu)) (omega arith)
    ]
