-- ===== src/Publish/Checks/Start.antt =====
-- publish_validate.go: `uniqueStart` accepts exactly the lists with one start node.
use orchex.Prelude.{
  ℕ, ◌≡◌, ◌≢◌, ◌↔◌, refl, inl, inr, ap, false, List, [], ◌∷◌, ◌++◌, arith, All, Bool-cases, str_eq,
  eq_iff,
}
use orchex.Result.{ok}
use orchex.Publish.Graph.{PublishNode}
use orchex.Publish.Checks.{starts, the_start, node_type_start}
use orchex.Publish.Spec.{HasOneStart}

abbrev NoStart : List PublishNode → Type 0
NoStart = All (λ n. n.type ≢ node_type_start)

not_start : (n : PublishNode) → n.type ≢ node_type_start → str_eq n.type node_type_start ≡ false
not_start n h = elim (Bool-cases (str_eq n.type node_type_start)) [
  | inl same ↦ absurd (h ((eq_iff n.type node_type_start).0 same))
  | inr other ↦ other
]

starts-nil : (ns : List PublishNode) → NoStart ns → starts ns ≡ []
starts-nil [] h = refl
starts-nil (n ∷ ns) h = rw (not_start n h.0) (starts-nil ns h.1)

nil-starts : (ns : List PublishNode) → starts ns ≡ [] → NoStart ns
nil-starts [] h = tt
nil-starts (n ∷ ns) h = elim (Bool-cases (str_eq n.type node_type_start)) [
  | inl same ↦ cc (rw same at h)
  | inr other ↦ (λ e. cc ((eq_iff n.type node_type_start).1 e), nil-starts ns (rw other at h))
]

starts-append : (xs ys : List PublishNode) → starts (xs ++ ys) ≡ starts xs ++ starts ys
starts-append [] ys = refl
starts-append (x ∷ xs) ys = ground (arith, starts-append xs ys)

one_start : (ns : List PublishNode) (s : ℕ) → starts ns ≡ s ∷ [] → HasOneStart ns s
one_start [] s h = cc
one_start (n ∷ ns) s h = elim (Bool-cases (str_eq n.type node_type_start)) [
  | inl same ↦ record {
    before = [];
    node = n;
    after = ns;
    split = refl;
    is_start = (eq_iff n.type node_type_start).0 same;
    named = ground arith;
    none_before = tt;
    none_after = nil-starts ns (ground arith);
  }
  | inr other ↦
      let rest = one_start ns s (rw other at h) in
      record {
        before = n ∷ rest.before;
        node = rest.node;
        after = rest.after;
        split = ap (λ (l : List PublishNode). n ∷ l) rest.split;
        is_start = rest.is_start;
        named = rest.named;
        none_before = (λ e. cc ((eq_iff n.type node_type_start).1 e), rest.none_before);
        none_after = rest.none_after;
      }
]

starts_of_one : (ns : List PublishNode) (s : ℕ) → HasOneStart ns s → starts ns ≡ s ∷ []
starts_of_one ns s h =
    rw (h.split, starts-append h.before (h.node ∷ h.after), starts-nil h.before h.none_before)
      (rw ((eq_iff h.node.type node_type_start).1 h.is_start)
        (rw (starts-nil h.after h.none_after, h.named)))

the_start_iff : (l : List ℕ) (s : ℕ) → (the_start l ≡ ok s) ↔ (l ≡ s ∷ [])
the_start_iff [] s = (λ h. cc, λ h. cc)
the_start_iff (i ∷ []) s = (λ h. cc, λ h. cc)
the_start_iff (i ∷ j ∷ l) s = (λ h. cc, λ h. cc)

-- `uniqueStart` returns a node exactly if it is the one start node.
pub the_start-HasOneStart :
    (ns : List PublishNode) (s : ℕ) → (the_start (starts ns) ≡ ok s) ↔ HasOneStart ns s
the_start-HasOneStart ns s =
    let (to, from) = the_start_iff (starts ns) s in
    (λ h. one_start ns s (to h), λ h. from (starts_of_one ns s h))
