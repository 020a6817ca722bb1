-- ===== src/Save/Guards.antt =====
-- graph.go: when each kind of guard of `uniqueNodes` and `uniqueEdges` lets pass.
use orchex.Prelude.{
  ℕ, ◌<◌, String, str_eq, eq_iff, ◌≡◌, ◌≢◌, ◌↔◌, ◌⊎◌, refl, not, Bool, true, Bool-cases, inl, inr,
  sym, ap, ◌∙◌, List, [], ◌∷◌, Option, none, some, arith, ◌==◌, contains, count, All,
}
use orchex.Result.{Result, ok, err, ◌>>◌, fail_if}
use orchex.Save.Spec.{IsDefault, AreSameLabel}
use orchex.Save.{edge_label, SaveError, lookup, fail_if_some, fail_if_none, valid_edge_label}

pub then_iff :
    {B : Type 0} (m : Result SaveError (Unit {0})) (k : Result SaveError B) (b : B)
    → ((m >> k) ≡ ok b) ↔ ((m ≡ ok tt) × (k ≡ ok b))
then_iff (ok tt) k b = (λ h. (refl, h), λ h. h.1)
then_iff (err e) k b = (λ h. cc, λ h. cc)

pub both_iff :
    {P Q : Type 0} (m k : Result SaveError (Unit {0}))
    → ((m ≡ ok tt) ↔ P)
    → ((k ≡ ok tt) ↔ Q)
    → ((m >> k) ≡ ok tt) ↔ (P × Q)
both_iff m k (mp, pm) (kq, qk) =
    let (split, join) = then_iff m k tt in
    (λ h. let (a, b) = split h in (mp a, kq b), λ h. join (pm h.0, qk h.1))

pub is_zero_iff : (i : ℕ) (e : SaveError) → (fail_if (i == 0) e ≡ ok tt) ↔ (i ≢ 0)
is_zero_iff i e = ground arith

pub known_iff :
    (i : ℕ) (l : List ℕ) (e : SaveError)
    → (fail_if (not (contains i l)) e ≡ ok tt) ↔ (0 < count i l)
known_iff i l e = ground arith

-- A label as the edge gives it, and what `edgeLabel` makes of it.
edge_label-cases :
    (l : String) → ((l ≡ "") × (edge_label l ≡ "default")) ⊎ ((l ≢ "") × (edge_label l ≡ l))
edge_label-cases l = elim (Bool-cases (str_eq l "")) [
  | inl none_given ↦ inl ((eq_iff l "").0 none_given, rw none_given refl)
  | inr given ↦ inr (λ e. cc ((eq_iff l "").1 e), rw given refl)
]

valid_iff :
    (l : String) → (valid_edge_label l ≡ true) ↔ ((l ≡ "default") ⊎ ((l ≡ "true") ⊎ (l ≡ "false")))
valid_iff l = ground (arith, eq_iff l "default", eq_iff l "true", eq_iff l "false")

passes_iff : (b : Bool) (e : SaveError) → (fail_if (not b) e ≡ ok tt) ↔ (b ≡ true)
passes_iff b e = ground arith

pub label_iff :
    (l : String) (e : SaveError)
    → (fail_if (not (valid_edge_label (edge_label l))) e ≡ ok tt)
      ↔ (IsDefault l ⊎ ((l ≡ "true") ⊎ (l ≡ "false")))
label_iff l e =
    let (to_valid, of_valid) = passes_iff (valid_edge_label (edge_label l)) e in
    let (to_one, of_one) = valid_iff (edge_label l) in
    elim (edge_label-cases l) [
      | inl (absent, made) ↦ (λ h. inl (inl absent), λ h. of_valid (of_one (inl made)))
      | inr (given, kept) ↦ (
        λ h. elim (to_one (to_valid h)) [
          | inl d ↦ inl (inr (sym kept ∙ d))
          | inr (inl t) ↦ inr (inl (sym kept ∙ t))
          | inr (inr f) ↦ inr (inr (sym kept ∙ f))
        ],
        λ h. of_valid (
            of_one (elim h [
              | inl (inl absent) ↦ absurd (given absent)
              | inl (inr d) ↦ inl (kept ∙ d)
              | inr (inl t) ↦ inr (inl (kept ∙ t))
              | inr (inr f) ↦ inr (inr (kept ∙ f))
            ])),
      )
    ]

-- `edgeLabel` makes "default" of the labels that are default, and of no other.
pub IsDefault-iff : (l : String) → (edge_label l ≡ "default") ↔ IsDefault l
IsDefault-iff l = elim (edge_label-cases l) [
  | inl (absent, made) ↦ (λ h. inl absent, λ h. made)
  | inr (given, kept) ↦ (
    λ h. inr (sym kept ∙ h),
    λ h. elim h [ inl absent ↦ absurd (given absent) | inr d ↦ kept ∙ d ],
  )
]

pub same_label_iff : (l m : String) → (edge_label l ≡ edge_label m) ↔ AreSameLabel l m
same_label_iff l m = (
  λ h. elim (edge_label-cases l) [
    | inl (absent, made) ↦ inr (inl absent, (IsDefault-iff m).0 (sym h ∙ made))
    | inr (given, kept) ↦ elim (edge_label-cases m) [
      | inl (absent, made) ↦ inr ((IsDefault-iff l).0 (h ∙ made), inl absent)
      | inr (given', kept') ↦ inl (sym kept ∙ h ∙ kept')
    ]
  ],
  λ h. elim h [
    | inl same ↦ ap edge_label same
    | inr (d, d') ↦ (IsDefault-iff l).1 d ∙ sym ((IsDefault-iff m).1 d')
  ],
)

pub seen_iff :
    (i : ℕ) (l : List ℕ) (e : SaveError) → (fail_if (contains i l) e ≡ ok tt) ↔ (count i l ≡ 0)
seen_iff i l e = ground arith

pub text_iff : (s t : String) (e : SaveError) → (fail_if (str_eq s t) e ≡ ok tt) ↔ (s ≢ t)
text_iff s t e = ground (arith, eq_iff s t)

pub fail_if_some_iff :
    {A : Type 0} (o : Option A) (e : A → SaveError) → (fail_if_some o e ≡ ok tt) ↔ (o ≡ none)
fail_if_some_iff none e = (λ _. refl, λ _. refl)
fail_if_some_iff (some a) e = (λ h. cc, λ h. cc)

pub fail_if_none_iff :
    {A : Type 0} (o : Option A) (e : SaveError)
    → (fail_if_none o e ≡ ok tt) ↔ ((a : A) × (o ≡ some a))
fail_if_none_iff none e = (λ h. cc, λ h. cc h.1)
fail_if_none_iff (some a) e = (λ _. (a, refl), λ _. refl)

-- A key is absent exactly if it differs from every key of the map.
lookup-none :
    (k : String) (m : List (String × ℕ)) → (lookup k m ≡ none) ↔ All (λ (p : String × ℕ). p.0 ≢ k) m
lookup-none k [] = (λ _. tt, λ _. refl)
lookup-none k ((l, v) ∷ m) = ground (arith, eq_iff l k, lookup-none k m)

pub absent_iff :
    (k : String) (m : List (String × ℕ)) (e : ℕ → SaveError)
    → (fail_if_some (lookup k m) e ≡ ok tt) ↔ All (λ (p : String × ℕ). p.0 ≢ k) m
absent_iff k m e =
    let (to, from) = fail_if_some_iff (lookup k m) e in
    let (named, free) = lookup-none k m in (λ h. named (to h), λ h. from (free h))

module _ {A : Type 0} (P Q : A → Type 0) where
  pub All-and : (xs : List A) → All (λ x. P x × Q x) xs ↔ (All P xs × All Q xs)
  All-and [] = (λ _. (tt, tt), λ _. tt)
  All-and (x ∷ xs) =
      let (split, join) = All-and xs in
      (
        λ h. let (p, q) = split h.1 in ((h.0.0, p), (h.0.1, q)),
        λ h. ((h.0.0, h.1.0), join (h.0.1, h.1.1)),
      )

pub All-intro : {A : Type 0} (P : A → Type 0) → ((x : A) → P x) → (xs : List A) → All P xs
All-intro P f [] = tt
All-intro P f (x ∷ xs) = (f x, All-intro P f xs)
