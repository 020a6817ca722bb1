-- ===== src/Prelude/Lists.antt =====
-- Lists of numbers counted with multiplicity. A number is a member of a list if its count is
-- positive, and a list has no repetition if no count is above 1.
use Prim.Native.Nat.{ℕ, suc, ◌+◌, ◌-◌, ◌≤◌, ◌<◌}
use mathlib.Core.Path.{◌≡◌, refl}
use mathlib.Core.Bool.{Bool}
use mathlib.Core.Logic.{◌⊎◌, inl, inr}
use mathlib.Core.List.{List, [], ◌∷◌, ◌++◌}
use native.Mathlib.Omega.{arith}
use orchex.Prelude.Tests.{◌==◌, if◌then◌else◌, Bool-cases, ltb}

module _ {ℓ} {A : Type ℓ} where
  abbrev pub length : List A → ℕ
  length [] = 0
  length (x ∷ xs) = suc (length xs)

  pub length-append : (xs ys : List A) → length (xs ++ ys) ≡ length xs + length ys
  length-append [] ys = omega arith
  length-append (x ∷ xs) ys = omega (arith, length-append xs ys)

  -- Every element has the property.
  abbrev pub All {κ} : (A → Type κ) → List A → Type κ
  All P [] = Unit
  All P (x ∷ xs) = P x × All P xs

  pub All-append {κ} : (P : A → Type κ) (xs ys : List A) → All P (xs ++ ys) → All P xs × All P ys
  All-append P [] ys h = (tt, h)
  All-append P (x ∷ xs) ys h = let (l, r) = All-append P xs ys h.1 in ((h.0, l), r)

  pub All-join {κ} : (P : A → Type κ) (xs ys : List A) → All P xs → All P ys → All P (xs ++ ys)
  All-join P [] ys f g = g
  All-join P (x ∷ xs) ys f g = (f.0, All-join P xs ys f.1 g)

  pub All-map {κ μ} :
      {P : A → Type κ} {Q : A → Type μ} (xs : List A) → ((x : A) → P x → Q x) → All P xs → All Q xs
  All-map [] f h = tt
  All-map (x ∷ xs) f h = (f x h.0, All-map xs f h.1)

abbrev pub count : ℕ → List ℕ → ℕ
count v [] = 0
count v (x ∷ xs) = (if x == v then 1 else 0) + count v xs

-- Whether a list holds a number.
abbrev pub contains : ℕ → List ℕ → Bool
contains v xs = ltb 0 (count v xs)

pub count-append : (v : ℕ) (xs ys : List ℕ) → count v (xs ++ ys) ≡ count v xs + count v ys
count-append v [] ys = omega arith
count-append v (x ∷ xs) ys = omega (arith, count-append v xs ys)

-- One occurrence of `x` taken out.
erase : ℕ → List ℕ → List ℕ
erase x [] = []
erase x (y ∷ ys) = if y == x then ys else y ∷ erase x ys

count-erase :
    (v x : ℕ) (ys : List ℕ) → count v (erase x ys) ≡ count v ys - (if x == v then 1 else 0)
unfolding erase
count-erase v x [] = ground arith
count-erase v x (y ∷ ys) = ground (arith, count-erase v x ys)

length-erase : (x : ℕ) (ys : List ℕ) → 0 < count x ys → suc (length (erase x ys)) ≡ length ys
unfolding erase
length-erase x [] h = omega arith
length-erase x (y ∷ ys) h = ground (arith, length-erase x ys)

-- A list that is counted below another is not longer.
pub length-le_of_count :
    (xs ys : List ℕ) → ((v : ℕ) → count v xs ≤ count v ys) → length xs ≤ length ys
length-le_of_count [] ys h = omega arith
length-le_of_count (x ∷ xs) ys h =
    let at_x : 0 < count x ys = ground (arith, h x) in
    let rest : (v : ℕ) → count v xs ≤ count v (erase x ys) =
      λ v. ground (arith, h v, count-erase v x ys) in
    omega (arith, length-le_of_count xs (erase x ys) rest, length-erase x ys at_x)

-- If it is as long, the two lists hold the same numbers.
pub count-eq_of_length :
    (xs ys : List ℕ)
    → ((v : ℕ) → count v xs ≤ count v ys)
    → length xs ≡ length ys
    → (v : ℕ) → count v xs ≡ count v ys
count-eq_of_length [] [] h e v = refl
count-eq_of_length [] (y ∷ ys) h e v = absurd (omega arith)
count-eq_of_length (x ∷ xs) ys h e v =
    let at_x : 0 < count x ys = ground (arith, h x) in
    let rest : (w : ℕ) → count w xs ≤ count w (erase x ys) =
      λ w. ground (arith, h w, count-erase w x ys) in
    let len : length xs ≡ length (erase x ys) = omega (arith, length-erase x ys at_x) in
    ground (arith, count-eq_of_length xs (erase x ys) rest len v, count-erase v x ys, h v)

-- Either every member of `xs` is in `ys`, or one is missing.
pub missing :
    (xs ys : List ℕ)
    → ((v : ℕ) → 0 < count v xs → 0 < count v ys) ⊎ ((v : ℕ) × (0 < count v xs) × (count v ys ≡ 0))
missing [] ys = inl (λ v h. absurd (omega arith))
missing (x ∷ xs) ys = elim (missing xs ys) [
  | inr (v, here, gone) ↦ inr (v, ground arith, gone)
  | inl all ↦ elim (Bool-cases (contains x ys)) [
    | inl yes' ↦ inl (λ v h. ground (arith, all v))
    | inr no' ↦ inr (x, ground arith, ground arith)
  ]
]
