-- ===== src/GoMap.antt =====
-- Go's `map[uuid.UUID]V`, with the identifiers as numbers: the keys in the order of their first
-- insertion, and the value that an index expression reads, which is the zero value of `V` at a
-- key that is absent. A `range` visits the keys in an order of the runtime's choice, so a loop
-- whose effect depends on it takes that order as a parameter.
use orchex.Prelude.{
  ℕ, ◌+◌, ◌≤◌, ◌≡◌, Bool, List, [], ◌∷◌, ◌++◌, arith, ◌==◌, if◌then◌else◌, length, count, contains,
  count-append,
}

pub record GoMap {ℓ} (V : Type ℓ) : Type ℓ where
  pub keys : List ℕ
  pub at : ℕ → V

-- `make(map[uuid.UUID]V)`, given the zero value.
abbrev pub make {ℓ} : {V : Type ℓ} → V → GoMap V
make zero_value = record { keys = []; at = λ _. zero_value }

-- `_, ok := m[k]`
abbrev pub has {ℓ} : {V : Type ℓ} → GoMap V → ℕ → Bool
has m k = contains k m.keys

-- The keys after an assignment to `m[k]`.
abbrev pub add_key : ℕ → List ℕ → List ℕ
add_key k ks = if contains k ks then ks else ks ++ (k ∷ [])

-- `m[k] = v`
abbrev pub set {ℓ} : {V : Type ℓ} → GoMap V → ℕ → V → GoMap V
set m k v = record { keys = add_key k m.keys; at = λ j. if k == j then v else m.at j }

-- `len(m)`
abbrev pub size {ℓ} : {V : Type ℓ} → GoMap V → ℕ
size m = length m.keys

pub count-add_key :
    (v k : ℕ) (ks : List ℕ)
    → count v (add_key k ks) ≡ count v ks + (if k == v then (if contains k ks then 0 else 1) else 0)
count-add_key v k ks = ground (arith, count-append v ks (k ∷ []))

-- No key stands twice.
abbrev pub HasDistinctKeys : List ℕ → Type 0
HasDistinctKeys ks = (v : ℕ) → count v ks ≤ 1

pub add_key-HasDistinctKeys :
    (k : ℕ) (ks : List ℕ) → HasDistinctKeys ks → HasDistinctKeys (add_key k ks)
add_key-HasDistinctKeys k ks h v = ground (arith, h v, count-add_key v k ks)

-- What Go's specification says of a `range` over a map: every key is visited once. Nothing is
-- known of the order.
abbrev pub IsRangeOrder : (List ℕ → List ℕ) → Type 0
IsRangeOrder range_order = (ks : List ℕ) (v : ℕ) → count v (range_order ks) ≡ count v ks
