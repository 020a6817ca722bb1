-- ===== src/Executor/SetField.antt =====
-- conditional.go: reading a field of a decoded object after it was set.
use orchex.Prelude.{String, str_eq, eq_iff, ◌≡◌, ◌≢◌, refl, inl, inr, arith, Bool-cases}
use orchex.Executor.{Json, Fields, empty_map, field, get_field, set_field}

-- A field that was set is read back, and the others are as before.
pub get_field-set_field :
    (key : String) (value : Json) (m : Fields) → get_field key (set_field key value m) ≡ value
get_field-set_field key value empty_map = rw ((eq_iff key key).1 refl) refl
get_field-set_field key value (field k v rest) = elim (Bool-cases (str_eq k key)) [
  | inl same ↦ rw same (rw same refl)
  | inr other ↦ rw other (rw other (get_field-set_field key value rest))
]

pub get_field-set_field_ne :
    (key other : String) (value : Json) (m : Fields)
    → key ≢ other
    → get_field other (set_field key value m) ≡ get_field other m
get_field-set_field_ne key other value empty_map d = ground (arith, eq_iff key other)
get_field-set_field_ne key other value (field k v rest) d =
    ground (arith, eq_iff k other, eq_iff k key, get_field-set_field_ne key other value rest d)
