-- ===== src/Executor.antt =====
-- internal/executor/conditional.go: `Execute`, `evaluateCondition` and `resolvePath`. Decoded JSON
-- is a data type, and a decoded object is the list of its fields. The JSON library,
-- `strings.Split`, `strings.TrimSpace` and `reflect.DeepEqual` are parameters. `Conditional` proves
-- what a conditional node does.
pub mod SetField
pub mod Compare
pub mod Conditional
pub mod Routes
use orchex.Prelude.{
  String, str_eq, Bool, true, false, List, [], ◌∷◌, Option, none, some, if◌then◌else◌,
}
use orchex.Result.{Result, ok, err, ◌>>=◌}
use orchex.Worker.{ExecResult}

mutual
  pub data Json : Type 0 where
    null : Json
    boolean : Bool → Json
    number text : String → Json
    array : Items → Json
    object : Fields → Json

  pub data Items : Type 0 where
    empty_array : Items
    item : Json → Items → Items

  pub data Fields : Type 0 where
    empty_map : Fields
    field : String → Json → Fields → Fields

-- `m[key]` of a decoded object: `nil`, which is also what null decodes to, if the key is absent.
abbrev pub get_field : String → Fields → Json
get_field key empty_map = null
get_field key (field k v rest) = let found = get_field key rest in if str_eq k key then v else found

-- `m[key] = value`
abbrev pub set_field : String → Json → Fields → Fields
set_field key value empty_map = field key value empty_map
set_field key value (field k v rest) =
    let changed = set_field key value rest in
    if str_eq k key then field k value rest else field k v changed

pub data ExecError : Type 0 where
  bad_config bad_input bad_output bad_literal : ExecError
  bad_expression bad_path : String → ExecError

-- How `Execute` ends; a failed type assertion panics.
pub data Outcome : Type 0 where
  executed : ExecResult → Outcome
  refused : ExecError → Outcome
  panicked : Outcome

-- The loop of `resolvePath`.
abbrev pub follow : List String → Json → Option Json
follow [] value = some value
follow (segment ∷ segments) (object fields) = follow segments (get_field segment fields)
follow (segment ∷ segments) _ = none

-- `json.Unmarshal` into a map: null leaves the map empty, and any other value is an error.
abbrev pub decode_map : Option Json → Result ExecError Fields
decode_map (some (object fields)) = ok fields
decode_map (some null) = ok empty_map
decode_map _ = err bad_input

abbrev pub or_fail : {A : Type 0} → Option A → ExecError → Result ExecError A
or_fail none e = err e
or_fail (some a) e = ok a

module _ (decode_config : String → Option String) (parse_json : String → Option Json)
    (marshal : Fields → Option String) (split : String → String → List String)
    (trim_space : String → String) (deep_equal : Json → Json → Bool) where
  abbrev pub resolve_path : String → Fields → Result ExecError Json
  resolve_path path input = or_fail (follow (split path ".") (object input)) (bad_path path)

  abbrev pub compare_parts : String → Fields → List String → Result ExecError String
  compare_parts expression input (left ∷ right ∷ []) = do
    value ← resolve_path (trim_space left) input
    expected ← or_fail (parse_json (trim_space right)) bad_literal
    ok (if deep_equal value expected then "true" else "false")
  compare_parts expression input _ = err (bad_expression expression)

  unfoldable pub evaluate_condition : String → Fields → Result ExecError String
  evaluate_condition expression input = compare_parts expression input (split expression "==")

  abbrev pub marshalled : String → Option String → Outcome
  marshalled branch none = refused bad_output
  marshalled branch (some output) =
      executed (record { output = output; next_edge_label = branch; completed = false })

  -- `data["branch"] = branch` on the object at "data", and the result.
  abbrev pub put_branch : String → Fields → Json → Outcome
  put_branch branch output (object data') =
      marshalled branch
        (marshal (set_field "data" (object (set_field "branch" (text branch) data')) output))
  put_branch branch output _ = panicked

  abbrev pub branch_on : Fields → Result ExecError String → Outcome
  branch_on output (err e) = refused e
  branch_on output (ok branch) = put_branch branch output (get_field "data" output)

  abbrev pub on_input : String → Result ExecError Fields → Outcome
  on_input expression (err e) = refused e
  on_input expression (ok output) = branch_on output (evaluate_condition expression output)

  abbrev pub on_config : String → Option String → Outcome
  on_config input none = refused bad_config
  on_config input (some expression) = on_input expression (decode_map (parse_json input))

  -- `Execute` on the node's configuration and its input.
  unfoldable pub execute_conditional : String → String → Outcome
  execute_conditional config input = on_config input (decode_config config)
