-- ===== src/Tests/Executor.antt =====
-- conditional.go on one expression, with simple functions in place of the libraries.
use orchex.Prelude.{
  String, str_eq, ◌≡◌, refl, Bool, true, false, List, [], ◌∷◌, Option, none, some, if◌then◌else◌,
}
use orchex.Worker.{ExecResult}
use orchex.Executor.{
  Json, boolean, object, Fields, empty_map, field, executed, panicked, evaluate_condition,
  execute_conditional,
}
use orchex.Executor.Conditional.{Ends, execute_conditional-Branches}
use orchex.Executor.Routes.{times, conditional_routes}
use orchex.Publish.Spec.{labels_from, inner_edges}
use orchex.Tests.Publish.{node, branching, branches, in_order, accepts_branching}

abbrev config_of : String → Option String
config_of s = some s

abbrev read : String → Option Json
read s =
    if str_eq s "input"
    then some (object (field "data" (object (field "ok" (boolean true) empty_map)) empty_map))
    else (if str_eq s "flat"
        then some (object (field "data" (boolean true) empty_map))
        else (if str_eq s "true" then some (boolean true) else none))

abbrev written : Fields → Option String
written m = some "output"

abbrev cut : String → String → List String
cut s separator =
    if str_eq separator "."
    then (if str_eq s "data.ok" then "data" ∷ "ok" ∷ [] else s ∷ [])
    else (if str_eq s "data.ok==true" then "data.ok" ∷ "true" ∷ [] else "data" ∷ "true" ∷ [])

abbrev trimmed : String → String
trimmed s = s

abbrev equal : Json → Json → Bool
equal (boolean true) (boolean true) = true
equal (boolean false) (boolean false) = true
equal _ _ = false

abbrev result : ExecResult
result = record { output = "output"; next_edge_label = "true"; completed = false }

takes_true :
    execute_conditional config_of read written cut trimmed equal "data.ok==true" "input"
    ≡ executed result
unfolding execute_conditional evaluate_condition
takes_true = refl

-- "data" is no object, so putting the branch there panics.
panics : execute_conditional config_of read written cut trimmed equal "data==true" "flat" ≡ panicked
unfolding execute_conditional evaluate_condition
panics = refl

execute_conditional-Branches_example :
    Ends config_of read written cut trimmed equal "data.ok==true" "input"
      (execute_conditional config_of read written cut trimmed equal "data.ok==true" "input")
execute_conditional-Branches_example =
    execute_conditional-Branches config_of read written cut trimmed equal "data.ok==true" "input"

conditional_routes_example :
    (result.completed ≡ false) × (times "true" (labels_from (inner_edges branching branches) 2) ≡ 1)
conditional_routes_example =
    conditional_routes config_of read written cut trimmed equal in_order branching
      (node 1 "start" 0 1 ∷ []) (node 3 "response" 1 0 ∷ node 4 "response" 1 0 ∷ [])
      (node 2 "conditional" 1 2) branches "data.ok==true" "input" result (λ ks v. refl)
      accepts_branching refl refl takes_true
