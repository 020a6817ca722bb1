-- ===== src/Store/GraphQueries.antt =====
-- internal/db/sqlc/nodes.sql.go and workflow_edges.sql.go: the queries of the worker on the graph
-- of a version.
use orchex.Prelude.{ℕ, String, ◌&&◌, List, [], ◌∷◌, Option, none, some, ◌==◌, if◌then◌else◌, str_eq}
use orchex.Store.Tables.{NodeRow, EdgeRow}
use orchex.Store.RunQueries.Start.{join_types}
use orchex.Store.Effects.{StoreError, M, statement}
use orchex.Store.RunQueries.{one_row}

abbrev pub find_node : ℕ → ℕ → List NodeRow → Option NodeRow
find_node version i [] = none
find_node version i (n ∷ ns) =
    let rest = find_node version i ns in
    if n.workflow_version_id == version && n.id == i then some n else rest

unfoldable pub get_node_for_execution : ℕ → ℕ → M StoreError NodeRow
get_node_for_execution version i =
    statement (λ db. one_row db (find_node version i (join_types db.node_types db.nodes)))

abbrev pub find_next : ℕ → ℕ → String → List EdgeRow → Option ℕ
find_next version i label [] = none
find_next version i label (e ∷ es) =
    let rest = find_next version i label es in
    if e.workflow_version_id == version && (e.from_node_id == i && str_eq e.label label)
    then some e.to_node_id
    else rest

unfoldable pub get_next_node_for_execution : ℕ → ℕ → String → M StoreError ℕ
get_next_node_for_execution version i label =
    statement (λ db. one_row db (find_next version i label db.edges))
