-- ===== src/Save/Load.antt =====
-- graph.go: `loadNodeTypes` and `compileConfigSchema`, which read the rows of the node types. The
-- JSON parser and the schema compiler are parameters.
use orchex.Prelude.{
  ℕ, String, str_eq, eq_iff, ◌≡◌, ◌≢◌, ◌⊎◌, inl, inr, refl, sym, ◌∙◌, true, List, [], ◌∷◌, Option,
  none, some, arith, if◌then◌else◌, All, All-map, Bool-cases,
}
use orchex.Result.{Result, ok, err, ◌>>=◌, >>=-eq-ok}
use orchex.Save.{NodeTypes}
use orchex.Save.Spec.{Pairwise}

-- A row of `ListNodeTypes`.
pub record NodeTypeRow : Type 0 where
  pub id : ℕ
  pub type : String
  pub config_schema : String

-- Which step failed, with the name of the type.
pub data LoadError : Type 0 where
  bad_json bad_schema : String → LoadError

abbrev pub no_types : {Schema : Type 0} → NodeTypes Schema
no_types = record { id_by_name = λ name. none; schema_by_name = λ name. none }

-- `m[name] = …` in both maps.
abbrev pub add_type : {Schema : Type 0} → NodeTypeRow → Schema → NodeTypes Schema → NodeTypes Schema
add_type row schema types = record {
  id_by_name = λ name. if str_eq row.type name then some row.id else types.id_by_name name;
  schema_by_name = λ name. if str_eq row.type name then some schema else types.schema_by_name name;
}

abbrev pub or_else_fail : {A : Type 0} → Option A → LoadError → Result LoadError A
or_else_fail none e = err e
or_else_fail (some a) e = ok a

or_else_fail-eq-ok :
    {A : Type 0} (o : Option A) (e : LoadError) (a : A) → or_else_fail o e ≡ ok a → o ≡ some a
or_else_fail-eq-ok none e a h = cc
or_else_fail-eq-ok (some x) e a h = cc

abbrev pub AreDifferentTypes : NodeTypeRow → NodeTypeRow → Type 0
AreDifferentTypes r s = r.type ≢ s.type

module _ {Schema Json : Type 0} (parse_json : String → Option Json)
    (compile : String → Json → Option Schema) where
  abbrev pub compile_config_schema : String → String → Result LoadError Schema
  compile_config_schema name raw = do
    doc ← or_else_fail (parse_json (if str_eq raw "" then "{}" else raw)) (bad_json name)
    or_else_fail (compile name doc) (bad_schema name)

  unfoldable pub load_rows :
      List NodeTypeRow → NodeTypes Schema → Result LoadError (NodeTypes Schema)
  load_rows [] types = ok types
  load_rows (row ∷ rows) types = do
    schema ← compile_config_schema row.type row.config_schema
    load_rows rows (add_type row schema types)

  unfoldable pub load_node_types : List NodeTypeRow → Result LoadError (NodeTypes Schema)
  load_node_types rows = load_rows rows no_types

  -- The schema of a row: its text, or an empty object if it has none, is JSON that compiles.
  pub record Compiles (row : NodeTypeRow) (schema : Schema) : Type 0 where
    pub source : String
    pub doc : Json
    pub given :
        ((row.config_schema ≡ "") × (source ≡ "{}"))
        ⊎ ((row.config_schema ≢ "") × (source ≡ row.config_schema))
    pub parses : parse_json source ≡ some doc
    pub compiles : compile row.type doc ≡ some schema

  -- The two maps hold what the rows say, and no other name.
  pub record AreTypesOf (rows : List NodeTypeRow) (types : NodeTypes Schema) : Type 0 where
    pub known :
        All
          (λ row.
            (types.id_by_name row.type ≡ some row.id)
            × ((s : Schema) × (types.schema_by_name row.type ≡ some s) × Compiles row s))
          rows
    pub unknown :
        (name : String)
        → All (λ row. row.type ≢ name) rows
        → (types.id_by_name name ≡ none) × (types.schema_by_name name ≡ none)

  compiled :
      (row : NodeTypeRow) (schema : Schema)
      → compile_config_schema row.type row.config_schema ≡ ok schema
      → Compiles row schema
  compiled row schema h = elim (Bool-cases (str_eq row.config_schema "")) [
    | inl empty ↦
        let (doc, d, c) = >>=-eq-ok _ _ (rw empty at h) in
        record {
          source = "{}";
          doc = doc;
          given = inl ((eq_iff row.config_schema "").0 empty, refl);
          parses = or_else_fail-eq-ok _ _ doc d;
          compiles = or_else_fail-eq-ok _ _ schema c;
        }
    | inr full ↦
        let (doc, d, c) = >>=-eq-ok _ _ (rw full at h) in
        record {
          source = row.config_schema;
          doc = doc;
          given = inr (λ e. cc (sym full ∙ (eq_iff row.config_schema "").1 e), refl);
          parses = or_else_fail-eq-ok _ _ doc d;
          compiles = or_else_fail-eq-ok _ _ schema c;
        }
  ]

  compiles_ok :
      (row : NodeTypeRow) (schema : Schema)
      → Compiles row schema
      → compile_config_schema row.type row.config_schema ≡ ok schema
  compiles_ok row schema c =
      ground (arith, c.given, c.parses, c.compiles, eq_iff row.config_schema "")

  load_rows-others :
      (rows : List NodeTypeRow) (types out : NodeTypes Schema) (name : String)
      → load_rows rows types ≡ ok out
      → All (λ row. row.type ≢ name) rows
      → (out.id_by_name name ≡ types.id_by_name name)
        × (out.schema_by_name name ≡ types.schema_by_name name)
  unfolding load_rows
  load_rows-others [] types out name h other = (cc, cc)
  load_rows-others (row ∷ rows) types out name h (other, others) =
      let (schema, _, rest) = >>=-eq-ok (compile_config_schema row.type row.config_schema) _ h in
      let ih = load_rows-others rows (add_type row schema types) out name rest others in
      ground (arith, ih, other, eq_iff row.type name)

  load_rows-known :
      (rows : List NodeTypeRow) (types out : NodeTypes Schema)
      → load_rows rows types ≡ ok out
      → Pairwise AreDifferentTypes rows
      → All
          (λ row.
            (out.id_by_name row.type ≡ some row.id)
            × ((s : Schema) × (out.schema_by_name row.type ≡ some s) × Compiles row s))
          rows
  unfolding load_rows
  load_rows-known [] types out h d = tt
  load_rows-known (row ∷ rows) types out h (d, ds) =
      let (schema, made, rest) = >>=-eq-ok (compile_config_schema row.type row.config_schema) _ h in
      let kept =
        load_rows-others rows (add_type row schema types) out row.type rest
          (All-map rows (λ r ne e. ne (sym e)) d) in
      let (id, sc) = kept in
      let here : str_eq row.type row.type ≡ true = (eq_iff row.type row.type).1 refl in
      (
        (id ∙ rw here refl, (schema, sc ∙ rw here refl, compiled row schema made)),
        load_rows-known rows (add_type row schema types) out rest ds,
      )

  load_rows-total :
      (rows : List NodeTypeRow) (types : NodeTypes Schema)
      → All (λ row. (s : Schema) × Compiles row s) rows
      → (out : NodeTypes Schema) × (load_rows rows types ≡ ok out)
  unfolding load_rows
  load_rows-total [] types h = (types, refl)
  load_rows-total (row ∷ rows) types ((s, c), h) =
      let (out, e) = load_rows-total rows (add_type row s types) h in
      (out, rw (compiles_ok row s c) e)

  -- Where the rows have different types, as the table's key demands, loadNodeTypes succeeds if every
  -- row's schema, or an empty object in its place, is JSON that compiles. When it succeeds, every
  -- row's type has the identifier of the row and its compiled schema, and no other name has an
  -- identifier or a schema.
  pub load_node_types_lem :
      (rows : List NodeTypeRow)
      → Pairwise AreDifferentTypes rows
      → (All (λ row. (s : Schema) × Compiles row s) rows
          → (types : NodeTypes Schema) × (load_node_types rows ≡ ok types))
        × ((types : NodeTypes Schema) → load_node_types rows ≡ ok types → AreTypesOf rows types)
  unfolding load_node_types
  load_node_types_lem rows d = (
    load_rows-total rows no_types,
    λ types h. record {
      known = load_rows-known rows no_types types h d;
      unknown = λ name other. load_rows-others rows no_types types name h other;
    },
  )
