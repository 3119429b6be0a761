-- ===== src/Scratch.antt =====
-- core/scratch.py: the scratchpad, a catalog of the query engine with a schema for each tenant.
use memcove.Common.{
  ℕ, Bool, true, false, Option, none, some, List, [], ◌∷◌, ◌++◌, Text, codes, text_eq, is_nonempty,
  ◌==◌, if◌then◌else◌,
}
use memcove.Common.Result.{
  Result, ok, err, scratch_error, guard, index_error, type_error, value_error,
}
use memcove.Common.Exec.{Exec, pure, raise, lift, ◌>>=◌, ◌>>◌}
use memcove.Unicode.{rstrip_by}
use memcove.Config.{Settings}
use memcove.Catalog.{TableSchema}
use memcove.Models.{SourceKind, MemoryObject}
use memcove.Trino.{Engine, Cell, execute, execute_update, scalar}

unfoldable pub catalog_for : Settings → Text → Text
catalog_for s tenant =
    if text_eq s.scratch_catalog_mode (codes "per_tenant")
    then s.scratch_catalog_prefix ++ codes "_" ++ tenant
    else s.scratch_catalog

abbrev pub schema_for : Text → Text
schema_for tenant = tenant

unfoldable pub qualified : Settings → Text → Text → Text
qualified s tenant label =
    codes "\""
    ++ catalog_for s tenant
    ++ codes "\".\""
    ++ schema_for tenant
    ++ codes "\".\""
    ++ label
    ++ codes "\""

unfoldable pub guard_params : Settings → Text → Option Text × Option Text
guard_params s tenant =
    if s.scratch_enabled
    then (some (catalog_for s tenant), some (schema_for tenant))
    else (none, none)

unfoldable pub require_enabled : Settings → Result (Unit {0})
require_enabled s = guard s.scratch_enabled scratch_error

-- the statement that makes a tenant's own catalog
unfoldable pub create_catalog_sql : Settings → Text → Text
create_catalog_sql s tenant =
    codes "CREATE CATALOG IF NOT EXISTS \""
    ++ catalog_for s tenant
    ++ codes "\" USING duckdb WITH (\"connection-url\" = 'jdbc:duckdb:"
    ++ rstrip_by (λ c. c == b'/') s.scratch_duckdb_dir
    ++ codes "/"
    ++ tenant
    ++ codes ".duckdb')"

unfoldable pub create_schema_sql : Settings → Text → Text
create_schema_sql s tenant =
    codes "CREATE SCHEMA IF NOT EXISTS \""
    ++ catalog_for s tenant
    ++ codes "\".\""
    ++ schema_for tenant
    ++ codes "\""

unfoldable pub tables_sql : Settings → Text → Text
tables_sql s tenant =
    codes "SELECT table_name FROM \""
    ++ catalog_for s tenant
    ++ codes "\".information_schema.tables WHERE table_schema = '"
    ++ schema_for tenant
    ++ codes "'"

-- `ColumnSchema(name=r[0], type=r[1])`: both are strings, or the model refuses them
unfoldable pub column_of : {O : Type 0} → List (Cell O) → Result (Text × Text)
column_of (Cell.str name ∷ Cell.str type ∷ rest) = ok (name, type)
column_of (a ∷ b ∷ rest) = err value_error
column_of _ = err index_error

unfoldable pub columns_of : {O : Type 0} → List (List (Cell O)) → Result (TableSchema)
columns_of [] = ok []
columns_of (r ∷ rows) = elim (column_of r) [
  | err e ↦ err e
  | ok c ↦ elim (columns_of rows) [ err e ↦ err e | ok cs ↦ ok (c ∷ cs) ]
]

-- `int(n) if n is not None else None`
unfoldable pub count_cell : {L : Type 0} (e : Engine L) → Option (Cell e.Other) → Result (Option ℕ)
count_cell e none = ok none
count_cell e (some Cell.null) = ok none
count_cell e (some (Cell.str t)) = elim (e.int_of_text t) [
  | none ↦ err value_error
  | some n ↦ ok (some n)
]
count_cell e (some (Cell.other o)) = elim (e.int_of o) [
  | none ↦ err type_error
  | some n ↦ ok (some n)
]

-- `r[0]` of each row
unfoldable pub first_cells : {O : Type 0} → List (List (Cell O)) → Result (List (Cell O))
first_cells [] = ok []
first_cells ([] ∷ rows) = err index_error
first_cells ((c ∷ cs) ∷ rows) = elim (first_cells rows) [ err e ↦ err e | ok rest ↦ ok (c ∷ rest) ]

module _ {L : Type 0} (e : Engine L) (s : Settings) where
  -- in per_tenant mode the catalog first; an unknown mode is refused
  unfoldable pub ensure_catalog : Text → Exec L (Unit {0})
  ensure_catalog tenant =
      if text_eq s.scratch_catalog_mode (codes "per_tenant")
      then execute_update e s (create_catalog_sql s tenant) none
      else if text_eq s.scratch_catalog_mode (codes "shared")
      then pure tt
      else raise scratch_error

  unfoldable pub ensure : Text → Exec L (Unit {0})
  ensure tenant = do
    lift (require_enabled s)
    ensure_catalog tenant
    execute_update e s (create_schema_sql s tenant) none

  unfoldable pub drop : Text → Text → Exec L (Unit {0})
  drop tenant label = do
    lift (require_enabled s)
    execute_update e s (codes "DROP TABLE IF EXISTS " ++ qualified s tenant label) none

  drop_first : Bool → Text → Text → Exec L (Unit {0})
  drop_first true tenant label = drop tenant label
  drop_first false tenant label = pure tt

  unfoldable pub create_as_select : Text → Text → Text → Bool → Exec L (Unit {0})
  unfolding drop_first
  create_as_select tenant label select_sql replace = do
    lift (require_enabled s)
    ensure tenant
    drop_first replace tenant label
    execute_update e s
        (codes "CREATE TABLE " ++ qualified s tenant label ++ codes " AS " ++ select_sql) none

  unfoldable pub describe : Text → Text → Exec L MemoryObject
  describe tenant label = do
    lift (require_enabled s)
    described ← execute e s (codes "DESCRIBE " ++ qualified s tenant label) none
    columns ← lift (columns_of described.1)
    n ← scalar e s (codes "SELECT count(*) FROM " ++ qualified s tenant label) none
    count ← lift (count_cell e n)
    pure (record {
      tenant = tenant;
      label = label;
      table_ident = catalog_for s tenant ++ codes "." ++ schema_for tenant ++ codes "." ++ label;
      source = SourceKind.scratch;
      source_ref = none;
      schema = columns;
      row_count = count;
      size_bytes = none;
      tags = [];
      lineage = record { parents = []; producing_sql = none };
      created_at = none;
      updated_at = none;
      metadata_pending = false;
    })

  unfoldable pub table_exists : Text → Text → Exec L Bool
  table_exists tenant label = do
    lift (require_enabled s)
    rows ←
        execute e s (tables_sql s tenant ++ codes " AND table_name = '" ++ label ++ codes "'") none
    pure (is_nonempty rows.1)

  unfoldable pub list_labels : Text → Exec L (List (Cell e.Other))
  list_labels tenant = do
    lift (require_enabled s)
    rows ← execute e s (tables_sql s tenant ++ codes " ORDER BY table_name") none
    lift (first_cells rows.1)
