-- ===== src/Objects.antt =====
-- tools/objects.py: describe, get, list and drop.
pub mod Healing
pub mod Dropping
pub mod Pending
pub mod Answers
mod Tests
use memcove.Common.{
  ℕ, Bool, true, false, Option, none, some, List, [], ◌∷◌, ◌++◌, map, Text, codes, text_eq,
  if◌then◌else◌,
}
use memcove.Common.Result.{Result, ok, err, object_not_found, value_error}
use memcove.Common.Exec.{Exec, pure, raise, lift, ◌>>=◌, ◌>>◌}
use memcove.Unicode.{Unicode}
use memcove.Config.{Settings}
use memcove.Naming.{validate_label}
use memcove.SqlGuard.{Sqlglot, validate_select}
use memcove.Catalog
use memcove.Catalog.{TableSchema, Iceberg, load_schema, drop_table}
use memcove.Registry
use memcove.Registry.{ObjectValues, ObjectView, record_object, get_parents, delete_object}
use memcove.Trino.{Engine, Cell, scalar, int_cell}
use memcove.Models.{SourceKind, reconciled, value, source_kind, Lineage, MemoryObject}
use memcove.Query.{PreviewResult, run_preview}
use memcove.Flight.{read_scope, select_all}
use memcove.World.{World, in_lake, in_store, look}

-- `_qualified`
unfoldable pub qualified : Settings → Text → Text → Text
qualified s tenant label =
    codes "\"" ++ s.trino_catalog ++ codes "\".\"" ++ tenant ++ codes "\".\"" ++ label ++ codes "\""

-- the identifier of the table, without quotes
unfoldable pub table_ident_of : Settings → Text → Text → Text
table_ident_of s tenant label = s.trino_catalog ++ codes "." ++ tenant ++ codes "." ++ label

-- the row that a repair records
unfoldable pub repair_values : Settings → Text → Text → ObjectValues
repair_values s tenant label = record {
  tenant = tenant;
  label = label;
  table_ident = table_ident_of s tenant label;
  source = value reconciled;
  source_ref = none;
  producing_sql = none;
}

-- an element of list_objects
pub record Summary : Type 0 where
  pub label : Text
  pub source : Text
  pub tags : List Text
  pub updated_at : ℕ

summary : ObjectView → Summary
summary (row, tags) = record {
  label = row.label;
  source = row.source;
  tags = tags;
  updated_at = row.updated_at;
}

unfoldable pub list_objects : {L : Type 0} → Text → List Text → Exec (World L) (List Summary)
unfolding summary
list_objects tenant tags = do
  rows ← in_store (Registry.list_objects tenant tags)
  pure (map summary rows)

-- what get_object returns, by its mode
pub data Reading (Row : Type 0) : Type 0 where
  schema_of : TableSchema → Reading Row
  stats : Option ℕ → TableSchema → Reading Row
  preview_of : PreviewResult Row → Reading Row

module _ {L : Type 0} (e : Engine L) (s : Settings) where
  -- `int(…)` of the scalar; None for whatever is raised
  counted : Result (Option (Cell e.Other)) → Option ℕ
  counted (ok cell) = int_cell e s cell
  counted (err raised) = none

  -- `_row_count`
  unfoldable pub row_count : Text → Text → Exec L (Option ℕ)
  unfolding counted
  row_count tenant label w =
      let (r, after) =
        scalar e s (codes "SELECT count(*) FROM " ++ qualified s tenant label) (some tenant) w in
      (ok (counted r), after)

module _ (Row : Type 0) (ice : Iceberg Row) (e : Engine ice.Lake) (u : Unicode) (s : Settings) where
  repair_found : Bool → Text → Text → Exec (World ice.Lake) (Option ObjectView)
  repair_found false tenant label = pure none
  repair_found true tenant label = do
    in_store (record_object (repair_values s tenant label) [])
    in_store (Registry.get_object tenant label)

  -- `_read_repair`
  unfoldable pub read_repair : Text → Text → Exec (World ice.Lake) (Option ObjectView)
  unfolding repair_found
  read_repair tenant label = do
    found ← look (λ w. ok (Catalog.table_exists Row ice tenant label w))
    repair_found found tenant label

  or_repair : Option ObjectView → Text → Text → Exec (World ice.Lake) (Option ObjectView)
  or_repair (some reg) tenant label = pure (some reg)
  or_repair none tenant label = read_repair tenant label

  or_missing : Option ObjectView → Exec (World ice.Lake) ObjectView
  or_missing none = raise object_not_found
  or_missing (some reg) = pure reg

  -- the object made of its row, its table and its parents
  unfoldable pub described : Text → Text → ObjectView → Exec (World ice.Lake) MemoryObject
  described tenant label reg = do
    schema ← look (load_schema Row ice tenant label)
    parents ← in_store (get_parents tenant label)
    source ← lift (source_kind reg.0.source)
    count ← in_lake (row_count e s tenant label)
    pure (record {
      tenant = tenant;
      label = label;
      table_ident = table_ident_of s tenant label;
      source = source;
      source_ref = reg.0.source_ref;
      schema = schema;
      row_count = count;
      size_bytes = none;
      tags = reg.1;
      lineage = record { parents = parents; producing_sql = reg.0.producing_sql };
      created_at = some reg.0.created_at;
      updated_at = some reg.0.updated_at;
      metadata_pending = false;
    })

  unfoldable pub describe_object : Text → Text → Exec (World ice.Lake) MemoryObject
  unfolding or_repair or_missing
  describe_object tenant raw = do
    label ← lift (validate_label u raw)
    row ← in_store (Registry.get_object tenant label)
    repaired ← or_repair row tenant label
    reg ← or_missing repaired
    described tenant label reg

  unfoldable pub pending_object :
      Text
      → Text
      → SourceKind
      → Option Text
      → List Text
      → Option Text
      → List Text
      → Exec (World ice.Lake) MemoryObject
  pending_object tenant label source source_ref tags producing_sql parents = do
    schema ← look (load_schema Row ice tenant label)
    count ← in_lake (row_count e s tenant label)
    pure (record {
      tenant = tenant;
      label = label;
      table_ident = table_ident_of s tenant label;
      source = source;
      source_ref = source_ref;
      schema = schema;
      row_count = count;
      size_bytes = none;
      tags = tags;
      lineage = record { parents = parents; producing_sql = producing_sql };
      created_at = none;
      updated_at = none;
      metadata_pending = true;
    })

  module _ (g : Sqlglot) where
    unfoldable pub get_preview :
        Text → Text → Option ℕ → Exec ice.Lake (PreviewResult (List (Cell e.Other)))
    get_preview tenant label limit = do
      q ← lift (validate_select g u (read_scope s tenant) (select_all label))
      run_preview g u e s tenant q limit

    read_mode :
        Text → Text → Text → Option ℕ → Exec (World ice.Lake) (Reading (List (Cell e.Other)))
    read_mode mode tenant label limit =
        if text_eq mode (codes "schema")
        then (do schema ← look (load_schema Row ice tenant label); pure (schema_of schema))
        else if text_eq mode (codes "stats")
        then (do
          count ← in_lake (row_count e s tenant label)
          schema ← look (load_schema Row ice tenant label)
          pure (stats count schema))
        else if text_eq mode (codes "preview")
        then (do shown ← in_lake (get_preview tenant label limit); pure (preview_of shown))
        else raise value_error

    read_found :
        Bool → Text → Text → Text → Option ℕ → Exec (World ice.Lake) (Reading (List (Cell e.Other)))
    read_found false mode tenant label limit = raise object_not_found
    read_found true mode tenant label limit = read_mode mode tenant label limit

    unfoldable pub get_object :
        Text → Text → Text → Option ℕ → Exec (World ice.Lake) (Reading (List (Cell e.Other)))
    unfolding read_mode read_found
    get_object tenant raw mode limit = do
      label ← lift (validate_label u raw)
      found ← look (λ w. ok (Catalog.table_exists Row ice tenant label w))
      read_found found mode tenant label limit

  -- the label that is gone
  unfoldable pub drop_object : Text → Text → Exec (World ice.Lake) Text
  drop_object tenant raw = do
    label ← lift (validate_label u raw)
    in_lake (drop_table Row ice tenant label)
    in_store (delete_object tenant label)
    pure label
