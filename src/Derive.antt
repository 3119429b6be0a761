-- ===== src/Derive.antt =====
-- tools/derive.py: a new object made of a guarded SELECT. The audit log is not modelled.
pub mod Shape
pub mod Recorded
mod Tests
use memcove.Common.{
  ℕ, Bool, true, false, not, ◌&&◌, ◌||◌, Option, none, some, List, [], ◌∷◌, ◌++◌, map, all,
  contains, filter, Text, codes, text_eq, if◌then◌else◌,
}
use memcove.Common.Result.{Result, ok, err, guard, value_error, object_exists, schema_mismatch}
use memcove.Common.Exec.{Exec, pure, raise, lift, ◌>>=◌, ◌>>◌}
use memcove.Unicode.{Unicode}
use memcove.Config.{Settings}
use memcove.Naming.{validate_label}
use memcove.SqlGuard.{Sqlglot, GuardedQuery, validate_select}
use memcove.Catalog
use memcove.Catalog.{TableSchema, Iceberg, load_schema}
use memcove.Registry.{ObjectValues, record_object_guarded}
use memcove.Trino.{Engine, execute, execute_update, ensure_schema}
use memcove.Scratch
use memcove.Scratch.{create_as_select}
use memcove.Models.{SourceKind, derived, value, MemoryObject}
use memcove.Query.{query_scope}
use memcove.Objects.{qualified, table_ident_of, pending_object, describe_object}
use memcove.World.{World, in_lake, in_store, look}

-- equality of two sets of names
unfoldable pub same_names : List Text → List Text → Bool
same_names a b = all (contains b) a && all (contains a) b

unfoldable pub derived_values : Settings → Text → Text → Text → ObjectValues
derived_values s tenant label sql = record {
  tenant = tenant;
  label = label;
  table_ident = table_ident_of s tenant label;
  source = value derived;
  source_ref = none;
  producing_sql = some sql;
}

unfoldable pub known_mode : Text → Bool
known_mode mode = text_eq mode (codes "create") || text_eq mode (codes "replace")

unfoldable pub known_target : Text → Bool
known_target target = text_eq target (codes "lakehouse") || text_eq target (codes "scratch")

unfoldable pub verb : Text → Text
verb mode =
    if text_eq mode (codes "replace") then codes "CREATE OR REPLACE TABLE" else codes "CREATE TABLE"

-- the statement that materializes
unfoldable pub ctas : Settings → Text → Text → Text → Text → Text
ctas s mode tenant label sql =
    verb mode ++ codes " " ++ qualified s tenant label ++ codes " AS " ++ sql

unfoldable pub probe : Text → Text
probe sql = codes "SELECT * FROM (" ++ sql ++ codes ") _probe WHERE 1 = 0"

module _ (Row : Type 0) (ice : Iceberg Row) (e : Engine ice.Lake) (u : Unicode) (s : Settings) where
  -- `_assert_replace_keeps_shape`
  unfoldable pub assert_replace_keeps_shape : Text → Text → Text → Exec (World ice.Lake) (Unit {0})
  assert_replace_keeps_shape tenant new_label select_sql = do
    existing ← look (load_schema Row ice tenant new_label)
    probed ← in_lake (execute e s (probe select_sql) (some tenant))
    lift (guard (same_names (map (λ f. f.0) existing) probed.0) schema_mismatch)

  -- `_derive_to_scratch`
  unfoldable pub derive_to_scratch :
      Text → Text → GuardedQuery → Text → Exec (World ice.Lake) MemoryObject
  derive_to_scratch tenant new_label q mode = do
    exists ← in_lake (Scratch.table_exists e s tenant new_label)
    lift (guard (not (text_eq mode (codes "create") && exists)) object_exists)
    in_lake (create_as_select e s tenant new_label q.sql (text_eq mode (codes "replace")))
    in_lake (Scratch.describe e s tenant new_label)

  keep_shape : Bool → Text → Text → Text → Exec (World ice.Lake) (Unit {0})
  keep_shape true tenant new_label sql = assert_replace_keeps_shape tenant new_label sql
  keep_shape false tenant new_label sql = pure tt

  -- the labels of the statement that are objects
  unfoldable pub existing_labels : Text → List Text → ice.Lake → List Text
  existing_labels tenant labels w = filter (λ l. Catalog.table_exists Row ice tenant l w) labels

  answer : Bool → Text → Text → Text → List Text → List Text → Exec (World ice.Lake) MemoryObject
  answer true tenant label sql tags parents = describe_object Row ice e u s tenant label
  answer false tenant label sql tags parents =
      pending_object Row ice e u s tenant label derived none tags (some sql) parents

  -- the checks and statements up to the table
  unfoldable pub materialize : Text → Text → Text → Text → Exec (World ice.Lake) (Unit {0})
  unfolding keep_shape
  materialize tenant new_label sql mode = do
    exists ← look (λ w. ok (Catalog.table_exists Row ice tenant new_label w))
    lift (guard (not (text_eq mode (codes "create") && exists)) object_exists)
    keep_shape (text_eq mode (codes "replace") && exists) tenant new_label sql
    in_lake (ensure_schema e s tenant)
    in_lake (execute_update e s (ctas s mode tenant new_label sql) (some tenant))

  -- the lineage, the row and the answer
  unfoldable pub record_derived :
      Text → Text → GuardedQuery → List Text → Exec (World ice.Lake) MemoryObject
  unfolding answer
  record_derived tenant new_label q tags = do
    parents ← look (λ w. ok (existing_labels tenant q.referenced_labels w))
    recorded ←
        in_store
          (record_object_guarded (derived_values s tenant new_label q.sql) tags (some parents))
    answer recorded tenant new_label q.sql tags parents

  -- the part behind the dispatch on the target
  unfoldable pub derive_to_lakehouse :
      Text → Text → GuardedQuery → Text → List Text → Exec (World ice.Lake) MemoryObject
  derive_to_lakehouse tenant new_label q mode tags = do
    materialize tenant new_label q.sql mode
    record_derived tenant new_label q tags

  module _ (g : Sqlglot) where
    -- no tags is the empty list
    unfoldable pub derive_object :
        Text → Text → Text → Text → List Text → Text → Exec (World ice.Lake) MemoryObject
    derive_object tenant raw sql mode tags target = do
      new_label ← lift (validate_label u raw)
      lift (guard (known_mode mode) value_error)
      lift (guard (known_target target) value_error)
      q ← lift (validate_select g u (query_scope s tenant) sql)
      (if text_eq target (codes "scratch")
          then derive_to_scratch tenant new_label q mode
          else derive_to_lakehouse tenant new_label q mode tags)
