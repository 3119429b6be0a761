-- ===== src/Registry/Tests.antt =====
-- The registry at concrete writes.
use memcove.Common.{
  text_eq_iff, ◌≡◌, refl, Bool, true, false, none, some, [], ◌∷◌, map, List, ℕ, length, Text,
  text_eq, codes,
}
use memcove.Common.Result.{ok, err, backend_down}
use memcove.Registry.MySql.{
  at_most_one, mysql_upsert_object, mysql_insert_lineage, mysql_upsert_tombstone,
  upsert_object_sql-same,
}
use memcove.Registry.{
  upsert_object_sql, insert_lineage, upsert_tombstone, Tables, Store, ObjectValues, find_object,
  tags_of, parents_of, at_key, record_object_guarded, delete_object, connection, upsert_object,
}
use memcove.Registry.Atomic.{Outcome, Escapes, record_object_guarded-atomic}
use memcove.Registry.Total.{record_object_guarded-succeeds}
use memcove.Registry.Known.{Command, record_it, forget, known}
use memcove.Registry.Refinement.{perform_all, replay_all, perform_all-refines}

abbrev empty_tables : Tables
empty_tables = record { objects = []; tags = []; lineage = []; tombstones = []; same_tag = text_eq }

abbrev calm : Store
calm = record { tables = empty_tables; clock = 7; faults = [] }

-- the fourth use of the database finds it gone
abbrev failing : Store
failing = record calm { faults = none ∷ none ∷ none ∷ some backend_down ∷ [] }

abbrev values : ObjectValues
values = record {
  tenant = codes "t_acme";
  label = codes "rollup";
  table_ident = codes "iceberg.t_acme.rollup";
  source = codes "derived";
  source_ref = none;
  producing_sql = some (codes "SELECT 1");
}

abbrev parents : memcove.Common.List Text
parents = codes "orders" ∷ codes "rollup" ∷ codes "orders" ∷ []

record_object_guarded-atomic_example :
    Outcome 7 values
      (codes "a" ∷ codes "a" ∷ [])
      (some parents)
      empty_tables
      (record_object_guarded values (codes "a" ∷ codes "a" ∷ []) (some parents) failing).1.tables
      (record_object_guarded values (codes "a" ∷ codes "a" ∷ []) (some parents) failing).0
    × Escapes failing
        (record_object_guarded values (codes "a" ∷ codes "a" ∷ []) (some parents) failing).0
record_object_guarded-atomic_example =
    record_object_guarded-atomic values (codes "a" ∷ codes "a" ∷ []) (some parents) failing

outage_swallowed :
    (record_object_guarded values (codes "a" ∷ codes "a" ∷ []) (some parents) failing).0 ≡ ok false
unfolding memcove.Registry.obtain_backend memcove.Registry.write_or_false record_object_guarded
    memcove.Registry.connection memcove.Registry.touch memcove.Registry.finish
    memcove.Registry.upsert_object memcove.Registry.execute memcove.Registry.upsert_object_sql
    memcove.Registry.replace_tags memcove.Registry.delete_tags memcove.Common.Exec.for_each
    memcove.Registry.dedupe memcove.Registry.dedupe_from memcove.Common.contains
outage_swallowed = refl

-- no backend can be built, before the `try`
abbrev unbuilt : Store
unbuilt = record calm { faults = some backend_down ∷ [] }

escaped : (record_object_guarded values [] (some parents) unbuilt).0 ≡ err backend_down
unfolding record_object_guarded memcove.Registry.obtain_backend memcove.Registry.touch
escaped = refl

interrupted :
    (connection (upsert_object values (codes "a" ∷ codes "b" ∷ [])) failing).0 ≡ err backend_down
unfolding connection memcove.Registry.touch memcove.Registry.finish upsert_object
    memcove.Registry.execute memcove.Registry.upsert_object_sql memcove.Registry.replace_tags
    memcove.Registry.delete_tags memcove.Common.Exec.for_each memcove.Registry.dedupe
    memcove.Registry.dedupe_from memcove.Common.contains
interrupted = refl

record_object_guarded-succeeds_example :
    (record_object_guarded values (codes "a" ∷ codes "a" ∷ []) (some parents) calm).0 ≡ ok true
record_object_guarded-succeeds_example =
    record_object_guarded-succeeds values (codes "a" ∷ codes "a" ∷ []) (some parents) calm refl
      (λ x y p q. (text_eq_iff x y).0)

recorded_once :
    parents_of
      (codes "t_acme")
      (codes "rollup")
      (record_object_guarded values [] (some parents) calm).1.tables.lineage
    ≡ codes "orders" ∷ []
unfolding memcove.Registry.obtain_backend memcove.Registry.write_or_false parents_of
    memcove.Common.filter record_object_guarded memcove.Registry.connection memcove.Registry.touch
    memcove.Registry.finish memcove.Registry.upsert_object memcove.Registry.execute
    memcove.Registry.upsert_object_sql memcove.Registry.replace_tags memcove.Registry.delete_tags
    memcove.Common.Exec.for_each memcove.Registry.dedupe memcove.Registry.dedupe_from
    memcove.Registry.set_lineage_rows memcove.Registry.delete_lineage memcove.Common.contains
    memcove.Common.text_eq at_key memcove.Registry.insert_lineage memcove.Registry.insert_tag
    tags_of memcove.Registry.upsert_row memcove.Registry.run memcove.Registry.lineage_part
recorded_once = refl

abbrev two_objects : Store
two_objects =
    (record_object_guarded (record values { label = codes "orders" }) [] none
      (record_object_guarded values (codes "a" ∷ []) none calm).1).1

deletes : (delete_object (codes "t_acme") (codes "rollup") two_objects).0 ≡ ok tt
unfolding memcove.Common.any memcove.Registry.obtain_backend memcove.Registry.write_or_false
    delete_object memcove.Registry.connection memcove.Registry.touch record_object_guarded
    memcove.Registry.finish memcove.Registry.upsert_object memcove.Registry.execute
    memcove.Registry.upsert_object_sql memcove.Registry.replace_tags memcove.Registry.delete_tags
    memcove.Common.Exec.for_each memcove.Registry.dedupe memcove.Registry.dedupe_from
    memcove.Common.contains memcove.Registry.insert_tag tags_of memcove.Common.filter
    memcove.Common.text_eq at_key memcove.Registry.delete_lineage memcove.Registry.delete_objects
    memcove.Registry.insert_lineage parents_of memcove.Registry.upsert_row memcove.Registry.run
    memcove.Registry.lineage_part memcove.Registry.set_lineage_rows
deletes = refl

abbrev commands : memcove.Common.List Command
commands =
    record_it values (codes "a" ∷ []) parents
    ∷ forget (codes "t_acme") (codes "orders")
    ∷ record_it values (codes "b" ∷ []) []
    ∷ []

perform_all-refines_example :
    known (perform_all commands failing).1.tables
    ≡ replay_all commands (perform_all commands failing).0 (known empty_tables)
perform_all-refines_example = perform_all-refines commands failing

one_row :
    at_most_one
      (λ r. at_key (codes "t_acme") (codes "rollup") r.tenant r.label)
      two_objects.tables.objects
    ≡ true
unfolding memcove.Registry.obtain_backend memcove.Registry.write_or_false at_most_one
    record_object_guarded connection memcove.Registry.touch memcove.Registry.finish upsert_object
    memcove.Registry.execute upsert_object_sql memcove.Registry.replace_tags
    memcove.Registry.delete_tags memcove.Common.Exec.for_each memcove.Registry.dedupe
    memcove.Registry.dedupe_from memcove.Common.contains memcove.Registry.insert_tag tags_of
    memcove.Common.filter memcove.Common.any text_eq at_key memcove.Registry.delete_lineage
    insert_lineage parents_of memcove.Registry.upsert_row memcove.Registry.run
    memcove.Registry.lineage_part memcove.Registry.set_lineage_rows
one_row = refl

no_tombstone :
    at_most_one
      (λ r. at_key (codes "t_acme") (codes "rollup") r.tenant r.label)
      two_objects.tables.tombstones
    ≡ true
unfolding memcove.Registry.obtain_backend memcove.Registry.write_or_false at_most_one
    record_object_guarded connection memcove.Registry.touch memcove.Registry.finish upsert_object
    memcove.Registry.execute upsert_object_sql memcove.Registry.replace_tags
    memcove.Registry.delete_tags memcove.Common.Exec.for_each memcove.Registry.dedupe
    memcove.Registry.dedupe_from memcove.Common.contains memcove.Registry.insert_tag tags_of
    memcove.Common.filter memcove.Common.any text_eq at_key memcove.Registry.delete_lineage
    insert_lineage parents_of memcove.Registry.upsert_row memcove.Registry.run
    memcove.Registry.lineage_part memcove.Registry.set_lineage_rows
no_tombstone = refl

upsert_object_sql-same_example :
    (upsert_object_sql 8 values two_objects.tables
      ≡ mysql_upsert_object 8 values two_objects.tables)
    × (insert_lineage (codes "t_acme") (codes "rollup") (codes "orders") two_objects.tables
        ≡ mysql_insert_lineage
            (codes "t_acme")
            (codes "rollup")
            (codes "orders")
            two_objects.tables)
    × (upsert_tombstone (codes "t_acme") (codes "rollup") two_objects.tables
        ≡ mysql_upsert_tombstone (codes "t_acme") (codes "rollup") two_objects.tables)
upsert_object_sql-same_example =
    upsert_object_sql-same 8 values (codes "orders") two_objects.tables one_row no_tombstone
