-- ===== src/Derive/Tests.antt =====
-- A data set derived from another, and replacements of it.
use memcove.Common.{
  text_eq, text_eq_iff, ℕ, ◌≡◌, ◌≢◌, refl, true, false, none, some, List, [], ◌∷◌, Text, codes,
  contains,
}
use memcove.Common.Result.{ok, err, schema_mismatch}
use memcove.Unicode.Ascii.{ascii}
use memcove.Config.Defaults.{defaults}
use memcove.Naming.{validate_label}
use memcove.SqlGuard.{GuardedQuery}
use memcove.Catalog.{LakeTable}
use memcove.Catalog.Memory.{Memory, put, memory}
use memcove.Registry.{Store, parents_of}
use memcove.Registry.Guarded.{IsRecorded}
use memcove.Trino.{Engine, Cell}
use memcove.Trino.Toy.{fixed}
use memcove.Models.{derived}
use memcove.World.{World}
use memcove.Objects.Healing.{Describes}
use memcove.Objects.Answers.{Shows}
use memcove.Derive.{derived_values, record_derived, materialize}
use memcove.Derive.Recorded.{HasLineage, record_derived-IsRecorded}
use memcove.Derive.Shape.{materialize-keeps_shape}

abbrev events_table : LakeTable ℕ
events_table = record { schema = (codes "id", codes "long") ∷ []; rows = 1 ∷ 2 ∷ [] }

-- the source and the derived table
abbrev lake : Memory
lake =
    put (codes "t_acme") (codes "rollup") events_table
      (put (codes "t_acme") (codes "events") events_table (λ n m. none))

abbrev no_rows : Store
no_rows = record {
  tables = record { objects = []; tags = []; lineage = []; tombstones = []; same_tag = text_eq };
  clock = 7;
  faults = [];
}

abbrev world : World Memory
world = record { lake = lake; store = no_rows }

abbrev engine : Engine Memory
engine = fixed Memory ((Cell.other 2 ∷ []) ∷ [])

-- a statement that names a table, itself and a label that is none
abbrev guarded : GuardedQuery
guarded = record {
  sql = codes "SELECT count(*) FROM iceberg.t_acme.events";
  referenced_labels = codes "events" ∷ codes "rollup" ∷ codes "gone" ∷ [];
  scratch_labels = [];
}

rollup_label : validate_label ascii (codes "rollup") ≡ ok (codes "rollup")
unfolding validate_label memcove.Naming.label_matches memcove.Naming.full_label
    memcove.Unicode.strip_by memcove.Unicode.rstrip_by memcove.Unicode.lstrip_by
    memcove.Unicode.ascii_space memcove.Unicode.ascii_lower memcove.Common.all
    memcove.Unicode.is_word
rollup_label = refl

rollup_found : memory.find lake (codes "t_acme") (codes "rollup") ≡ some events_table
unfolding memcove.Common.text_eq
rollup_found = refl

record_derived-IsRecorded_example :
    (after : Store) × IsRecorded 7
      (derived_values defaults (codes "t_acme") (codes "rollup") guarded.sql)
      []
      no_rows.tables
      after.tables
    × HasLineage ℕ memory engine ascii defaults
        (codes "t_acme")
        (codes "rollup")
        guarded.referenced_labels
        lake
        (parents_of (codes "t_acme") (codes "rollup") after.tables.lineage)
    × (d : Describes ℕ memory engine ascii defaults
        (codes "t_acme")
        (codes "rollup")
        events_table
        derived
        after
        (record_derived ℕ memory engine ascii defaults
          (codes "t_acme")
          (codes "rollup")
          guarded
          []
          world))
    × Shows (derived_values defaults (codes "t_acme") (codes "rollup") guarded.sql) [] d.object
    × HasLineage ℕ memory engine ascii defaults
        (codes "t_acme")
        (codes "rollup")
        guarded.referenced_labels
        lake
        d.object.lineage.parents
record_derived-IsRecorded_example =
    record_derived-IsRecorded ℕ memory engine ascii defaults (codes "t_acme") (codes "rollup")
      (codes "rollup") guarded [] events_table world rollup_label refl
      (λ x y p q. (text_eq_iff x y).0) rollup_found

-- the engine's columns are `n` alone
reshapes : contains (codes "id" ∷ []) (codes "id") ≢ contains (codes "n" ∷ []) (codes "id")
unfolding contains memcove.Common.text_eq
reshapes h = cc h

materialize-keeps_shape_example :
    materialize ℕ memory engine ascii defaults
      (codes "t_acme")
      (codes "rollup")
      (codes "SELECT 1 AS n")
      (codes "replace")
      world
    ≡ (err schema_mismatch, world)
unfolding memcove.Trino.execute
materialize-keeps_shape_example =
    materialize-keeps_shape ℕ memory engine ascii defaults (codes "t_acme") (codes "rollup")
      (codes "SELECT 1 AS n") (codes "id") events_table world (codes "n" ∷ [])
      ((Cell.other 2 ∷ []) ∷ []) lake rollup_found refl reshapes
