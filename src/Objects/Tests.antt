-- ===== src/Objects/Tests.antt =====
-- A data set of one tenant whose registry row was lost, and its removal.
use memcove.Common.{text_eq, ℕ, ◌≡◌, refl, none, some, [], ◌∷◌, Text, codes}
use memcove.Common.Result.{ok}
use memcove.Unicode.Ascii.{ascii}
use memcove.Config.Defaults.{defaults}
use memcove.Naming.{validate_label}
use memcove.Catalog.{LakeTable, found_at}
use memcove.Catalog.Memory.{Memory, put, memory}
use memcove.Registry.{Tables, Store, find_object}
use memcove.Trino.{Engine, Cell}
use memcove.Trino.Toy.{fixed}
use memcove.Models.{reconciled}
use memcove.World.{World}
use memcove.Objects.{describe_object, drop_object}
use memcove.Objects.Healing.{Healed, Describes, describe_object-heals}
use memcove.Objects.Dropping.{Forgotten, drop_object-Forgotten}

abbrev events_table : LakeTable ℕ
events_table = record { schema = (codes "id", codes "long") ∷ []; rows = 1 ∷ 2 ∷ [] }

abbrev lake : Memory
lake = put (codes "t_acme") (codes "events") events_table (λ n m. none)

abbrev no_rows : Store
no_rows = record {
  tables = record { objects = []; tags = []; lineage = []; tombstones = []; same_tag = text_eq };
  clock = 7;
  faults = [];
}

abbrev crashed : World Memory
crashed = record { lake = lake; store = no_rows }

abbrev engine : Engine Memory
engine = fixed Memory ((Cell.other 2 ∷ []) ∷ [])

events_label : validate_label ascii (codes " Events ") ≡ ok (codes "events")
unfolding validate_label memcove.Naming.label_matches memcove.Naming.full_label
    memcove.Unicode.strip_by memcove.Unicode.rstrip_by memcove.Unicode.lstrip_by
    memcove.Unicode.ascii_space memcove.Unicode.ascii_lower memcove.Common.all
    memcove.Unicode.is_word
events_label = refl

events_found : memory.find lake (codes "t_acme") (codes "events") ≡ some events_table
unfolding memcove.Common.text_eq
events_found = refl

no_events : find_object (codes "t_acme") (codes "events") no_rows.tables.objects ≡ none
unfolding find_object
no_events = refl

describe_object-heals_example :
    (after : Store) × Healed ℕ memory engine ascii defaults
      (codes "t_acme")
      (codes "events")
      no_rows
      after
    × Describes ℕ memory engine ascii defaults
        (codes "t_acme")
        (codes "events")
        events_table
        reconciled
        after
        (describe_object ℕ memory engine ascii defaults (codes "t_acme") (codes " Events ") crashed)
describe_object-heals_example =
    describe_object-heals ℕ memory engine ascii defaults (codes "t_acme") (codes " Events ")
      (codes "events") events_table crashed events_label refl events_found no_events

abbrev dropped : World Memory
dropped = (drop_object ℕ memory engine ascii defaults (codes "t_acme") (codes "events") crashed).1

drops :
    drop_object ℕ memory engine ascii defaults (codes "t_acme") (codes "events") crashed
    ≡ (ok (codes "events"), dropped)
unfolding drop_object validate_label memcove.Naming.label_matches memcove.Naming.full_label
    memcove.Unicode.strip_by memcove.Unicode.rstrip_by memcove.Unicode.lstrip_by
    memcove.Unicode.ascii_space memcove.Unicode.ascii_lower memcove.Common.all
    memcove.Unicode.is_word memcove.World.in_lake memcove.Catalog.drop_table memcove.Common.text_eq
    memcove.World.in_store memcove.Registry.delete_object memcove.Registry.connection
    memcove.Registry.touch memcove.Registry.finish memcove.Registry.execute
    memcove.Registry.delete_objects memcove.Registry.delete_tags memcove.Registry.delete_lineage
drops = refl

drop_object-Forgotten_example :
    (validate_label ascii (codes "events") ≡ ok (codes "events"))
    × ((n m : Text)
        → memory.find dropped.lake n m
          ≡ found_at (codes "t_acme") (codes "events") none (memory.find lake n m) n m)
    × Forgotten (codes "t_acme") (codes "events") no_rows dropped.store
drop_object-Forgotten_example =
    drop_object-Forgotten ℕ memory engine ascii defaults (codes "t_acme") (codes "events")
      (codes "events") crashed dropped drops
