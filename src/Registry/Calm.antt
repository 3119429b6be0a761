-- ===== src/Registry/Calm.antt =====
-- The reads and the writes of core/registry.py where the database raises nothing.
use memcove.Common.{◌≡◌, refl, Option, none, some, List, [], Text, arith}
use memcove.Common.Result.{ok}
use memcove.Registry.{
  Tables, Store, ObjectRow, ObjectValues, ObjectView, find_object, tags_of, parents_of, sorted,
  select_object, select_tags, select_parents, query, upsert_object, record_object, get_object,
  with_tags, get_parents,
}
use memcove.Registry.Transactions.{touch-no_faults}
use memcove.Registry.Tags.{Succeeds, Apart}
use memcove.Registry.Total.{connection-Succeeds, upsert_object-Succeeds}
use memcove.Registry.Guarded.{IsRecorded}
use memcove.Registry.Atomic.{upsert_object-returns}

-- what get_object shows of the tables
abbrev pub view_of : Text → Text → Tables → Option ObjectView
view_of tenant label t = elim (find_object tenant label t.objects) [
  | none ↦ none
  | some row ↦ some (row, sorted (tags_of tenant label t.tags))
]

pub query-Succeeds :
    {A : Type 0} (f : Tables → A) (s : Store) → s.faults ≡ [] → Succeeds (query f) (f s.tables) s s
unfolding query
query-Succeeds f s calm = record { returns = ground (arith, touch-no_faults s calm); calm = calm }

with_tags-Succeeds :
    (row : Option ObjectRow) (tenant label : Text) (s : Store)
    → s.faults ≡ []
    → row ≡ find_object tenant label s.tables.objects
    → Succeeds (with_tags row tenant label) (view_of tenant label s.tables) s s
unfolding with_tags select_tags
with_tags-Succeeds none tenant label s calm e = record { returns = ground arith; calm = calm }
with_tags-Succeeds (some row) tenant label s calm e = record {
  returns = ground (arith, (query-Succeeds (select_tags tenant label) s calm).returns);
  calm = calm;
}

pub get_object-calm :
    (tenant label : Text) (s : Store)
    → s.faults ≡ []
    → get_object tenant label s ≡ (ok (view_of tenant label s.tables), s)
unfolding get_object select_object
get_object-calm tenant label s calm =
    connection-Succeeds _ (view_of tenant label s.tables) s s calm (record {
      returns = ground (
        arith,
        (query-Succeeds (select_object tenant label) s calm).returns,
        (with_tags-Succeeds (find_object tenant label s.tables.objects) tenant label s calm
            refl).returns,
      );
      calm = calm;
    })

pub get_parents-calm :
    (tenant label : Text) (s : Store)
    → s.faults ≡ []
    → get_parents tenant label s ≡ (ok (sorted (parents_of tenant label s.tables.lineage)), s)
unfolding get_parents select_parents
get_parents-calm tenant label s calm =
    connection-Succeeds _ (sorted (parents_of tenant label s.tables.lineage)) s s calm
      (query-Succeeds (select_parents tenant label) s calm)

-- a write that returned in a state without faults
pub record Recorded (v : ObjectValues) (tags : List Text) (s : Store) : Type 0 where
  pub after : Store
  pub returns : record_object v tags s ≡ (ok tt, after)
  pub calm : after.faults ≡ []
  pub recorded : IsRecorded s.clock v tags s.tables after.tables
  pub lineage : after.tables.lineage ≡ s.tables.lineage

pub record_object-calm :
    (v : ObjectValues) (tags : List Text) (s : Store)
    → s.faults ≡ []
    → Apart tags s.tables
    → Recorded v tags s
unfolding record_object
record_object-calm v tags s calm apart =
    let (after, done) = upsert_object-Succeeds v tags s calm apart in
    let (recorded, lineage) = upsert_object-returns v tags s after tt done.returns in
    record {
      after = after;
      returns = connection-Succeeds (upsert_object v tags) tt s after calm done;
      calm = done.calm;
      recorded = recorded;
      lineage = lineage;
    }

pub get_object-there :
    (tenant label : Text) (s : Store) (row : ObjectRow)
    → s.faults ≡ []
    → find_object tenant label s.tables.objects ≡ some row
    → get_object tenant label s ≡ (ok (some (row, sorted (tags_of tenant label s.tables.tags))), s)
get_object-there tenant label s row calm h = ground (arith, get_object-calm tenant label s calm)

pub get_object-gone :
    (tenant label : Text) (s : Store)
    → s.faults ≡ []
    → find_object tenant label s.tables.objects ≡ none
    → get_object tenant label s ≡ (ok none, s)
get_object-gone tenant label s calm h = ground (arith, get_object-calm tenant label s calm)
