-- ===== src/Objects/Healing.antt =====
-- An object whose table is there can be described, with a row in the registry or without one.
use memcove.Common.{◌≡◌, refl, false, none, some, [], Text, contains, arith}
use memcove.Common.Result.{Result, ok}
use memcove.Unicode.{Unicode}
use memcove.Config.{Settings}
use memcove.Naming.{validate_label}
use memcove.Catalog
use memcove.Catalog.{TableSchema, LakeTable, Iceberg, load_schema}
use memcove.Registry.{Store, ObjectRow, find_object, tags_of, parents_of, sorted}
use memcove.Registry.Recording.{upserted}
use memcove.Registry.Tags.{none_apart}
use memcove.Registry.Calm.{
  get_object-calm, get_object-there, get_object-gone, get_parents-calm, Recorded,
  record_object-calm,
}
use memcove.Trino.{Engine}
use memcove.Models.{SourceKind, reconciled, value, source_kind, source_kind-value, MemoryObject}
use memcove.World.{World, in_lake, in_store, look}
use memcove.Objects.{
  row_count, table_ident_of, repair_values, read_repair, described, describe_object, or_repair,
  or_missing, repair_found,
}

module _ (Row : Type 0) (ice : Iceberg Row) (e : Engine ice.Lake) (u : Unicode) (s : Settings) where
  -- The answer is the object of this name and source, with the schema of the table, and with the
  -- row, the tags and the parents that the registry holds; the registry is `after`.
  pub record Describes (tenant label : Text) (t : LakeTable Row) (k : SourceKind) (after : Store)
      (answer : Result MemoryObject × World ice.Lake) : Type 0 where
    pub object : MemoryObject
    pub returns : answer.0 ≡ ok object
    pub schema : object.schema ≡ t.schema
    pub source : object.source ≡ k
    pub known : object.metadata_pending ≡ false
    pub kept : answer.1.store ≡ after
    pub of_tenant : object.tenant ≡ tenant
    pub of_label : object.label ≡ label
    pub ident : object.table_ident ≡ table_ident_of s tenant label
    pub entry : ObjectRow
    pub entry_there : find_object tenant label after.tables.objects ≡ some entry
    pub ref : object.source_ref ≡ entry.source_ref
    pub sql : object.lineage.producing_sql ≡ entry.producing_sql
    pub created : object.created_at ≡ some entry.created_at
    pub updated : object.updated_at ≡ some entry.updated_at
    pub tagged : object.tags ≡ sorted (tags_of tenant label after.tables.tags)
    pub parents : object.lineage.parents ≡ sorted (parents_of tenant label after.tables.lineage)

  described-Describes :
      (tenant label : Text) (row : ObjectRow) (t : LakeTable Row) (k : SourceKind)
      (w : World ice.Lake)
      → w.store.faults ≡ []
      → ice.find w.lake tenant label ≡ some t
      → find_object tenant label w.store.tables.objects ≡ some row
      → source_kind row.source ≡ ok k
      → Describes tenant label t k w.store (
          described Row ice e u s tenant label
            (row, sorted (tags_of tenant label w.store.tables.tags))
            w)
  unfolding described in_lake in_store look load_schema row_count
  described-Describes tenant label row t k w calm found there kind =
      rw
        (
          found,
          get_parents-calm tenant label w.store calm,
          kind,
          described,
          look,
          load_schema,
          in_store,
          in_lake,
          row_count,
        )
        (record {
          object = _;
          returns = refl;
          schema = refl;
          source = refl;
          known = refl;
          kept = refl;
          of_tenant = refl;
          of_label = refl;
          ident = refl;
          entry = row;
          entry_there = there;
          ref = refl;
          sql = refl;
          created = refl;
          updated = refl;
          tagged = refl;
          parents = refl;
        })

  -- the row that a repair left
  pub record Healed (tenant label : Text) (before after : Store) : Type 0 where
    pub row : ObjectRow
    pub there : find_object tenant label after.tables.objects ≡ some row
    pub marked : row.source ≡ value reconciled
    pub untagged : (a : Text) → contains (tags_of tenant label after.tables.tags) a ≡ false

  repaired-Healed :
      (tenant label : Text) (before : Store)
      → find_object tenant label before.tables.objects ≡ none
      → (r : Recorded (repair_values s tenant label) [] before) → Healed tenant label before r.after
  unfolding repair_values contains
  repaired-Healed tenant label before gone r = record {
    row = upserted before.clock (repair_values s tenant label) none;
    there = ground (arith, r.recorded.object);
    marked = refl;
    untagged = r.recorded.tagged;
  }

  -- the row that describe goes on with
  read_repair-Healed :
      (tenant label : Text) (t : LakeTable Row) (w : World ice.Lake)
      → w.store.faults ≡ []
      → ice.find w.lake tenant label ≡ some t
      → find_object tenant label w.store.tables.objects ≡ none
      → (after : Store) × (healed : Healed tenant label w.store after) × (after.faults ≡ [])
        × (read_repair Row ice e u s tenant label w ≡ (
          ok (some (healed.row, sorted (tags_of tenant label after.tables.tags))),
          record w { store = after },
        ))
  unfolding read_repair repair_found Catalog.table_exists look in_store repair_values
  read_repair-Healed tenant label t w calm found gone =
      let r =
        record_object-calm (repair_values s tenant label) [] w.store calm
          (none_apart w.store.tables) in
      let healed = repaired-Healed tenant label w.store gone r in
      (
        r.after,
        healed,
        r.calm,
        ground (arith, r.returns, get_object-calm tenant label r.after r.calm, healed.there),
      )

  -- An object that has a table and a row is described from them, and the registry stays as it is:
  -- for a valid label, a row of a known source kind and a database that raises nothing, describe
  -- returns the object with the schema of the table and what the registry holds of it.
  pub describe_object-recorded :
      (tenant raw label : Text) (t : LakeTable Row) (row : ObjectRow) (k : SourceKind)
      (w : World ice.Lake)
      → validate_label u raw ≡ ok label
      → w.store.faults ≡ []
      → ice.find w.lake tenant label ≡ some t
      → find_object tenant label w.store.tables.objects ≡ some row
      → source_kind row.source ≡ ok k
      → Describes tenant label t k w.store (describe_object Row ice e u s tenant raw w)
  unfolding describe_object or_repair or_missing in_store
  describe_object-recorded tenant raw label t row k w valid calm found there kind =
      rw (valid, get_object-there tenant label w.store row calm there, describe_object, in_store)
        (described-Describes tenant label row t k w calm found there kind)

  -- A table without a row heals on read: for a valid label and a database that raises nothing,
  -- describe returns the object with the schema of its table and the source kind reconciled,
  -- whatever the query engine does, and leaves a row of that kind without tags in the registry.
  pub describe_object-heals :
      (tenant raw label : Text) (t : LakeTable Row) (w : World ice.Lake)
      → validate_label u raw ≡ ok label
      → w.store.faults ≡ []
      → ice.find w.lake tenant label ≡ some t
      → find_object tenant label w.store.tables.objects ≡ none
      → (after : Store) × Healed tenant label w.store after
        × Describes tenant label t reconciled after (describe_object Row ice e u s tenant raw w)
  unfolding describe_object or_repair or_missing in_store
  describe_object-heals tenant raw label t w valid calm found gone =
      let (after, healed, still, repaired) = read_repair-Healed tenant label t w calm found gone in
      (
        after,
        healed,
        rw
            (
              valid,
              get_object-gone tenant label w.store calm gone,
              repaired,
              describe_object,
              in_store,
            )
            (described-Describes tenant label healed.row t reconciled (record w { store = after })
              still found healed.there (rw healed.marked (source_kind-value reconciled))),
      )
