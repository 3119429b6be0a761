-- ===== src/Ingest/Recorded.antt =====
-- What an ingest into the lakehouse answers and records once its rows are committed.
use memcove.Common.{
  ℕ, ◌≡◌, refl, ap, subst, ◌∙◌, Bool, true, false, Option, none, some, List, [], Text,
}
use memcove.Common.Result.{Result, ok}
use memcove.Unicode.{Unicode}
use memcove.Config.{Settings}
use memcove.Naming.{validate_label}
use memcove.Naming.Labels.{validate_label_idem}
use memcove.Catalog.{LakeTable, Iceberg, ArrowTable, write_arrow}
use memcove.Catalog.Writes.{Written, write_arrow-Written, found_at-own}
use memcove.Registry.{Store, find_object, record_object_guarded}
use memcove.Registry.Recording.{upserted, upserted-source}
use memcove.Registry.Guarded.{IsRecorded}
use memcove.Registry.Atomic.{Outcome, record_object_guarded-atomic}
use memcove.Registry.Tags.{Apart}
use memcove.Registry.Total.{record_object_guarded-calm}
use memcove.Trino.{Engine}
use memcove.Models.{SourceKind, source_kind, source_kind-value}
use memcove.World.{World, in_lake, in_store}
use memcove.Objects.Healing.{Describes, describe_object-recorded}
use memcove.Objects.Answers.{Shows, recorded-Shows}
use memcove.Objects.Pending.{Pending, pending_object-Pending}
use memcove.Ingest.Object.{ingested_values, ingest_to_lakehouse, ingest_answer}

module _ (Row : Type 0) (ice : Iceberg Row) (e : Engine ice.Lake) (u : Unicode) (s : Settings) where
  written_table :
      (tenant label mode : Text) (t : ArrowTable Row) (w mid : ice.Lake) (n : ℕ)
      → write_arrow Row ice tenant label t mode w ≡ (ok n, mid)
      → (new : LakeTable Row) × Written ice.stored t mode (ice.find w tenant label) new
        × (ice.find mid tenant label ≡ some new)
  written_table tenant label mode t w mid n h =
      let (rows, new, how, effect) = write_arrow-Written Row ice tenant label mode t w mid n h in
      (
        new,
        how,
        effect tenant label ∙ found_at-own tenant label (some new) (ice.find w tenant label),
      )

  -- An ingest whose rows were committed, while the database raises
  -- nothing and its collation tells the tags apart, returns: it answers
  -- with the object of this tenant and label as described from the table that the mode made and
  -- from the registry, where it just recorded the row; row and answer have the kind and the
  -- reference of the source, no statement, and exactly the given tags.
  pub ingest_to_lakehouse-IsRecorded :
      (tenant raw label mode : Text) (t : ArrowTable Row) (kind : SourceKind) (ref : Option Text)
      (tags : List Text) (w : World ice.Lake) (mid : ice.Lake) (n : ℕ)
      → validate_label u raw ≡ ok label
      → w.store.faults ≡ []
      → Apart tags w.store.tables
      → write_arrow Row ice tenant label t mode w.lake ≡ (ok n, mid)
      → (new : LakeTable Row) × (after : Store) × Written ice.stored t mode
          (ice.find w.lake tenant label)
          new
        × IsRecorded w.store.clock
            (ingested_values s tenant label kind ref)
            tags
            w.store.tables
            after.tables
        × (d : Describes Row ice e u s tenant label new kind after
            (ingest_to_lakehouse Row ice e u s tenant label t kind ref mode tags w))
        × Shows (ingested_values s tenant label kind ref) tags d.object
  unfolding ingest_to_lakehouse in_lake in_store ingest_answer ingested_values
  ingest_to_lakehouse-IsRecorded tenant raw label mode t kind ref tags w mid n valid calm apart
        wrote =
      let v = ingested_values s tenant label kind ref in
      let (new, how, found) = written_table tenant label mode t w.lake mid n wrote in
      let (after, returns, still) = record_object_guarded-calm v tags none w.store calm apart in
      let outcome : Outcome w.store.clock v tags none w.store.tables after.tables (ok true) =
        subst
          (λ (q : Result Bool × Store).
            Outcome w.store.clock v tags none w.store.tables q.1.tables q.0)
          returns (record_object_guarded-atomic v tags none w.store).0 in
      let row = upserted w.store.clock v (find_object tenant label w.store.tables.objects) in
      let kind_back : source_kind row.source ≡ ok kind =
        ap source_kind
          (upserted-source w.store.clock v (find_object tenant label w.store.tables.objects))
        ∙ source_kind-value kind in
      let answer = ingest_to_lakehouse Row ice e u s tenant label t kind ref mode tags w in
      let d : Describes Row ice e u s tenant label new kind after answer =
        rw (wrote, returns, ingest_to_lakehouse, in_lake, in_store)
          (describe_object-recorded Row ice e u s tenant label label new row kind
            (record { lake = mid; store = after }) (validate_label_idem u raw label valid) still
            found outcome.0.object kind_back) in
      (
        new,
        after,
        how,
        outcome.0,
        d,
        recorded-Shows Row ice e u s v tags w.store.clock w.store.tables after new kind answer refl
            outcome.0 d,
      )

  -- An ingest whose rows were committed and whose registry write reports an unreachable database
  -- returns all the same: it answers with a pending object of the tenant, the label, the schema of
  -- the written table, the kind and the reference of the source and the tags, without a statement,
  -- parents or times; it reads the registry no more, and no table of the registry has changed.
  pub ingest_to_lakehouse-Pending :
      (tenant label mode : Text) (t : ArrowTable Row) (kind : SourceKind) (ref : Option Text)
      (tags : List Text) (w : World ice.Lake) (mid : ice.Lake) (after : Store) (n : ℕ)
      → write_arrow Row ice tenant label t mode w.lake ≡ (ok n, mid)
      → record_object_guarded (ingested_values s tenant label kind ref) tags none w.store
        ≡ (ok false, after)
      → (new : LakeTable Row) × Written ice.stored t mode (ice.find w.lake tenant label) new
        × (after.tables ≡ w.store.tables)
        × Pending Row ice e u s tenant label new kind ref tags none []
            (record { lake = mid; store = after })
            (ingest_to_lakehouse Row ice e u s tenant label t kind ref mode tags w)
  unfolding ingest_to_lakehouse in_lake in_store ingest_answer
  ingest_to_lakehouse-Pending tenant label mode t kind ref tags w mid after n wrote failed =
      let v = ingested_values s tenant label kind ref in
      let (new, how, found) = written_table tenant label mode t w.lake mid n wrote in
      (
        new,
        how,
        subst
            (λ (q : Result Bool × Store).
              Outcome w.store.clock v tags none w.store.tables q.1.tables q.0)
            failed (record_object_guarded-atomic v tags none w.store).0,
        rw (wrote, failed, ingest_to_lakehouse, in_lake, in_store)
            (pending_object-Pending Row ice e u s tenant label kind ref tags none [] new
              (record { lake = mid; store = after }) found),
      )
