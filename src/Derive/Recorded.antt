-- ===== src/Derive/Recorded.antt =====
-- What a derive into the lakehouse answers and records once its table is there.
use memcove.Common.{
  ◌≡◌, refl, ap, subst, ◌∙◌, Bool, true, not, ◌&&◌, some, List, [], Text, contains, contains-filter,
  text_eq,
}
use memcove.Common.Result.{Result, ok}
use memcove.Unicode.{Unicode}
use memcove.Config.{Settings}
use memcove.Naming.{validate_label}
use memcove.Naming.Labels.{validate_label_idem}
use memcove.SqlGuard.{GuardedQuery}
use memcove.Catalog
use memcove.Catalog.{LakeTable, Iceberg}
use memcove.Registry.{Store, find_object, parents_of}
use memcove.Registry.Recording.{upserted, upserted-source}
use memcove.Registry.Guarded.{IsRecorded}
use memcove.Registry.Atomic.{Outcome, record_object_guarded-atomic}
use memcove.Registry.Tags.{Apart}
use memcove.Registry.Total.{record_object_guarded-calm}
use memcove.Trino.{Engine}
use memcove.Models.{derived, source_kind, source_kind-value}
use memcove.World.{World, in_store, look}
use memcove.Objects.Healing.{Describes, describe_object-recorded}
use memcove.Objects.Answers.{Shows, recorded-Shows, contains-sorted}
use memcove.Derive.{derived_values, existing_labels, record_derived, answer}

module _ (Row : Type 0) (ice : Iceberg Row) (e : Engine ice.Lake) (u : Unicode) (s : Settings) where
  -- these parents are the labels that are tables, without the object itself
  abbrev pub HasLineage : Text → Text → List Text → ice.Lake → List Text → Type 0
  HasLineage tenant label labels w parents =
      (a : Text)
      → contains parents a
        ≡ (contains labels a && Catalog.table_exists Row ice tenant a w) && not (text_eq a label)

  -- A derive whose table was made, while the database raises
  -- nothing and its collation tells the tags apart, returns: it answers with the
  -- object of this tenant and label as described from that table and from the registry, where it
  -- just recorded the row; row and answer have the source kind derived, the guarded statement and
  -- exactly the given tags, and as parents the labels that the guard read off the statement, those
  -- that are tables, but the object itself.
  pub record_derived-IsRecorded :
      (tenant raw label : Text) (q : GuardedQuery) (tags : List Text) (t : LakeTable Row)
      (w : World ice.Lake)
      → validate_label u raw ≡ ok label
      → w.store.faults ≡ []
      → Apart tags w.store.tables
      → ice.find w.lake tenant label ≡ some t
      → (after : Store) × IsRecorded w.store.clock
          (derived_values s tenant label q.sql)
          tags
          w.store.tables
          after.tables
        × HasLineage tenant label q.referenced_labels w.lake
            (parents_of tenant label after.tables.lineage)
        × (d : Describes Row ice e u s tenant label t derived after
            (record_derived Row ice e u s tenant label q tags w))
        × Shows (derived_values s tenant label q.sql) tags d.object
        × HasLineage tenant label q.referenced_labels w.lake d.object.lineage.parents
  unfolding record_derived answer in_store look derived_values existing_labels
  record_derived-IsRecorded tenant raw label q tags t w valid calm apart found =
      let v = derived_values s tenant label q.sql in
      let parents = existing_labels Row ice e u s tenant q.referenced_labels w.lake in
      let (after, returns, still) =
        record_object_guarded-calm v tags (some parents) w.store calm apart in
      let outcome : Outcome w.store.clock v tags (some parents) w.store.tables after.tables
          (ok true) =
        subst
          (λ (r : Result Bool × Store).
            Outcome w.store.clock v tags (some parents) w.store.tables r.1.tables r.0)
          returns (record_object_guarded-atomic v tags (some parents) w.store).0 in
      let row = upserted w.store.clock v (find_object tenant label w.store.tables.objects) in
      let kind_back : source_kind row.source ≡ ok derived =
        ap source_kind
          (upserted-source w.store.clock v (find_object tenant label w.store.tables.objects))
        ∙ source_kind-value derived in
      let lineage : HasLineage tenant label q.referenced_labels w.lake
          (parents_of tenant label after.tables.lineage) =
        λ a.
          outcome.1 a
          ∙ ap (λ b. b && not (text_eq a label))
              (contains-filter (λ l. Catalog.table_exists Row ice tenant l w.lake)
                q.referenced_labels a) in
      let made = record_derived Row ice e u s tenant label q tags w in
      let d : Describes Row ice e u s tenant label t derived after made =
        rw (returns, record_derived, in_store, look)
          (describe_object-recorded Row ice e u s tenant label label t row derived
            (record w { store = after }) (validate_label_idem u raw label valid) still found
            outcome.0.object kind_back) in
      (
        after,
        outcome.0,
        lineage,
        d,
        recorded-Shows Row ice e u s v tags w.store.clock w.store.tables after t derived made refl
            outcome.0 d,
        λ a.
            ap (λ parents. contains parents a) d.parents
            ∙ contains-sorted (parents_of tenant label after.tables.lineage) a
            ∙ lineage a,
      )
