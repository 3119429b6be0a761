-- ===== src/Objects/Pending.antt =====
-- The answer after a write whose registry row failed.
use memcove.Common.{◌≡◌, refl, true, Option, none, some, List, Text}
use memcove.Common.Result.{Result, ok}
use memcove.Unicode.{Unicode}
use memcove.Config.{Settings}
use memcove.Catalog.{LakeTable, Iceberg, load_schema}
use memcove.Trino.{Engine}
use memcove.Models.{SourceKind, MemoryObject}
use memcove.World.{World, in_lake, look}
use memcove.Objects.{row_count, table_ident_of, pending_object}

module _ (Row : Type 0) (ice : Iceberg Row) (e : Engine ice.Lake) (u : Unicode) (s : Settings) where
  -- the answer is a pending object with what was in hand, and the registry was not used
  pub record Pending (tenant label : Text) (t : LakeTable Row) (k : SourceKind) (ref : Option Text)
      (tags : List Text) (sql : Option Text) (parents : List Text) (w : World ice.Lake)
      (answer : Result MemoryObject × World ice.Lake) : Type 0 where
    pub object : MemoryObject
    pub returns : answer.0 ≡ ok object
    pub pending : object.metadata_pending ≡ true
    pub schema : object.schema ≡ t.schema
    pub source : object.source ≡ k
    pub of_tenant : object.tenant ≡ tenant
    pub of_label : object.label ≡ label
    pub ident : object.table_ident ≡ table_ident_of s tenant label
    pub ref_in_hand : object.source_ref ≡ ref
    pub no_times : (object.created_at ≡ none) × (object.updated_at ≡ none)
    pub tags_in_hand : object.tags ≡ tags
    pub sql_in_hand : object.lineage.producing_sql ≡ sql
    pub parents_in_hand : object.lineage.parents ≡ parents
    pub unread : answer.1.store ≡ w.store

  pub pending_object-Pending :
      (tenant label : Text) (k : SourceKind) (ref : Option Text) (tags : List Text)
      (sql : Option Text) (parents : List Text) (t : LakeTable Row) (w : World ice.Lake)
      → ice.find w.lake tenant label ≡ some t
      → Pending tenant label t k ref tags sql parents w
          (pending_object Row ice e u s tenant label k ref tags sql parents w)
  unfolding pending_object in_lake look load_schema row_count
  pending_object-Pending tenant label k ref tags sql parents t w found =
      rw (found, pending_object, look, load_schema, in_lake, row_count)
        (record {
          object = _;
          returns = refl;
          pending = refl;
          schema = refl;
          source = refl;
          of_tenant = refl;
          of_label = refl;
          ident = refl;
          ref_in_hand = refl;
          no_times = (refl, refl);
          tags_in_hand = refl;
          sql_in_hand = refl;
          parents_in_hand = refl;
          unread = refl;
        })
