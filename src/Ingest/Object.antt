-- ===== src/Ingest/Object.antt =====
-- tools/ingest.py: what an ingest writes, to the lakehouse or to the scratchpad.
use memcove.Common.{
  Bool, true, false, not, ◌||◌, Option, none, List, [], ◌∷◌, ◌++◌, Text, codes, text_eq,
  if◌then◌else◌,
}
use memcove.Common.Result.{Result, ok, err, guard, value_error, ingest_error, object_exists}
use memcove.Common.Exec.{Exec, pure, lift, ◌>>=◌, ◌>>◌}
use memcove.Unicode.{Unicode}
use memcove.Config.{Settings}
use memcove.Naming.{validate_label}
use memcove.Catalog.{Iceberg, ArrowTable, write_arrow}
use memcove.Registry.{ObjectValues, record_object_guarded}
use memcove.Trino.{Engine}
use memcove.Trino.Types.{ArrowType}
use memcove.Scratch
use memcove.Scratch.{create_as_select}
use memcove.Models.{SourceKind, value, MemoryObject, UploadTicket}
use memcove.Objects.{table_ident_of, pending_object, describe_object}
use memcove.World.{World, in_lake, in_store}
use memcove.Ingest.Literals.{Value, scratch_select}
use memcove.Ingest.{Ports, Source, table_from_source, resolve}

-- `request_upload`, with the hex of the uuid and `presign_put` as parameters
unfoldable pub request_upload :
    Unicode → Settings → (Text → Text → Text) → Text → Text → Text → Result UploadTicket
request_upload u s presign_put hex tenant raw = elim (validate_label u raw) [
  | err raised ↦ err raised
  | ok label ↦
      let (bucket, handle) =
        resolve s.staging_bucket
          (codes "uploads" ∷ tenant ∷ (label ++ codes "-" ++ hex ++ codes ".parquet") ∷ []) in
      ok (record {
        upload_handle = handle;
        presigned_url = presign_put bucket handle;
        expires_in_seconds = s.presign_ttl_seconds;
      })
]

unfoldable pub ingested_values : Settings → Text → Text → SourceKind → Option Text → ObjectValues
ingested_values s tenant label kind ref = record {
  tenant = tenant;
  label = label;
  table_ident = table_ident_of s tenant label;
  source = value kind;
  source_ref = ref;
  producing_sql = none;
}

is_inline : SourceKind → Bool
is_inline SourceKind.inline = true
is_inline _ = false

unfoldable pub scratch_mode : Text → Bool
scratch_mode mode = text_eq mode (codes "create") || text_eq mode (codes "replace")

unfoldable pub ingest_target : Text → Bool
ingest_target target = text_eq target (codes "lakehouse") || text_eq target (codes "scratch")

-- an Arrow table as the write to Iceberg and as the scratchpad see it
pub record Views (Table Row : Type 0) : Type 0 where
  pub arrow : Table → ArrowTable Row
  pub fields : Table → List (Text × ArrowType)
  pub cells : Table → List (List Value)

module _ (Row : Type 0) (ice : Iceberg Row) (e : Engine ice.Lake) (u : Unicode) (s : Settings) where
  scratch_exists : Bool → Text → Text → Exec ice.Lake Bool
  scratch_exists true tenant label = Scratch.table_exists e s tenant label
  scratch_exists false tenant label = pure false

  -- `_ingest_to_scratch`
  unfoldable pub ingest_to_scratch :
      Text → Text → Text → SourceKind → Text → Exec ice.Lake MemoryObject
  unfolding is_inline scratch_exists
  ingest_to_scratch tenant label select_sql kind mode = do
    lift (guard (is_inline kind) ingest_error)
    lift (guard (scratch_mode mode) ingest_error)
    exists ← scratch_exists (text_eq mode (codes "create")) tenant label
    lift (guard (not exists) object_exists)
    create_as_select e s tenant label select_sql (text_eq mode (codes "replace"))
    Scratch.describe e s tenant label

  unfoldable pub ingest_answer :
      Bool → Text → Text → SourceKind → Option Text → List Text → Exec (World ice.Lake) MemoryObject
  ingest_answer true tenant label kind ref tags = describe_object Row ice e u s tenant label
  ingest_answer false tenant label kind ref tags =
      pending_object Row ice e u s tenant label kind ref tags none []

  unfoldable pub ingest_to_lakehouse :
      Text
      → Text
      → ArrowTable Row
      → SourceKind
      → Option Text
      → Text
      → List Text
      → Exec (World ice.Lake) MemoryObject
  unfolding ingest_answer
  ingest_to_lakehouse tenant label t kind ref mode tags = do
    in_lake (write_arrow Row ice tenant label t mode)
    recorded ← in_store (record_object_guarded (ingested_values s tenant label kind ref) tags none)
    ingest_answer recorded tenant label kind ref tags

  module _ (p : Ports) (view : Views p.Table Row) where
    -- `ingest_object`; no tags is the empty list
    unfoldable pub ingest_object :
        Text
        → Text
        → Source p.Payload
        → Text
        → List Text
        → Text
        → Exec (World ice.Lake) MemoryObject
    ingest_object tenant raw source mode tags target = do
      label ← lift (validate_label u raw)
      lift (guard (ingest_target target) value_error)
      got ← lift (table_from_source p s tenant source)
      (if text_eq target (codes "scratch")
          then in_lake (
              ingest_to_scratch tenant label (scratch_select (view.fields got.0) (view.cells got.0))
                got.1 mode)
          else ingest_to_lakehouse tenant label (view.arrow got.0) got.1 got.2 mode tags)
