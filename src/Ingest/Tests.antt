-- ===== src/Ingest/Tests.antt =====
-- Ingests from a store in which every object is its own key, 10 bytes long.
use memcove.Common.{
  text_eq_iff, ℕ, ◌≡◌, refl, true, false, Option, none, some, List, [], ◌∷◌, ◌++◌, Text, codes, any,
  contains, starts_with, text_eq,
}
use memcove.Common.Result.{ok, err, ingest_error, backend_down}
use memcove.Unicode.Ascii.{ascii}
use memcove.Naming.{validate_label}
use memcove.Catalog.{LakeTable, ArrowTable, write_arrow}
use memcove.Catalog.Memory.{Memory, memory}
use memcove.Catalog.Writes.{Written}
use memcove.Registry.{Store, record_object_guarded}
use memcove.Registry.Guarded.{IsRecorded}
use memcove.Trino.{Engine, Cell}
use memcove.Trino.Types.{ArrowType}
use memcove.Trino.Toy.{fixed}
use memcove.World.{World}
use memcove.Objects.Healing.{Describes}
use memcove.Objects.Answers.{Shows}
use memcove.Objects.Pending.{Pending}
use memcove.Ingest.Object.{ingested_values, ingest_to_lakehouse, request_upload}
use memcove.Ingest.Recorded.{ingest_to_lakehouse-IsRecorded, ingest_to_lakehouse-Pending}
use memcove.Ingest.Handles.{request_upload-own}
use memcove.Ingest.Literals.{of, literal, quoted, literal-quoted}
use memcove.Config.{Settings}
use memcove.Config.Defaults.{defaults}
use memcove.Models.{SourceKind, UploadTicket}
use memcove.Ingest.{Ports, s3_parquet, upload_handle, within, split, uploads, table_from_source}
use memcove.Ingest.Confined.{
  ReadWithin, LiesUnder, table_from_source-allowed, table_from_source-own_upload,
}

abbrev ports : Ports
ports = record {
  Table = Text;
  Payload = Text;
  is_empty = λ payload. text_eq payload [];
  from_pylist = λ payload. ok payload;
  read_ipc = λ payload. ok payload;
  estimate_bytes = λ t. 10;
  content_length = λ bucket key. ok 10;
  read_parquet = λ bucket key. ok key;
}

abbrev lake_only : Settings
lake_only = record defaults { allowed_s3_ingest_prefixes = codes "s3://lake/" ∷ [] }

allowed :
    table_from_source ports lake_only (codes "t_a") (s3_parquet (some (codes "s3://lake/x")))
    ≡ ok (codes "x", SourceKind.s3_parquet, some (codes "s3://lake/x"))
unfolding table_from_source memcove.Ingest.from_s3 memcove.Ingest.check_s3_ingest_allowed any within
    memcove.Common.text_eq memcove.Unicode.rstrip_by starts_with memcove.Ingest.check_ingest_size
    split memcove.Unicode.partition memcove.Common.drop memcove.Ingest.read_parquet_table
allowed = refl

lookalike_refused :
    table_from_source ports lake_only (codes "t_a") (s3_parquet (some (codes "s3://lake-evil/x")))
    ≡ err ingest_error
unfolding table_from_source memcove.Ingest.from_s3 memcove.Ingest.check_s3_ingest_allowed any within
    memcove.Common.text_eq memcove.Unicode.rstrip_by starts_with
lookalike_refused = refl

table_from_source-allowed_example :
    ((allowed : Text) × (contains lake_only.allowed_s3_ingest_prefixes allowed ≡ true)
      × LiesUnder (codes "s3://lake/x") allowed)
    × (bucket key : Text) × (split (codes "s3://lake/x") none ≡ ok (bucket, key))
    × ReadWithin ports lake_only bucket key (codes "x")
table_from_source-allowed_example =
    table_from_source-allowed ports lake_only (codes "t_a") (codes "s3://lake/x") (codes "x")
      SourceKind.s3_parquet (some (codes "s3://lake/x")) allowed

abbrev own : Text
own = codes "uploads/t_a/1"

accepted :
    table_from_source ports lake_only (codes "t_a") (upload_handle (some own))
    ≡ ok (own, SourceKind.upload, some own)
unfolding table_from_source memcove.Ingest.from_upload starts_with memcove.Ingest.resolve
    memcove.Ingest.join memcove.Unicode.partition memcove.Unicode.strip_by memcove.Unicode.rstrip_by
    memcove.Unicode.lstrip_by memcove.Common.filter memcove.Ingest.check_ingest_size split
    memcove.Ingest.read_parquet_table
accepted = refl

table_from_source-own_upload_example :
    (starts_with own ((uploads ports lake_only (codes "t_a")).1 ++ codes "/") ≡ true)
    × ReadWithin ports lake_only (uploads ports lake_only (codes "t_a")).0 own own
table_from_source-own_upload_example =
    table_from_source-own_upload ports lake_only (codes "t_a") own own SourceKind.upload (some own)
      accepted

abbrev no_rows : Store
no_rows = record {
  tables = record { objects = []; tags = []; lineage = []; tombstones = []; same_tag = text_eq };
  clock = 7;
  faults = [];
}

abbrev fresh : World Memory
fresh = record { lake = λ n m. none; store = no_rows }

-- the database is gone once its backend was obtained
abbrev cut_off : World Memory
cut_off = record fresh { store = record no_rows { faults = none ∷ some backend_down ∷ [] } }

abbrev engine : Engine Memory
engine = fixed Memory ((Cell.other 2 ∷ []) ∷ [])

abbrev payload : ArrowTable ℕ
payload = record { schema = (codes "id", codes "long") ∷ []; rows = 1 ∷ 2 ∷ [] }

abbrev lake_after : Memory
lake_after =
    (write_arrow ℕ memory (codes "t_a") (codes "events") payload (codes "create") (λ n m. none)).1

events_label : validate_label ascii (codes "Events") ≡ ok (codes "events")
unfolding validate_label memcove.Naming.label_matches memcove.Naming.full_label
    memcove.Unicode.strip_by memcove.Unicode.rstrip_by memcove.Unicode.lstrip_by
    memcove.Unicode.ascii_space memcove.Unicode.ascii_lower memcove.Common.all
    memcove.Unicode.is_word
events_label = refl

committed :
    write_arrow ℕ memory (codes "t_a") (codes "events") payload (codes "create") (λ n m. none)
    ≡ (ok 2, lake_after)
unfolding write_arrow memcove.Common.text_eq
committed = refl

ingest_to_lakehouse-IsRecorded_example :
    (new : LakeTable ℕ) × (after : Store) × Written memory.stored payload (codes "create") none new
    × IsRecorded 7
        (ingested_values defaults (codes "t_a") (codes "events") SourceKind.inline none)
        (codes "raw" ∷ [])
        no_rows.tables
        after.tables
    × (d : Describes ℕ memory engine ascii defaults
        (codes "t_a")
        (codes "events")
        new
        SourceKind.inline
        after
        (ingest_to_lakehouse ℕ memory engine ascii defaults
          (codes "t_a")
          (codes "events")
          payload
          SourceKind.inline
          none
          (codes "create")
          (codes "raw" ∷ [])
          fresh))
    × Shows
        (ingested_values defaults (codes "t_a") (codes "events") SourceKind.inline none)
        (codes "raw" ∷ [])
        d.object
ingest_to_lakehouse-IsRecorded_example =
    ingest_to_lakehouse-IsRecorded ℕ memory engine ascii defaults (codes "t_a") (codes "Events")
      (codes "events") (codes "create") payload SourceKind.inline none (codes "raw" ∷ []) fresh
      lake_after 2 events_label refl (λ x y p q. (text_eq_iff x y).0) committed

abbrev unreached : Store
unreached =
    (record_object_guarded
      (ingested_values defaults (codes "t_a") (codes "events") SourceKind.inline none)
      (codes "raw" ∷ []) none cut_off.store).1

swallowed :
    record_object_guarded
      (ingested_values defaults (codes "t_a") (codes "events") SourceKind.inline none)
      (codes "raw" ∷ [])
      none
      cut_off.store
    ≡ (ok false, unreached)
unfolding memcove.Registry.obtain_backend memcove.Registry.write_or_false record_object_guarded
    memcove.Registry.connection memcove.Registry.touch
swallowed = refl

ingest_to_lakehouse-Pending_example :
    (new : LakeTable ℕ) × Written memory.stored payload (codes "create") none new
    × (unreached.tables ≡ no_rows.tables)
    × Pending ℕ memory engine ascii defaults
        (codes "t_a")
        (codes "events")
        new
        SourceKind.inline
        none
        (codes "raw" ∷ [])
        none
        []
        (record { lake = lake_after; store = unreached })
        (ingest_to_lakehouse ℕ memory engine ascii defaults
          (codes "t_a")
          (codes "events")
          payload
          SourceKind.inline
          none
          (codes "create")
          (codes "raw" ∷ [])
          cut_off)
ingest_to_lakehouse-Pending_example =
    ingest_to_lakehouse-Pending ℕ memory engine ascii defaults (codes "t_a") (codes "events")
      (codes "create") payload SourceKind.inline none (codes "raw" ∷ []) cut_off lake_after
      unreached 2 committed swallowed

abbrev url_of : Text → Text → Text
url_of bucket key = codes "https://" ++ bucket ++ codes "/" ++ key

abbrev ticket : UploadTicket
ticket = record {
  upload_handle = codes "uploads/t_a/events-0af3.parquet";
  presigned_url = codes "https://memcove-staging/uploads/t_a/events-0af3.parquet";
  expires_in_seconds = 3600;
}

minted :
    request_upload ascii defaults url_of (codes "0af3") (codes "t_a") (codes "Events") ≡ ok ticket
unfolding request_upload validate_label memcove.Naming.label_matches memcove.Naming.full_label
    memcove.Unicode.strip_by memcove.Unicode.rstrip_by memcove.Unicode.lstrip_by
    memcove.Unicode.ascii_space memcove.Unicode.ascii_lower memcove.Common.all
    memcove.Unicode.is_word memcove.Ingest.resolve memcove.Ingest.join memcove.Unicode.partition
    memcove.Common.filter
minted = refl

request_upload-own_example :
    (starts_with ticket.upload_handle ((uploads ports defaults (codes "t_a")).1 ++ codes "/")
      ≡ true)
    × (ticket.presigned_url ≡ url_of (uploads ports defaults (codes "t_a")).0 ticket.upload_handle)
request_upload-own_example =
    request_upload-own ports ascii defaults url_of (codes "0af3") (codes "t_a") (codes "Events")
      ticket minted

literal-quoted_example :
    (body : Text) × (literal (of true [] (codes "it's; DROP") []) ArrowType.string ≡ b'\'' ∷ body)
    × (quoted false (body ++ codes ")") ≡ some (codes "it's; DROP", codes ")"))
unfolding starts_with
literal-quoted_example =
    literal-quoted true [] (codes "it's; DROP") [] (codes ")") ArrowType.string refl refl refl
