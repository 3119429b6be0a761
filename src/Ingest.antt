-- ===== src/Ingest.antt =====
-- tools/ingest.py, core/storage.py: what an ingest may read.
pub mod Confined
pub mod Literals
pub mod Object
pub mod Handles
pub mod Recorded
mod Tests
use memcove.Common.{
  drop, ℕ, Bool, true, false, not, Option, none, some, List, [], ◌∷◌, ◌++◌, Text, codes, text_eq,
  starts_with, any, map, filter, ltb, ◌==◌, is_nonempty, if◌then◌else◌,
}
use memcove.Common.Result.{
  Result, ok, err, ◌>>=◌, ◌>>◌, guard, ingest_error, value_error, key_error,
}
use memcove.Unicode.{strip_by, rstrip_by, partition}
use memcove.Config.{Settings}
use memcove.Models.{SourceKind}

is_slash : ℕ → Bool
is_slash c = c == b'/'

-- `"/".join`
unfoldable pub join : List Text → Text
join [] = []
join (p ∷ []) = p
join (p ∷ q ∷ ps) = p ++ codes "/" ++ join (q ∷ ps)

-- storage.resolve
unfoldable pub resolve : Text → List Text → Text × Text
unfolding is_slash
resolve location parts =
    let (bucket, prefix) = partition b'/' (strip_by is_slash location) in
    let head = if is_nonempty prefix then strip_by is_slash prefix ∷ [] else [] in
    (bucket, join (head ++ map (strip_by is_slash) (filter is_nonempty parts)))

-- storage._split of a URI, or of a bucket and a key
unfoldable pub split : Text → Option Text → Result (Text × Text)
split bucket (some key) = ok (bucket, key)
split uri none =
    if not (starts_with uri (codes "s3://"))
    then err value_error
    else (let (bucket, key) = partition b'/' (drop 5 uri) in
        if is_nonempty key then ok (bucket, key) else err value_error)

-- `_within`
unfoldable pub within : Text → Text → Bool
unfolding is_slash
within uri raw_prefix =
    let prefix = rstrip_by is_slash raw_prefix in
    if text_eq uri prefix then true else starts_with uri (prefix ++ codes "/")

unfoldable pub check_s3_ingest_allowed : Settings → Text → Result (Unit {0})
check_s3_ingest_allowed s uri = do
  guard (is_nonempty s.allowed_s3_ingest_prefixes) ingest_error
  guard (any (within uri) s.allowed_s3_ingest_prefixes) ingest_error

-- Arrow and the object store, which the program calls
pub record Ports : Type 1 where
  pub Table : Type 0
  -- what the source carries inline
  pub Payload : Type 0
  -- `not records`, `pa.Table.from_pylist`, and the decoding of a base64 IPC stream
  pub is_empty : Payload → Bool
  pub from_pylist : Payload → Result Table
  pub read_ipc : Payload → Result Table
  pub estimate_bytes : Table → ℕ
  -- the Content-Length of a HEAD request, and the parquet table that is read
  pub content_length : Text → Text → Result ℕ
  pub read_parquet : Text → Text → Result Table

-- a source descriptor by its kind; none is a missing key
pub data Source (P : Type 0) : Type 0 where
  inline : Text → P → Source P
  s3_parquet : Option Text → Source P
  upload_handle : Option Text → Source P
  unknown : Source P

required : Option Text → Result Text
required none = err key_error
required (some t) = ok t

-- `except Exception as exc: raise IngestError`
as_ingest_error : {A : Type 0} → Result A → Result A
as_ingest_error (ok a) = ok a
as_ingest_error (err e) = err ingest_error

-- core/arrow_io.py
unfoldable pub from_json_records : (p : Ports) → p.Payload → Result p.Table
unfolding as_ingest_error
from_json_records p records =
    if p.is_empty records then err ingest_error else as_ingest_error (p.from_pylist records)

unfoldable pub from_arrow_ipc_b64 : (p : Ports) → p.Payload → Result p.Table
unfolding as_ingest_error
from_arrow_ipc_b64 p payload = as_ingest_error (p.read_ipc payload)

module _ (p : Ports) (s : Settings) where
  unfoldable pub check_ingest_size : Text → Option Text → Result (Unit {0})
  check_ingest_size bucket key = do
    at ← split bucket key
    size ← p.content_length at.0 at.1
    guard (not (ltb s.ingest_bytes_cap size)) ingest_error

  unfoldable pub read_parquet_table : Text → Option Text → Result p.Table
  read_parquet_table bucket key = do at ← split bucket key; p.read_parquet at.0 at.1

  inline_table : Text → p.Payload → Result p.Table
  inline_table format payload =
      if text_eq format (codes "json_records")
      then from_json_records p payload
      else if text_eq format (codes "arrow_ipc_b64")
      then from_arrow_ipc_b64 p payload
      else err ingest_error

  from_inline : Text → p.Payload → Result (p.Table × SourceKind × Option Text)
  from_inline format payload = do
    table ← inline_table format payload
    guard (not (ltb s.inline_bytes_cap (p.estimate_bytes table))) ingest_error
    ok (table, SourceKind.inline, none)

  unfoldable pub from_s3 : Text → Result (p.Table × SourceKind × Option Text)
  from_s3 uri = do
    check_s3_ingest_allowed s uri
    check_ingest_size uri none
    table ← read_parquet_table uri none
    ok (table, SourceKind.s3_parquet, some uri)

  -- the place of a tenant's pending uploads
  abbrev pub uploads : Text → Text × Text
  uploads tenant = resolve s.staging_bucket (codes "uploads" ∷ tenant ∷ [])

  unfoldable pub from_upload : Text → Text → Result (p.Table × SourceKind × Option Text)
  from_upload tenant handle = do
    guard (starts_with handle ((uploads tenant).1 ++ codes "/")) ingest_error
    check_ingest_size (uploads tenant).0 (some handle)
    table ← read_parquet_table (uploads tenant).0 (some handle)
    ok (table, SourceKind.upload, some handle)

  -- `_table_from_source`
  unfoldable pub table_from_source :
      Text → Source p.Payload → Result (p.Table × SourceKind × Option Text)
  unfolding inline_table from_inline required
  table_from_source tenant (inline format payload) = from_inline format payload
  table_from_source tenant (s3_parquet uri) = do given ← required uri; from_s3 given
  table_from_source tenant (upload_handle handle) = do
    given ← required handle
    from_upload tenant given
  table_from_source tenant unknown = err ingest_error
