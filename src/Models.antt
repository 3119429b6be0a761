-- ===== src/Models.antt =====
-- core/models.py: what the tools return.
use memcove.Common.{ℕ, ◌≡◌, refl, Bool, Option, List, Text, codes, text_eq, if◌then◌else◌}
use memcove.Common.Result.{Result, ok, err, value_error}
use memcove.Catalog.{TableSchema}

-- how the data of an object came in
pub data SourceKind : Type 0 where
  inline s3_parquet upload stream derived scratch reconciled : SourceKind

-- `.value`
abbrev pub value : SourceKind → Text
value inline = codes "inline"
value s3_parquet = codes "s3_parquet"
value upload = codes "upload_handle"
value stream = codes "stream"
value derived = codes "derived"
value scratch = codes "scratch"
value reconciled = codes "reconciled"

-- `SourceKind(value)`
unfoldable pub source_kind : Text → Result SourceKind
source_kind t =
    if text_eq t (codes "inline")
    then ok inline
    else if text_eq t (codes "s3_parquet")
    then ok s3_parquet
    else if text_eq t (codes "upload_handle")
    then ok upload
    else if text_eq t (codes "stream")
    then ok stream
    else if text_eq t (codes "derived")
    then ok derived
    else if text_eq t (codes "scratch")
    then ok scratch
    else if text_eq t (codes "reconciled")
    then ok reconciled
    else err value_error

pub record Lineage : Type 0 where
  pub parents : List Text
  pub producing_sql : Option Text

pub record MemoryObject : Type 0 where
  pub tenant : Text
  pub label : Text
  pub table_ident : Text
  pub source : SourceKind
  pub source_ref : Option Text
  pub schema : TableSchema
  pub row_count : Option ℕ
  pub size_bytes : Option ℕ
  pub tags : List Text
  pub lineage : Lineage
  pub created_at : Option ℕ
  pub updated_at : Option ℕ
  pub metadata_pending : Bool

pub record UploadTicket : Type 0 where
  pub upload_handle : Text
  pub presigned_url : Text
  pub expires_in_seconds : ℕ

pub record ArtifactRef : Type 0 where
  pub uri : Text
  pub presigned_url : Text
  pub format : Text
  pub row_count : ℕ
  pub size_bytes : ℕ
  pub expires_in_seconds : ℕ

-- Every kind is read back from what it is stored as.
pub source_kind-value : (k : SourceKind) → source_kind (value k) ≡ ok k
unfolding source_kind text_eq
source_kind-value inline = refl
source_kind-value s3_parquet = refl
source_kind-value upload = refl
source_kind-value stream = refl
source_kind-value derived = refl
source_kind-value scratch = refl
source_kind-value reconciled = refl
