-- ===== src/Storage.antt =====
-- core/storage.py: the objects of S3 that the program reads, writes and signs URLs for, over the
-- clients that Clients configures. `resolve` and `_split` are in Ingest, `s3_uri` in Artifacts.
pub mod ReadBack
mod Tests
use memcove.Common.{ℕ, Option, none, some, List, Text, codes, ◌++◌, ◌∷◌, []}
use memcove.Common.Result.{Result}
use memcove.Common.Exec.{Exec, pure, lift, ◌>>=◌, ◌>>◌}
use memcove.Config.{Settings}
use memcove.Ingest.{split}

-- The methods of the two clients that the program calls, on a state of the object store, with
-- parquet as pyarrow writes and reads it.
pub record ObjectStore (L : Type 0) : Type 1 where
  pub Table : Type 0
  pub Body : Type 0
  pub Sink : Type 0
  pub size : Body → ℕ
  pub write_table : Table → Body
  pub read_table : Body → Result Table
  -- bucket, key, body and the content type, where one is given
  pub put_object : Text → Text → Body → Option Text → Exec L (Unit {0})
  pub get_object : Text → Text → Exec L Body
  -- the ContentLength of `head_object`
  pub head_object : Text → Text → Exec L ℕ
  pub open_output : Text → Exec L Sink
  -- method, bucket, key, the content type where one is given, and the seconds of validity
  pub generate_presigned_url : Text → Text → Text → Option Text → ℕ → Text

module _ {L : Type 0} (o : ObjectStore L) where
  unfoldable pub open_output_stream : Text → Text → Exec L o.Sink
  open_output_stream bucket key = o.open_output (bucket ++ codes "/" ++ key)

  unfoldable pub head : Text → Text → Exec L ℕ
  head bucket key = o.head_object bucket key

  unfoldable pub object_size : Text → Option Text → Exec L ℕ
  object_size uri_or_bucket key = do at ← lift (split uri_or_bucket key); head at.0 at.1

  unfoldable pub presign_put : Settings → Text → Text → Text → Text
  presign_put s bucket key content_type =
      o.generate_presigned_url (codes "put_object") bucket key (some content_type)
        s.presign_ttl_seconds

  unfoldable pub presign_get : Settings → Text → Text → Text
  presign_get s bucket key =
      o.generate_presigned_url (codes "get_object") bucket key none s.presign_ttl_seconds

  unfoldable pub read_parquet_table : Text → Option Text → Exec L o.Table
  read_parquet_table uri_or_bucket key = do
    at ← lift (split uri_or_bucket key)
    body ← o.get_object at.0 at.1
    lift (o.read_table body)

  unfoldable pub write_parquet_table : o.Table → Text → Text → Exec L ℕ
  write_parquet_table table bucket key = do
    o.put_object bucket key (o.write_table table) none
    pure (o.size (o.write_table table))

  unfoldable pub write_bytes : Text → Text → o.Body → Text → Exec L ℕ
  write_bytes bucket key body content_type = do
    o.put_object bucket key body (some content_type)
    pure (o.size body)
