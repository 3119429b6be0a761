-- ===== src/Flight.antt =====
-- data_plane/flight_server.py: the upload of a stream, and the query behind a download.
pub mod Commits
pub mod Rows
pub mod Downloads
mod Commands
mod Tests
unfoldable pub use Commands.*
use memcove.Common.{
  ℕ, zero, ◌≡◌, ◌+◌, Bool, true, false, Option, none, some, List, [], ◌∷◌, ◌++◌, Text, codes,
  text_eq, length, leb, is_nonempty, if◌then◌else◌,
}
use memcove.Common.Result.{Result, ok, err, flight_error, key_error, type_error}
use memcove.Common.Exec.{Exec, pure, raise, lift, ◌>>=◌, ◌>>◌}
use memcove.Unicode.{Unicode}
use memcove.Config.{Settings}
use memcove.Naming.{validate_label}
use memcove.Tenancy.{normalize_tenant}
use memcove.SqlGuard.{Sqlglot, Scope, GuardedQuery, validate_select}
use memcove.Catalog.{TableSchema, Iceberg, ArrowTable, write_arrow}
use memcove.Registry.{Store, ObjectValues, record_object_guarded}
use memcove.Tickets.{Codec, verify}
use memcove.World.{World, in_lake, in_store}

-- the local variables of do_put
pub record Upload (Row : Type 0) : Type 0 where
  pub buffer : List (List Row)
  pub buffered : ℕ
  pub total : ℕ
  pub commits : ℕ

abbrev pub no_upload : {Row : Type 0} → Upload Row
no_upload = record { buffer = []; buffered = 0; total = 0; commits = 0 }

-- the rows of a table made of batches
unfoldable pub concat : {Row : Type 0} → List (List Row) → List Row
concat [] = []
concat (b ∷ bs) = b ++ concat bs

unfoldable pub add_batch : {Row : Type 0} → List Row → Upload Row → Upload Row
add_batch batch up = record up {
  buffer = up.buffer ++ (batch ∷ []);
  buffered = up.buffered + length batch;
  total = up.total + length batch;
}

module _ (Row : Type 0) (ice : Iceberg Row) where
  -- `_flush`
  unfoldable pub flush : Target → Upload Row → Exec ice.Lake (Upload Row)
  flush t up =
      if is_nonempty up.buffer
      then (do
        write_arrow Row ice t.tenant t.name (record { schema = t.schema; rows = concat up.buffer })
            (if leb 1 up.commits then codes "append" else t.mode)
        pure (record up { commits = up.commits + 1; buffer = []; buffered = 0 }))
      else pure up

  unfoldable pub flush_at : ℕ → Target → Upload Row → Exec ice.Lake (Upload Row)
  flush_at threshold t up = if leb threshold up.buffered then flush t up else pure up

  -- the loop over the chunks of the reader, and the flush behind it
  unfoldable pub put_batches :
      ℕ → Target → List (Option (List Row)) → Upload Row → Exec ice.Lake (Upload Row)
  put_batches threshold t [] up = flush t up
  put_batches threshold t (none ∷ chunks) up = put_batches threshold t chunks up
  put_batches threshold t (some [] ∷ chunks) up = put_batches threshold t chunks up
  put_batches threshold t (some (r ∷ rs) ∷ chunks) up =
      flush_at threshold t (add_batch (r ∷ rs) up) >>= put_batches threshold t chunks

  -- an upload without rows still makes its table
  unfoldable pub write_empty : Target → Upload Row → Exec ice.Lake ℕ
  write_empty t up =
      if leb 1 up.commits
      then pure 0
      else write_arrow Row ice t.tenant t.name (record { schema = t.schema; rows = [] }) t.mode

  stream_values : Settings → Target → ObjectValues
  stream_values s t = record {
    tenant = t.tenant;
    label = t.name;
    table_ident = s.trino_catalog ++ codes "." ++ t.tenant ++ codes "." ++ t.name;
    source = codes "stream";
    source_ref = some (codes "flight");
    producing_sql = none;
  }

  -- `do_put`: whether the registry took the metadata
  unfoldable pub do_put :
      (c : memcove.Tickets.Codec)
      → Unicode
      → Settings
      → ℕ
      → c.Bytes
      → TableSchema
      → List (Option (List Row))
      → Exec (World ice.Lake) Bool
  unfolding stream_values
  do_put c u s now ticket schema chunks = do
    cmd ← lift (verify c s now ticket)
    t ← lift (target_of u s schema cmd)
    up ← in_lake (put_batches s.doput_single_commit_max_rows t chunks no_upload)
    in_lake (write_empty t up)
    in_store (record_object_guarded (stream_values s t) [] none)
