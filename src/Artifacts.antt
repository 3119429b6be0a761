-- ===== src/Artifacts.antt =====
-- tools/artifacts.py: the export of an object or of a query to the object store.
use memcove.Common.{
  ℕ, ◌+◌, Bool, true, false, not, Option, some, List, [], ◌∷◌, ◌++◌, Text, codes, text_eq, str,
  ◌||◌, if◌then◌else◌,
}
use memcove.Common.Result.{Result, ok, err, guard, memcove_error}
use memcove.Common.Exec.{Exec, pure, raise, lift, ◌>>=◌, ◌>>◌}
use memcove.Unicode.{Unicode}
use memcove.Config.{Settings, is_set, or_else}
use memcove.Naming.{validate_label}
use memcove.SqlGuard.{Sqlglot, validate_select}
use memcove.Flight.{read_scope, select_all}
use memcove.Models.{ArtifactRef}
use memcove.Ingest.{resolve}

-- The object store and the writers of pyarrow, with the batches of a stream: what the export
-- calls. A sink is an open object; the state is the one that the engine works on too.
pub record Storage (L : Type 0) : Type 1 where
  pub Schema : Type 0
  pub Batch : Type 0
  pub Sink : Type 0
  pub Writer : Type 0
  pub stream : Text → Option Text → Exec L (Schema × List (Result Batch))
  pub num_rows : Batch → ℕ
  -- the rows of a batch as JSON, without the outer brackets
  pub inner_json : Batch → Text
  pub open_output_stream : Text → Text → Exec L Sink
  pub write : Sink → Text → Exec L (Unit {0})
  pub close : Sink → Exec L (Unit {0})
  pub parquet_writer : Sink → Schema → Exec L Writer
  pub csv_writer : Sink → Schema → Exec L Writer
  pub write_batch : Writer → Batch → Exec L (Unit {0})
  pub close_writer : Writer → Exec L (Unit {0})
  pub content_length : Text → Text → Exec L ℕ
  pub presign_get : Text → Text → Text

-- `fmt not in _EXT`, whose values are its keys
unfoldable pub known_format : Text → Bool
known_format fmt =
    text_eq fmt (codes "parquet") || text_eq fmt (codes "csv") || text_eq fmt (codes "json")

unfoldable pub s3_uri : Text → Text → Text
s3_uri bucket key = codes "s3://" ++ bucket ++ codes "/" ++ key

-- `SELECT * FROM (…) AS _e LIMIT …`
unfoldable pub capped_sql : Settings → Text → Text
capped_sql s sql =
    codes "SELECT * FROM (\n" ++ sql ++ codes "\n) AS _e LIMIT " ++ str s.export_row_cap

-- the body, then what closes it, whether the body raised or not
closing : {L A : Type 0} → Exec L (Unit {0}) → Exec L A → Exec L A
closing done body w =
    let (r, mid) = body w in
    let (q, after) = done mid in elim q [ err e ↦ (err e, after) | ok x ↦ (r, after) ]

module _ {L : Type 0} (st : Storage L) where
  -- the loop of the parquet and of the CSV writer
  write_all : st.Writer → ℕ → List (Result st.Batch) → Exec L ℕ
  write_all wr n [] = pure n
  write_all wr n (err e ∷ rest) = raise e
  write_all wr n (ok b ∷ rest) = st.write_batch wr b >>= λ _. write_all wr (n + st.num_rows b) rest

  unfoldable pub stream_parquet : Text → Text → st.Schema → List (Result st.Batch) → Exec L ℕ
  unfolding closing write_all
  stream_parquet bucket key schema batches = do
    sink ← st.open_output_stream bucket key
    closing (st.close sink) (
        st.parquet_writer sink schema >>= λ wr.
        closing (st.close_writer wr) (write_all wr 0 batches))

  unfoldable pub stream_csv : Text → Text → st.Schema → List (Result st.Batch) → Exec L ℕ
  unfolding closing write_all
  stream_csv bucket key schema batches = do
    sink ← st.open_output_stream bucket key
    closing (st.close sink)
        (st.csv_writer sink schema >>= λ wr. closing (st.close_writer wr) (write_all wr 0 batches))

  -- one batch of the array; whether the next one is still the first
  json_batch : st.Sink → Bool → Text → Exec L Bool
  json_batch sink first [] = pure first
  json_batch sink true (c ∷ inner) = st.write sink (c ∷ inner) >>= λ _. pure false
  json_batch sink false (c ∷ inner) = st.write sink (codes "," ++ c ∷ inner) >>= λ _. pure false

  json_all : st.Sink → Bool → ℕ → List (Result st.Batch) → Exec L ℕ
  json_all sink first n [] = pure n
  json_all sink first n (err e ∷ rest) = raise e
  json_all sink first n (ok b ∷ rest) = json_batch sink first (st.inner_json b) >>= λ still.
      json_all sink still (n + st.num_rows b) rest

  unfoldable pub stream_json : Text → Text → List (Result st.Batch) → Exec L ℕ
  unfolding closing json_batch json_all
  stream_json bucket key batches = do
    sink ← st.open_output_stream bucket key
    closing (st.close sink) (do
      st.write sink (codes "[")
      n ← json_all sink true 0 batches
      st.write sink (codes "]")
      pure n)

  by_format : Text → Text → Text → st.Schema → List (Result st.Batch) → Exec L ℕ
  by_format fmt bucket key schema batches =
      if text_eq fmt (codes "parquet")
      then stream_parquet bucket key schema batches
      else if text_eq fmt (codes "csv")
      then stream_csv bucket key schema batches
      else stream_json bucket key batches

  module _ (g : Sqlglot) (u : Unicode) (s : Settings) where
    -- the name of the file, and the statement to run: of a label, or the one given
    unfoldable pub base_and_sql : Option Text → Option Text → Result (Text × Text)
    base_and_sql label sql =
        if is_set label
        then elim (validate_label u (or_else label [])) [
          | err e ↦ err e
          | ok base ↦ ok (base, select_all base)
        ]
        else ok (codes "query", or_else sql [])

    -- with the hex of the uuid as a parameter
    unfoldable pub export_artifact :
        Text → Text → Text → Option Text → Option Text → Exec L ArtifactRef
    unfolding by_format
    export_artifact hex tenant fmt label sql = do
      lift (guard (known_format fmt) memcove_error)
      lift (guard (if is_set label then not (is_set sql) else is_set sql) memcove_error)
      base ← lift (base_and_sql label sql)
      q ← lift (validate_select g u (read_scope s tenant) base.1)
      streamed ← st.stream (capped_sql s q.sql) (some tenant)
      let at =
          resolve s.artifacts_bucket
            (codes "exports" ∷ tenant ∷ (base.0 ++ codes "-" ++ hex ++ codes "." ++ fmt) ∷ [])
      n ← by_format fmt at.0 at.1 streamed.0 streamed.1
      size ← st.content_length at.0 at.1
      pure (record {
        uri = s3_uri at.0 at.1;
        presigned_url = st.presign_get at.0 at.1;
        format = fmt;
        row_count = n;
        size_bytes = size;
        expires_in_seconds = s.presign_ttl_seconds;
      })
