-- ===== src/Flight/Commands.antt =====
-- What the server reads of a ticket's command, and the query that it makes of it.
use memcove.Common.{
  ℕ, Bool, false, Option, none, some, [], ◌++◌, Text, codes, text_eq, if◌then◌else◌,
}
use memcove.Common.Result.{Result, ok, err, ◌>>=◌, flight_error, key_error, type_error}
use memcove.Unicode.{Unicode}
use memcove.Config.{Settings}
use memcove.Naming.{validate_label}
use memcove.Tenancy.{normalize_tenant}
use memcove.SqlGuard.{Sqlglot, Scope, validate_select}
use memcove.Catalog.{TableSchema}
use memcove.Tickets.{Codec, Json, Dict, text, get, verify, sign}

-- `"op"` of a command, if it is the string
abbrev pub is_op : Dict → Text → Bool
is_op cmd op = elim (get cmd (codes "op")) [ some (text t) ↦ text_eq t op | _ ↦ false ]

-- `cmd.get("tenant")`, which normalize_tenant strips: a value that is no string has no `strip`
unfoldable pub tenant_of : Option Json → Result (Option Text)
tenant_of none = ok none
tenant_of (some (text t)) = ok (some t)
tenant_of (some _) = err type_error

-- `cmd["name"]`, of which validate_label wants a string
unfoldable pub string_of : Option Json → Result Text
string_of none = err key_error
string_of (some (text t)) = ok t
string_of (some _) = err type_error

-- `cmd.get("mode", "create")`; a value that is no string is no mode, as the empty text
unfoldable pub mode_of : Option Json → Text
mode_of none = codes "create"
mode_of (some (text t)) = t
mode_of (some _) = []

-- the target of an upload
pub record Target : Type 0 where
  pub tenant : Text
  pub name : Text
  pub mode : Text
  pub schema : TableSchema

-- the checks of do_put on a verified command
unfoldable pub target_of : Unicode → Settings → TableSchema → Dict → Result Target
target_of u s schema cmd =
    if is_op cmd (codes "ingest")
    then (do
      raw ← tenant_of (get cmd (codes "tenant"))
      tenant ← normalize_tenant u s raw
      raw_name ← string_of (get cmd (codes "name"))
      name ← validate_label u raw_name
      ok (record {
        tenant = tenant;
        name = name;
        mode = mode_of (get cmd (codes "mode"));
        schema = schema;
      }))
    else err flight_error

-- the scope of the guard for a download: no scratchpad
abbrev pub read_scope : Settings → Text → Scope
read_scope s tenant = record {
  tenant_ns = tenant;
  catalog = s.trino_catalog;
  shared_schemas = s.shared_schemas;
  scratch_catalog = none;
  scratch_schema = none;
}

-- the statement that reads a whole data set
unfoldable pub select_all : Text → Text
select_all name = codes "SELECT * FROM " ++ name

-- `except Exception as exc: raise fl.FlightError`
abbrev pub as_flight_error : {A : Type 0} → Result A → Result A
as_flight_error (ok r) = ok r
as_flight_error (err e) = err flight_error

module _ (g : Sqlglot) (u : Unicode) (s : Settings) where
  -- the SQL that a command stands for, before the guard
  unfoldable pub requested_sql : Dict → Result Text
  requested_sql cmd =
      if is_op cmd (codes "read")
      then (do
        raw ← string_of (get cmd (codes "name"))
        name ← validate_label u raw
        ok (select_all name))
      else if is_op cmd (codes "query")
      then string_of (get cmd (codes "sql"))
      else err flight_error

  -- `_validated_query`
  unfoldable pub validated_query : Dict → Result (Text × Text)
  validated_query cmd = do
    raw ← tenant_of (get cmd (codes "tenant"))
    tenant ← normalize_tenant u s raw
    sql ← requested_sql cmd
    q ← validate_select g u (read_scope s tenant) sql
    ok (tenant, q.sql)

  -- `do_get`, with `stream_arrow_batches` as a parameter
  unfoldable pub do_get :
      {Stream : Type 0} → (c : Codec) → (Text → Text → Result Stream) → ℕ → c.Bytes → Result Stream
  do_get c stream now ticket =
      as_flight_error (do cmd ← verify c s now ticket; p ← validated_query cmd; stream p.1 p.0)

  -- `get_flight_info`, with `result_schema` as a parameter: the schema, and the command signed anew
  unfoldable pub get_flight_info :
      {Schema : Type 0}
      → (c : Codec) → (Text → Text → Result Schema)
      → ℕ
      → ℕ
      → Text
      → c.Bytes
      → Result (Schema × c.Bytes)
  get_flight_info c schema_of now later nonce descriptor = do
    cmd ← verify c s now descriptor
    p ← validated_query cmd
    schema ← schema_of p.1 p.0
    ok (schema, sign c s later nonce cmd)
