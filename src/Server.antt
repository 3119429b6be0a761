-- ===== src/Server.antt =====
-- server.py: the tools and the resources of the MCP server, each in the namespace of its caller.
-- The transport and the serialization of the answers are not modelled.
pub mod Callers
pub mod Streams
pub mod Auth
pub mod Reads
mod Tests
use memcove.Common.{
  ℕ, ◌≡◌, Bool, true, false, not, ◌&&◌, ◌||◌, Option, none, some, List, [], Text, codes, text_eq,
  if◌then◌else◌,
}
use memcove.Common.Result.{Result, ok, err, ◌>>=◌, ◌>>◌, guard, tenancy_error, value_error}
use memcove.Common.Exec.{Exec, continue}
use memcove.Unicode.{Unicode}
use memcove.Config.{Settings, is_set, or_else}
use memcove.Naming.{validate_label}
use memcove.Tenancy.{Sha256, Headers, normalize_tenant, resolve_tenant}
use memcove.Tenancy.Claims.{Claims, resolve_tenant_from_claims}
use memcove.SqlGuard.{Sqlglot, GuardedQuery, validate_select}
use memcove.Tickets.{Codec, Dict, read_command, query_command, ingest_command, sign}
use memcove.Flight.{read_scope}
use memcove.Catalog.{Iceberg}
use memcove.Trino.{Engine, Cell}
use memcove.Models.{MemoryObject, UploadTicket, ArtifactRef}
use memcove.Query.{PreviewResult, run_query}
use memcove.Objects
use memcove.Objects.{Summary, Reading, describe_object, list_objects, drop_object}
use memcove.Derive.{derive_object}
use memcove.Registry.{Store, ping}
use memcove.Discovery.{ReferenceTable, discover_reference_data}
use memcove.Artifacts.{Storage, export_artifact}
use memcove.Ingest.{Ports, Source}
use memcove.Ingest.Object.{Views, ingest_object, request_upload}
use memcove.World.{World, in_lake}

-- What a request says of its caller: the headers, none of them where there is no request, and the
-- claims of its verified token; a token may have no claims.
pub record Call : Type 0 where
  pub headers : Headers
  pub token : Option (Option Claims)

-- where a client streams, and the ticket it shows there, whose base64 form is not modelled
pub record Grant (c : Codec) : Type 0 where
  pub flight_uri : Text
  pub ticket : c.Bytes

same_bool : Bool → Bool → Bool
same_bool true b = b
same_bool false b = not b

module _ (u : Unicode) (sha : Sha256) (s : Settings) where
  claimed : Option (Option Claims) → Result Text
  claimed none = err tenancy_error
  claimed (some none) = err tenancy_error
  claimed (some (some claims)) = resolve_tenant_from_claims u sha s claims

  -- `_tenant`
  unfoldable pub caller_tenant : Call → Result Text
  unfolding claimed
  caller_tenant call =
      if s.oauth_enabled then claimed call.token else resolve_tenant u sha s call.headers

  -- `_authorized_tenant`
  unfoldable pub authorized_tenant : Call → Text → Result Text
  authorized_tenant call uri_tenant = do
    caller ← caller_tenant call
    named ← normalize_tenant u s (some uri_tenant)
    (if text_eq named caller then ok caller else err tenancy_error)

  -- a tool's work, in the namespace of the caller
  unfoldable pub as_caller : {W A : Type 0} → Call → (Text → Exec W A) → Exec W A
  as_caller call tool w = continue (caller_tenant call) tool w

  unfoldable pub as_authorized : {W A : Type 0} → Call → Text → (Text → Exec W A) → Exec W A
  as_authorized call uri_tenant tool w = continue (authorized_tenant call uri_tenant) tool w

  module _ (c : Codec) where
    -- the command of a download, by a name or else by a statement
    unfoldable pub stream_command : Sqlglot → Text → Option Text → Option Text → Result Dict
    stream_command g tenant name sql =
        if is_set name
        then (do label ← validate_label u (or_else name []); ok (read_command tenant label))
        else (do
          q ← validate_select g u (read_scope s tenant) (or_else sql [])
          ok (query_command tenant (or_else sql [])))

    -- the time and the nonce are those of `sign`
    unfoldable pub stream_dataset :
        Sqlglot → ℕ → Text → Call → Option Text → Option Text → Result (Grant c)
    unfolding same_bool
    stream_dataset g now nonce call name sql = do
      guard (not (same_bool (is_set name) (is_set sql))) value_error
      tenant ← caller_tenant call
      cmd ← stream_command g tenant name sql
      ok (record { flight_uri = s.flight_advertise_uri; ticket = sign c s now nonce cmd })

    unfoldable pub open_ingest_stream : ℕ → Text → Call → Text → Text → Result (Grant c)
    open_ingest_stream now nonce call name mode = do
      tenant ← caller_tenant call
      label ← validate_label u name
      ok (record {
        flight_uri = s.flight_advertise_uri;
        ticket = sign c s now nonce (ingest_command tenant label mode);
      })

  unfoldable pub start_large_upload :
      (Text → Text → Text) → Text → Call → Text → Result UploadTicket
  start_large_upload presign_put hex call name = do
    tenant ← caller_tenant call
    request_upload u s presign_put hex tenant name

  module _ (Row : Type 0) (ice : Iceberg Row) (e : Engine ice.Lake) where
    abbrev pub Tool : Type 0 → Type 0
    Tool A = Exec (World ice.Lake) A

    unfoldable pub remember_dataset :
        (p : Ports)
        → Views p.Table Row
        → Call
        → Text
        → Source p.Payload
        → Text
        → List Text
        → Text
        → Tool MemoryObject
    remember_dataset p view call name source mode tags target =
        as_caller call
          (λ tenant. ingest_object Row ice e u s p view tenant name source mode tags target)

    unfoldable pub query_memory :
        Sqlglot → Call → Text → Option ℕ → Tool (PreviewResult (List (Cell e.Other)))
    query_memory g call sql limit =
        as_caller call (λ tenant. in_lake (run_query g u e s tenant sql limit))

    unfoldable pub derive_dataset :
        Sqlglot → Call → Text → Text → Text → List Text → Text → Tool MemoryObject
    derive_dataset g call new_name sql mode tags target =
        as_caller call
          (λ tenant. derive_object Row ice e u s g tenant new_name sql mode tags target)

    unfoldable pub recall_dataset :
        Sqlglot → Call → Text → Text → Option ℕ → Tool (Reading (List (Cell e.Other)))
    recall_dataset g call name mode limit =
        as_caller call (λ tenant. Objects.get_object Row ice e u s g tenant name mode limit)

    unfoldable pub inspect_dataset : Call → Text → Tool MemoryObject
    inspect_dataset call name = as_caller call (λ tenant. describe_object Row ice e u s tenant name)

    unfoldable pub list_memory : Call → List Text → Tool (List Summary)
    list_memory call tags = as_caller call (λ tenant. list_objects tenant tags)

    -- the label that is forgotten
    unfoldable pub forget_dataset : Call → Text → Tool Text
    forget_dataset call name = as_caller call (λ tenant. drop_object Row ice e u s tenant name)

    unfoldable pub dataset_resource : Call → Text → Text → Tool MemoryObject
    dataset_resource call tenant name =
        as_authorized call tenant (λ caller. describe_object Row ice e u s caller name)

    unfoldable pub catalog_resource : Call → Text → Tool (List Summary)
    catalog_resource call tenant = as_authorized call tenant (λ caller. list_objects caller [])

    -- the stores and the writers work on the state of the lakehouse
    unfoldable pub export_dataset :
        Storage ice.Lake
        → Sqlglot
        → Text
        → Call
        → Text
        → Option Text
        → Option Text
        → Tool ArtifactRef
    export_dataset st g hex call fmt name sql =
        as_caller call (λ tenant. in_lake (export_artifact st g u s hex tenant fmt name sql))

    unfoldable pub discover : Call → Tool (List (Text × List ReferenceTable))
    discover call = as_caller call (λ tenant. in_lake (discover_reference_data e s))

-- what /ready answers: whether all checks are ok, with the status
unfoldable pub readiness : Result (Unit {0}) → Bool → Bool × ℕ
readiness (ok x) true = (true, 200)
readiness (ok x) false = (false, 503)
readiness (err e) trino = (false, 503)

-- `/ready`, with the reachability of Trino as a parameter
unfoldable pub ready : Bool → Exec Store (Bool × ℕ)
ready trino now = let (r, after) = ping now in (ok (readiness r trino), after)
