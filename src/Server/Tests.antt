-- ===== src/Server/Tests.antt =====
-- Calls with the tenant header of the trusted proxy.
use memcove.Common.{
  text_eq, ℕ, ◌≡◌, ◌⊎◌, refl, none, some, [], ◌∷◌, Text, codes, arith, Option, List, true, all,
  contains,
}
use memcove.Common.Result.{Error, Result, ok, err, tenancy_error}
use memcove.Unicode.Ascii.{ascii}
use memcove.Config.Defaults.{defaults}
use memcove.Naming.{validate_label}
use memcove.Tenancy.{normalize_tenant}
use memcove.Tenancy.Namespace.{IsNamespace}
use memcove.Tenancy.Toy.{toy as sha}
use memcove.SqlGuard.Toy.{toy as parser}
use memcove.Tickets.{Dict, verify, ingest_command, sign, read_command}
use memcove.Tickets.Toy.{toy as codec}
use memcove.Catalog.Memory.{Memory, memory}
use memcove.Trino.{Engine}
use memcove.Trino.Toy.{fixed}
use memcove.Flight.{target_of, do_get}
use memcove.World.{World}
use memcove.Objects.{describe_object}
use memcove.Server.{
  Call, Grant, caller_tenant, dataset_resource, open_ingest_stream, stream_dataset,
}
use memcove.Config.{Settings}
use memcove.Tenancy.Claims.{Claims, text, resolve_tenant_from_claims}
use memcove.Oauth.{AccessToken, scopes_from_claims, access_token}
use memcove.Oauth.Verifier.{JwksTokenVerifier, verify_token}
use memcove.Server.Auth.{AuthKwargs, build_auth_kwargs, build_auth_kwargs-accepted}
use memcove.Server.Callers.{dataset_resource-own}
use memcove.Server.Streams.{open_ingest_stream-accepted}
use memcove.Server.Reads.{Asked, Streamed, stream_dataset-streams}

abbrev call : Call
call = record { headers = (codes "x-memcove-tenant", codes "ACME") ∷ []; token = none }

abbrev world : World Memory
world = record {
  lake = λ n m. none;
  store = record {
    tables = record { objects = []; tags = []; lineage = []; tombstones = []; same_tag = text_eq };
    clock = 7;
    faults = [];
  };
}

abbrev engine : Engine Memory
engine = fixed Memory []

dataset_resource-own_example :
    ((ns : Text) × IsNamespace ns
      × (caller_tenant ascii sha defaults call ≡ ok ns)
      × (normalize_tenant ascii defaults (some (codes "t_rival")) ≡ ok ns)
      × (dataset_resource ascii sha defaults ℕ memory engine call
            (codes "t_rival")
            (codes "events")
            world
          ≡ describe_object ℕ memory engine ascii defaults ns (codes "events") world))
    ⊎ ((raised : Error) × (dataset_resource ascii sha defaults ℕ memory engine call
            (codes "t_rival")
            (codes "events")
            world
          ≡ (err raised, world)))
dataset_resource-own_example =
    dataset_resource-own ascii sha defaults ℕ memory engine call (codes "t_rival") (codes "events")
      world

abbrev put_grant : Grant codec
put_grant = record {
  flight_uri = codes "grpc://localhost:8815";
  ticket =
      sign codec defaults 1000 (codes "9f")
        (ingest_command (codes "t_acme") (codes "events") (codes "append"));
}

granted :
    open_ingest_stream ascii sha defaults codec 1000
      (codes "9f")
      call
      (codes "Events")
      (codes "append")
    ≡ ok put_grant
unfolding open_ingest_stream caller_tenant memcove.Tenancy.resolve_tenant normalize_tenant
    memcove.Tenancy.has_alnum memcove.Common.any memcove.Tenancy.sanitize memcove.Unicode.strip_by
    memcove.Unicode.rstrip_by memcove.Unicode.lstrip_by memcove.Tenancy.header
    memcove.Common.text_eq memcove.Unicode.ascii_lower memcove.Unicode.ascii_space
    memcove.Unicode.is_word memcove.Tenancy.tenant_matches memcove.Tenancy.with_prefix
    memcove.Common.all memcove.Common.filter memcove.Common.starts_with memcove.Naming.drop_last
    memcove.Naming.full_label memcove.Naming.label_matches validate_label memcove.Server.claimed
    memcove.Tenancy.Claims.claim memcove.Tenancy.Claims.group_names
    memcove.Tenancy.Claims.mapped_claims memcove.Tenancy.Claims.resolve_tenant_from_claims
    memcove.Tenancy.Claims.subject_key memcove.Tenancy.first_group memcove.Tenancy.groups
    memcove.Tenancy.lookup_tenant memcove.Tenancy.mapped_entry memcove.Tenancy.mapped_tenant
    memcove.Tenancy.private_tenant memcove.Tenancy.shared_tenant memcove.Tenancy.subject_entry
    memcove.Tickets.envelope_at sign memcove.Tickets.signature memcove.Unicode.split_on
    memcove.Unicode.ends_newline
granted = refl

open_ingest_stream-accepted_example :
    (cmd : Dict) × (tenant label : Text) × (verify codec defaults 1300 put_grant.ticket ≡ ok cmd)
    × (caller_tenant ascii sha defaults call ≡ ok tenant)
    × (validate_label ascii (codes "Events") ≡ ok label)
    × (target_of ascii defaults [] cmd
        ≡ ok (record { tenant = tenant; name = label; mode = codes "append"; schema = [] }))
unfolding memcove.Tickets.is_text memcove.Common.all
open_ingest_stream-accepted_example =
    open_ingest_stream-accepted ascii sha defaults codec 1000 1300 (codes "9f") call
      (codes "Events") (codes "append") put_grant [] refl refl (omega arith) (omega arith) granted

abbrev get_grant : Grant codec
get_grant = record {
  flight_uri = codes "grpc://localhost:8815";
  ticket = sign codec defaults 1000 (codes "9f") (read_command (codes "t_acme") (codes "events"));
}

download :
    stream_dataset ascii sha defaults codec parser 1000
      (codes "9f")
      call
      (some (codes "Events"))
      none
    ≡ ok get_grant
unfolding stream_dataset caller_tenant memcove.Tenancy.resolve_tenant normalize_tenant
    memcove.Tenancy.has_alnum memcove.Common.any memcove.Tenancy.sanitize memcove.Unicode.strip_by
    memcove.Unicode.rstrip_by memcove.Unicode.lstrip_by memcove.Tenancy.header
    memcove.Common.text_eq memcove.Unicode.ascii_lower memcove.Unicode.ascii_space
    memcove.Unicode.is_word memcove.Tenancy.tenant_matches memcove.Tenancy.with_prefix
    memcove.Common.all memcove.Common.filter memcove.Common.contains memcove.Common.starts_with
    memcove.Naming.drop_last memcove.Naming.full_label memcove.Naming.label_matches validate_label
    memcove.Server.claimed memcove.Server.same_bool memcove.Server.stream_command
    memcove.SqlGuard.is_allowed_top memcove.SqlGuard.is_forbidden memcove.SqlGuard.add_new
    memcove.SqlGuard.cte_names memcove.SqlGuard.deny_schemas memcove.SqlGuard.note
    memcove.SqlGuard.present memcove.SqlGuard.resolve_schema memcove.SqlGuard.resolve_table
    memcove.SqlGuard.resolve_tables memcove.SqlGuard.shared_names memcove.SqlGuard.single
    memcove.SqlGuard.statement memcove.SqlGuard.trimmed memcove.SqlGuard.validate_select
    memcove.SqlGuard.validate_tree memcove.Tenancy.Claims.claim memcove.Tenancy.Claims.group_names
    memcove.Tenancy.Claims.mapped_claims memcove.Tenancy.Claims.resolve_tenant_from_claims
    memcove.Tenancy.Claims.subject_key memcove.Tenancy.first_group memcove.Tenancy.groups
    memcove.Tenancy.lookup_tenant memcove.Tenancy.mapped_entry memcove.Tenancy.mapped_tenant
    memcove.Tenancy.private_tenant memcove.Tenancy.shared_tenant memcove.Tenancy.subject_entry
    memcove.Tickets.envelope_at sign memcove.Tickets.signature memcove.Unicode.split_on
    memcove.Unicode.ends_newline
download = refl

abbrev streams : Text → Text → Result Text
streams sql tenant = ok sql

stream_dataset-streams_example :
    (tenant asked : Text) × (caller_tenant ascii sha defaults call ≡ ok tenant)
    × Asked ascii sha defaults parser (some (codes "Events")) none asked
    × (do_get parser ascii defaults codec streams 1300 get_grant.ticket
        ≡ Streamed ascii sha defaults parser streams tenant asked)
unfolding memcove.Tickets.is_text memcove.Common.all
stream_dataset-streams_example =
    stream_dataset-streams ascii sha defaults parser codec streams 1000 1300 (codes "9f") call
      (some (codes "Events")) none get_grant refl refl (omega arith) (omega arith) download

abbrev oauth : Settings
oauth = record defaults {
  oauth_enabled = true;
  oauth_issuer = codes "https://idp";
  oauth_jwks_uri = codes "https://idp/keys";
  oauth_required_scopes = codes "read" ∷ [];
}

abbrev fetch_nothing : Text → Result (Option Text)
fetch_nothing url = ok none

-- a token is its subject
abbrev decode : JwksTokenVerifier → Text → Option Claims
decode v raw = some ((codes "sub", text raw) ∷ (codes "scope", text (codes "read")) ∷ [])

abbrev verifier : JwksTokenVerifier
verifier = record {
  jwks_uri = codes "https://idp/keys";
  issuer = codes "https://idp";
  audience = none;
  required = codes "read" ∷ [];
  algorithms = codes "RS256" ∷ [];
}

abbrev kwargs : AuthKwargs
kwargs = record {
  token_verifier = verifier;
  issuer_url = codes "https://idp";
  resource_server_url = codes "http://0.0.0.0:8090";
  required_scopes = some (codes "read" ∷ []);
}

started : build_auth_kwargs fetch_nothing oauth ≡ ok (some kwargs)
unfolding build_auth_kwargs memcove.Oauth.Verifier.build_token_verifier
    memcove.Oauth.Verifier.non_empty memcove.Server.Auth.base_url memcove.Common.str
started = refl

abbrev alice : AccessToken
alice =
    access_token ascii (codes "alice")
      ((codes "sub", text (codes "alice")) ∷ (codes "scope", text (codes "read")) ∷ [])

accepts_alice : verify_token ascii decode verifier (codes "alice") ≡ some alice
unfolding verify_token memcove.Oauth.verify_sync all contains scopes_from_claims
    memcove.Oauth.scopes_of memcove.Tenancy.Claims.claim memcove.Common.text_eq
    memcove.Common.filter memcove.Oauth.split_when memcove.Unicode.ascii_space
accepts_alice = refl

build_auth_kwargs-accepted_example :
    ((claims : Claims) × (decode verifier (codes "alice") ≡ some claims)
      × (all (contains (scopes_from_claims ascii claims)) (codes "read" ∷ []) ≡ true)
      × (caller_tenant ascii sha oauth
            (record { headers = call.headers; token = some (some alice.claims) })
          ≡ resolve_tenant_from_claims ascii sha oauth claims))
    × (caller_tenant ascii sha oauth (record { headers = call.headers; token = none })
        ≡ err tenancy_error)
build_auth_kwargs-accepted_example =
    build_auth_kwargs-accepted ascii sha oauth fetch_nothing kwargs decode (codes "alice") alice
      call.headers started accepts_alice
