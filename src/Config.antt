-- ===== src/Config.antt =====
-- core/config.py: the settings.
pub mod Defaults
use memcove.Common.{ℕ, Bool, Option, none, some, List, Text, is_nonempty, if◌then◌else◌}

pub data TenantMode : Type 0 where
  auto shared private mapped : TenantMode

pub record Settings : Type 0 where
  pub host : Text
  pub port : ℕ
  pub iceberg_rest_uri : Text
  pub iceberg_warehouse : Text
  pub iceberg_catalog_name : Text
  pub s3_endpoint : Text
  pub s3_region : Text
  pub s3_access_key : Option Text
  pub s3_secret_key : Option Text
  pub s3_path_style : Bool
  pub warehouse_bucket : Text
  pub staging_bucket : Text
  pub artifacts_bucket : Text
  pub trino_host : Text
  pub trino_port : ℕ
  pub trino_user : Text
  pub trino_catalog : Text
  pub trino_http_scheme : Text
  pub trino_impersonation : Bool
  pub trino_session_properties : List (Text × Text)
  pub flight_host : Text
  pub flight_port : ℕ
  pub flight_ticket_secret : Text
  pub flight_ticket_ttl_seconds : ℕ
  pub flight_advertise_uri : Text
  pub registry_dsn : Option Text
  pub pg_dsn : Text
  pub pg_pool_min_size : ℕ
  pub pg_pool_max_size : ℕ
  -- `pg_pool_timeout`, in milliseconds
  pub pg_pool_timeout : ℕ
  pub reconcile_min_absent_sweeps : ℕ
  -- `reconcile_deletion_cap_ratio`, a fraction: the default 0.25 is 1 over 4
  pub reconcile_deletion_cap_num : ℕ
  pub reconcile_deletion_cap_den : ℕ
  pub reconcile_deletion_cap_min : ℕ
  pub preview_row_cap : ℕ
  pub inline_bytes_cap : ℕ
  pub export_row_cap : ℕ
  pub stream_batch_rows : ℕ
  pub presign_ttl_seconds : ℕ
  pub ingest_bytes_cap : ℕ
  pub doput_single_commit_max_rows : ℕ
  pub tenant_mode : TenantMode
  pub tenant_header : Text
  pub default_tenant : Text
  pub shared_tenant : Text
  pub tenant_subject_header : Text
  pub tenant_group_header : Text
  pub tenant_map : List (Text × Text)
  pub oauth_enabled : Bool
  pub oauth_issuer : Text
  pub oauth_jwks_uri : Text
  pub oauth_audience : Text
  pub oauth_required_scopes : List Text
  pub oauth_algorithms : List Text
  pub oauth_tenant_claim : Text
  pub public_url : Text
  pub shared_schemas : List Text
  pub scratch_enabled : Bool
  pub scratch_duckdb_dir : Text
  pub scratch_catalog_mode : Text
  pub scratch_catalog : Text
  pub scratch_catalog_prefix : Text
  pub allowed_s3_ingest_prefixes : List Text

-- `a or b` on a string that may be missing: the empty string counts as missing
abbrev pub or_else : Option Text → Text → Text
or_else none d = d
or_else (some a) d = if is_nonempty a then a else d

-- the truth of a string that may be missing
abbrev pub is_set : Option Text → Bool
is_set none = Bool.false
is_set (some a) = is_nonempty a

-- Settings.registry_url
unfoldable pub registry_url : Settings → Text
registry_url s = or_else s.registry_dsn s.pg_dsn

unfoldable pub key_pair : Option Text → Option Text → Option (Text × Text)
key_pair (some a) (some b) =
    if is_nonempty a then (if is_nonempty b then some (a, b) else none) else none
key_pair _ _ = none

-- Settings.static_s3_credentials
unfoldable pub static_s3_credentials : Settings → Option (Text × Text)
unfolding key_pair
static_s3_credentials s = key_pair s.s3_access_key s.s3_secret_key
