-- ===== src/Clients.antt =====
-- What the settings make of each client: boto3 and PyArrow in core/storage.py, PyIceberg in
-- core/catalog.py, Trino in core/trino_client.py, the drivers in core/registry_backends.py, and
-- where the Flight server listens.
pub mod Keys
pub mod Endpoint
mod Tests
use memcove.Common.{
  ℕ, Bool, true, false, not, Option, none, some, List, [], ◌∷◌, ◌++◌, Text, codes, starts_with,
  ◌==◌, drop, is_nonempty, str, if◌then◌else◌,
}
use memcove.Unicode.{lstrip_by}
use memcove.Config.{Settings, or_else, static_s3_credentials}
use memcove.Trino.{principal}

-- the keywords of `boto3.client("s3", …)`; without keys boto3 has its own chain of credentials
pub record S3Client : Type 0 where
  pub endpoint_url : Text
  pub region_name : Text
  pub signature_version : Text
  pub addressing_style : Text
  -- aws_access_key_id and aws_secret_access_key
  pub keys : Option (Text × Text)

-- storage._client
unfoldable pub s3_client : Settings → S3Client
s3_client s = record {
  endpoint_url = s.s3_endpoint;
  region_name = s.s3_region;
  signature_version = codes "s3v4";
  addressing_style = if s.s3_path_style then codes "path" else codes "auto";
  keys = static_s3_credentials s;
}

-- `endpoint.split("://", 1)[-1]`: what follows the first "://", or all of it
unfoldable pub after_scheme : Text → Text → Text
after_scheme whole [] = whole
after_scheme whole (c ∷ s) =
    let later = after_scheme whole s in
    if starts_with (c ∷ s) (codes "://") then drop 3 (c ∷ s) else later

-- the keywords of `pyarrow.fs.S3FileSystem`
pub record S3FileSystem : Type 0 where
  pub endpoint_override : Text
  pub region : Text
  pub scheme : Text
  pub force_virtual_addressing : Bool
  -- access_key and secret_key
  pub keys : Option (Text × Text)

-- storage._pa_s3fs
unfoldable pub pa_s3fs : Settings → S3FileSystem
pa_s3fs s = record {
  endpoint_override = after_scheme s.s3_endpoint s.s3_endpoint;
  region = s.s3_region;
  scheme = if starts_with s.s3_endpoint (codes "http://") then codes "http" else codes "https";
  force_virtual_addressing = not s.s3_path_style;
  keys = static_s3_credentials s;
}

-- `str(b).lower()`
lower_bool : Bool → Text
lower_bool true = codes "true"
lower_bool false = codes "false"

key_props : Option (Text × Text) → List (Text × Text)
key_props none = []
key_props (some (access, secret)) =
    (codes "s3.access-key-id", access) ∷ (codes "s3.secret-access-key", secret) ∷ []

-- the properties that catalog.get_catalog gives to `load_catalog`
unfoldable pub catalog_props : Settings → List (Text × Text)
unfolding lower_bool key_props
catalog_props s =
    (codes "type", codes "rest")
    ∷ (codes "uri", s.iceberg_rest_uri)
    ∷ (codes "warehouse", s.iceberg_warehouse)
    ∷ (codes "s3.endpoint", s.s3_endpoint)
    ∷ (codes "s3.region", s.s3_region)
    ∷ (codes "s3.path-style-access", lower_bool s.s3_path_style)
    ∷ key_props (static_s3_credentials s)

-- the keywords of trino's `connect`; the empty dict of properties is not passed
pub record TrinoConnection : Type 0 where
  pub host : Text
  pub port : ℕ
  pub user : Text
  pub catalog : Text
  pub http_scheme : Text
  pub session_properties : Option (List (Text × Text))

-- trino_client._connect
unfoldable pub connect : Settings → Option Text → TrinoConnection
connect s run_as = record {
  host = s.trino_host;
  port = s.trino_port;
  user = principal s run_as;
  catalog = s.trino_catalog;
  http_scheme = s.trino_http_scheme;
  session_properties =
      if is_nonempty s.trino_session_properties then some s.trino_session_properties else none;
}

-- the keywords of psycopg's ConnectionPool in PostgresBackend.__init__
pub record ConnectionPool : Type 0 where
  pub dsn : Text
  pub min_size : ℕ
  pub max_size : ℕ
  pub timeout : ℕ
  -- whether each connection is checked when it is borrowed
  pub check : Bool
  pub name : Text
  pub open_now : Bool

unfoldable pub postgres_pool : Text → ℕ → ℕ → ℕ → ConnectionPool
postgres_pool dsn min_size max_size timeout = record {
  dsn = dsn;
  min_size = min_size;
  max_size = max_size;
  timeout = timeout;
  check = true;
  name = codes "memcove-registry";
  open_now = true;
}

-- what urlparse reads in a URL
pub record ParsedUrl : Type 0 where
  pub username : Option Text
  pub password : Option Text
  pub hostname : Option Text
  pub port : Option ℕ
  pub path : Text

-- the keywords of `pymysql.connect`
pub record MySqlParams : Type 0 where
  pub host : Text
  pub port : ℕ
  pub user : Text
  pub password : Text
  pub database : Option Text
  pub autocommit : Bool

-- `port or 3306`: no port and port 0 are both falsy
port_or : Option ℕ → ℕ → ℕ
port_or none d = d
port_or (some ℕ.zero) d = d
port_or (some (ℕ.suc n)) d = ℕ.suc n

unless_empty : Text → Option Text
unless_empty [] = none
unless_empty (c ∷ s) = some (c ∷ s)

-- MySQLBackend.__init__ over _parse_url
unfoldable pub mysql_params : (Text → ParsedUrl) → Text → MySqlParams
unfolding port_or unless_empty
mysql_params urlparse dsn =
    let u = urlparse dsn in
    record {
      host = or_else u.hostname (codes "localhost");
      port = port_or u.port 3306;
      user = or_else u.username (codes "root");
      password = or_else u.password [];
      database = unless_empty (lstrip_by (λ c. c == b'/') u.path);
      autocommit = false;
    }

-- MemcoveFlightServer.__init__: an empty location is none
unfoldable pub flight_location : Settings → Option Text → Text
flight_location s location = or_else location (codes "grpc://0.0.0.0:" ++ str s.flight_port)
