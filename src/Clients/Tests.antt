-- ===== src/Clients/Tests.antt =====
-- The clients of the default settings.
use memcove.Common.{ℕ, ◌≡◌, refl, Bool, ◌&&◌, ◌⊎◌, inl, inr, none, some, ◌++◌, Text, codes, true}
use memcove.Config.{is_set}
use memcove.Config.Defaults.{defaults}
use memcove.Clients.{ParsedUrl, s3_client, pa_s3fs, catalog_props, mysql_params}
use memcove.Clients.Keys.{prop, access_key, secret_key, has_keys, taken, s3_client-same_keys}
use memcove.Clients.Endpoint.{pa_s3fs-endpoint}

default_keys :
    let both = is_set defaults.s3_access_key && is_set defaults.s3_secret_key in
    ((pa_s3fs defaults).keys ≡ (s3_client defaults).keys)
    × (has_keys (s3_client defaults).keys ≡ both)
    × (access_key (s3_client defaults).keys ≡ taken both defaults.s3_access_key)
    × (secret_key (s3_client defaults).keys ≡ taken both defaults.s3_secret_key)
    × (prop (codes "s3.access-key-id") (catalog_props defaults) ≡ taken both defaults.s3_access_key)
    × (prop (codes "s3.secret-access-key") (catalog_props defaults)
        ≡ taken both defaults.s3_secret_key)
default_keys = s3_client-same_keys defaults

default_endpoint :
    (pa_s3fs defaults).scheme ++ codes "://" ++ (pa_s3fs defaults).endpoint_override
    ≡ (s3_client defaults).endpoint_url
default_endpoint = pa_s3fs-endpoint defaults (codes "localhost:9000") (inl refl)

catalog_has_keys :
    prop (codes "s3.secret-access-key") (catalog_props defaults) ≡ some (codes "minio12345")
unfolding catalog_props memcove.Common.text_eq memcove.Config.static_s3_credentials
catalog_has_keys = refl

-- what urlparse reads in "mysql://u:p@/memcove"
abbrev parsed : Text → ParsedUrl
parsed url = record {
  username = some (codes "u");
  password = some (codes "p");
  hostname = none;
  port = none;
  path = codes "/memcove";
}

mysql_defaults : (mysql_params parsed (codes "mysql://u:p@/memcove")).port ≡ 3306
unfolding mysql_params
mysql_defaults = refl

mysql_database :
    (mysql_params parsed (codes "mysql://u:p@/memcove")).database ≡ some (codes "memcove")
unfolding mysql_params memcove.Unicode.lstrip_by
mysql_database = refl
