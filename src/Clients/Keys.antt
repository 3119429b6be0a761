-- ===== src/Clients/Keys.antt =====
-- One pair of keys for every client of the object store, or none for any of them.
use memcove.Common.{
  ◌≡◌, refl, ◌∙◌, Bool, true, false, ◌&&◌, Option, none, some, List, [], ◌∷◌, Text, codes, text_eq,
  arith, if◌then◌else◌,
}
use memcove.Config.{Settings, is_set, key_pair, static_s3_credentials}
use memcove.Clients.{s3_client, pa_s3fs, key_props, catalog_props}

-- `props.get(name)`
abbrev pub prop : Text → List (Text × Text) → Option Text
prop name [] = none
prop name ((k, v) ∷ rest) = if text_eq k name then some v else prop name rest

abbrev pub access_key : Option (Text × Text) → Option Text
access_key none = none
access_key (some (access, secret)) = some access

abbrev pub secret_key : Option (Text × Text) → Option Text
secret_key none = none
secret_key (some (access, secret)) = some secret

abbrev pub has_keys : Option (Text × Text) → Bool
has_keys none = false
has_keys (some pair) = true

keys-prop :
    (keys : Option (Text × Text))
    → (prop (codes "s3.access-key-id") (key_props keys) ≡ access_key keys)
      × (prop (codes "s3.secret-access-key") (key_props keys) ≡ secret_key keys)
unfolding key_props text_eq
keys-prop none = (refl, refl)
keys-prop (some (access, secret)) = (refl, refl)

catalog-prop :
    (s : Settings)
    → (prop (codes "s3.access-key-id") (catalog_props s)
        ≡ prop (codes "s3.access-key-id") (key_props (static_s3_credentials s)))
      × (prop (codes "s3.secret-access-key") (catalog_props s)
          ≡ prop (codes "s3.secret-access-key") (key_props (static_s3_credentials s)))
unfolding catalog_props text_eq
catalog-prop s = (refl, refl)

-- a setting, where there is a pair
abbrev pub taken : Bool → Option Text → Option Text
taken true a = a
taken false a = none

pair-cases :
    (a b : Option Text)
    → (has_keys (key_pair a b) ≡ is_set a && is_set b)
      × (access_key (key_pair a b) ≡ taken (is_set a && is_set b) a)
      × (secret_key (key_pair a b) ≡ taken (is_set a && is_set b) b)
unfolding key_pair
pair-cases none b = (refl, refl, refl)
pair-cases (some a) none = (ground arith, ground arith, ground arith)
pair-cases (some a) (some b) = (ground arith, ground arith, ground arith)

pair_taken :
    (s : Settings)
    → let both = is_set s.s3_access_key && is_set s.s3_secret_key in
      (has_keys (static_s3_credentials s) ≡ both)
      × (access_key (static_s3_credentials s) ≡ taken both s.s3_access_key)
      × (secret_key (static_s3_credentials s) ≡ taken both s.s3_secret_key)
unfolding static_s3_credentials
pair_taken s = pair-cases s.s3_access_key s.s3_secret_key

-- boto3, PyArrow and PyIceberg get the same keys: both settings where both are set and not empty,
-- and otherwise neither, so no client ever gets one key alone.
pub s3_client-same_keys :
    (s : Settings)
    → let both = is_set s.s3_access_key && is_set s.s3_secret_key in
      ((pa_s3fs s).keys ≡ (s3_client s).keys)
      × (has_keys (s3_client s).keys ≡ both)
      × (access_key (s3_client s).keys ≡ taken both s.s3_access_key)
      × (secret_key (s3_client s).keys ≡ taken both s.s3_secret_key)
      × (prop (codes "s3.access-key-id") (catalog_props s) ≡ taken both s.s3_access_key)
      × (prop (codes "s3.secret-access-key") (catalog_props s) ≡ taken both s.s3_secret_key)
unfolding s3_client pa_s3fs
s3_client-same_keys s =
    let (access, secret) = keys-prop (static_s3_credentials s) in
    let (has, first, second) = pair_taken s in
    (
      refl,
      has,
      first,
      second,
      (catalog-prop s).0 ∙ access ∙ first,
      (catalog-prop s).1 ∙ secret ∙ second,
    )
