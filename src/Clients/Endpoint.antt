-- ===== src/Clients/Endpoint.antt =====
-- The endpoint of the object store, as PyArrow takes it apart.
use memcove.Common.{◌≡◌, refl, true, false, ◌⊎◌, inl, inr, ◌++◌, Text, codes, starts_with, drop}
use memcove.Config.{Settings}
use memcove.Clients.{s3_client, pa_s3fs, after_scheme}

module _ (rest : Text) where
  drop-nil : drop 0 rest ≡ rest
  unfolding drop
  drop-nil = refl

  http_starts : starts_with (codes "http://" ++ rest) (codes "http://") ≡ true
  unfolding starts_with
  http_starts = refl

  https_starts : starts_with (codes "https://" ++ rest) (codes "http://") ≡ false
  unfolding starts_with
  https_starts = refl

  http_after : (whole : Text) → after_scheme whole (codes "http://" ++ rest) ≡ rest
  unfolding after_scheme starts_with drop
  http_after whole = refl

  https_after : (whole : Text) → after_scheme whole (codes "https://" ++ rest) ≡ rest
  unfolding after_scheme starts_with drop
  https_after whole = refl

-- PyArrow writes to the endpoint that boto3 signs for: where the setting is an http or an https
-- URL, the scheme and the override that PyArrow gets make up that URL again.
pub pa_s3fs-endpoint :
    (s : Settings) (rest : Text)
    → (s.s3_endpoint ≡ codes "http://" ++ rest) ⊎ (s.s3_endpoint ≡ codes "https://" ++ rest)
    → (pa_s3fs s).scheme ++ codes "://" ++ (pa_s3fs s).endpoint_override
      ≡ (s3_client s).endpoint_url
unfolding pa_s3fs s3_client
pa_s3fs-endpoint s rest (inl e) =
    rw (e, http_starts rest, http_after rest (codes "http://" ++ rest)) refl
pa_s3fs-endpoint s rest (inr e) =
    rw (e, https_starts rest, https_after rest (codes "https://" ++ rest)) refl
