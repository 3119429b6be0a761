-- ===== src/Oauth/Verifier.antt =====
-- core/oauth.py: the verifier that the settings stand for. The HTTP fetch, the key client and the
-- decoding of a token are parameters.
use memcove.Common.{
  ◌≡◌, true, Option, none, some, List, [], ◌∷◌, sym, ap, ◌∙◌, Text, codes, ◌++◌, ◌==◌, is_nonempty,
  if◌then◌else◌,
}
use memcove.Common.Result.{
  Result, ok, err, ◌>>=◌, ◌>>◌, guard, value_error, >>=-eq-ok, guard-ok, ok-injective,
}
use memcove.Unicode.{Unicode, rstrip_by}
use memcove.Config.{Settings}
use memcove.Tenancy.Claims.{Claims}
use memcove.Oauth.{AccessToken, verify_sync}

-- the fields of JWKSTokenVerifier; an empty audience is None, and then `aud` is not checked
pub record JwksTokenVerifier : Type 0 where
  pub jwks_uri : Text
  pub issuer : Text
  pub audience : Option Text
  pub required : List Text
  pub algorithms : List Text

-- `audience or None`
unfoldable pub non_empty : Text → Option Text
non_empty [] = none
non_empty (c ∷ s) = some (c ∷ s)

-- the URI that the discovery document has, where it has one
named_uri : Option Text → Result Text
named_uri none = err value_error
named_uri (some uri) = if is_nonempty uri then ok uri else err value_error

-- `_discover_jwks_uri`; `fetch` reads a document and gives its jwks_uri
unfoldable pub discover_jwks_uri : (Text → Result (Option Text)) → Text → Result Text
unfolding named_uri
discover_jwks_uri fetch issuer = do
  doc ← fetch (rstrip_by (λ c. c == b'/') issuer ++ codes "/.well-known/openid-configuration")
  named_uri doc

-- `settings.oauth_jwks_uri or _discover_jwks_uri(…)`
keys_uri : (Text → Result (Option Text)) → Settings → Result Text
keys_uri fetch s =
    if is_nonempty s.oauth_jwks_uri
    then ok s.oauth_jwks_uri
    else discover_jwks_uri fetch s.oauth_issuer

unfoldable pub build_token_verifier :
    (Text → Result (Option Text)) → Settings → Result JwksTokenVerifier
unfolding keys_uri
build_token_verifier fetch s = do
  guard (is_nonempty s.oauth_issuer) value_error
  uri ← keys_uri fetch s
  ok (record {
    jwks_uri = uri;
    issuer = s.oauth_issuer;
    audience = non_empty s.oauth_audience;
    required = s.oauth_required_scopes;
    algorithms = s.oauth_algorithms;
  })

-- `verify_token`; `decode` takes the verifier's key, algorithms, issuer and audience
unfoldable pub verify_token :
    Unicode
    → (JwksTokenVerifier → Text → Option Claims)
    → JwksTokenVerifier
    → Text
    → Option AccessToken
verify_token u decode v token = verify_sync u (decode v) v.required token

-- A verifier that is built checks the issuer of the settings, which is not empty, demands their
-- scopes, and takes its keys from their URI, or, where they have none, from a URI that the
-- issuer's discovery document names.
pub build_token_verifier-ok :
    (fetch : Text → Result (Option Text)) (s : Settings) (v : JwksTokenVerifier)
    → build_token_verifier fetch s ≡ ok v
    → (is_nonempty v.issuer ≡ true)
      × (v.issuer ≡ s.oauth_issuer)
      × (v.required ≡ s.oauth_required_scopes)
      × ((if is_nonempty s.oauth_jwks_uri
            then ok s.oauth_jwks_uri
            else discover_jwks_uri fetch s.oauth_issuer)
          ≡ ok v.jwks_uri)
unfolding build_token_verifier keys_uri
build_token_verifier-ok fetch s v h =
    let (x, set, h₁) = >>=-eq-ok (guard (is_nonempty s.oauth_issuer) value_error) _ h in
    let (uri, keys, h₂) = >>=-eq-ok (keys_uri fetch s) _ h₁ in
    let built = ok-injective _ v h₂ in
    let issuer = sym (ap (λ (w : JwksTokenVerifier). w.issuer) built) in
    (
      ap is_nonempty issuer ∙ guard-ok (is_nonempty s.oauth_issuer) value_error x set,
      issuer,
      sym (ap (λ (w : JwksTokenVerifier). w.required) built),
      keys ∙ ap (λ (w : JwksTokenVerifier). ok w.jwks_uri) built,
    )
