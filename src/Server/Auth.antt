-- ===== src/Server/Auth.antt =====
-- How the server is started for OAuth, and what that means for the callers.
use memcove.Common.{
  ◌≡◌, refl, ap, sym, ◌∙◌, subst, true, Option, none, some, List, [], ◌∷◌, ◌++◌, Text, codes,
  contains, all, is_nonempty, str, arith, inl, inr, Bool-cases, if◌then◌else◌,
}
use memcove.Common.Result.{Result, ok, err, ◌>>=◌, >>=-eq-ok, tenancy_error}
use memcove.Unicode.{Unicode}
use memcove.Config.{Settings}
use memcove.Tenancy.{Sha256, Headers}
use memcove.Tenancy.Claims.{Claims, resolve_tenant_from_claims}
use memcove.Oauth.{AccessToken, scopes_from_claims, access_token}
use memcove.Oauth.Accepted.{verify_sync-accepts_iff}
use memcove.Oauth.Verifier.{
  JwksTokenVerifier, build_token_verifier, build_token_verifier-ok, verify_token,
}
use memcove.Server.{caller_tenant, claimed}

-- the keywords that FastMCP gets: the verifier, and AuthSettings
pub record AuthKwargs : Type 0 where
  pub token_verifier : JwksTokenVerifier
  pub issuer_url : Text
  pub resource_server_url : Text
  pub required_scopes : Option (List Text)

-- `scopes or None`
unless_none : List Text → Option (List Text)
unless_none [] = none
unless_none (x ∷ xs) = some (x ∷ xs)

-- `s.public_url or f"http://{s.host}:{s.port}"`
unfoldable pub base_url : Settings → Text
base_url s =
    if is_nonempty s.public_url
    then s.public_url
    else codes "http://" ++ s.host ++ codes ":" ++ str s.port

auth_kwargs : Settings → JwksTokenVerifier → AuthKwargs
unfolding unless_none
auth_kwargs s v = record {
  token_verifier = v;
  issuer_url = s.oauth_issuer;
  resource_server_url = base_url s;
  required_scopes = unless_none s.oauth_required_scopes;
}

-- `_build_auth_kwargs`; none is the empty dict
unfoldable pub build_auth_kwargs :
    (Text → Result (Option Text)) → Settings → Result (Option AuthKwargs)
unfolding auth_kwargs
build_auth_kwargs fetch s =
    if s.oauth_enabled
    then (do v ← build_token_verifier fetch s; ok (some (auth_kwargs s v)))
    else ok none

module _ (u : Unicode) (sha : Sha256) (s : Settings) where
  token-claims : (raw : Text) (claims : Claims) → (access_token u raw claims).claims ≡ claims
  unfolding access_token
  token-claims raw claims = refl

  by_claims :
      (headers : Headers) (claims : Claims)
      → s.oauth_enabled ≡ true
      → caller_tenant u sha s (record { headers = headers; token = some (some claims) })
        ≡ resolve_tenant_from_claims u sha s claims
  unfolding caller_tenant claimed
  by_claims headers claims on = rw on refl

  refused :
      (headers : Headers)
      → s.oauth_enabled ≡ true
      → caller_tenant u sha s (record { headers = headers; token = none }) ≡ err tenancy_error
  unfolding caller_tenant claimed
  refused headers on = rw on refl

  enabled :
      (fetch : Text → Result (Option Text)) (k : AuthKwargs)
      → build_auth_kwargs fetch s ≡ ok (some k)
      → (s.oauth_enabled ≡ true) × (build_token_verifier fetch s ≡ ok k.token_verifier)
  unfolding build_auth_kwargs auth_kwargs
  enabled fetch k h = elim (Bool-cases s.oauth_enabled) [
    | inl on ↦
        let given : (build_token_verifier fetch s >>= λ v. ok (some (auth_kwargs s v)))
            ≡ ok (some k) =
          ground arith in
        let (v, built, made) = >>=-eq-ok (build_token_verifier fetch s) _ given in
        (on, built ∙ cc made)
    | inr off ↦ absurd (ground arith)
  ]

  -- Where the server started with a verifier, a bearer token that the verifier accepts brings its
  -- caller into the namespace of the token's own claims, which carry every scope that the settings
  -- require, whatever the headers of the request say; and a call without a token is refused.
  pub build_auth_kwargs-accepted :
      (fetch : Text → Result (Option Text)) (k : AuthKwargs)
      (decode : JwksTokenVerifier → Text → Option Claims) (raw : Text) (t : AccessToken)
      (headers : Headers)
      → build_auth_kwargs fetch s ≡ ok (some k)
      → verify_token u decode k.token_verifier raw ≡ some t
      → ((claims : Claims) × (decode k.token_verifier raw ≡ some claims)
          × (all (contains (scopes_from_claims u claims)) s.oauth_required_scopes ≡ true)
          × (caller_tenant u sha s (record { headers = headers; token = some (some t.claims) })
              ≡ resolve_tenant_from_claims u sha s claims))
        × (caller_tenant u sha s (record { headers = headers; token = none }) ≡ err tenancy_error)
  unfolding verify_token
  build_auth_kwargs-accepted fetch k decode raw t headers started accepted =
      let v = k.token_verifier in
      let (on, built) = enabled fetch k started in
      let (issuer, same, required, keys) = build_token_verifier-ok fetch s v built in
      let (claims, decoded, scoped, made) =
        (verify_sync-accepts_iff u (decode v) v.required raw t).0 accepted in
      let own : t.claims ≡ claims =
        ap (λ (q : AccessToken). q.claims) (sym made) ∙ token-claims raw claims in
      (
        (
          claims,
          decoded,
          subst (λ q. all (contains (scopes_from_claims u claims)) q ≡ true) required scoped,
          rw own (by_claims headers claims on),
        ),
        refused headers on,
      )
