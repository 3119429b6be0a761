-- ===== src/Oauth/Tests.antt =====
-- A token whose text is its scope claim.
use memcove.Common.{
  ◌≡◌, ◌↔◌, refl, true, Option, none, some, List, [], ◌∷◌, Text, codes, all, contains,
}
use memcove.Unicode.Ascii.{ascii}
use memcove.Tenancy.Claims.{Claim, Claims, text}
use memcove.Oauth.{AccessToken, scopes_from_claims, access_token, verify_sync}

abbrev decode : Text → Option Claims
decode token = some ((codes "scope", text token) ∷ [])

split_scopes :
    scopes_from_claims ascii ((codes "scope", text (codes "read  write")) ∷ [])
    ≡ codes "read" ∷ codes "write" ∷ []
unfolding scopes_from_claims memcove.Oauth.scopes_of memcove.Tenancy.Claims.claim
    memcove.Common.text_eq memcove.Common.filter memcove.Oauth.split_when
    memcove.Unicode.ascii_space
split_scopes = refl

abbrev required : List Text
required = codes "write" ∷ []

abbrev accepted : AccessToken
accepted = access_token ascii (codes "read write") ((codes "scope", text (codes "read write")) ∷ [])
