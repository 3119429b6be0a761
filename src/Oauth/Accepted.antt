-- ===== src/Oauth/Accepted.antt =====
-- When a bearer token is accepted.
use memcove.Common.{
  ◌≡◌, ◌↔◌, true, Option, some, List, Text, all, contains, arith, inl, inr, Option-cases,
  Bool-cases,
}
use memcove.Unicode.{Unicode}
use memcove.Tenancy.Claims.{Claims}
use memcove.Oauth.{AccessToken, scopes_from_claims, access_token, verify_sync}

-- A token is accepted exactly when the library decodes it and its claims carry every required
-- scope; and then it comes with its own claims and with the scopes that these claims carry.
pub verify_sync-accepts_iff :
    (u : Unicode) (decode : Text → Option Claims) (required : List Text) (token : Text)
    (t : AccessToken)
    → (verify_sync u decode required token ≡ some t) ↔ (
        (claims : Claims) × (decode token ≡ some claims)
        × (all (contains (scopes_from_claims u claims)) required ≡ true)
        × (access_token u token claims ≡ t))
unfolding verify_sync
verify_sync-accepts_iff u decode required token t = (
  λ h. elim (Option-cases (decode token)) [
    | inl e ↦ absurd (ground arith)
    | inr (claims, e) ↦ elim (Bool-cases (all (contains (scopes_from_claims u claims)) required)) [
      | inl every ↦
          let given : some (access_token u token claims) ≡ some t = ground arith in
          (claims, e, every, cc)
      | inr missing ↦ absurd (ground arith)
    ]
  ],
  λ (claims, e, every, same). ground arith,
)
