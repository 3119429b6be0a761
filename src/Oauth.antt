-- ===== src/Oauth.antt =====
-- core/oauth.py: which bearer tokens are accepted.
pub mod Accepted
pub mod Verifier
mod Tests
use memcove.Common.{
  ℕ, Bool, true, false, Option, none, some, List, [], ◌∷◌, Text, codes, all, filter, contains,
  is_nonempty, if◌then◌else◌,
}
use memcove.Unicode.{Unicode}
use memcove.Tenancy.Claims.{Claim, Claims, text, texts, claim, or_claim, truthy}

-- the pieces of a text between the characters that pass the test
unfoldable pub split_when : (ℕ → Bool) → Text → List Text
split_when p [] = [] ∷ []
split_when p (c ∷ s) = elim (split_when p s) [
  | [] ↦ []
  | first ∷ rest ↦ if p c then [] ∷ first ∷ rest else (c ∷ first) ∷ rest
]

-- `_scopes_from_claims`; `str.split` without an argument drops the empty pieces
unfoldable pub scp_of : Option Claim → List Text
scp_of (some (texts scopes shown)) = scopes
scp_of _ = []

unfoldable pub scopes_of : Unicode → Option Claim → Option Claim → List Text
scopes_of u (some (text scope)) scp = filter is_nonempty (split_when u.is_space scope)
scopes_of u _ scp = scp_of scp

unfoldable pub scopes_from_claims : Unicode → Claims → List Text
scopes_from_claims u claims =
    scopes_of u (claim (codes "scope") claims) (claim (codes "scp") claims)

pub record AccessToken : Type 0 where
  pub token : Text
  -- none stands for ""
  pub client_id : Option Claim
  pub scopes : List Text
  pub expires_at : Option Claim
  pub subject : Option Claim
  pub claims : Claims

unfoldable pub access_token : Unicode → Text → Claims → AccessToken
access_token u token claims = record {
  token = token;
  client_id = truthy (
      or_claim (or_claim (claim (codes "azp") claims) (claim (codes "client_id") claims))
        (claim (codes "sub") claims));
  scopes = scopes_from_claims u claims;
  expires_at = claim (codes "exp") claims;
  subject = claim (codes "sub") claims;
  claims = claims;
}

-- `_verify_sync`; `decode` fetches the key and is `jwt.decode`, none where either raises
unfoldable pub verify_sync :
    Unicode → (Text → Option Claims) → List Text → Text → Option AccessToken
verify_sync u decode required token = elim (decode token) [
  | none ↦ none
  | some claims ↦
      if all (contains (scopes_from_claims u claims)) required
      then some (access_token u token claims)
      else none
]
