-- ===== src/Tenancy/Claims.antt =====
-- `resolve_tenant_from_claims`: the tenant of a verified OAuth token.
use memcove.Common.{
  ◌≡◌, Bool, Option, none, some, List, [], ◌∷◌, Text, codes, text_eq, is_nonempty, arith,
  Bool-cases, Option-cases, inl, inr, if◌then◌else◌,
}
use memcove.Common.Result.{Result, ok, err, ◌>>=◌, >>=-eq-ok, tenancy_error, type_error}
use memcove.Unicode.{Unicode}
use memcove.Config.{Settings, TenantMode, or_else, auto, shared, private, mapped}
use memcove.Tenancy.{
  Sha256, normalize_tenant, shared_tenant, private_tenant, subject_entry, mapped_tenant,
}
use memcove.Tenancy.Namespace.{IsNamespace, normalize_tenant-IsNamespace}
use memcove.Tenancy.Modes.{mapped_tenant-IsNamespace, private_tenant-IsNamespace}

-- A claim's JSON value: a string; a list of strings, or an object as the list of its keys, with its
-- `str()`, which the code treats alike: both are true if not empty, run through these strings, and
-- cannot be hashed; or another value, of which the code sees its truth and its `str()`.
pub data Claim : Type 0 where
  text : Text → Claim
  texts : List Text → Text → Claim
  other : Bool → Text → Claim

abbrev pub Claims : Type 0
Claims = List (Text × Claim)

-- `claims.get(name)`
unfoldable pub claim : Text → Claims → Option Claim
claim name [] = none
claim name ((k, v) ∷ rest) = if text_eq k name then some v else claim name rest

abbrev pub truth : Claim → Bool
truth (text t) = is_nonempty t
truth (texts ts shown) = is_nonempty ts
truth (other b shown) = b

abbrev pub shown : Claim → Text
shown (text t) = t
shown (texts ts s) = s
shown (other b s) = s

-- a value that is missing or false counts as missing
abbrev pub truthy : Option Claim → Option Claim
truthy none = none
truthy (some c) = if truth c then some c else none

abbrev pub or_claim : Option Claim → Option Claim → Option Claim
or_claim a b = elim (truthy a) [ some c ↦ some c | none ↦ b ]

-- the value that the loop over `groups` runs through; a number cannot be iterated
unfoldable pub group_names : Option Claim → Result (List Text)
group_names none = ok []
group_names (some (text t)) = ok (t ∷ [])
group_names (some (texts ts s)) = ok ts
group_names (some (other b s)) = err type_error

-- `subject in settings.tenant_map`: a list is unhashable, and no other value is a key
unfoldable pub subject_key : Option Claim → Result (Option Text)
subject_key none = ok none
subject_key (some (text t)) = ok (some t)
subject_key (some (texts ts s)) = if is_nonempty ts then err type_error else ok none
subject_key (some (other b s)) = ok none

unfoldable pub mapped_claims : Unicode → Option Claim → Option Claim → Settings → Result Text
mapped_claims u subject gs s = do
  key ← subject_key subject
  elim (subject_entry key s.tenant_map) [
    | some raw ↦ mapped_tenant u key [] s
    | none ↦ do names ← group_names (truthy gs); mapped_tenant u key names s
  ]

private_claims : Unicode → Sha256 → Settings → Option Claim → Result Text
private_claims u sha s none = err tenancy_error
private_claims u sha s (some identity) = private_tenant u sha s (shown identity)

direct_claim : Unicode → Settings → Option Claim → Result Text
direct_claim u s none = err tenancy_error
direct_claim u s (some value) = normalize_tenant u s (some (shown value))

by_mode : TenantMode → Unicode → Sha256 → Settings → Claims → Result Text
unfolding private_claims direct_claim
by_mode shared u sha s claims = shared_tenant u s
by_mode private u sha s claims =
    private_claims u sha s
      (truthy (or_claim (claim s.oauth_tenant_claim claims) (claim (codes "sub") claims)))
by_mode mapped u sha s claims =
    mapped_claims u (claim (codes "sub") claims)
      (or_claim (claim (codes "groups") claims) (claim (codes "roles") claims)) s
by_mode auto u sha s claims =
    if is_nonempty s.tenant_map
    then mapped_claims u (claim (codes "sub") claims)
        (or_claim (claim (codes "groups") claims) (claim (codes "roles") claims)) s
    else direct_claim u s (truthy (claim s.oauth_tenant_claim claims))

unfoldable pub resolve_tenant_from_claims : Unicode → Sha256 → Settings → Claims → Result Text
unfolding by_mode
resolve_tenant_from_claims u sha s claims = by_mode s.tenant_mode u sha s claims

mapped_claims-IsNamespace :
    (u : Unicode) (subject gs : Option Claim) (s : Settings) (ns : Text)
    → mapped_claims u subject gs s ≡ ok ns
    → IsNamespace ns
unfolding mapped_claims
mapped_claims-IsNamespace u subject gs s ns h =
    let (key, e, rest) = >>=-eq-ok (subject_key subject) _ h in
    elim (Option-cases (subject_entry key s.tenant_map)) [
      | inl missing ↦
          let (names, _, found) =
            >>=-eq-ok (group_names (truthy gs)) (λ names. mapped_tenant u key names s)
              (ground arith) in
          mapped_tenant-IsNamespace u key names s ns found
      | inr (raw, found) ↦ mapped_tenant-IsNamespace u key [] s ns (ground arith)
    ]

by_mode-IsNamespace :
    (mode : TenantMode) (u : Unicode) (sha : Sha256) (s : Settings) (claims : Claims) (ns : Text)
    → by_mode mode u sha s claims ≡ ok ns
    → IsNamespace ns
unfolding by_mode shared_tenant
by_mode-IsNamespace shared u sha s claims ns h =
    normalize_tenant-IsNamespace u s (some (or_else (some s.shared_tenant) s.default_tenant)) ns h
by_mode-IsNamespace private u sha s claims ns h =
    elim (Option-cases
      (truthy (or_claim (claim s.oauth_tenant_claim claims) (claim (codes "sub") claims)))) [
        | inl e ↦ absurd (ground arith)
        | inr (i, e) ↦ private_tenant-IsNamespace u sha s (shown i) ns (ground arith)
      ]
by_mode-IsNamespace mapped u sha s claims ns h = mapped_claims-IsNamespace u _ _ s ns h
by_mode-IsNamespace auto u sha s claims ns h = elim (Bool-cases (is_nonempty s.tenant_map)) [
  | inl e ↦
      mapped_claims-IsNamespace u (claim (codes "sub") claims)
        (or_claim (claim (codes "groups") claims) (claim (codes "roles") claims)) s ns
        (ground arith)
  | inr e ↦ elim (Option-cases (truthy (claim s.oauth_tenant_claim claims))) [
    | inl f ↦ absurd (ground arith)
    | inr (v, f) ↦ normalize_tenant-IsNamespace u s (some (shown v)) ns (ground arith)
  ]
]

-- In every mode, what a verified token's claims resolve to is a well-formed namespace t_….
pub resolve_tenant_from_claims-IsNamespace :
    (u : Unicode) (sha : Sha256) (s : Settings) (claims : Claims) (ns : Text)
    → resolve_tenant_from_claims u sha s claims ≡ ok ns
    → IsNamespace ns
unfolding resolve_tenant_from_claims
resolve_tenant_from_claims-IsNamespace u sha s = by_mode-IsNamespace s.tenant_mode u sha s
