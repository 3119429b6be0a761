-- ===== src/Tenancy/Tests.antt =====
-- Tenants at concrete inputs. The digest is a toy: it tells one name from all others.
use memcove.Common.{
  ◌≡◌, refl, ◌↔◌, Bool, true, false, none, some, [], ◌∷◌, Text, codes, text_eq, all, length, take,
  Bool-cases, inl, inr,
}
use memcove.Common.Result.{ok, err, tenancy_error}
use memcove.Unicode.{is_word, strip_by}
use memcove.Unicode.Ascii.{ascii}
use memcove.Config.{Settings, mapped}
use memcove.Config.Defaults.{defaults}
use memcove.Tenancy.{
  Sha256, Headers, normalize_tenant, private_tenant, mapped_tenant, lookup_tenant, resolve_tenant,
  header,
}
use memcove.Tenancy.Toy.{toy, pick}
use memcove.Tenancy.Namespace.{IsNamespace, normalize_tenant-IsNamespace}
use memcove.Tenancy.Private.{private_tenant-injective_iff}
use memcove.Tenancy.Modes.{resolve_tenant_isolated}
use memcove.Tenancy.Claims.{
  Claims, Claim, resolve_tenant_from_claims, resolve_tenant_from_claims-IsNamespace,
}

abbrev acme_raw : Text
acme_raw = codes " ACME-Corp "

acme_normalized : normalize_tenant ascii defaults (some acme_raw) ≡ ok (codes "t_acme_corp")
unfolding normalize_tenant memcove.Tenancy.has_alnum memcove.Common.any memcove.Tenancy.sanitize
    strip_by memcove.Unicode.rstrip_by memcove.Unicode.lstrip_by memcove.Unicode.ascii_space is_word
    memcove.Unicode.ascii_lower memcove.Tenancy.tenant_matches memcove.Tenancy.with_prefix
    memcove.Common.starts_with all
acme_normalized = refl

punctuation_refused : normalize_tenant ascii defaults (some (codes "--")) ≡ err tenancy_error
unfolding normalize_tenant memcove.Tenancy.has_alnum memcove.Common.any memcove.Tenancy.sanitize
    strip_by memcove.Unicode.rstrip_by memcove.Unicode.lstrip_by memcove.Unicode.ascii_space is_word
    memcove.Unicode.ascii_lower
punctuation_refused = refl

acme-IsNamespace : IsNamespace (codes "t_acme_corp")
acme-IsNamespace =
    normalize_tenant-IsNamespace ascii defaults (some acme_raw) (codes "t_acme_corp")
      acme_normalized

private_tenant-injective_iff_example :
    (private_tenant ascii toy defaults (codes "ann")
      ≡ private_tenant ascii toy defaults (codes "bob"))
    ↔ (take 16 (pick (text_eq (codes "ann") (codes "ann")))
        ≡ take 16 (pick (text_eq (codes "bob") (codes "ann"))))
private_tenant-injective_iff_example =
    private_tenant-injective_iff ascii toy defaults (codes "ann") (codes "bob")

abbrev mapped_settings : Settings
mapped_settings = record defaults {
  tenant_mode = mapped;
  tenant_subject_header = codes "x-auth-subject";
  tenant_map = (codes "ann", codes "finance") ∷ [];
}

abbrev ann_headers : Headers
ann_headers = (codes "X-Auth-Subject", codes "ann") ∷ (codes "x-memcove-tenant", codes "hr") ∷ []

abbrev ann_plain : Headers
ann_plain = (codes "x-auth-subject", codes "ann") ∷ []

ann_resolved : resolve_tenant ascii toy mapped_settings ann_headers ≡ ok (codes "t_finance")
unfolding resolve_tenant header mapped_tenant lookup_tenant normalize_tenant
    memcove.Tenancy.mapped_entry memcove.Tenancy.subject_entry text_eq memcove.Unicode.ascii_lower
    memcove.Tenancy.has_alnum memcove.Common.any memcove.Tenancy.sanitize strip_by
    memcove.Unicode.rstrip_by memcove.Unicode.lstrip_by memcove.Unicode.ascii_space is_word
    memcove.Tenancy.tenant_matches memcove.Tenancy.with_prefix memcove.Common.starts_with all
ann_resolved = refl

same_subject :
    header ascii ann_headers (codes "x-auth-subject")
    ≡ header ascii ann_plain (codes "x-auth-subject")
unfolding header memcove.Unicode.ascii_lower text_eq
same_subject = refl

same_groups : header ascii ann_headers [] ≡ header ascii ann_plain []
unfolding header
same_groups = refl

resolve_tenant_isolated_example :
    resolve_tenant ascii toy mapped_settings ann_headers
    ≡ resolve_tenant ascii toy mapped_settings ann_plain
resolve_tenant_isolated_example =
    resolve_tenant_isolated ascii toy mapped_settings ann_headers ann_plain refl same_subject
      same_groups

ann_mapped : mapped_tenant ascii (some (codes "ann")) [] mapped_settings ≡ ok (codes "t_finance")
unfolding mapped_tenant lookup_tenant normalize_tenant memcove.Tenancy.mapped_entry
    memcove.Tenancy.subject_entry text_eq memcove.Tenancy.has_alnum memcove.Common.any
    memcove.Tenancy.sanitize strip_by memcove.Unicode.rstrip_by memcove.Unicode.lstrip_by
    memcove.Unicode.ascii_space is_word memcove.Unicode.ascii_lower memcove.Tenancy.tenant_matches
    memcove.Tenancy.with_prefix memcove.Common.starts_with all
ann_mapped = refl

abbrev token_claims : Claims
token_claims = (codes "sub", Claim.text (codes "Ann")) ∷ []

token_resolved : resolve_tenant_from_claims ascii toy defaults token_claims ≡ ok (codes "t_ann")
unfolding resolve_tenant_from_claims normalize_tenant memcove.Tenancy.Claims.claim text_eq
    memcove.Tenancy.has_alnum memcove.Common.any memcove.Tenancy.sanitize strip_by
    memcove.Unicode.rstrip_by memcove.Unicode.lstrip_by memcove.Unicode.ascii_space is_word
    memcove.Unicode.ascii_lower memcove.Tenancy.tenant_matches memcove.Tenancy.with_prefix
    memcove.Common.starts_with all
token_resolved = refl
