-- ===== src/Tenancy/Normalize.antt =====
-- `normalize_tenant`: a raw tenant id as an Iceberg-safe namespace.
use memcove.Common.{
  Bool, false, ◌&&◌, ◌||◌, Option, [], ◌∷◌, ◌++◌, map, Text, codes, leb, all, any, length,
  starts_with, if◌then◌else◌,
}
use memcove.Common.Result.{Result, ok, err, tenancy_error}
use memcove.Unicode.{Unicode, is_lower, is_digit, is_word, strip_by}
use memcove.Config.{Settings, or_else}

-- `re.sub(r"[^a-z0-9_]", "_", s)`
unfoldable pub sanitize : Text → Text
sanitize = map (λ c. if is_word c then c else b'_')

unfoldable pub has_alnum : Text → Bool
has_alnum = any (λ c. is_lower c || is_digit c)

-- `^[a-z][a-z0-9_]{1,62}$`; a sanitized text holds no newline, so `$` matches at the end only
unfoldable pub tenant_matches : Text → Bool
tenant_matches [] = false
tenant_matches (c ∷ s) = is_lower c && all is_word s && leb 1 (length s) && leb (length s) 62

unfoldable pub with_prefix : Text → Text
with_prefix s = if starts_with s (codes "t_") then s else codes "t_" ++ s

unfoldable pub normalize_tenant : Unicode → Settings → Option Text → Result Text
normalize_tenant u s raw =
    let candidate = sanitize (u.lower (strip_by u.is_space (or_else raw s.default_tenant))) in
    let namespace = with_prefix candidate in
    if has_alnum candidate
    then (if tenant_matches namespace then ok namespace else err tenancy_error)
    else err tenancy_error
