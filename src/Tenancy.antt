-- ===== src/Tenancy.antt =====
-- core/tenancy.py: how a caller's identity becomes the namespace t_<id>.
mod Normalize
pub mod Namespace
pub mod Modes
pub mod Private
pub mod Claims
pub mod Toy
mod Tests
unfoldable pub use Normalize.*
use memcove.Common.{
  ℕ, zero, suc, ◌≡◌, Bool, true, false, Option, none, some, List, [], ◌∷◌, ◌++◌, map, Text, codes,
  text_eq, take, length, is_nonempty, filter, all, if◌then◌else◌,
}
use memcove.Common.Result.{Error, Result, ok, err, ◌>>=◌, ◌>>◌, guard, tenancy_error, type_error}
use memcove.Unicode.{Unicode, strip_by, split_on, is_word}
use memcove.Config.{Settings, TenantMode, auto, shared, private, mapped, or_else, is_set}

-- `hashlib.sha256(s.encode("utf-8")).hexdigest()`: 64 hexadecimal digits in lower case
pub record Sha256 : Type 0 where
  pub hexdigest : Text → Text
  pub hexdigest_words : (s : Text) → all is_word (hexdigest s) ≡ true
  pub hexdigest_length : (s : Text) → length (hexdigest s) ≡ 64

abbrev pub Headers : Type 0
Headers = List (Text × Text)

find_header : Unicode → Text → Headers → Option Text
find_header u wanted [] = none
find_header u wanted ((key, value) ∷ rest) =
    if text_eq (u.lower key) wanted then some value else find_header u wanted rest

-- _header
unfoldable pub header : Unicode → Headers → Text → Option Text
unfolding find_header
header u headers name = if is_nonempty name then find_header u (u.lower name) headers else none

-- _groups
unfoldable pub groups : Unicode → Option Text → List Text
groups u value = filter is_nonempty (map (strip_by u.is_space) (split_on b',' (or_else value [])))

-- _shared_tenant
unfoldable pub shared_tenant : Unicode → Settings → Result Text
shared_tenant u s = normalize_tenant u s (some (or_else (some s.shared_tenant) s.default_tenant))

-- _private_tenant
unfoldable pub private_tenant : Unicode → Sha256 → Settings → Text → Result Text
private_tenant u sha s identity =
    normalize_tenant u s (some (codes "u" ++ take 16 (sha.hexdigest identity)))

-- `tenant_map.get(key)`
unfoldable pub lookup_tenant : Text → List (Text × Text) → Option Text
lookup_tenant key [] = none
lookup_tenant key ((k, v) ∷ rest) = if text_eq k key then some v else lookup_tenant key rest

-- the loop over the groups: the first one that the map has
unfoldable pub first_group : List Text → List (Text × Text) → Option Text
first_group [] tenants = none
first_group (g ∷ rest) tenants = elim (lookup_tenant g tenants) [
  | some v ↦ some v
  | none ↦ first_group rest tenants
]

-- `if subject and subject in settings.tenant_map`
unfoldable pub subject_entry : Option Text → List (Text × Text) → Option Text
subject_entry none tenants = none
subject_entry (some s) tenants = if is_nonempty s then lookup_tenant s tenants else none

-- the raw tenant of the map: by subject, else by group
unfoldable pub mapped_entry : Option Text → List Text → List (Text × Text) → Option Text
mapped_entry subject gs tenants = elim (subject_entry subject tenants) [
  | some v ↦ some v
  | none ↦ first_group gs tenants
]

-- _mapped_tenant
unfoldable pub mapped_tenant : Unicode → Option Text → List Text → Settings → Result Text
mapped_tenant u subject gs s = elim (mapped_entry subject gs s.tenant_map) [
  | some raw ↦ normalize_tenant u s (some raw)
  | none ↦ err tenancy_error
]

-- the raw tenant header is read in this branch alone
header_tenant : Unicode → Settings → Headers → Result Text
header_tenant u s headers = normalize_tenant u s (header u headers s.tenant_header)

by_subject : Unicode → Sha256 → Settings → Option Text → Result Text
by_subject u sha s none = err tenancy_error
by_subject u sha s (some subject) =
    if is_nonempty subject then private_tenant u sha s subject else err tenancy_error

by_map : Unicode → Settings → Headers → Result Text
by_map u s headers =
    mapped_tenant u (header u headers s.tenant_subject_header)
      (groups u (header u headers s.tenant_group_header)) s

resolve_in : TenantMode → Unicode → Sha256 → Settings → Headers → Result Text
unfolding header_tenant by_subject by_map
resolve_in shared u sha s headers = shared_tenant u s
resolve_in private u sha s headers = by_subject u sha s (header u headers s.tenant_subject_header)
resolve_in mapped u sha s headers = by_map u s headers
resolve_in auto u sha s headers =
    if is_nonempty s.tenant_subject_header then by_map u s headers else header_tenant u s headers

-- resolve_tenant; the empty list stands for headers that are None
unfoldable pub resolve_tenant : Unicode → Sha256 → Settings → Headers → Result Text
unfolding resolve_in
resolve_tenant u sha s headers = resolve_in s.tenant_mode u sha s headers
