-- ===== src/Tenancy/Modes.antt =====
-- What each mode trusts.
use memcove.Common.{
  ◌≡◌, refl, inl, inr, Bool, true, Option, none, some, List, [], ◌∷◌, Text, codes, contains,
  text_eq_refl, is_nonempty, take, ◌++◌, arith, Option-cases, Bool-cases,
}
use memcove.Common.Result.{ok}
use memcove.Unicode.{Unicode}
use memcove.Config.{Settings, or_else, TenantMode, auto, shared, private, mapped}
use memcove.Tenancy.{
  Sha256, Headers, header, groups, normalize_tenant, shared_tenant, private_tenant, lookup_tenant,
  first_group, subject_entry, mapped_entry, mapped_tenant, resolve_tenant, by_map, by_subject,
  header_tenant, resolve_in,
}
use memcove.Tenancy.Namespace.{IsNamespace, normalize_tenant-IsNamespace}

pub private_tenant-IsNamespace :
    (u : Unicode) (sha : Sha256) (s : Settings) (identity ns : Text)
    → private_tenant u sha s identity ≡ ok ns
    → IsNamespace ns
unfolding private_tenant
private_tenant-IsNamespace u sha s identity ns =
    normalize_tenant-IsNamespace u s (some (codes "u" ++ take 16 (sha.hexdigest identity))) ns

pub mapped_tenant-IsNamespace :
    (u : Unicode) (subject : Option Text) (gs : List Text) (s : Settings) (ns : Text)
    → mapped_tenant u subject gs s ≡ ok ns
    → IsNamespace ns
unfolding mapped_tenant
mapped_tenant-IsNamespace u subject gs s ns h =
    elim (Option-cases (mapped_entry subject gs s.tenant_map)) [
      | inl e ↦ absurd (ground arith)
      | inr (raw, e) ↦ normalize_tenant-IsNamespace u s (some raw) ns (ground arith)
    ]

by_map-IsNamespace :
    (u : Unicode) (s : Settings) (headers : Headers) (ns : Text)
    → by_map u s headers ≡ ok ns
    → IsNamespace ns
unfolding by_map
by_map-IsNamespace u s headers ns =
    mapped_tenant-IsNamespace u (header u headers s.tenant_subject_header)
      (groups u (header u headers s.tenant_group_header)) s ns

by_subject-IsNamespace :
    (u : Unicode) (sha : Sha256) (s : Settings) (subject : Option Text) (ns : Text)
    → by_subject u sha s subject ≡ ok ns
    → IsNamespace ns
unfolding by_subject
by_subject-IsNamespace u sha s none ns h = cc
by_subject-IsNamespace u sha s (some subject) ns h =
    private_tenant-IsNamespace u sha s subject ns (ground arith)

resolve_in-IsNamespace :
    (mode : TenantMode) (u : Unicode) (sha : Sha256) (s : Settings) (headers : Headers) (ns : Text)
    → resolve_in mode u sha s headers ≡ ok ns
    → IsNamespace ns
unfolding resolve_in shared_tenant header_tenant
resolve_in-IsNamespace shared u sha s headers ns h =
    normalize_tenant-IsNamespace u s (some (or_else (some s.shared_tenant) s.default_tenant)) ns h
resolve_in-IsNamespace private u sha s headers ns h =
    by_subject-IsNamespace u sha s (header u headers s.tenant_subject_header) ns h
resolve_in-IsNamespace mapped u sha s headers ns h = by_map-IsNamespace u s headers ns h
resolve_in-IsNamespace auto u sha s headers ns h =
    elim (Bool-cases (is_nonempty s.tenant_subject_header)) [
      | inl e ↦ by_map-IsNamespace u s headers ns (ground arith)
      | inr e ↦
          normalize_tenant-IsNamespace u s (header u headers s.tenant_header) ns (ground arith)
    ]

-- In every mode, what the headers resolve to is a well-formed namespace t_….
pub resolve_tenant-IsNamespace :
    (u : Unicode) (sha : Sha256) (s : Settings) (headers : Headers) (ns : Text)
    → resolve_tenant u sha s headers ≡ ok ns
    → IsNamespace ns
unfolding resolve_tenant
resolve_tenant-IsNamespace u sha s = resolve_in-IsNamespace s.tenant_mode u sha s

-- the modes in which the client-settable tenant header is not trusted
abbrev pub mode_isolated : TenantMode → Settings → Bool
mode_isolated auto s = is_nonempty s.tenant_subject_header
mode_isolated _ s = true

resolve_in_isolated :
    (mode : TenantMode) (u : Unicode) (sha : Sha256) (s : Settings) (h k : Headers)
    → mode_isolated mode s ≡ true
    → header u h s.tenant_subject_header ≡ header u k s.tenant_subject_header
    → header u h s.tenant_group_header ≡ header u k s.tenant_group_header
    → resolve_in mode u sha s h ≡ resolve_in mode u sha s k
unfolding resolve_in by_map
resolve_in_isolated shared u sha s h k i e f = refl
resolve_in_isolated private u sha s h k i e f = rw e
resolve_in_isolated mapped u sha s h k i e f = rw (e, f)
resolve_in_isolated auto u sha s h k i e f = rw (i, e, f)

-- In the modes shared, private and mapped, and in auto with a subject header, the tenant is a
-- function of the two identity headers that the proxy sets: no other header, the raw tenant
-- header included, can change it.
pub resolve_tenant_isolated :
    (u : Unicode) (sha : Sha256) (s : Settings) (h k : Headers)
    → mode_isolated s.tenant_mode s ≡ true
    → header u h s.tenant_subject_header ≡ header u k s.tenant_subject_header
    → header u h s.tenant_group_header ≡ header u k s.tenant_group_header
    → resolve_tenant u sha s h ≡ resolve_tenant u sha s k
unfolding resolve_tenant
resolve_tenant_isolated u sha s = resolve_in_isolated s.tenant_mode u sha s

-- the map has this raw tenant for the subject, or for one of the groups
pub data Provisioned (subject : Option Text) (gs : List Text) (tenants : List (Text × Text))
    (raw : Text) : Type 0 where
  subject_of :
      (key : Text)
      → subject ≡ some key
      → lookup_tenant key tenants ≡ some raw
      → Provisioned subject gs tenants raw
  group_of :
      (g : Text)
      → contains gs g ≡ true
      → lookup_tenant g tenants ≡ some raw
      → Provisioned subject gs tenants raw

subject_entry_found :
    (subject : Option Text) (tenants : List (Text × Text)) (raw : Text)
    → subject_entry subject tenants ≡ some raw
    → (key : Text) × (subject ≡ some key) × (lookup_tenant key tenants ≡ some raw)
unfolding subject_entry
subject_entry_found none tenants raw h = cc
subject_entry_found (some key) tenants raw h = (key, refl, ground arith)

first_group_found :
    (gs : List Text) (tenants : List (Text × Text)) (raw : Text)
    → first_group gs tenants ≡ some raw
    → (g : Text) × (contains gs g ≡ true) × (lookup_tenant g tenants ≡ some raw)
unfolding first_group contains
first_group_found [] tenants raw h = cc
first_group_found (g ∷ rest) tenants raw h = elim (Option-cases (lookup_tenant g tenants)) [
  | inl e ↦
      let (k, mem, found) = first_group_found rest tenants raw (ground arith) in
      (k, ground arith, found)
  | inr (v, e) ↦ (g, ground (arith, text_eq_refl g), ground arith)
]

mapped_entry-Provisioned :
    (subject : Option Text) (gs : List Text) (tenants : List (Text × Text)) (raw : Text)
    → mapped_entry subject gs tenants ≡ some raw
    → Provisioned subject gs tenants raw
unfolding mapped_entry
mapped_entry-Provisioned subject gs tenants raw h =
    elim (Option-cases (subject_entry subject tenants)) [
      | inl e ↦
          let (g, mem, found) = first_group_found gs tenants raw (ground arith) in
          group_of g mem found
      | inr (v, e) ↦
          let (key, s, found) = subject_entry_found subject tenants raw (ground arith) in
          subject_of key s found
    ]

-- Mapped mode is fail-closed: it resolves to a tenant only if the operator's map holds the
-- subject, or one of the groups, and then to the normalized entry.
pub mapped_tenant-Provisioned :
    (u : Unicode) (subject : Option Text) (gs : List Text) (s : Settings) (ns : Text)
    → mapped_tenant u subject gs s ≡ ok ns
    → (raw : Text) × Provisioned subject gs s.tenant_map raw
      × (normalize_tenant u s (some raw) ≡ ok ns)
unfolding mapped_tenant
mapped_tenant-Provisioned u subject gs s ns h =
    elim (Option-cases (mapped_entry subject gs s.tenant_map)) [
      | inl e ↦ absurd (ground arith)
      | inr (raw, e) ↦ (raw, mapped_entry-Provisioned subject gs s.tenant_map raw e, ground arith)
    ]
