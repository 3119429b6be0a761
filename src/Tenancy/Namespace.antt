-- ===== src/Tenancy/Namespace.antt =====
-- What a namespace looks like, and that it stays itself under another normalization.
use memcove.Common.{
  ◌≡◌, refl, true, Option, some, [], ◌∷◌, Text, codes, all, any, starts_with, starts_with-append,
  is_nonempty, arith,
}
use memcove.Common.Result.{ok}
use memcove.Unicode.{Unicode, is_word, strip_by}
use memcove.Naming.Labels.{lower-strip_words}
use memcove.Config.{Settings, or_else}
use memcove.Tenancy.{sanitize, has_alnum, tenant_matches, with_prefix, normalize_tenant}

-- t_ and one to 61 more characters out of [a-z0-9_]
pub record IsNamespace (ns : Text) : Type 0 where
  pub prefixed : starts_with ns (codes "t_") ≡ true
  pub matches : tenant_matches ns ≡ true

with_prefix-prefixed : (s : Text) → starts_with (with_prefix s) (codes "t_") ≡ true
unfolding with_prefix
with_prefix-prefixed s = ground (arith, starts_with-append (codes "t_") s)

with_prefix_self : (s : Text) → starts_with s (codes "t_") ≡ true → with_prefix s ≡ s
unfolding with_prefix
with_prefix_self s h = rw h

pub tenant_matches-words : (s : Text) → tenant_matches s ≡ true → all is_word s ≡ true
unfolding tenant_matches all is_word
tenant_matches-words [] h = refl
tenant_matches-words (c ∷ s) h = ground arith

pub sanitize_words : (s : Text) → all is_word s ≡ true → sanitize s ≡ s
unfolding sanitize all
sanitize_words [] h = refl
sanitize_words (c ∷ s) h = ground (arith, sanitize_words s)

tenant_matches-alnum : (s : Text) → tenant_matches s ≡ true → has_alnum s ≡ true
unfolding tenant_matches has_alnum any
tenant_matches-alnum [] h = cc
tenant_matches-alnum (c ∷ s) h = ground arith

or_else_matching : (s d : Text) → tenant_matches s ≡ true → or_else (some s) d ≡ s
unfolding tenant_matches
or_else_matching [] d h = cc
or_else_matching (c ∷ s) d h = refl

-- Every tenant that the normalization returns is t_ and more characters of [a-z0-9_], at most
-- 63 in all.
pub normalize_tenant-IsNamespace :
    (u : Unicode) (s : Settings) (raw : Option Text) (ns : Text)
    → normalize_tenant u s raw ≡ ok ns
    → IsNamespace ns
unfolding normalize_tenant
normalize_tenant-IsNamespace u s raw ns h =
    let c : Text = sanitize (u.lower (strip_by u.is_space (or_else raw s.default_tenant))) in
    ground (arith, with_prefix-prefixed c)

-- a sanitized word text is normalized by its prefix alone
pub normalize_tenant-words :
    (u : Unicode) (s : Settings) (t : Text)
    → all is_word t ≡ true
    → is_nonempty t ≡ true
    → has_alnum t ≡ true
    → tenant_matches (with_prefix t) ≡ true
    → normalize_tenant u s (some t) ≡ ok (with_prefix t)
unfolding normalize_tenant
normalize_tenant-words u s t w n a m = rw (n, lower-strip_words u t w, sanitize_words t w, a, m)

-- A namespace is its own normalization, whatever the settings of the process that normalizes it
-- again: the tenant that a Flight ticket or a resource URI carries stays the same.
pub normalize_tenant_idem :
    (u : Unicode) (s : Settings) (ns : Text)
    → IsNamespace ns
    → normalize_tenant u s (some ns) ≡ ok ns
unfolding normalize_tenant
normalize_tenant_idem u s ns h = rw (
  or_else_matching ns s.default_tenant h.matches,
  lower-strip_words u ns (tenant_matches-words ns h.matches),
  sanitize_words ns (tenant_matches-words ns h.matches),
  tenant_matches-alnum ns h.matches,
  with_prefix_self ns h.prefixed,
  h.matches,
)
