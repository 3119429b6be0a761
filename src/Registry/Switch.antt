-- ===== src/Registry/Switch.antt =====
-- A change of the DSN under `_get` of core/registry.py.
use memcove.Common.{◌≡◌, true, false, some, text_eq, text_eq_iff, arith}
use memcove.Common.Result.{Error, ok, err}
use memcove.Unicode.{Unicode}
use memcove.Config.{Settings, registry_url}
use memcove.Registry.Backends.{Current, make_backend, get_backend}

-- After a change to a DSN for which no backend can be built, the call raises but the old backend
-- has been closed and stays the current one: once the settings name the old DSN again, that closed
-- backend is returned, and none is ever built for it.
pub get_backend-closed :
    (u : Unicode) (old new : Settings) (c : Current) (e : Error)
    → c.dsn ≡ registry_url old
    → text_eq c.dsn (registry_url new) ≡ false
    → make_backend u (registry_url new) ≡ err e
    → (get_backend u new (some c) ≡ (err e, some (record c { closed = true })))
      × (get_backend u old (get_backend u new (some c)).1
          ≡ (ok c.backend, some (record c { closed = true })))
unfolding get_backend
get_backend-closed u old new c e same other failed =
    ground (arith, text_eq_iff c.dsn (registry_url old))
