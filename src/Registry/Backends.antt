-- ===== src/Registry/Backends.antt =====
-- The choice of a backend in core/registry_backends.py, and the backend of the process in
-- core/registry.py.
use memcove.Common.{
  Bool, true, false, ◌||◌, Option, none, some, [], ◌∷◌, Text, codes, text_eq, starts_with, drop,
  if◌then◌else◌,
}
use memcove.Common.Result.{Result, ok, err, value_error}
use memcove.Unicode.{Unicode}
use memcove.Config.{Settings, registry_url}

-- the backends by what they connect to
pub data Backend : Type 0 where
  postgres : Text → Backend
  sqlite : Text → Backend
  mysql : Text → Backend

-- `dsn.split("://", 1)[0]`
unfoldable pub scheme_part : Text → Text
scheme_part [] = []
scheme_part (c ∷ s) =
    let later = scheme_part s in if starts_with (c ∷ s) (codes "://") then [] else c ∷ later

without_slash : Text → Text
without_slash [] = []
without_slash (c ∷ s) = if starts_with (c ∷ s) (codes "/") then s else c ∷ s

-- `_sqlite_path`
unfoldable pub sqlite_path : Text → Text
unfolding without_slash
sqlite_path url =
    let rest = without_slash (drop 9 url) in
    if text_eq rest [] || text_eq rest (codes ":memory:") then codes ":memory:" else rest

unfoldable pub make_backend : Unicode → Text → Result Backend
make_backend u dsn =
    let scheme = u.lower (scheme_part dsn) in
    if text_eq scheme (codes "postgresql") || text_eq scheme (codes "postgres")
    then ok (postgres dsn)
    else if text_eq scheme (codes "sqlite")
    then ok (sqlite (sqlite_path dsn))
    else if text_eq scheme (codes "mysql") || text_eq scheme (codes "mariadb")
    then ok (mysql dsn)
    else err value_error

-- the globals of the module: the backend with its DSN, and whether it has been closed
pub record Current : Type 0 where
  pub backend : Backend
  pub dsn : Text
  pub closed : Bool

rebuilt : Result Backend → Text → Option Current → Result Backend × Option Current
rebuilt (err e) dsn old = (err e, old)
rebuilt (ok b) dsn old = (ok b, some (record { backend = b; dsn = dsn; closed = false }))

-- `_backend.close()`, which leaves the global in place
shut : Option Current → Option Current
shut none = none
shut (some c) = some (record c { closed = true })

-- `_get`
unfoldable pub get_backend : Unicode → Settings → Option Current → Result Backend × Option Current
unfolding rebuilt shut
get_backend u s none = rebuilt (make_backend u (registry_url s)) (registry_url s) none
get_backend u s (some c) =
    if text_eq c.dsn (registry_url s)
    then (ok c.backend, some c)
    else rebuilt (make_backend u (registry_url s)) (registry_url s) (shut (some c))

-- `close_pool`
unfoldable pub close_pool : Option Current → Option Current
close_pool _ = none
