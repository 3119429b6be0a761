-- ===== src/Startup.antt =====
-- The three programs: `main` of server.py, `serve` of data_plane/flight_server.py, and `main` of
-- reconciler.py. What a server does once it runs is in Server and Flight.
mod Tables
use memcove.Common.{
  Bool, true, false, ◌||◌, Option, none, some, List, [], ◌++◌, Text, codes, text_eq, str,
  if◌then◌else◌,
}
use memcove.Common.Result.{Error, Result, ok, err}
use memcove.Config.{Settings}
use memcove.Registry.Backends.{Backend, Current, close_pool}
use memcove.Registry.Init.{Database, init_db}
use memcove.Reconciler.{Sweep, reconcile}
use memcove.Clients.{flight_location}

-- `init_db` before a server starts: an error is only logged. Whether the database takes tables
-- back in a rollback is the Boolean.
unfoldable pub best_effort : Bool → Backend → Database → Database
best_effort undoes b db = (init_db undoes b db).1

-- what runs, where it listens, and whether a warning was logged about the secret
pub data Running : Type 0 where
  mcp : Text → Running
  flight : Text → Bool → Running

-- server.py `main`
unfoldable pub server_main : Settings → Bool → Backend → Database → Running × Database
server_main s undoes b db = (mcp (s.host ++ codes ":" ++ str s.port), best_effort undoes b db)

-- the empty secret and the default one let anyone forge tickets
unfoldable pub is_insecure : Settings → Bool
is_insecure s =
    text_eq s.flight_ticket_secret []
    || text_eq s.flight_ticket_secret (codes "dev-insecure-change-me")

-- flight_server.py `serve`
unfoldable pub serve : Settings → Bool → Backend → Database → Running × Database
serve s undoes b db =
    let location = codes "grpc://" ++ s.flight_host ++ codes ":" ++ str s.flight_port in
    (flight (flight_location s (some location)) (is_insecure s), best_effort undoes b db)

-- the state of the process that sweeps once: its database, the sweep, and the backend of registry
pub record Job : Type 0 where
  pub db : Database
  pub sweep : Sweep
  pub backend : Option Current

swept : Settings → Result (List (Text × List Text)) → Sweep → Result (Unit {0}) × Sweep
swept s (err e) w = (err e, w)
swept s (ok namespaces) w = (ok tt, reconcile s namespaces w)

-- reconciler.py `main`, over what `list_namespaces` answers and what each namespace lists: the
-- sweep runs although init_db failed, and the pool is closed although the sweep failed
unfoldable pub reconcile_main :
    Settings → Bool → Backend → Result (List (Text × List Text)) → Job → Result (Unit {0}) × Job
unfolding swept
reconcile_main s undoes b namespaces job =
    let (r, after) = swept s namespaces job.sweep in
    (
      r,
      record { db = best_effort undoes b job.db; sweep = after; backend = close_pool job.backend },
    )
