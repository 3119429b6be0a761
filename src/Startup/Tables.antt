-- ===== src/Startup/Tables.antt =====
-- A start changes no table that is there.
use memcove.Common.{◌≡◌, Bool, some, List, Text}
use memcove.Common.Result.{Result}
use memcove.Config.{Settings}
use memcove.Registry.Backends.{Backend}
use memcove.Registry.Ddl.{TableDef}
use memcove.Registry.Init.{Database, find_table}
use memcove.Registry.Ready.{init_db-keeps}
use memcove.Startup.{Job, server_main, serve, reconcile_main, best_effort}

-- Each of the three programs, however its init_db ends, leaves a table that was there as it was.
pub server_main-keeps :
    (s : Settings) (undoes : Bool) (b : Backend) (db : Database) (n : Text) (d : TableDef)
    (namespaces : Result (List (Text × List Text))) (job : Job)
    → find_table n db.defs ≡ some d
    → job.db ≡ db
    → (find_table n (server_main s undoes b db).1.defs ≡ some d)
      × (find_table n (serve s undoes b db).1.defs ≡ some d)
      × (find_table n (reconcile_main s undoes b namespaces job).1.db.defs ≡ some d)
unfolding server_main serve reconcile_main best_effort
server_main-keeps s undoes b db n d namespaces job there same =
    let kept = init_db-keeps undoes b db n d there in (kept, kept, rw same kept)
