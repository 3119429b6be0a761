-- ===== src/Registry/BackendTests.antt =====
-- The backends: a change of the DSN, the tables, and what the drivers get.
use memcove.Common.{
  ◌≡◌, refl, Bool, true, false, none, some, [], ◌∷◌, map, List, ℕ, length, Text, text_eq, codes,
}
use memcove.Common.Result.{ok, err, value_error}
use memcove.Unicode.Ascii.{ascii}
use memcove.Config.{Settings, registry_url}
use memcove.Config.Defaults.{defaults}
use memcove.Registry.Backends.{Backend, Current, sqlite, mysql, make_backend, get_backend}
use memcove.Registry.Ddl.{TableDef, ddl}
use memcove.Registry.Init.{Database, find_table, init_db}
use memcove.Registry.Dialects.{shape, ddl-same_shapes}
use memcove.Registry.Creation.{or_else_table}
use memcove.Registry.Ready.{init_db-keeps, init_db-settles}
use memcove.Registry.Drivers.{
  RowCell, text, datetime, operational_error, normalize, translate, is_down,
}
use memcove.Registry.Switch.{get_backend-closed}
use memcove.Registry.{
  upsert_object_sql, insert_lineage, upsert_tombstone, Tables, Store, ObjectValues, find_object,
  tags_of, parents_of, at_key, record_object_guarded, delete_object, connection, upsert_object,
}

abbrev by_sqlite : Settings
by_sqlite = record defaults { registry_dsn = some (codes "sqlite://") }

abbrev by_oracle : Settings
by_oracle = record defaults { registry_dsn = some (codes "oracle://db") }

abbrev in_memory : Current
in_memory = record { backend = sqlite (codes ":memory:"); dsn = codes "sqlite://"; closed = false }

unsupported : make_backend ascii (registry_url by_oracle) ≡ err value_error
unfolding make_backend text_eq memcove.Registry.Backends.scheme_part registry_url
    memcove.Common.starts_with memcove.Unicode.ascii_lower
unsupported = refl

same_dsn : in_memory.dsn ≡ registry_url by_sqlite
unfolding registry_url
same_dsn = refl

other_dsn : text_eq in_memory.dsn (registry_url by_oracle) ≡ false
unfolding text_eq registry_url
other_dsn = refl

get_backend-closed_example :
    (get_backend ascii by_oracle (some in_memory)
      ≡ (err value_error, some (record in_memory { closed = true })))
    × (get_backend ascii by_sqlite (get_backend ascii by_oracle (some in_memory)).1
        ≡ (ok (sqlite (codes ":memory:")), some (record in_memory { closed = true })))
get_backend-closed_example =
    get_backend-closed ascii by_sqlite by_oracle in_memory value_error same_dsn other_dsn
      unsupported

-- a database that has the tags table already, in another shape
abbrev old_tags : TableDef
old_tags = record { name = codes "memcove_object_tags"; columns = []; primary_key = [] }

abbrev partly_there : Database
partly_there = record { defs = old_tags ∷ []; faults = none ∷ [] }

abbrev my_sql : Backend
my_sql = mysql (codes "mysql://db/memcove")

initialized : (init_db false my_sql partly_there).0 ≡ ok tt
unfolding init_db memcove.Registry.Init.use_connection memcove.Common.Exec.for_each ddl
    memcove.Registry.Ddl.mysql_ddl memcove.Registry.Init.create
initialized = refl

no_more_faults : (init_db false my_sql partly_there).1.faults ≡ []
unfolding init_db memcove.Registry.Init.use_connection memcove.Common.Exec.for_each ddl
    memcove.Registry.Ddl.mysql_ddl memcove.Registry.Init.create
no_more_faults = refl

tags_there : find_table (codes "memcove_object_tags") partly_there.defs ≡ some old_tags
unfolding find_table text_eq
tags_there = refl

tags_kept :
    find_table (codes "memcove_object_tags") (init_db false my_sql partly_there).1.defs
    ≡ some old_tags
tags_kept =
    init_db-keeps false my_sql partly_there (codes "memcove_object_tags") old_tags tags_there

init_db-settles_example :
    (find_table (codes "memcove_lineage") (init_db false my_sql partly_there).1.defs
      ≡ or_else_table
          (find_table (codes "memcove_lineage") partly_there.defs)
          (find_table (codes "memcove_lineage") (ddl my_sql)))
    × (init_db false my_sql (init_db false my_sql partly_there).1
        ≡ (ok tt, (init_db false my_sql partly_there).1))
init_db-settles_example =
    init_db-settles false my_sql partly_there tt (codes "memcove_lineage") initialized
      no_more_faults

same_shapes : map shape (ddl my_sql) ≡ map shape (ddl (sqlite (codes ":memory:")))
same_shapes = ddl-same_shapes my_sql (sqlite (codes ":memory:"))

abbrev sqlite_row : List (Text × RowCell ℕ ℕ)
sqlite_row =
    (codes "label", text (codes "rollup"))
    ∷ (codes "created_at", text (codes "2026-01-02 03:04:05"))
    ∷ []

-- a datetime is the length of its text
normalized :
    normalize (λ t. ok (length t)) sqlite_row
    ≡ ok ((codes "label", text (codes "rollup")) ∷ (codes "created_at", datetime 19) ∷ [])
unfolding normalize text_eq
normalized = refl

translated :
    translate my_sql (codes "SELECT 1 WHERE a = ? AND b = ?")
    ≡ codes "SELECT 1 WHERE a = %s AND b = %s"
unfolding translate text_eq memcove.Registry.Drivers.placeholder
    memcove.Registry.Drivers.replace_mark
translated = refl

locked_is_no_outage :
    is_down ascii (sqlite (codes ":memory:")) (operational_error (codes "database is locked"))
    ≡ false
unfolding is_down memcove.Registry.Drivers.has_part memcove.Common.starts_with
    memcove.Unicode.ascii_lower
locked_is_no_outage = refl
