-- ===== src/Registry/Init.antt =====
-- init_db of core/registry.py: the statements of `ddl` in one connection.
use memcove.Common.{Bool, Option, none, some, List, [], ◌∷◌, Text, text_eq, if◌then◌else◌}
use memcove.Common.Result.{Error, Result, ok, err}
use memcove.Common.Exec.{Exec, ◌>>=◌, for_each}
use memcove.Registry.Backends.{Backend}
use memcove.Registry.Ddl.{TableDef, ddl}

-- The tables that the database has, and what the next uses of the connection raise, as in `Store`.
pub record Database : Type 0 where
  pub defs : List TableDef
  pub faults : List (Option Error)

unfoldable pub find_table : Text → List TableDef → Option TableDef
find_table name [] = none
find_table name (d ∷ ds) = if text_eq d.name name then some d else find_table name ds

-- CREATE TABLE IF NOT EXISTS
unfoldable pub create_table : TableDef → List TableDef → List TableDef
create_table d [] = d ∷ []
create_table d (e ∷ es) = if text_eq e.name d.name then e ∷ es else e ∷ create_table d es

unfoldable pub use_connection : Exec Database (Unit {0})
use_connection s = elim s.faults [
  | [] ↦ (ok tt, s)
  | none ∷ rest ↦ (ok tt, record s { faults = rest })
  | some e ∷ rest ↦ (err e, record s { faults = rest })
]

unfoldable pub create : TableDef → Exec Database (Unit {0})
create d = use_connection >>= λ _ s. (ok tt, record s { defs = create_table d s.defs })

-- The rollback of a connection that raised. Whether it takes the created tables back is up to the
-- database: some commit each CREATE TABLE at once.
abbrev pub rolled_back :
    Bool → List TableDef → Result (Unit {0}) × Database → Result (Unit {0}) × Database
rolled_back undoes before (ok x, s) = (ok x, s)
rolled_back undoes before (err e, s) = (err e, if undoes then record s { defs = before } else s)

unfoldable pub init_db : Bool → Backend → Exec Database (Unit {0})
init_db undoes b s =
    rolled_back undoes s.defs
      ((use_connection >>= λ _. for_each create (ddl b) >>= λ _. use_connection) s)
