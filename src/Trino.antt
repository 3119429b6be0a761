-- ===== src/Trino.antt =====
-- core/trino_client.py: the query engine. The driver is an interface; what a cell holds is seen
-- as far as the code looks into it.
pub mod Types
pub mod Stream
pub mod Conforms
pub mod Whole
pub mod Toy
mod Tests
use memcove.Common.{
  ℕ, Bool, true, false, Option, none, some, List, [], ◌∷◌, ◌++◌, Text, codes, is_nonempty,
  if◌then◌else◌,
}
use memcove.Common.Result.{Result, ok, err, type_error, value_error}
use memcove.Common.Exec.{Exec, pure, lift, ◌>>=◌, continue}
use memcove.Config.{Settings}

-- a cell of a result: None, a string, or another value
pub data Cell (Other : Type 0) : Type 0 where
  null : Cell Other
  str : Text → Cell Other
  other : Other → Cell Other

abbrev pub Rows : Type 0 → Type 0
Rows Other = List Text × List (List (Cell Other))

-- The driver, over the state that it shares with the catalog. Every call opens a connection as a
-- user and runs one statement.
pub record Engine (L : Type 0) : Type 1 where
  pub Other : Type 0
  -- the columns of the description, and `fetchall`
  pub run : Text → Text → Exec L (Rows Other)
  -- `int(cell)` of a string and of another value, none where it raises
  pub int_of_text : Text → Option ℕ
  pub int_of : Other → Option ℕ

-- _principal; none and the empty text are both falsy
unfoldable pub principal : Settings → Option Text → Text
principal s none = s.trino_user
principal s (some run_as) =
    if s.trino_impersonation
    then (if is_nonempty run_as then run_as else s.trino_user)
    else s.trino_user

-- the first cell of the first row
abbrev pub first_cell : {O : Type 0} → List (List (Cell O)) → Option (Cell O)
first_cell ((c ∷ cs) ∷ rows) = some c
first_cell _ = none

module _ {L : Type 0} (e : Engine L) (s : Settings) where
  unfoldable pub execute : Text → Option Text → Exec L (Rows e.Other)
  execute sql run_as = e.run (principal s run_as) sql

  unfoldable pub execute_update : Text → Option Text → Exec L (Unit {0})
  execute_update sql run_as = do drained ← e.run (principal s run_as) sql; pure tt

  -- ensure_schema, as the service principal
  unfoldable pub ensure_schema : Text → Exec L (Unit {0})
  ensure_schema namespace =
      execute_update
        (codes "CREATE SCHEMA IF NOT EXISTS \""
          ++ s.trino_catalog
          ++ codes "\".\""
          ++ namespace
          ++ codes "\"")
        none

  -- `scalar`; None where there is no row or an empty one
  unfoldable pub scalar : Text → Option Text → Exec L (Option (Cell e.Other))
  scalar sql run_as = do rows ← execute sql run_as; pure (first_cell rows.1)

  -- `int(value)`
  unfoldable pub int_cell : Option (Cell e.Other) → Option ℕ
  int_cell none = none
  int_cell (some null) = none
  int_cell (some (str t)) = e.int_of_text t
  int_cell (some (other o)) = e.int_of o

  -- `SELECT * FROM (…) AS _s LIMIT 0`, of which result_schema reads the description
  unfoldable pub probe_sql : Text → Text
  probe_sql sql = codes "SELECT * FROM (\n" ++ sql ++ codes "\n) AS _s LIMIT 0"
