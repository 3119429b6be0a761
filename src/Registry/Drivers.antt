-- ===== src/Registry/Drivers.antt =====
-- What the backends of core/registry_backends.py translate for their drivers: placeholders, errors,
-- and timestamps.
use memcove.Common.{
  Bool, true, false, ◌||◌, List, [], ◌∷◌, ◌++◌, Text, codes, text_eq, starts_with, ◌==◌,
  if◌then◌else◌,
}
use memcove.Common.Result.{Result, ok, ◌>>=◌}
use memcove.Unicode.{Unicode}
use memcove.Registry.Backends.{Backend, postgres, sqlite, mysql}

unfoldable pub placeholder : Backend → Text
placeholder (postgres dsn) = codes "%s"
placeholder (sqlite path) = codes "?"
placeholder (mysql dsn) = codes "%s"

-- `sql.replace("?", by)`
unfoldable pub replace_mark : Text → Text → Text
replace_mark by [] = []
replace_mark by (c ∷ sql) =
    let rest = replace_mark by sql in if c == b'?' then by ++ rest else c ∷ rest

-- `_q`
unfoldable pub translate : Backend → Text → Text
translate b sql =
    if text_eq (placeholder b) (codes "?") then sql else replace_mark (placeholder b) sql

-- the exceptions of a driver, with their message
pub data DriverError : Type 0 where
  operational_error interface_error other_error : Text → DriverError

-- `part in text`
unfoldable pub has_part : Text → Text → Bool
has_part part [] = starts_with [] part
has_part part (c ∷ s) = starts_with (c ∷ s) part || has_part part s

-- an error of SQLite that means that the file or the disk is gone
disk_lost : Unicode → Text → Bool
disk_lost u message =
    has_part (codes "unable to open") (u.lower message)
    || has_part (codes "disk i/o") (u.lower message)

server_lost : DriverError → Bool
server_lost (operational_error message) = true
server_lost (interface_error message) = true
server_lost (other_error message) = false

file_lost : Unicode → DriverError → Bool
unfolding disk_lost
file_lost u (operational_error message) = disk_lost u message
file_lost u _ = false

-- `is_connection_down` of each backend
unfoldable pub is_down : Unicode → Backend → DriverError → Bool
unfolding server_lost file_lost
is_down u (postgres dsn) e = server_lost e
is_down u (sqlite path) e = file_lost u e
is_down u (mysql dsn) e = server_lost e

-- a cell of a row: a text, a datetime, or anything else
pub data RowCell (Datetime Other : Type 0) : Type 0 where
  text : Text → RowCell Datetime Other
  datetime : Datetime → RowCell Datetime Other
  other : Other → RowCell Datetime Other

-- the columns of _TS_COLUMNS
unfoldable pub is_timestamp : Text → Bool
is_timestamp column = text_eq column (codes "created_at") || text_eq column (codes "updated_at")

module _ {Datetime Other : Type 0} (fromisoformat : Text → Result Datetime) where
  unfoldable pub parsed : RowCell Datetime Other → Result (RowCell Datetime Other)
  parsed (text t) = fromisoformat t >>= λ d. ok (datetime d)
  parsed c = ok c

  -- `_normalize` of SQLiteBackend, over a row as its columns in order
  unfoldable pub normalize :
      List (Text × RowCell Datetime Other) → Result (List (Text × RowCell Datetime Other))
  unfolding parsed is_timestamp
  normalize [] = ok []
  normalize ((column, c) ∷ row) = do
    cell ← if is_timestamp column then parsed c else ok c
    rest ← normalize row
    ok ((column, cell) ∷ rest)
