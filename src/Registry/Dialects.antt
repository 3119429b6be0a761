-- ===== src/Registry/Dialects.antt =====
-- The dialects of core/registry_backends.py agree on the tables.
use memcove.Common.{◌≡◌, refl, ◌∙◌, sym, Bool, Option, List, map, Text}
use memcove.Registry.Backends.{Backend, postgres, sqlite, mysql}
use memcove.Registry.Ddl.{Default, TableDef, ddl, postgres_ddl, sqlite_ddl, mysql_ddl}

-- a table without the types of its columns
abbrev pub shape : TableDef → Text × List (Text × Bool × Option Default) × List Text
shape d = (d.name, map (λ c. (c.name, c.not_null, c.default)) d.columns, d.primary_key)

shapes : List (Text × List (Text × Bool × Option Default) × List Text)
unfolding sqlite_ddl
shapes = map shape sqlite_ddl

ddl-shapes : (b : Backend) → map shape (ddl b) ≡ shapes
unfolding ddl postgres_ddl sqlite_ddl mysql_ddl shapes
ddl-shapes (postgres dsn) = refl
ddl-shapes (sqlite path) = refl
ddl-shapes (mysql dsn) = refl

-- All backends create the same tables: the same names, the same columns in the same order, each
-- with the same nullability and default, and the same primary keys. Only types differ.
pub ddl-same_shapes : (a b : Backend) → map shape (ddl a) ≡ map shape (ddl b)
ddl-same_shapes a b = ddl-shapes a ∙ sym (ddl-shapes b)
