-- ===== src/Registry/Ddl.antt =====
-- The tables that each backend of core/registry_backends.py creates, and init_db of
-- core/registry.py.
use memcove.Common.{ℕ, Bool, true, false, Option, none, some, List, [], ◌∷◌, Text, codes}
use memcove.Registry.Backends.{Backend, postgres, sqlite, mysql}

pub data ColumnType : Type 0 where
  text timestamp timestamptz int integer : ColumnType
  varchar : ℕ → ColumnType

pub data Default : Type 0 where
  current_timestamp : Default
  number : ℕ → Default

pub record Column : Type 0 where
  pub name : Text
  pub sql_type : ColumnType
  pub not_null : Bool
  pub default : Option Default

pub record TableDef : Type 0 where
  pub name : Text
  pub columns : List Column
  pub primary_key : List Text

-- `name type NOT NULL`, `name type`, `name type NOT NULL DEFAULT …`
required : Text → ColumnType → Column
required name t = record { name = name; sql_type = t; not_null = true; default = none }

optional : Text → ColumnType → Column
optional name t = record { name = name; sql_type = t; not_null = false; default = none }

defaulted : Text → ColumnType → Default → Column
defaulted name t d = record { name = name; sql_type = t; not_null = true; default = some d }

unfoldable pub postgres_ddl : List TableDef
unfolding required optional defaulted
postgres_ddl =
    record {
      name = codes "memcove_objects";
      columns =
          required (codes "tenant") text
          ∷ required (codes "label") text
          ∷ required (codes "table_ident") text
          ∷ required (codes "source") text
          ∷ optional (codes "source_ref") text
          ∷ optional (codes "producing_sql") text
          ∷ defaulted (codes "created_at") timestamptz current_timestamp
          ∷ defaulted (codes "updated_at") timestamptz current_timestamp
          ∷ [];
      primary_key = codes "tenant" ∷ codes "label" ∷ [];
    }
    ∷ record {
      name = codes "memcove_object_tags";
      columns =
          required (codes "tenant") text
          ∷ required (codes "label") text
          ∷ required (codes "tag") text
          ∷ [];
      primary_key = codes "tenant" ∷ codes "label" ∷ codes "tag" ∷ [];
    }
    ∷ record {
      name = codes "memcove_lineage";
      columns =
          required (codes "child_tenant") text
          ∷ required (codes "child_label") text
          ∷ required (codes "parent_label") text
          ∷ [];
      primary_key = codes "child_tenant" ∷ codes "child_label" ∷ codes "parent_label" ∷ [];
    }
    ∷ record {
      name = codes "memcove_reconcile_tombstone";
      columns =
          required (codes "tenant") text
          ∷ required (codes "label") text
          ∷ defaulted (codes "absent_sweeps") int (number 1)
          ∷ [];
      primary_key = codes "tenant" ∷ codes "label" ∷ [];
    }
    ∷ []

unfoldable pub sqlite_ddl : List TableDef
unfolding required optional defaulted
sqlite_ddl =
    record {
      name = codes "memcove_objects";
      columns =
          required (codes "tenant") text
          ∷ required (codes "label") text
          ∷ required (codes "table_ident") text
          ∷ required (codes "source") text
          ∷ optional (codes "source_ref") text
          ∷ optional (codes "producing_sql") text
          ∷ defaulted (codes "created_at") timestamp current_timestamp
          ∷ defaulted (codes "updated_at") timestamp current_timestamp
          ∷ [];
      primary_key = codes "tenant" ∷ codes "label" ∷ [];
    }
    ∷ record {
      name = codes "memcove_object_tags";
      columns =
          required (codes "tenant") text
          ∷ required (codes "label") text
          ∷ required (codes "tag") text
          ∷ [];
      primary_key = codes "tenant" ∷ codes "label" ∷ codes "tag" ∷ [];
    }
    ∷ record {
      name = codes "memcove_lineage";
      columns =
          required (codes "child_tenant") text
          ∷ required (codes "child_label") text
          ∷ required (codes "parent_label") text
          ∷ [];
      primary_key = codes "child_tenant" ∷ codes "child_label" ∷ codes "parent_label" ∷ [];
    }
    ∷ record {
      name = codes "memcove_reconcile_tombstone";
      columns =
          required (codes "tenant") text
          ∷ required (codes "label") text
          ∷ defaulted (codes "absent_sweeps") integer (number 1)
          ∷ [];
      primary_key = codes "tenant" ∷ codes "label" ∷ [];
    }
    ∷ []

unfoldable pub mysql_ddl : List TableDef
unfolding required optional defaulted
mysql_ddl =
    record {
      name = codes "memcove_objects";
      columns =
          required (codes "tenant") (varchar 191)
          ∷ required (codes "label") (varchar 191)
          ∷ required (codes "table_ident") text
          ∷ required (codes "source") (varchar 64)
          ∷ optional (codes "source_ref") text
          ∷ optional (codes "producing_sql") text
          ∷ defaulted (codes "created_at") timestamp current_timestamp
          ∷ defaulted (codes "updated_at") timestamp current_timestamp
          ∷ [];
      primary_key = codes "tenant" ∷ codes "label" ∷ [];
    }
    ∷ record {
      name = codes "memcove_object_tags";
      columns =
          required (codes "tenant") (varchar 191)
          ∷ required (codes "label") (varchar 191)
          ∷ required (codes "tag") (varchar 191)
          ∷ [];
      primary_key = codes "tenant" ∷ codes "label" ∷ codes "tag" ∷ [];
    }
    ∷ record {
      name = codes "memcove_lineage";
      columns =
          required (codes "child_tenant") (varchar 191)
          ∷ required (codes "child_label") (varchar 191)
          ∷ required (codes "parent_label") (varchar 191)
          ∷ [];
      primary_key = codes "child_tenant" ∷ codes "child_label" ∷ codes "parent_label" ∷ [];
    }
    ∷ record {
      name = codes "memcove_reconcile_tombstone";
      columns =
          required (codes "tenant") (varchar 191)
          ∷ required (codes "label") (varchar 191)
          ∷ defaulted (codes "absent_sweeps") int (number 1)
          ∷ [];
      primary_key = codes "tenant" ∷ codes "label" ∷ [];
    }
    ∷ []

-- `b.ddl()`
unfoldable pub ddl : Backend → List TableDef
ddl (postgres dsn) = postgres_ddl
ddl (sqlite path) = sqlite_ddl
ddl (mysql dsn) = mysql_ddl
