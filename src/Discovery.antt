-- ===== src/Discovery.antt =====
-- tools/discovery.py: the tables and columns of the shared reference schemas.
use memcove.Common.{
  ◌≡◌, refl, List, [], ◌∷◌, ◌++◌, filter, Text, codes, text_eq, text_eq_iff, is_nonempty, arith,
  append_assoc, append_nil, Bool-cases, inl, inr, ◌∙◌, if◌then◌else◌, none,
}
use memcove.Common.Result.{Result, ok, err, value_error, Result-cases}
use memcove.Common.Exec.{Exec, pure, ◌>>=◌}
use memcove.Config.{Settings}
use memcove.Trino.{Engine, Cell, execute, Rows}

-- name and type of a column
abbrev pub Column : Type 0
Column = Text × Text

abbrev pub ReferenceTable : Type 0
ReferenceTable = Text × List Column

unfoldable pub columns_sql : Settings → Text → Text
columns_sql s sch =
    codes "SELECT table_name, column_name, data_type FROM \""
    ++ s.trino_catalog
    ++ codes "\".information_schema.columns WHERE table_schema = '"
    ++ sch
    ++ codes "' ORDER BY table_name, ordinal_position"

-- `tables.setdefault(table_name, []).append(…)`
unfoldable pub add_column : Text → Column → List ReferenceTable → List ReferenceTable
add_column table column [] = (table, column ∷ []) ∷ []
add_column table column ((name, columns) ∷ rest) =
    let later = add_column table column rest in
    if text_eq name table then (name, columns ++ (column ∷ [])) ∷ rest else (name, columns) ∷ later

-- the three values of a row; they are strings, or the model refuses them
unfoldable pub unpacked : {O : Type 0} → List (Cell O) → Result (Text × Column)
unpacked (Cell.str table ∷ Cell.str column ∷ Cell.str type ∷ []) = ok (table, (column, type))
unpacked _ = err value_error

-- the loop over the rows
unfoldable pub collected :
    {O : Type 0} → List (List (Cell O)) → List ReferenceTable → Result (List ReferenceTable)
collected [] tables = ok tables
collected (row ∷ rows) tables = elim (unpacked row) [
  | err e ↦ err e
  | ok (table, column) ↦ collected rows (add_column table column tables)
]

-- `except Exception: rows = []`
rows_or_none : {O : Type 0} → Result (Rows O) → List (List (Cell O))
rows_or_none (ok (columns, rows)) = rows
rows_or_none (err e) = []

module _ {L : Type 0} (e : Engine L) (s : Settings) where
  -- one schema, as the service principal
  unfoldable pub reference_tables : Text → Exec L (List ReferenceTable)
  unfolding rows_or_none
  reference_tables sch w =
      let (r, after) = execute e s (columns_sql s sch) none w in
      (collected (rows_or_none r) [], after)

  each_schema : List Text → Exec L (List (Text × List ReferenceTable))
  each_schema [] = pure []
  each_schema (sch ∷ rest) = do
    tables ← reference_tables sch
    others ← each_schema rest
    pure ((sch, tables) ∷ others)

  unfoldable pub discover_reference_data : Exec L (List (Text × List ReferenceTable))
  unfolding each_schema
  discover_reference_data = each_schema (filter is_nonempty s.shared_schemas)

-- the columns that are listed for a table
unfoldable pub columns_in : Text → List ReferenceTable → List Column
columns_in table [] = []
columns_in table ((name, columns) ∷ rest) =
    if text_eq name table then columns else columns_in table rest

-- the columns that the rows give a table, in their order
unfoldable pub columns_for : Text → List (Text × Column) → List Column
columns_for table [] = []
columns_for table ((name, column) ∷ rows) =
    let later = columns_for table rows in if text_eq name table then column ∷ later else later

columns-add_column :
    (t table : Text) (column : Column) (tables : List ReferenceTable)
    → columns_in t (add_column table column tables)
      ≡ (if text_eq table t then columns_in t tables ++ (column ∷ []) else columns_in t tables)
unfolding columns_in add_column
columns-add_column t table column [] = ground arith
columns-add_column t table column ((name, columns) ∷ rest) = ground (
  arith,
  columns-add_column t table column rest,
  text_eq_iff name table,
  text_eq_iff name t,
  text_eq_iff table t,
)

unpack_all : {O : Type 0} → List (List (Cell O)) → Result (List (Text × Column))
unpack_all [] = ok []
unpack_all (row ∷ rows) = elim (unpacked row) [
  | err e ↦ err e
  | ok p ↦ elim (unpack_all rows) [ err e ↦ err e | ok ps ↦ ok (p ∷ ps) ]
]

unpack_all-cons :
    {O : Type 0} (row : List (Cell O)) (rows : List (List (Cell O))) (p : Text × Column)
    (ps : List (Text × Column))
    → unpacked row ≡ ok p
    → unpack_all rows ≡ ok ps
    → unpack_all (row ∷ rows) ≡ ok (p ∷ ps)
unfolding unpack_all
unpack_all-cons row rows p ps a b = ground arith

-- what one more row does to the columns of a table
one_more :
    (t table : Text) (column : Column) (tables : List ReferenceTable) (rows : List (Text × Column))
    → columns_in t (add_column table column tables) ++ columns_for t rows
      ≡ columns_in t tables ++ columns_for t ((table, column) ∷ rows)
unfolding columns_for
one_more t table column tables rows =
    rw (columns-add_column t table column tables) (elim (Bool-cases (text_eq table t)) [
      | inl same ↦ rw same (append_assoc (columns_in t tables) (column ∷ []) (columns_for t rows))
      | inr other ↦ rw other refl
    ])

-- Where the rows of the catalog query are read at all, a table is listed with exactly the columns
-- that the rows name for it, in the order of the rows, behind those it was listed with before.
collected-columns :
    {O : Type 0} (rows : List (List (Cell O))) (tables out : List ReferenceTable) (t : Text)
    → collected rows tables ≡ ok out
    → (pairs : List (Text × Column)) × (unpack_all rows ≡ ok pairs)
      × (columns_in t out ≡ columns_in t tables ++ columns_for t pairs)
unfolding collected unpack_all columns_for
collected-columns [] tables out t h = ([], refl, cc (append_nil (columns_in t tables)))
collected-columns (row ∷ rows) tables out t h = elim (Result-cases (unpacked row)) [
  | inr (e, bad) ↦ absurd (ground arith)
  | inl ((table, column), good) ↦
      let (pairs, read, same) =
        collected-columns rows (add_column table column tables) out t (ground arith) in
      (
        (table, column) ∷ pairs,
        unpack_all-cons row rows (table, column) pairs good read,
        same ∙ one_more t table column tables pairs,
      )
]
