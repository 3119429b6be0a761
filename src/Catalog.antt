-- ===== src/Catalog.antt =====
-- core/catalog.py: the write path to the Iceberg catalog.
mod Lakehouse
mod Types
pub mod Writes
pub mod Memory
pub mod Drops
mod Tests
pub use Lakehouse.{TableSchema, LakeTable, Iceberg, found_at}
unfoldable pub use Types.*
use memcove.Common.{
  ℕ, ◌≡◌, Bool, true, false, ◌&&◌, Option, none, some, List, [], ◌∷◌, Text, codes, text_eq, all,
  length, if◌then◌else◌,
}
use memcove.Common.Result.{
  Error, Result, ok, err, object_not_found, object_exists, schema_mismatch, value_error,
  index_error,
}
use memcove.Common.Exec.{Exec, pure, raise, lift, ◌>>=◌, ◌>>◌}

-- a column of `_norm_type`d types, as the dict that is built from the fields: a repeated name
-- keeps its last type
unfoldable pub column_type : Text → TableSchema → Option Text
column_type name [] = none
column_type name ((n, t) ∷ rest) =
    let later = column_type name rest in
    elim later [ some u ↦ some u | none ↦ if text_eq n name then some (norm_type t) else none ]

same_type : Option Text → Option Text → Bool
same_type none none = true
same_type (some a) (some b) = text_eq a b
same_type _ _ = false

-- every column of the first has the same type in the second
unfoldable pub covers : TableSchema → TableSchema → Bool
unfolding same_type
covers a b = all (λ f. same_type (column_type f.0 a) (column_type f.0 b)) a

-- `existing_map == incoming_map`
unfoldable pub schemas_match : TableSchema → TableSchema → Bool
schemas_match existing incoming = covers existing incoming && covers incoming existing

-- _assert_schema_compatible
unfoldable pub assert_schema_compatible : TableSchema → TableSchema → Result (Unit {0})
assert_schema_compatible existing incoming =
    if schemas_match existing incoming then ok tt else err schema_mismatch

-- the Arrow table of a write
pub record ArrowTable (Row : Type 0) : Type 0 where
  pub schema : TableSchema
  pub rows : List Row

module _ (Row : Type 0) (ice : Iceberg Row) where
  unfoldable pub table_exists : Text → Text → ice.Lake → Bool
  table_exists namespace label w = elim (ice.find w namespace label) [
    | some t ↦ true
    | none ↦ false
  ]

  -- create the table and put the rows in: two commits
  unfoldable pub create_and_append : Text → Text → ArrowTable Row → Exec ice.Lake (Unit {0})
  create_and_append namespace label t = do
    ice.create_table namespace label t.schema
    ice.append namespace label t.rows

  unfoldable pub create_mode :
      Text → Text → ArrowTable Row → Option (LakeTable Row) → Exec ice.Lake (Unit {0})
  create_mode namespace label t none = create_and_append namespace label t
  create_mode namespace label t (some old) = raise object_exists

  unfoldable pub replace_mode :
      Text → Text → ArrowTable Row → Option (LakeTable Row) → Exec ice.Lake (Unit {0})
  replace_mode namespace label t none = create_and_append namespace label t
  replace_mode namespace label t (some old) = do
    lift (assert_schema_compatible old.schema t.schema)
    ice.overwrite namespace label t.rows

  unfoldable pub append_mode :
      Text → Text → ArrowTable Row → Option (LakeTable Row) → Exec ice.Lake (Unit {0})
  append_mode namespace label t none = create_and_append namespace label t
  append_mode namespace label t (some old) = do
    lift (assert_schema_compatible old.schema t.schema)
    ice.append namespace label t.rows

  unfoldable pub in_mode :
      Text → Text → Text → ArrowTable Row → Option (LakeTable Row) → Exec ice.Lake (Unit {0})
  in_mode mode namespace label t found =
      if text_eq mode (codes "create")
      then create_mode namespace label t found
      else if text_eq mode (codes "replace")
      then replace_mode namespace label t found
      else if text_eq mode (codes "append")
      then append_mode namespace label t found
      else raise value_error

  unfoldable pub by_mode : Text → Text → Text → ArrowTable Row → Exec ice.Lake (Unit {0})
  by_mode mode namespace label t w = in_mode mode namespace label t (ice.find w namespace label) w

  -- `write_arrow`: the number of rows written
  unfoldable pub write_arrow : Text → Text → ArrowTable Row → Text → Exec ice.Lake ℕ
  unfolding create_and_append create_mode replace_mode append_mode in_mode by_mode
  write_arrow namespace label t mode = do
    ice.create_namespace namespace
    by_mode mode namespace label t
    pure (length t.rows)

  drop_found : Text → Text → Option (LakeTable Row) → Exec ice.Lake (Unit {0})
  drop_found namespace label none = raise object_not_found
  drop_found namespace label (some t) = ice.drop namespace label

  unfoldable pub drop_table : Text → Text → Exec ice.Lake (Unit {0})
  unfolding drop_found
  drop_table namespace label w = drop_found namespace label (ice.find w namespace label) w

  unfoldable pub load_schema : Text → Text → ice.Lake → Result TableSchema
  load_schema namespace label w = elim (ice.find w namespace label) [
    | some t ↦ ok t.schema
    | none ↦ err object_not_found
  ]

last_of : List Text → Result Text
last_of [] = err index_error
last_of (p ∷ []) = ok p
last_of (p ∷ q ∷ ps) = last_of (q ∷ ps)

lasts : List (List Text) → Result (List Text)
lasts [] = ok []
lasts (ident ∷ rest) = elim (last_of ident) [
  | err e ↦ err e
  | ok label ↦ elim (lasts rest) [ err e ↦ err e | ok labels ↦ ok (label ∷ labels) ]
]

-- `list_labels` of what `list_tables` answers: no labels where it raises
unfoldable pub list_labels : Result (List (List Text)) → Result (List Text)
unfolding last_of lasts
list_labels (err raised) = ok []
list_labels (ok idents) = lasts idents

-- `list_namespaces` of what the catalog lists
unfoldable pub list_namespaces : List (List Text) → List Text
list_namespaces [] = []
list_namespaces ([] ∷ rest) = list_namespaces rest
list_namespaces ((ns ∷ parts) ∷ rest) = ns ∷ list_namespaces rest
