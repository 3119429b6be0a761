-- ===== src/Derive/Shape.antt =====
-- What a derive refuses before it runs its CREATE TABLE.
use memcove.Common.{
  ◌≡◌, ◌≢◌, refl, true, false, some, List, [], ◌∷◌, map, all, contains, Text, codes, text_eq,
  text_eq_iff, arith, inl, inr, Bool-cases,
}
use memcove.Common.Result.{ok, err, object_exists, schema_mismatch}
use memcove.Unicode.{Unicode}
use memcove.Config.{Settings}
use memcove.Naming.{validate_label}
use memcove.SqlGuard.{Sqlglot, GuardedQuery, validate_select}
use memcove.Catalog
use memcove.Catalog.{LakeTable, Iceberg, load_schema}
use memcove.Query.{query_scope}
use memcove.Trino.{Engine, Cell, execute}
use memcove.World.{World, in_lake, look}
use memcove.Derive.{
  same_names, probe, known_mode, known_target, assert_replace_keeps_shape, keep_shape, materialize,
  derive_to_lakehouse, derive_object,
}

all-contains :
    (a b : List Text) (x : Text)
    → all (contains b) a ≡ true
    → contains a x ≡ true
    → contains b x ≡ true
unfolding all contains
all-contains [] b x h k = absurd (cc)
all-contains (y ∷ a) b x h k = ground (arith, all-contains a b x, text_eq_iff y x)

-- lists that pass the test have the same members
same_names-members :
    (a b : List Text) (x : Text) → same_names a b ≡ true → contains a x ≡ contains b x
unfolding same_names
same_names-members a b x h = ground (arith, all-contains a b x, all-contains b a x)

differ : (a b : List Text) (x : Text) → contains a x ≢ contains b x → same_names a b ≡ false
differ a b x h = elim (Bool-cases (same_names a b)) [
  | inl same ↦ absurd (h (same_names-members a b x same))
  | inr not_same ↦ not_same
]

module _ (Row : Type 0) (ice : Iceberg Row) (e : Engine ice.Lake) (u : Unicode) (s : Settings) where
  table_exists-found :
      (tenant label : Text) (t : LakeTable Row) (w : ice.Lake)
      → ice.find w tenant label ≡ some t
      → Catalog.table_exists Row ice tenant label w ≡ true
  unfolding Catalog.table_exists
  table_exists-found tenant label t w found = rw (found, Catalog.table_exists) refl

  load_schema-found :
      (tenant label : Text) (t : LakeTable Row) (w : ice.Lake)
      → ice.find w tenant label ≡ some t
      → load_schema Row ice tenant label w ≡ ok t.schema
  unfolding load_schema
  load_schema-found tenant label t w found = rw (found, load_schema) refl

  -- A replace that would add or remove a column is refused before the statement that replaces: if
  -- the table is there and the probe of the query returns columns among which a name is missing or
  -- new, the derive raises a schema mismatch, and nothing but the probe was run.
  pub materialize-keeps_shape :
      (tenant label sql name : Text) (t : LakeTable Row) (w : World ice.Lake) (columns : List Text)
      (rows : List (List (Cell e.Other))) (probed : ice.Lake)
      → ice.find w.lake tenant label ≡ some t
      → execute e s (probe sql) (some tenant) w.lake ≡ (ok (columns, rows), probed)
      → contains (map (λ f. f.0) t.schema) name ≢ contains columns name
      → materialize Row ice e u s tenant label sql (codes "replace") w
        ≡ (err schema_mismatch, record w { lake = probed })
  unfolding materialize keep_shape assert_replace_keeps_shape in_lake look text_eq
  materialize-keeps_shape tenant label sql name t w columns rows probed found ran other =
      rw
        (
          table_exists-found tenant label t w.lake found,
          load_schema-found tenant label t w.lake found,
          ran,
          differ (map (λ f. f.0) t.schema) columns name other,
          materialize,
          look,
          in_lake,
          assert_replace_keeps_shape,
        )
        refl

  module _ (g : Sqlglot) where
    -- A create never clobbers: for a valid label whose table is there, and a statement that the
    -- guard accepts, it raises object_exists, runs nothing and changes nothing.
    pub derive_object-exclusive :
        (tenant raw label sql : Text) (tags : List Text) (t : LakeTable Row) (q : GuardedQuery)
        (w : World ice.Lake)
        → validate_label u raw ≡ ok label
        → validate_select g u (query_scope s tenant) sql ≡ ok q
        → ice.find w.lake tenant label ≡ some t
        → derive_object Row ice e u s g tenant raw sql (codes "create") tags (codes "lakehouse") w
          ≡ (err object_exists, w)
    unfolding derive_object derive_to_lakehouse materialize look text_eq known_mode known_target
    derive_object-exclusive tenant raw label sql tags t q w valid guarded found =
        rw
          (
            valid,
            guarded,
            table_exists-found tenant label t w.lake found,
            derive_object,
            derive_to_lakehouse,
            materialize,
            look,
          )
          refl
