-- ===== src/Catalog/Tests.antt =====
-- Writes to a catalog in memory.
use memcove.Common.{
  ℕ, ◌≡◌, refl, sym, ap, false, Option, none, some, List, [], ◌∷◌, ◌++◌, ◌∙◌, Text, codes, arith,
  length,
}
use memcove.Common.Result.{ok, err, schema_mismatch}
use memcove.Catalog.{
  TableSchema, LakeTable, Iceberg, ArrowTable, write_arrow, rewrite_text, drop_large, to_micros,
  widen_int, norm_type,
}
use memcove.Catalog.Memory.{Memory, put, memory}
use memcove.Catalog.Writes.{Written, IsWrite, write_arrow-Written}

large_dropped : rewrite_text drop_large 0 false (codes "large_list") ≡ codes "list"
unfolding rewrite_text drop_large memcove.Common.starts_with
large_dropped = refl

seconds_become_micros :
    rewrite_text to_micros 0 false (codes "timestamp[s]") ≡ codes "timestamp[us]"
unfolding rewrite_text to_micros memcove.Common.starts_with
seconds_become_micros = refl

short_widened : rewrite_text widen_int 0 false (codes "int16") ≡ codes "int32"
unfolding rewrite_text widen_int memcove.Common.starts_with memcove.Catalog.at_boundary
    memcove.Catalog.drop_text
short_widened = refl

unsigned_kept : rewrite_text widen_int 0 false (codes "uint8") ≡ codes "uint8"
unfolding rewrite_text widen_int memcove.Common.starts_with memcove.Catalog.is_word_char
unsigned_kept = refl

abbrev two_rows : ArrowTable ℕ
two_rows = record { schema = (codes "n", codes "int8") ∷ []; rows = 1 ∷ 2 ∷ [] }

abbrev one_row : LakeTable ℕ
one_row = record { schema = (codes "n", codes "int32") ∷ []; rows = 5 ∷ [] }

abbrev acme : Text
acme = codes "t_acme"

abbrev lake : Memory
lake = put acme (codes "a") one_row (λ n m. none)

appended_lake :
    write_arrow ℕ memory acme (codes "a") two_rows (codes "append") lake
    ≡ (ok 2, put acme (codes "a") (record one_row { rows = 5 ∷ 1 ∷ 2 ∷ [] }) lake)
unfolding write_arrow memcove.Common.text_eq memcove.Catalog.assert_schema_compatible
    memcove.Catalog.schemas_match memcove.Catalog.covers memcove.Common.all
    memcove.Catalog.column_type norm_type memcove.Catalog.rewrite_text memcove.Catalog.drop_large
    memcove.Common.starts_with memcove.Catalog.to_micros memcove.Catalog.widen_int
    memcove.Catalog.at_boundary memcove.Catalog.drop_text memcove.Catalog.is_word_char
appended_lake = refl

write_arrow-Written_example :
    (2 ≡ length two_rows.rows)
    × (new : LakeTable ℕ) × Written memory.stored two_rows
        (codes "append")
        (memory.find lake acme (codes "a"))
        new
    × IsWrite ℕ memory acme
        (codes "a")
        new
        lake
        (put acme (codes "a") (record one_row { rows = 5 ∷ 1 ∷ 2 ∷ [] }) lake)
write_arrow-Written_example =
    write_arrow-Written ℕ memory acme (codes "a") (codes "append") two_rows lake
      (put acme (codes "a") (record one_row { rows = 5 ∷ 1 ∷ 2 ∷ [] }) lake) 2 appended_lake

abbrev other_shape : ArrowTable ℕ
other_shape = record { schema = (codes "m", codes "int8") ∷ []; rows = 1 ∷ [] }

shape_refused :
    write_arrow ℕ memory acme (codes "a") other_shape (codes "replace") lake
    ≡ (err schema_mismatch, lake)
unfolding write_arrow memcove.Common.text_eq memcove.Catalog.assert_schema_compatible
    memcove.Catalog.schemas_match memcove.Catalog.covers memcove.Common.all
    memcove.Catalog.column_type
shape_refused = refl
