-- ===== src/Trino/Tests.antt =====
-- A stream of two batches.
use memcove.Common.{
  ℕ, ◌≡◌, refl, none, some, List, [], ◌∷◌, Option, Text, codes, is_nonempty, if◌then◌else◌,
}
use memcove.Common.{str as digits_of}
use memcove.Common.Result.{Result, ok}
use memcove.Unicode.Ascii.{ascii}
use memcove.Trino.{Cell, null, str, other}
use memcove.Trino.Types.{ArrowType, int64, string}
use memcove.Trino.Stream.{Arrays, fields_of, chunks, batch_size, stream_arrow_batches}
use memcove.Trino.Conforms.{Stream, stream_arrow_batches-Stream}

-- a column is its cells with its type
abbrev cells_only : Arrays ℕ
cells_only = record {
  Column = List (Cell ℕ) × ArrowType;
  json = digits_of;
  array = λ cells t. ok (cells, t);
}

abbrev description : List (Text × Text)
description = (codes "id", codes "bigint") ∷ (codes "tags", codes "array(varchar)") ∷ []

abbrev three_rows : List (List (Cell ℕ))
three_rows =
    (other 1 ∷ str (codes "a") ∷ []) ∷ (other 2 ∷ null ∷ []) ∷ (other 3 ∷ other 7 ∷ []) ∷ []

abbrev typed : List (Text × ArrowType)
typed = (codes "id", int64) ∷ (codes "tags", string) ∷ []

abbrev two_batches : List (Result (List (List (Cell ℕ) × ArrowType)))
two_batches =
    ok ((other 1 ∷ other 2 ∷ [], int64) ∷ (str (codes "a") ∷ null ∷ [], string) ∷ [])
    ∷ ok ((other 3 ∷ [], int64) ∷ (str (codes "7") ∷ [], string) ∷ [])
    ∷ []

streamed :
    stream_arrow_batches cells_only ascii 50000 (some 2) description three_rows
    ≡ ok (typed, two_batches)
unfolding stream_arrow_batches fields_of memcove.Trino.Types.arrow_type_from_trino
    memcove.Trino.Types.simple memcove.Common.text_eq memcove.Trino.Types.base_of
    memcove.Trino.Types.span memcove.Unicode.strip_by memcove.Unicode.rstrip_by
    memcove.Unicode.lstrip_by memcove.Unicode.ascii_space memcove.Unicode.ascii_lower
    memcove.Common.starts_with memcove.Trino.Stream.batches chunks batch_size
    memcove.Trino.Stream.batch_columns memcove.Trino.Stream.column_cells
    memcove.Trino.Stream.cell_at memcove.Trino.Stream.build_array memcove.Trino.Stream.coerced
    digits_of
streamed = refl

stream_arrow_batches-Stream_example :
    (fields_of ascii description ≡ ok typed)
    × Stream cells_only typed
        (if is_nonempty typed then chunks (batch_size 50000 (some 2)) three_rows else [])
        two_batches
stream_arrow_batches-Stream_example =
    stream_arrow_batches-Stream cells_only ascii 50000 (some 2) description three_rows typed
      two_batches streamed
