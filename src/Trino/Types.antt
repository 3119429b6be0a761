-- ===== src/Trino/Types.antt =====
-- Type names of the engine and types of Arrow: `_arrow_type_from_trino`, and `_trino_type` of
-- tools/ingest.py. Digits are those of ASCII.
use memcove.Common.{
  ℕ, ◌+◌, ◌-◌, ◌*◌, Bool, true, false, not, ◌&&◌, ◌||◌, Option, none, some, [], ◌∷◌, Text, codes,
  text_eq, starts_with, leb, ◌==◌, is_nonempty, if◌then◌else◌,
}
use memcove.Common.Result.{Result, ok, err, value_error}
use memcove.Unicode.{Unicode, is_digit, strip_by}

pub data ArrowType : Type 0 where
  bool int8 int16 int32 int64 uint8 uint16 uint32 uint64 : ArrowType
  float16 float32 float64 date32 date64 string binary : ArrowType
  timestamp : Text → ArrowType
  decimal128 : ℕ → ℕ → ArrowType
  other_type : ArrowType

-- the longest start of a text whose characters pass the test, and the rest
unfoldable pub span : (ℕ → Bool) → Text → Text × Text
span p [] = ([], [])
span p (c ∷ s) = let (start, rest) = span p s in if p c then (c ∷ start, rest) else ([], c ∷ s)

unfoldable pub number_from : ℕ → Text → ℕ
number_from n [] = n
number_from n (c ∷ s) = number_from (n * 10 + (c - 48)) s

-- the text without its first character, if that is the one
unfoldable pub after : ℕ → Text → Option Text
after c [] = none
after c (d ∷ s) = if d == c then some s else none

-- `\d+` at the start
unfoldable pub digits_at : Text → Option (ℕ × Text)
digits_at s =
    let (ds, rest) = span is_digit s in
    if is_nonempty ds then some (number_from 0 ds, rest) else none

second_at : ℕ → Text → Option (ℕ × ℕ)
second_at p s = elim (digits_at s) [
  | none ↦ none
  | some (scale, rest) ↦ elim (after b')' rest) [ none ↦ none | some _ ↦ some (p, scale) ]
]

-- `\((\d+)\s*,\s*(\d+)\)` at the start, behind the bracket
unfoldable pub pair_at : Unicode → Text → Option (ℕ × ℕ)
unfolding second_at
pair_at u s = elim (digits_at s) [
  | none ↦ none
  | some (precision, rest) ↦ elim (after b',' (span u.is_space rest).1) [
    | none ↦ none
    | some behind ↦ second_at precision (span u.is_space behind).1
  ]
]

-- `re.search`
unfoldable pub search_pair : Unicode → Text → Option (ℕ × ℕ)
search_pair u [] = none
search_pair u (c ∷ s) =
    let later = search_pair u s in
    if c == b'(' then (elim (pair_at u s) [ some p ↦ some p | none ↦ later ]) else later

-- `pa.decimal128` takes a precision from 1 to 38
unfoldable pub decimal : ℕ → ℕ → Result ArrowType
decimal precision scale =
    if leb 1 precision && leb precision 38 then ok (decimal128 precision scale) else err value_error

-- the dict `simple`
unfoldable pub simple : Text → Option ArrowType
simple t =
    if text_eq t (codes "boolean")
    then some bool
    else if text_eq t (codes "tinyint")
    then some int8
    else if text_eq t (codes "smallint")
    then some int16
    else if text_eq t (codes "integer") || text_eq t (codes "int")
    then some int32
    else if text_eq t (codes "bigint")
    then some int64
    else if text_eq t (codes "real")
    then some float32
    else if text_eq t (codes "double")
    then some float64
    else if text_eq t (codes "date")
    then some date32
    else if text_eq t (codes "varbinary")
    then some binary
    else if text_eq t (codes "varchar")
        || text_eq t (codes "char")
        || text_eq t (codes "json")
        || text_eq t (codes "uuid")
        || text_eq t (codes "time")
        || text_eq t (codes "ipaddress")
    then some string
    else none

-- `re.split(r"[(\s]", t, maxsplit=1)[0]`
unfoldable pub base_of : Unicode → Text → Text
base_of u t = (span (λ c. not (c == b'(' || u.is_space c)) t).0

composite : Unicode → Text → Text → Result ArrowType
composite u t base =
    if text_eq base (codes "decimal")
    then (elim (search_pair u t) [ some (p, s) ↦ decimal p s | none ↦ decimal 38 0 ])
    else if starts_with base (codes "timestamp")
    then ok (timestamp (codes "us"))
    else ok string

unfoldable pub arrow_type_from_trino : Unicode → Text → Result ArrowType
unfolding composite
arrow_type_from_trino u type_code =
    let t = u.lower (strip_by u.is_space type_code) in
    let base = base_of u t in elim (simple base) [ some a ↦ ok a | none ↦ composite u t base ]

abbrev pub is_integer : ArrowType → Bool
is_integer int8 = true
is_integer int16 = true
is_integer int32 = true
is_integer int64 = true
is_integer uint8 = true
is_integer uint16 = true
is_integer uint32 = true
is_integer uint64 = true
is_integer _ = false

abbrev pub is_floating : ArrowType → Bool
is_floating float16 = true
is_floating float32 = true
is_floating float64 = true
is_floating _ = false

-- `_trino_type`
unfoldable pub trino_type : ArrowType → Text
trino_type bool = codes "BOOLEAN"
trino_type date32 = codes "DATE"
trino_type date64 = codes "DATE"
trino_type (timestamp unit) = codes "TIMESTAMP"
trino_type t =
    if is_integer t
    then codes "BIGINT"
    else if is_floating t
    then codes "DOUBLE"
    else codes "VARCHAR"
