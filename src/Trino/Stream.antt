-- ===== src/Trino/Stream.antt =====
-- stream_arrow_batches: the rows of a cursor in record batches of one fixed schema.
use memcove.Common.{
  ℕ, zero, suc, ◌≡◌, ◌+◌, ◌≤◌, ◌<◌, refl, ap, ◌∙◌, true, Option, none, some, List, [], ◌∷◌, ◌++◌,
  Text, length, length-take, take, is_nonempty, arith, if◌then◌else◌, All,
}
use memcove.Common.Result.{Result, ok, err, ◌>>=◌, index_error}
use memcove.Unicode.{Unicode}
use memcove.Trino.{Cell, null, str, other}
use memcove.Trino.Types.{ArrowType, string, arrow_type_from_trino}

abbrev pub drop {ℓ} : {A : Type ℓ} → ℕ → List A → List A
drop zero xs = xs
drop (suc n) [] = []
drop (suc n) (x ∷ xs) = drop n xs

-- The loop of the generator: `fetchmany` until it returns no row. The fuel is more than the count
-- of the rows that are left.
fetch : {R : Type 0} → ℕ → ℕ → List R → List (List R)
fetch zero size rows = []
fetch (suc fuel) size rows = elim (take size rows) [
  | [] ↦ []
  | r ∷ rs ↦ (r ∷ rs) ∷ fetch fuel size (drop size rows)
]

unfoldable pub chunks : {R : Type 0} → ℕ → List R → List (List R)
unfolding fetch
chunks size rows = fetch (length rows + 1) size rows

-- `r[i]`
unfoldable pub cell_at : {O : Type 0} → ℕ → List (Cell O) → Result (Cell O)
cell_at i [] = err index_error
cell_at zero (c ∷ cs) = ok c
cell_at (suc i) (c ∷ cs) = cell_at i cs

unfoldable pub column_cells : {O : Type 0} → ℕ → List (List (Cell O)) → Result (List (Cell O))
column_cells i [] = ok []
column_cells i (r ∷ rows) = do c ← cell_at i r; cs ← column_cells i rows; ok (c ∷ cs)

-- a string column takes other values as JSON, which `json.dumps` writes
unfoldable pub coerced : {O : Type 0} → (O → Text) → List (Cell O) → List (Cell O)
coerced json [] = []
coerced json (null ∷ cs) = null ∷ coerced json cs
coerced json (str t ∷ cs) = str t ∷ coerced json cs
coerced json (other o ∷ cs) = str (json o) ∷ coerced json cs

-- pyarrow, as far as the stream calls it
pub record Arrays (O : Type 0) : Type 1 where
  pub Column : Type 0
  pub json : O → Text
  pub array : List (Cell O) → ArrowType → Result Column

module _ {O : Type 0} (a : Arrays O) where
  -- `_build_array`
  unfoldable pub build_array : List (Cell O) → ArrowType → Result a.Column
  build_array values string = a.array (coerced a.json values) string
  build_array values t = a.array values t

  -- one record batch: a column for each field
  unfoldable pub batch_columns :
      ℕ → List (Text × ArrowType) → List (List (Cell O)) → Result (List a.Column)
  batch_columns i [] rows = ok []
  batch_columns i ((name, t) ∷ fields) rows = do
    values ← column_cells i rows
    column ← build_array values t
    columns ← batch_columns (i + 1) fields rows
    ok (column ∷ columns)

  -- what the generator yields, up to where it raises
  unfoldable pub batches :
      List (Text × ArrowType) → List (List (List (Cell O))) → List (Result (List a.Column))
  batches fields [] = []
  batches fields (rows ∷ rest) = elim (batch_columns 0 fields rows) [
    | ok columns ↦ ok columns ∷ batches fields rest
    | err e ↦ err e ∷ []
  ]

-- the fields of the schema, from the names and types of the description
unfoldable pub fields_of : Unicode → List (Text × Text) → Result (List (Text × ArrowType))
fields_of u [] = ok []
fields_of u ((name, type_code) ∷ rest) = do
  t ← arrow_type_from_trino u type_code
  fields ← fields_of u rest
  ok ((name, t) ∷ fields)

-- `batch_rows or s.stream_batch_rows`
unfoldable pub batch_size : ℕ → Option ℕ → ℕ
batch_size default_rows none = default_rows
batch_size default_rows (some zero) = default_rows
batch_size default_rows (some (suc n)) = suc n

-- `stream_arrow_batches` on a cursor with a description and rows; without fields it is empty
unfoldable pub stream_arrow_batches :
    {O : Type 0} (a : Arrays O)
    → Unicode
    → ℕ
    → Option ℕ
    → List (Text × Text)
    → List (List (Cell O))
    → Result (List (Text × ArrowType) × List (Result (List a.Column)))
stream_arrow_batches a u default_rows batch_rows description rows = do
  fields ← fields_of u description
  ok (
    fields,
    if is_nonempty fields
        then batches a fields (chunks (batch_size default_rows batch_rows) rows)
        else [],
  )

-- `list(batches)`, which raises where the generator does
unfoldable pub collect : {B : Type 0} → List (Result B) → Result (List B)
collect [] = ok []
collect (r ∷ rest) = do b ← r; bs ← collect rest; ok (b ∷ bs)

-- `execute_arrow` on such a cursor: the table of all batches
unfoldable pub execute_arrow :
    {O : Type 0} (a : Arrays O)
    → Unicode
    → ℕ
    → List (Text × Text)
    → List (List (Cell O))
    → Result (List (Text × ArrowType) × List (List a.Column))
execute_arrow a u default_rows description rows = do
  streamed ← stream_arrow_batches a u default_rows none description rows
  table ← collect streamed.1
  ok (streamed.0, table)

-- the batches of a cursor, put together again
abbrev pub concat : {R : Type 0} → List (List R) → List R
concat [] = []
concat (c ∷ cs) = c ++ concat cs

take-drop : {R : Type 0} (n : ℕ) (rows : List R) → take n rows ++ drop n rows ≡ rows
take-drop zero rows = refl
take-drop (suc n) [] = refl
take-drop (suc n) (r ∷ rows) = ap (λ q. r ∷ q) (take-drop n rows)

drop_le : {R : Type 0} (n : ℕ) (rows : List R) → length (drop n rows) ≤ length rows
drop_le zero rows = omega arith
drop_le (suc n) [] = omega arith
drop_le (suc n) (r ∷ rows) = omega (arith, drop_le n rows)

-- a chunk of the right size
abbrev pub IsChunk : {R : Type 0} → ℕ → List R → Type 0
IsChunk size c = (is_nonempty c ≡ true) × (length c ≤ size)

fetch-rows :
    {R : Type 0} (fuel size : ℕ) (rows : List R)
    → length rows < fuel
    → 0 < size
    → (concat (fetch fuel size rows) ≡ rows) × All (IsChunk size) (fetch fuel size rows)
unfolding fetch
fetch-rows zero size rows enough pos = absurd (omega arith)
fetch-rows (suc fuel) zero rows enough pos = absurd (omega arith)
fetch-rows (suc fuel) (suc n) [] enough pos = (refl, tt)
fetch-rows (suc fuel) (suc n) (r ∷ rows) enough pos =
    let (same, sized) = fetch-rows fuel (suc n) (drop n rows) (omega (arith, drop_le n rows)) pos in
    (
      ap (λ q. r ∷ (take n rows ++ q)) same ∙ ap (λ q. r ∷ q) (take-drop n rows),
      ((refl, omega (arith, length-take n rows)), sized),
    )

-- With a batch size above zero the chunks of a stream hold every row once and in order, and each
-- has at least one row and no more than the batch size.
pub chunks-rows :
    {R : Type 0} (size : ℕ) (rows : List R)
    → 0 < size
    → (concat (chunks size rows) ≡ rows) × All (IsChunk size) (chunks size rows)
unfolding chunks
chunks-rows size rows pos = fetch-rows (length rows + 1) size rows (omega arith) pos
