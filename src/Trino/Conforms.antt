-- ===== src/Trino/Conforms.antt =====
-- The batches of a stream fit the schema that was fixed before the first of them.
use memcove.Common.{
  ℕ, zero, suc, map, ◌++◌, ◌+◌, ◌≡◌, refl, ap, ◌∙◌, sym, subst, Bool, true, false, Option, List, [],
  ◌∷◌, Text, length, is_nonempty, arith, inl, inr, if◌then◌else◌,
}
use memcove.Common.Result.{Error, Result, ok, err, >>=-eq-ok, ok-injective, Result-cases}
use memcove.Unicode.{Unicode}
use memcove.Trino.{Cell, null, str, other}
use memcove.Trino.Types.{ArrowType, string}
use memcove.Trino.Stream.{
  Arrays, cell_at, column_cells, coerced, build_array, batch_columns, batches, fields_of, chunks,
  batch_size, stream_arrow_batches,
}

-- None or a string
abbrev pub is_text : {O : Type 0} → Cell O → Bool
is_text null = true
is_text (str t) = true
is_text (other o) = false

abbrev pub all_text : {O : Type 0} → List (Cell O) → Bool
all_text [] = true
all_text (c ∷ cs) = if is_text c then all_text cs else false

-- the row has this cell at this place
pub record HasAt {O : Type 0} (i : ℕ) (row : List (Cell O)) (c : Cell O) : Type 0 where
  pub before : List (Cell O)
  pub after : List (Cell O)
  pub split : row ≡ before ++ c ∷ after
  pub place : length before ≡ i

-- the cells at this place of the rows, one of each and in order
abbrev pub Drawn : {O : Type 0} → ℕ → List (List (Cell O)) → List (Cell O) → Type 0
Drawn i [] [] = Unit {0}
Drawn i (row ∷ rows) (c ∷ cells) = HasAt i row c × Drawn i rows cells
Drawn i _ _ = ⊥

module _ {O : Type 0} (a : Arrays O) where
  abbrev pub as_json : Cell O → Cell O
  as_json null = null
  as_json (str t) = str t
  as_json (other o) = str (a.json o)

  -- what a column of this type has of a cell: a string column has JSON in place of other values
  abbrev pub held : ArrowType → Cell O → Cell O
  held string c = as_json c
  held t c = c

  -- pyarrow made the column at the type of the field, from what it has of the cells at this place
  -- of the rows, and a string column from None and strings only
  pub record Fits (i : ℕ) (rows : List (List (Cell O))) (t : ArrowType) (column : a.Column)
      : Type 0 where
    pub cells : List (Cell O)
    pub drawn : Drawn i rows cells
    pub made : a.array (map (held t) cells) t ≡ ok column
    pub one_each : length cells ≡ length rows
    pub texts : t ≡ string → all_text (map (held t) cells) ≡ true

  -- one column for each field, in order, of which the first is at this place
  abbrev pub Conforms : ℕ → List (List (Cell O)) → List (Text × ArrowType) → List a.Column → Type 0
  Conforms i rows [] [] = Unit {0}
  Conforms i rows ((name, t) ∷ fields) (c ∷ cs) = Fits i rows t c × Conforms (i + 1) rows fields cs
  Conforms i rows _ _ = ⊥

  -- one batch for each chunk, up to where an error ends the stream
  abbrev pub Stream :
      List (Text × ArrowType) → List (List (List (Cell O))) → List (Result (List a.Column)) → Type 0
  Stream fields [] [] = Unit {0}
  Stream fields (rows ∷ rest) (ok columns ∷ later) =
      Conforms 0 rows fields columns × Stream fields rest later
  Stream fields (rows ∷ rest) (err e ∷ []) = Unit {0}
  Stream fields _ _ = ⊥

  length-column_cells :
      (i : ℕ) (rows : List (List (Cell O))) (cells : List (Cell O))
      → column_cells i rows ≡ ok cells
      → length cells ≡ length rows
  unfolding column_cells
  length-column_cells i [] cells h = ap length (sym (ok-injective [] cells h))
  length-column_cells i (r ∷ rows) cells h =
      let (c, one, h₁) = >>=-eq-ok (cell_at i r) _ h in
      let (cs, rest, h₂) = >>=-eq-ok (column_cells i rows) _ h₁ in
      ap length (sym (ok-injective (c ∷ cs) cells h₂)) ∙ ap suc (length-column_cells i rows cs rest)

  cell_at-HasAt : (i : ℕ) (row : List (Cell O)) (c : Cell O) → cell_at i row ≡ ok c → HasAt i row c
  unfolding cell_at
  cell_at-HasAt i [] c h = absurd (cc h)
  cell_at-HasAt zero (x ∷ row) c h = record {
    before = [];
    after = row;
    split = ap (λ q. q ∷ row) (ok-injective x c h);
    place = refl;
  }
  cell_at-HasAt (suc i) (x ∷ row) c h =
      let there = cell_at-HasAt i row c h in
      record {
        before = x ∷ there.before;
        after = there.after;
        split = ap (λ q. x ∷ q) there.split;
        place = ap suc there.place;
      }

  column_cells-Drawn :
      (i : ℕ) (rows : List (List (Cell O))) (cells : List (Cell O))
      → column_cells i rows ≡ ok cells
      → Drawn i rows cells
  unfolding column_cells
  column_cells-Drawn i [] cells h = subst (Drawn i []) (ok-injective [] cells h) tt
  column_cells-Drawn i (r ∷ rows) cells h =
      let (c, one, h₁) = >>=-eq-ok (cell_at i r) _ h in
      let (cs, rest, h₂) = >>=-eq-ok (column_cells i rows) _ h₁ in
      subst (Drawn i (r ∷ rows)) (ok-injective (c ∷ cs) cells h₂)
        (cell_at-HasAt i r c one, column_cells-Drawn i rows cs rest)

  coerced-as_json :
      (cells : List (Cell O))
      → (coerced a.json cells ≡ map as_json cells) × (all_text (map as_json cells) ≡ true)
  unfolding coerced
  coerced-as_json [] = (refl, refl)
  coerced-as_json (null ∷ cs) = let (e, t) = coerced-as_json cs in (ap (λ q. null ∷ q) e, t)
  coerced-as_json (str x ∷ cs) = let (e, t) = coerced-as_json cs in (ap (λ q. str x ∷ q) e, t)
  coerced-as_json (other o ∷ cs) =
      let (e, t) = coerced-as_json cs in (ap (λ q. str (a.json o) ∷ q) e, t)

  map-same : (cells : List (Cell O)) → map (λ c. c) cells ≡ cells
  map-same [] = refl
  map-same (c ∷ cs) = ap (λ q. c ∷ q) (map-same cs)

  build_array-Fits :
      (i : ℕ) (rows : List (List (Cell O))) (values : List (Cell O)) (t : ArrowType)
      (column : a.Column)
      → column_cells i rows ≡ ok values
      → build_array a values t ≡ ok column
      → Fits i rows t column
  unfolding build_array
  build_array-Fits i rows values string column drawn h =
      let (same, texts) = coerced-as_json values in
      record {
        cells = values;
        drawn = column_cells-Drawn i rows values drawn;
        made = ap (λ q. a.array q string) (sym same) ∙ h;
        one_each = length-column_cells i rows values drawn;
        texts = λ e. texts;
      }
  build_array-Fits i rows values t column drawn h = record {
    cells = values;
    drawn = column_cells-Drawn i rows values drawn;
    made = ap (λ q. a.array q t) (map-same values) ∙ h;
    one_each = length-column_cells i rows values drawn;
    texts = λ e. absurd (cc e);
  }

  batch_columns-Conforms :
      (i : ℕ) (fields : List (Text × ArrowType)) (rows : List (List (Cell O)))
      (columns : List a.Column)
      → batch_columns a i fields rows ≡ ok columns
      → Conforms i rows fields columns
  unfolding batch_columns
  batch_columns-Conforms i [] rows columns h =
      subst (Conforms i rows []) (ok-injective [] columns h) tt
  batch_columns-Conforms i ((name, t) ∷ fields) rows columns h =
      let (values, one, h₁) = >>=-eq-ok (column_cells i rows) _ h in
      let (column, two, h₂) = >>=-eq-ok (build_array a values t) _ h₁ in
      let (rest, three, h₃) = >>=-eq-ok (batch_columns a (i + 1) fields rows) _ h₂ in
      subst (Conforms i rows ((name, t) ∷ fields)) (ok-injective (column ∷ rest) columns h₃) (
        build_array-Fits i rows values t column one two,
        batch_columns-Conforms (i + 1) fields rows rest three,
      )

  batches-ok :
      (fields : List (Text × ArrowType)) (rows : List (List (Cell O)))
      (rest : List (List (List (Cell O)))) (columns : List a.Column)
      → batch_columns a 0 fields rows ≡ ok columns
      → ok columns ∷ batches a fields rest ≡ batches a fields (rows ∷ rest)
  unfolding batches
  batches-ok fields rows rest columns h = ground arith

  batches-err :
      (fields : List (Text × ArrowType)) (rows : List (List (Cell O)))
      (rest : List (List (List (Cell O)))) (e : Error)
      → batch_columns a 0 fields rows ≡ err e
      → err e ∷ [] ≡ batches a fields (rows ∷ rest)
  unfolding batches
  batches-err fields rows rest e h = ground arith

  batches-Stream :
      (fields : List (Text × ArrowType)) (chunked : List (List (List (Cell O))))
      → Stream fields chunked (batches a fields chunked)
  unfolding batches
  batches-Stream fields [] = tt
  batches-Stream fields (rows ∷ rest) = elim (Result-cases (batch_columns a 0 fields rows)) [
    | inl (columns, made) ↦
        subst (Stream fields (rows ∷ rest)) (batches-ok fields rows rest columns made)
          (batch_columns-Conforms 0 fields rows columns made, batches-Stream fields rest)
    | inr (e, failed) ↦
        subst (Stream fields (rows ∷ rest)) (batches-err fields rows rest e failed) tt
  ]

  given-Stream :
      (fields : List (Text × ArrowType)) (chunked : List (List (List (Cell O))))
      → Stream fields
          (if is_nonempty fields then chunked else [])
          (if is_nonempty fields then batches a fields chunked else [])
  given-Stream [] chunked = tt
  given-Stream (f ∷ fields) chunked = batches-Stream (f ∷ fields) chunked

  -- A stream has the types that the engine's description names, and every batch of it fits them: a
  -- column for each field, in order, which pyarrow made at the type of the field from the cells
  -- that the rows of the chunk have at the place of the field, one of each row and in order; and a
  -- string column from None and strings only, the JSON in place of any other value, whatever the
  -- engine returned. An error ends the stream.
  pub stream_arrow_batches-Stream :
      (u : Unicode) (default_rows : ℕ) (batch_rows : Option ℕ) (description : List (Text × Text))
      (rows : List (List (Cell O))) (fields : List (Text × ArrowType))
      (out : List (Result (List a.Column)))
      → stream_arrow_batches a u default_rows batch_rows description rows ≡ ok (fields, out)
      → (fields_of u description ≡ ok fields)
        × Stream fields
            (if is_nonempty fields then chunks (batch_size default_rows batch_rows) rows else [])
            out
  unfolding stream_arrow_batches
  stream_arrow_batches-Stream u default_rows batch_rows description rows fields out h =
      let (given, typed, h₁) = >>=-eq-ok (fields_of u description) _ h in
      let same = ok-injective _ (fields, out) h₁ in
      let chunked = chunks (batch_size default_rows batch_rows) rows in
      subst
        (λ (q : List (Text × ArrowType) × List (Result (List a.Column))).
          (fields_of u description ≡ ok q.0)
          × Stream q.0 (if is_nonempty q.0 then chunked else []) q.1)
        same (typed, given-Stream given chunked)
