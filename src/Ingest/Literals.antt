-- ===== src/Ingest/Literals.antt =====
-- tools/ingest.py: the SELECT over literals that puts an inline table into the scratchpad.
use memcove.Common.{
  ℕ, ◌+◌, ◌≡◌, refl, Bool, true, false, ◌||◌, Option, none, some, List, [], ◌∷◌, ◌++◌, Text, codes,
  str, starts_with, append_assoc, ◌==◌, arith, if◌then◌else◌,
}
use memcove.Trino.Types.{ArrowType, is_integer, is_floating, trino_type}

-- a cell of an Arrow table as a Python value, with the truth and the texts that Python gives it
pub data Value : Type 0 where
  nothing : Value
  -- truth, `repr`, `str`, and `str(int(…))`
  of : Bool → Text → Text → Text → Value

-- `.replace("'", "''")`
unfoldable pub escaped : Text → Text
escaped [] = []
escaped (c ∷ s) = if c == b'\'' then b'\'' ∷ b'\'' ∷ escaped s else c ∷ escaped s

-- `pa.types.is_boolean`
abbrev pub is_boolean : ArrowType → Bool
is_boolean ArrowType.bool = true
is_boolean _ = false

-- `_literal`
unfoldable pub literal : Value → ArrowType → Text
literal nothing at = codes "NULL"
literal (of truth repr shown whole) at =
    if is_boolean at
    then (if truth then codes "true" else codes "false")
    else if is_integer at || is_floating at
    then (if is_floating at then repr else whole)
    else codes "'" ++ escaped shown ++ codes "'"

-- `", ".join`
unfoldable pub commas : List Text → Text
commas [] = []
commas (t ∷ []) = t
commas (t ∷ u ∷ ts) = t ++ codes ", " ++ commas (u ∷ ts)

-- `c0, c1, …` from a number on
unfoldable pub columns_from : ℕ → List (Text × ArrowType) → List Text
columns_from n [] = []
columns_from n (f ∷ fs) = (codes "c" ++ str n) ∷ columns_from (n + 1) fs

unfoldable pub casts_from : ℕ → List (Text × ArrowType) → List Text
casts_from n [] = []
casts_from n ((name, at) ∷ fs) =
    (codes "CAST(c"
      ++ str n
      ++ codes " AS "
      ++ trino_type at
      ++ codes ") AS \""
      ++ name
      ++ codes "\"")
    ∷ casts_from (n + 1) fs

-- the literals of one row, whose values stand in the order of the fields
unfoldable pub literals : List (Text × ArrowType) → List Value → List Text
literals ((name, at) ∷ fs) (v ∷ vs) = literal v at ∷ literals fs vs
literals _ _ = []

unfoldable pub tuples : List (Text × ArrowType) → List (List Value) → List Text
tuples fields [] = []
tuples fields (row ∷ rows) =
    (codes "(" ++ commas (literals fields row) ++ codes ")") ∷ tuples fields rows

unfoldable pub nulls : List (Text × ArrowType) → List Text
nulls [] = []
nulls (f ∷ fs) = codes "NULL" ∷ nulls fs

-- `_scratch_select`
unfoldable pub scratch_select : List (Text × ArrowType) → List (List Value) → Text
scratch_select fields [] =
    codes "SELECT "
    ++ commas (casts_from 0 fields)
    ++ codes " FROM (VALUES ("
    ++ commas (nulls fields)
    ++ codes ")) AS _v("
    ++ commas (columns_from 0 fields)
    ++ codes ") WHERE false"
scratch_select fields (row ∷ rows) =
    codes "SELECT "
    ++ commas (casts_from 0 fields)
    ++ codes " FROM (VALUES "
    ++ commas (tuples fields (row ∷ rows))
    ++ codes ") AS _v("
    ++ commas (columns_from 0 fields)
    ++ codes ")"

-- How a reader of SQL takes the text behind an opening quote: up to a quote that no other follows,
-- two quotes standing for one. The flag says that the character before was a quote. What is
-- returned is the text of the literal, and the rest of the statement.
grow : ℕ → Option (Text × Text) → Option (Text × Text)
grow c none = none
grow c (some (t, rest)) = some (c ∷ t, rest)

unfoldable pub quoted : Bool → Text → Option (Text × Text)
unfolding grow
quoted false [] = none
quoted true [] = some ([], [])
quoted false (c ∷ s) =
    let closing = quoted true s in
    let plain = grow c (quoted false s) in if c == b'\'' then closing else plain
quoted true (c ∷ s) =
    let doubled = grow c (quoted false s) in if c == b'\'' then doubled else some ([], c ∷ s)

quoted-closed :
    (rest : Text) → starts_with rest (b'\'' ∷ []) ≡ false → quoted true rest ≡ some ([], rest)
unfolding quoted starts_with
quoted-closed [] h = refl
quoted-closed (c ∷ s) h = ground arith

quoted-escaped :
    (t rest : Text)
    → starts_with rest (b'\'' ∷ []) ≡ false
    → quoted false (escaped t ++ b'\'' ∷ rest) ≡ some (t, rest)
unfolding quoted escaped grow
quoted-escaped [] rest h = quoted-closed rest h
quoted-escaped (c ∷ t) rest h = ground (arith, quoted-escaped t rest h)

-- A literal of a column that is neither boolean, integer nor floating cannot be left from inside:
-- whatever the value's text, and whatever follows but a quote, a reader of SQL that enters it at
-- its opening quote gets exactly that text and goes on behind the literal.
pub literal-quoted :
    (truth : Bool) (repr shown whole rest : Text) (at : ArrowType)
    → is_boolean at ≡ false
    → (is_integer at || is_floating at) ≡ false
    → starts_with rest (b'\'' ∷ []) ≡ false
    → (body : Text) × (literal (of truth repr shown whole) at ≡ b'\'' ∷ body)
      × (quoted false (body ++ rest) ≡ some (shown, rest))
unfolding literal
literal-quoted truth repr shown whole rest at nb ni h = (
  escaped shown ++ codes "'",
  ground arith,
  rw (append_assoc (escaped shown) (codes "'") rest) (quoted-escaped shown rest h),
)
