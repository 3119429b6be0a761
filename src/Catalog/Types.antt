-- ===== src/Catalog/Types.antt =====
-- `_norm_type`: the canonical spelling of an Arrow type, given by its `str()`.
use memcove.Common.{
  ℕ, zero, suc, ◌-◌, Bool, true, false, not, ◌&&◌, ◌||◌, Option, none, some, [], ◌∷◌, ◌++◌, Text,
  codes, starts_with, leb, ◌==◌, if◌then◌else◌,
}
use memcove.Unicode.{is_lower, is_digit}

-- `\w` of an ASCII type name
unfoldable pub is_word_char : ℕ → Bool
is_word_char c = is_lower c || is_digit c || c == b'_' || (leb b'A' c && leb c b'Z')

unfoldable pub drop_text : ℕ → Text → Text
drop_text zero s = s
drop_text (suc n) [] = []
drop_text (suc n) (c ∷ s) = drop_text n s

-- a word boundary at the start of the text, behind a character that is part of no word
unfoldable pub at_boundary : Text → Bool
at_boundary [] = true
at_boundary (c ∷ s) = not (is_word_char c)

-- Replace from left to right: `edit prev rest` says how many characters go at this place, and
-- what comes in; `skip` counts the characters that are still to go.
unfoldable pub rewrite_text : (Bool → Text → Option (ℕ × Text)) → ℕ → Bool → Text → Text
rewrite_text edit skip prev [] = []
rewrite_text edit (suc skip) prev (c ∷ s) = rewrite_text edit skip (is_word_char c) s
rewrite_text edit zero prev (c ∷ s) = elim (edit prev (c ∷ s)) [
  | some (n, new) ↦ new ++ rewrite_text edit (n - 1) (is_word_char c) s
  | none ↦ c ∷ rewrite_text edit zero (is_word_char c) s
]

-- `.replace("large_", "")`
unfoldable pub drop_large : Bool → Text → Option (ℕ × Text)
drop_large prev s = if starts_with s (codes "large_") then some (6, []) else none

-- `re.sub(r"timestamp\[(ns|ms|s)", "timestamp[us", s)`
unfoldable pub to_micros : Bool → Text → Option (ℕ × Text)
to_micros prev s =
    if starts_with s (codes "timestamp[ns") || starts_with s (codes "timestamp[ms")
    then some (12, codes "timestamp[us")
    else if starts_with s (codes "timestamp[s")
    then some (11, codes "timestamp[us")
    else none

-- `re.sub(r"\bint(8|16)\b", "int32", s)`
unfoldable pub widen_int : Bool → Text → Option (ℕ × Text)
widen_int prev s =
    if prev
    then none
    else if starts_with s (codes "int8") && at_boundary (drop_text 4 s)
    then some (4, codes "int32")
    else if starts_with s (codes "int16") && at_boundary (drop_text 5 s)
    then some (5, codes "int32")
    else none

unfoldable pub norm_type : Text → Text
norm_type t =
    rewrite_text widen_int 0 false
      (rewrite_text to_micros 0 false (rewrite_text drop_large 0 false t))
