-- ===== src/Naming.antt =====
-- core/naming.py: validation of object labels.
pub mod Labels
mod Tests
use memcove.Common.{
  ℕ, Bool, true, false, ◌&&◌, ◌||◌, List, [], ◌∷◌, Text, leb, all, length, if◌then◌else◌,
}
use memcove.Common.Result.{Error, Result, ok, err, memcove_error}
use memcove.Unicode.{Unicode, is_lower, is_word, ends_newline, strip_by}

-- the characters of ^[a-z][a-z0-9_]{0,127}, with nothing left
unfoldable pub full_label : Text → Bool
full_label [] = false
full_label (c ∷ s) = is_lower c && all is_word s && leb (length s) 127

-- the text without its last character
unfoldable pub drop_last : Text → Text
drop_last [] = []
drop_last (c ∷ []) = []
drop_last (c ∷ d ∷ s) = c ∷ drop_last (d ∷ s)

-- `_LABEL_RE.match`: in Python's `re`, `$` matches at the end and also before a final newline
unfoldable pub label_matches : Text → Bool
label_matches s = full_label s || (ends_newline s && full_label (drop_last s))

-- the empty text stands for a label that is None, as `label or ""` does
unfoldable pub validate_label : Unicode → Text → Result Text
validate_label u label =
    let candidate = u.lower (strip_by u.is_space label) in
    if label_matches candidate then ok candidate else err memcove_error
