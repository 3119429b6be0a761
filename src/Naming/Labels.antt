-- ===== src/Naming/Labels.antt =====
-- What an accepted label looks like.
use memcove.Common.{
  ℕ, ◌<◌, ◌≡◌, refl, true, false, not, ◌∙◌, [], ◌∷◌, map, Text, ltb, ◌==◌, ==_iff, all, arith,
  is_nonempty,
}
use memcove.Common.Result.{ok}
use memcove.Unicode.{
  Unicode, is_word, ascii_lower, ascii_space, ends_newline, strip_by, rstrip_by, lstrip_by,
  strip_by_none,
}
use memcove.Naming.{full_label, label_matches, validate_label}

-- a word character is ASCII, is no space, and is its own lower case
word-ascii : (c : ℕ) → is_word c ≡ true → c < 128
unfolding is_word
word-ascii c h = ground arith

pub word-not_space : (u : Unicode) (c : ℕ) → is_word c ≡ true → u.is_space c ≡ false
unfolding is_word ascii_space
word-not_space u c h = ground (arith, u.space_ascii c (word-ascii c h))

word-lower : (c : ℕ) → is_word c ≡ true → ascii_lower c ≡ c
unfolding is_word ascii_lower
word-lower c h = ground arith

words-ascii : (s : Text) → all is_word s ≡ true → all (λ c. ltb c 128) s ≡ true
unfolding all
words-ascii [] h = refl
words-ascii (c ∷ s) h = ground (arith, words-ascii s, word-ascii c)

map-word_lower : (s : Text) → all is_word s ≡ true → map ascii_lower s ≡ s
unfolding all
map-word_lower [] h = refl
map-word_lower (c ∷ s) h = ground (arith, map-word_lower s, word-lower c)

words-not_space :
    (u : Unicode) (s : Text) → all is_word s ≡ true → all (λ c. not (u.is_space c)) s ≡ true
unfolding all
words-not_space u [] h = refl
words-not_space u (c ∷ s) h = ground (arith, words-not_space u s, word-not_space u c)

-- `strip` and `lower` leave a text of word characters as it is
pub lower-strip_words :
    (u : Unicode) (s : Text) → all is_word s ≡ true → u.lower (strip_by u.is_space s) ≡ s
lower-strip_words u s h =
    rw (strip_by_none u.is_space s (words-not_space u s h))
      (u.lower_ascii s (words-ascii s h) ∙ map-word_lower s h)

ends_newline-cons :
    (c : ℕ) (s : Text) → is_nonempty s ≡ true → ends_newline (c ∷ s) ≡ ends_newline s
unfolding ends_newline
ends_newline-cons c [] h = cc
ends_newline-cons c (d ∷ s) h = refl

ends_newline-singleton : (c : ℕ) → ends_newline (c ∷ []) ≡ (c == 10)
unfolding ends_newline
ends_newline-singleton c = refl

ends_newline-nil : ends_newline [] ≡ false
unfolding ends_newline
ends_newline-nil = refl

newline-space : (u : Unicode) → u.is_space 10 ≡ true
unfolding ascii_space
newline-space u = u.space_ascii 10 (omega arith)

-- a stripped text does not end in a newline
rstrip-newline : (u : Unicode) (s : Text) → ends_newline (rstrip_by u.is_space s) ≡ false
unfolding rstrip_by
rstrip-newline u [] = ends_newline-nil
rstrip-newline u (c ∷ s) = ground (
  arith,
  rstrip-newline u s,
  ends_newline-cons c (rstrip_by u.is_space s),
  ends_newline-singleton c,
  ends_newline-nil,
  newline-space u,
  ==_iff c 10,
)

pub full_label-words : (s : Text) → full_label s ≡ true → all is_word s ≡ true
unfolding full_label all is_word
full_label-words [] h = refl
full_label-words (c ∷ s) h = ground arith

-- An accepted label fully matches [a-z][a-z0-9_]{0,127}: the final newline that `$` would let
-- pass never reaches the match.
pub validate_label-IsLabel :
    (u : Unicode) (s l : Text) → validate_label u s ≡ ok l → full_label l ≡ true
unfolding validate_label label_matches strip_by
validate_label-IsLabel u s l h =
    ground
      (arith, u.lower_newline (strip_by u.is_space s), rstrip-newline u (lstrip_by u.is_space s))

-- A label that was accepted is accepted again, unchanged.
pub validate_label_idem :
    (u : Unicode) (s l : Text) → validate_label u s ≡ ok l → validate_label u l ≡ ok l
unfolding validate_label label_matches
validate_label_idem u s l h =
    let full : full_label l ≡ true = validate_label-IsLabel u s l h in
    rw (lower-strip_words u l (full_label-words l full)) (ground arith)

-- a label that matches as it is is accepted
pub validate_label_of_full :
    (u : Unicode) (l : Text) → full_label l ≡ true → validate_label u l ≡ ok l
unfolding validate_label label_matches
validate_label_of_full u l h = rw (lower-strip_words u l (full_label-words l h)) (ground arith)
