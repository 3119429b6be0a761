-- ===== src/Unicode/Ascii.antt =====
-- The tables cut down to ASCII: a value that meets the laws of `Unicode`.
use memcove.Common.{◌≡◌, refl, [], ◌∷◌, map, Text, arith}
use memcove.Unicode.{Unicode, ascii_lower, ascii_space, ends_newline}

pub newline-map_lower : (s : Text) → ends_newline (map ascii_lower s) ≡ ends_newline s
unfolding ends_newline ascii_lower
newline-map_lower [] = refl
newline-map_lower (c ∷ []) = ground arith
newline-map_lower (c ∷ d ∷ s) = newline-map_lower (d ∷ s)

abbrev pub ascii : Unicode
ascii = record {
  is_space = ascii_space;
  lower = map ascii_lower;
  space_ascii = λ c h. refl;
  lower_ascii = λ s h. refl;
  lower_newline = newline-map_lower;
}
