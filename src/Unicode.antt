-- ===== src/Unicode.antt =====
-- What Python's `str` methods do that the program relies on. The Unicode tables behind
-- `lower` and `isspace` are a parameter, whose laws are its documented behaviour on ASCII.
mod Strip
pub mod Ascii
unfoldable pub use Strip.*
use memcove.Common.{
  ℕ, zero, suc, ◌+◌, ◌<◌, ◌≡◌, Bool, true, false, ◌&&◌, ◌||◌, List, [], ◌∷◌, map, Text, leb, ltb,
  ◌==◌, all, if◌then◌else◌,
}

-- [a-z], [0-9] and [a-z0-9_]
abbrev pub is_lower : ℕ → Bool
is_lower c = leb b'a' c && leb c b'z'

abbrev pub is_digit : ℕ → Bool
is_digit c = leb b'0' c && leb c b'9'

unfoldable pub is_word : ℕ → Bool
is_word c = is_lower c || is_digit c || c == b'_'

unfoldable pub ascii_lower : ℕ → ℕ
ascii_lower c = if leb b'A' c && leb c b'Z' then c + 32 else c

unfoldable pub ascii_space : ℕ → Bool
ascii_space c = (leb 9 c && leb c 13) || (leb 28 c && leb c 32)

-- the text ends in a newline
unfoldable pub ends_newline : Text → Bool
ends_newline [] = false
ends_newline (c ∷ []) = c == 10
ends_newline (c ∷ d ∷ s) = ends_newline (d ∷ s)

-- `str.isspace` of a character and `str.lower`
pub record Unicode : Type 0 where
  pub is_space : ℕ → Bool
  pub lower : Text → Text
  pub space_ascii : (c : ℕ) → c < 128 → is_space c ≡ ascii_space c
  pub lower_ascii : (s : Text) → all (λ c. ltb c 128) s ≡ true → lower s ≡ map ascii_lower s
  pub lower_newline : (s : Text) → ends_newline (lower s) ≡ ends_newline s
