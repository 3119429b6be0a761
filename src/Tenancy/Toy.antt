-- ===== src/Tenancy/Toy.antt =====
-- A toy digest that tells one name from all others.
use memcove.Common.{◌≡◌, refl, Bool, true, false, Text, codes, text_eq, all, length}
use memcove.Unicode.{is_word}
use memcove.Tenancy.{Sha256}

abbrev digits_a : Text
digits_a = codes "aaaaaaaaaaaaaaaaaaaaaaaaaaaaaaaaaaaaaaaaaaaaaaaaaaaaaaaaaaaaaaaa"

abbrev digits_b : Text
digits_b = codes "bbbbbbbbbbbbbbbbbbbbbbbbbbbbbbbbbbbbbbbbbbbbbbbbbbbbbbbbbbbbbbbb"

unfoldable pub pick : Bool → Text
pick true = digits_a
pick false = digits_b

pub pick_words : (b : Bool) → all is_word (pick b) ≡ true
unfolding pick all is_word
pick_words true = refl
pick_words false = refl

pub length-pick : (b : Bool) → length (pick b) ≡ 64
unfolding pick
length-pick true = refl
length-pick false = refl

abbrev pub toy : Sha256
toy = record {
  hexdigest = λ s. pick (text_eq s (codes "ann"));
  hexdigest_words = λ s. pick_words (text_eq s (codes "ann"));
  hexdigest_length = λ s. length-pick (text_eq s (codes "ann"));
}
