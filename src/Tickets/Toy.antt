-- ===== src/Tickets/Toy.antt =====
-- A toy codec that meets the laws of `Codec`: its bytes are the values themselves, and the
-- signature is the secret.
use memcove.Common.{
  ◌≡◌, refl, [], Option, some, Text, arith, if◌then◌else◌, Bool-cases, inl, inr, true,
}
use memcove.Common.Result.{err, value_error}
use memcove.Tickets.{Codec, Json, is_ascii}

unfoldable pub toy_hmac : Text → Text
toy_hmac k = if is_ascii k then k else []

pub toy_hmac_ascii : (k : Text) → is_ascii (toy_hmac k) ≡ true
unfolding toy_hmac is_ascii memcove.Common.all
toy_hmac_ascii k = elim (Bool-cases (is_ascii k)) [ inl e ↦ ground arith | inr e ↦ ground arith ]

abbrev pub toy : Codec
toy = record {
  Bytes = Json;
  encode = λ j. j;
  decode = λ b. some b;
  canon = λ j. j;
  hmac_b64 = λ k b. toy_hmac k;
  int_of_text = λ t. err value_error;
  decode-encode = λ j h. refl;
  hmac_ascii = λ k b. toy_hmac_ascii k;
}
