-- ===== src/Tickets/Encoding.antt =====
-- orjson, hmac and the conversions of `int`, which tickets.py calls: parameters.
use memcove.Common.{
  ◌∷◌, [], refl, arith, ℕ, ◌≡◌, ◌&&◌, ◌||◌, not, Bool, true, false, Option, none, some, Text,
  text_eq, all, ltb, leb, if◌then◌else◌,
}
use memcove.Common.Result.{Result}

-- what `int` makes of a value: a time, or one before the epoch
pub data Expiry : Type 0 where
  at : ℕ → Expiry
  long_ago : Expiry

-- Decoded JSON. A null, a float or a list, which the program does not look into, is `opaque`,
-- with what `int` makes of it.
mutual
  pub data Json : Type 0 where
    dict : Dict → Json
    text : Text → Json
    number : ℕ → Json
    negative : ℕ → Json
    flag : Bool → Json
    opaque : Result Expiry → Json

  pub data Dict : Type 0 where
    nil : Dict
    entry : Text → Json → Dict → Dict

-- `d.get(key)`
unfoldable pub get : Dict → Text → Option Json
get nil key = none
get (entry k v rest) key = let later = get rest key in if text_eq k key then some v else later

unfoldable pub has_key : Dict → Text → Bool
has_key nil key = false
has_key (entry k v rest) key = text_eq k key || has_key rest key

-- the code points of text that UTF-8 encodes
unfoldable pub is_text : Text → Bool
is_text s = all (λ c. ltb c 55296 || (leb 57344 c && ltb c 1114112)) s

unfoldable pub is_ascii : Text → Bool
is_ascii s = all (λ c. ltb c 128) s

pub is_ascii-is_text : (s : Text) → is_ascii s ≡ true → is_text s ≡ true
unfolding is_ascii is_text all
is_ascii-is_text [] h = refl
is_ascii-is_text (c ∷ s) h = ground (arith, is_ascii-is_text s)

-- the values that orjson encodes and gives back: 64-bit integers, encodable text, distinct keys
unfoldable mutual
  pub is_plain : Json → Bool
  is_plain (dict d) = plain_entries d
  is_plain (text s) = is_text s
  is_plain (number n) = ltb n 9223372036854775808
  is_plain (negative n) = false
  is_plain (flag b) = true
  is_plain (opaque r) = false

  pub plain_entries : Dict → Bool
  plain_entries nil = true
  plain_entries (entry k v rest) =
      is_text k && is_plain v && not (has_key rest k) && plain_entries rest

pub record Codec : Type 1 where
  pub Bytes : Type 0
  -- `orjson.dumps` and `orjson.loads`, none where the bytes are malformed
  pub encode : Json → Bytes
  pub decode : Bytes → Option Json
  -- `orjson.dumps` with sorted keys
  pub canon : Json → Bytes
  -- the base64 text of the HMAC-SHA-256 of the bytes under a secret
  pub hmac_b64 : Text → Bytes → Text
  -- `int` of a string
  pub int_of_text : Text → Result Expiry
  pub decode-encode : (j : Json) → is_plain j ≡ true → decode (encode j) ≡ some j
  pub hmac_ascii : (k : Text) (b : Bytes) → is_ascii (hmac_b64 k b) ≡ true
