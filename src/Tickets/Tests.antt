-- ===== src/Tickets/Tests.antt =====
-- A ticket through a toy codec.
use memcove.Common.{
  ℕ, ◌≡◌, refl, [], Bool, true, false, Option, none, some, Text, codes, arith, if◌then◌else◌, leb,
  ◌+◌, Bool-cases, inl, inr,
}
use memcove.Common.Result.{ok}
use memcove.Config.Defaults.{defaults}
use memcove.Tickets.{
  Codec, Json, Dict, Expiry, dict, text, get, is_ascii, int_of, is_past, signature, sign, verify,
  read_command,
}
use memcove.Tickets.Toy.{toy, toy_hmac}
use memcove.Tickets.Signed.{verify-authentic}

abbrev reads : Dict
reads = read_command (codes "t_acme") (codes "orders")

in_time : verify toy defaults 1100 (sign toy defaults 1000 (codes "9f") reads) ≡ ok reads
unfolding verify memcove.Tickets.envelope memcove.Tickets.as_dict sign get memcove.Common.text_eq
    memcove.Tickets.as_text memcove.Tickets.verify_envelope signature toy_hmac is_ascii
    memcove.Common.all int_of memcove.Tickets.envelope_at is_past memcove.Tickets.command_of
in_time = refl

verify-authentic_example :
    (outer env : Dict) × (exp : Expiry) × (some (sign toy defaults 1000 (codes "9f") reads)
      ≡ some (dict outer))
    × (get outer (codes "env") ≡ some (dict env))
    × (get outer (codes "sig") ≡ some (text (signature toy defaults env)))
    × (get env (codes "cmd") ≡ some (dict reads))
    × (int_of toy.int_of_text (get env (codes "exp")) ≡ ok exp)
    × (is_past exp 1100 ≡ false)
verify-authentic_example =
    verify-authentic toy defaults 1100 (sign toy defaults 1000 (codes "9f") reads) reads in_time
