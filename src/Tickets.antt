-- ===== src/Tickets.antt =====
-- data_plane/tickets.py: the signed, expiring tickets of the Flight data plane.
mod Encoding
pub mod Signed
pub mod Toy
mod Tests
unfoldable pub use Encoding.*
use memcove.Common.{
  ℕ, ◌+◌, Bool, true, false, not, ◌≡◌, Option, none, some, Text, codes, text_eq, ltb, if◌then◌else◌,
}
use memcove.Common.Result.{Result, ok, err, ◌>>=◌, ◌>>◌, guard, ticket_error, type_error}
use memcove.Config.{Settings}

-- command builders
abbrev pub read_command : Text → Text → Dict
read_command tenant name =
    entry (codes "op") (text (codes "read"))
      (entry (codes "tenant") (text tenant) (entry (codes "name") (text name) nil))

abbrev pub query_command : Text → Text → Dict
query_command tenant sql =
    entry (codes "op") (text (codes "query"))
      (entry (codes "tenant") (text tenant) (entry (codes "sql") (text sql) nil))

abbrev pub ingest_command : Text → Text → Text → Dict
ingest_command tenant name mode = entry (codes "op") (text (codes "ingest")) (
    entry (codes "tenant") (text tenant)
      (entry (codes "name") (text name) (entry (codes "mode") (text mode) nil)))

-- `isinstance(v, dict)`, `isinstance(v, str)`
unfoldable pub as_dict : Option Json → Option Dict
as_dict (some (dict d)) = some d
as_dict _ = none

unfoldable pub as_text : Option Json → Option Text
as_text (some (text t)) = some t
as_text _ = none

-- `env` and `sig` of the outer value, which `verify` wants to be a dict and a string
unfoldable pub envelope : Json → Option (Dict × Text)
envelope j = elim (as_dict (some j)) [
  | none ↦ none
  | some outer ↦ elim (as_dict (get outer (codes "env"))) [
    | none ↦ none
    | some env ↦ elim (as_text (get outer (codes "sig"))) [
      | none ↦ none
      | some sig ↦ some (env, sig)
    ]
  ]
]

-- `int(env.get("exp", 0))`
unfoldable pub int_of : (Text → Result Expiry) → Option Json → Result Expiry
int_of parse none = ok (at 0)
int_of parse (some (dict d)) = err type_error
int_of parse (some (text t)) = parse t
int_of parse (some (number n)) = ok (at n)
int_of parse (some (negative n)) = ok long_ago
int_of parse (some (flag true)) = ok (at 1)
int_of parse (some (flag false)) = ok (at 0)
int_of parse (some (opaque r)) = r

-- `exp < int(time.time())`
unfoldable pub is_past : Expiry → ℕ → Bool
is_past long_ago now = true
is_past (at n) now = ltb n now

unfoldable pub command_of : Option Json → Result Dict
command_of v = elim (as_dict v) [ none ↦ err ticket_error | some cmd ↦ ok cmd ]

module _ (c : Codec) (s : Settings) where
  -- `_sig`
  unfoldable pub signature : Dict → Text
  signature env = c.hmac_b64 s.flight_ticket_secret (c.canon (dict env))

  -- the envelope that `sign` makes at a time with a fresh nonce
  unfoldable pub envelope_at : ℕ → Text → Dict → Dict
  envelope_at now nonce command = entry (codes "cmd") (dict command) (
      entry (codes "exp") (number (now + s.flight_ticket_ttl_seconds))
        (entry (codes "nonce") (text nonce) nil))

  unfoldable pub sign : ℕ → Text → Dict → c.Bytes
  sign now nonce command =
      let env = envelope_at now nonce command in
      c.encode
        (dict (entry (codes "env") (dict env) (entry (codes "sig") (text (signature env)) nil)))

  -- the checks of a dict whose envelope has the right shape; `hmac.compare_digest` refuses a string
  -- that is not ASCII with a TypeError
  unfoldable pub verify_envelope : ℕ → Dict × Text → Result Dict
  verify_envelope now (env, sig) = do
    guard (is_ascii sig) type_error
    guard (text_eq sig (signature env)) ticket_error
    exp ← int_of c.int_of_text (get env (codes "exp"))
    guard (not (is_past exp now)) ticket_error
    command_of (get env (codes "cmd"))

  unfoldable pub verify : ℕ → c.Bytes → Result Dict
  verify now raw = elim (c.decode raw) [
    | none ↦ err ticket_error
    | some outer ↦ elim (envelope outer) [
      | none ↦ err ticket_error
      | some e ↦ verify_envelope now e
    ]
  ]
