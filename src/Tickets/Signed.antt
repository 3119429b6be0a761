-- ===== src/Tickets/Signed.antt =====
-- What `verify` accepts: exactly the signed envelopes that have not expired.
use memcove.Common.{
  ℕ, ◌≡◌, ◌+◌, ◌<◌, true, false, Option, none, some, Text, codes, text_eq, text_eq_refl,
  text_eq_iff, all, ap, ◌∙◌, arith, if◌then◌else◌, leb, Option-cases, inl, inr,
}
use memcove.Common.Result.{ok, err, ticket_error, Result-cases}
use memcove.Config.{Settings}
use memcove.Tickets.{
  Codec, Json, as_dict, as_text, has_key, Dict, Expiry, dict, text, number, get, is_plain, is_text,
  is_ascii, is_ascii-is_text, plain_entries, envelope, int_of, is_past, sign, signature, verify,
  envelope_at, command_of, verify_envelope,
}

as_dict-some : (v : Option Json) (d : Dict) → as_dict v ≡ some d → v ≡ some (dict d)
unfolding as_dict
as_dict-some none d h = cc
as_dict-some (some (dict e)) d h = cc
as_dict-some (some (text t)) d h = cc
as_dict-some (some (number n)) d h = cc
as_dict-some (some (Json.negative n)) d h = cc
as_dict-some (some (Json.flag b)) d h = cc
as_dict-some (some (Json.opaque r)) d h = cc

as_text-some : (v : Option Json) (t : Text) → as_text v ≡ some t → v ≡ some (text t)
unfolding as_text
as_text-some none t h = cc
as_text-some (some (dict e)) t h = cc
as_text-some (some (text s)) t h = cc
as_text-some (some (number n)) t h = cc
as_text-some (some (Json.negative n)) t h = cc
as_text-some (some (Json.flag b)) t h = cc
as_text-some (some (Json.opaque r)) t h = cc

some_injective : {A : Type 0} (a b : A) → some a ≡ some b → a ≡ b
some_injective a b h = cc

envelope-some :
    (j : Json) (env : Dict) (sig : Text)
    → envelope j ≡ some (env, sig)
    → (outer : Dict) × (j ≡ dict outer)
      × (get outer (codes "env") ≡ some (dict env))
      × (get outer (codes "sig") ≡ some (text sig))
unfolding envelope
envelope-some j env sig h = elim (Option-cases (as_dict (some j))) [
  | inl e ↦ absurd (ground arith)
  | inr (outer, e) ↦ elim (Option-cases (as_dict (get outer (codes "env")))) [
    | inl f ↦ absurd (ground arith)
    | inr (d, f) ↦ elim (Option-cases (as_text (get outer (codes "sig")))) [
      | inl g ↦ absurd (ground arith)
      | inr (t, g) ↦ (
        outer,
        some_injective j (dict outer) (as_dict-some (some j) outer e),
        as_dict-some (get outer (codes "env")) env (ground arith),
        as_text-some (get outer (codes "sig")) sig (ground arith),
      )
    ]
  ]
]

module _ (c : Codec) (s : Settings) where
  signature-ascii : (env : Dict) → is_ascii (signature c s env) ≡ true
  unfolding signature
  signature-ascii env = c.hmac_ascii s.flight_ticket_secret (c.canon (dict env))

  decode-sign :
      (now : ℕ) (nonce : Text) (cmd : Dict)
      → plain_entries cmd ≡ true
      → is_text nonce ≡ true
      → now + s.flight_ticket_ttl_seconds < 9223372036854775808
      → c.decode (sign c s now nonce cmd)
        ≡ some (
            dict (
              Dict.entry (codes "env") (dict (envelope_at c s now nonce cmd)) (
                Dict.entry
                  (codes "sig")
                  (text (signature c s (envelope_at c s now nonce cmd)))
                  Dict.nil)))
  unfolding sign is_plain plain_entries has_key envelope_at is_text all text_eq signature
  decode-sign now nonce cmd p q r = c.decode-encode _ (
      ground (
        arith,
        is_ascii-is_text (signature c s (envelope_at c s now nonce cmd))
            (signature-ascii (envelope_at c s now nonce cmd)),
      ))

  verify_envelope-sign :
      (now later : ℕ) (nonce : Text) (cmd : Dict)
      → verify_envelope c s later
          (envelope_at c s now nonce cmd, signature c s (envelope_at c s now nonce cmd))
        ≡ (if leb later (now + s.flight_ticket_ttl_seconds) then ok cmd else err ticket_error)
  unfolding verify_envelope get envelope_at int_of command_of as_dict is_past text_eq
  verify_envelope-sign now later nonce cmd =
      rw
        (
          signature-ascii (envelope_at c s now nonce cmd),
          text_eq_refl (signature c s (envelope_at c s now nonce cmd)),
        )
        (ground arith)

  -- A signed ticket is a round trip until it expires: up to the last second of its life its
  -- verification gives the command back, and from then on it is refused.
  pub verify-sign :
      (now later : ℕ) (nonce : Text) (cmd : Dict)
      → plain_entries cmd ≡ true
      → is_text nonce ≡ true
      → now + s.flight_ticket_ttl_seconds < 9223372036854775808
      → verify c s later (sign c s now nonce cmd)
        ≡ (if leb later (now + s.flight_ticket_ttl_seconds) then ok cmd else err ticket_error)
  unfolding verify envelope get as_dict as_text text_eq
  verify-sign now later nonce cmd p q r =
      rw (decode-sign now nonce cmd p q r, verify) (verify_envelope-sign now later nonce cmd)

  accepted :
      (now : ℕ) (env : Dict) (sig : Text) (cmd : Dict)
      → verify_envelope c s now (env, sig) ≡ ok cmd
      → (exp : Expiry) × (text_eq sig (signature c s env) ≡ true)
        × (as_dict (get env (codes "cmd")) ≡ some cmd)
        × (int_of c.int_of_text (get env (codes "exp")) ≡ ok exp)
        × (is_past exp now ≡ false)
  unfolding verify_envelope command_of
  accepted now env sig cmd h = elim (Result-cases (int_of c.int_of_text (get env (codes "exp")))) [
    | inl (exp, e) ↦ elim (Option-cases (as_dict (get env (codes "cmd")))) [
      | inl f ↦ absurd (ground arith)
      | inr (d, f) ↦ (exp, ground arith, ground arith, e, ground arith)
    ]
    | inr (x, e) ↦ absurd (ground arith)
  ]

  -- A ticket that is accepted, whoever made the bytes, holds an envelope with the accepted
  -- command, the signature of that very envelope under the server's secret, and an expiry that
  -- has not passed.
  pub verify-authentic :
      (now : ℕ) (raw : c.Bytes) (cmd : Dict)
      → verify c s now raw ≡ ok cmd
      → (outer env : Dict) × (exp : Expiry) × (c.decode raw ≡ some (dict outer))
        × (get outer (codes "env") ≡ some (dict env))
        × (get outer (codes "sig") ≡ some (text (signature c s env)))
        × (get env (codes "cmd") ≡ some (dict cmd))
        × (int_of c.int_of_text (get env (codes "exp")) ≡ ok exp)
        × (is_past exp now ≡ false)
  unfolding verify verify_envelope command_of
  verify-authentic now raw cmd h = elim (Option-cases (c.decode raw)) [
    | inl e ↦ absurd (ground arith)
    | inr (j, e) ↦ elim (Option-cases (envelope j)) [
      | inl f ↦ absurd (ground arith)
      | inr ((env, sig), f) ↦
          let (outer, isdict, has_env, has_sig) = envelope-some j env sig f in
          let checked : verify_envelope c s now (env, sig) ≡ ok cmd = ground arith in
          let (exp, sigs, has_cmd, has_exp, alive) = accepted now env sig cmd checked in
          (
            outer,
            env,
            exp,
            cc,
            has_env,
            has_sig ∙ ap (λ g. some (text g)) ((text_eq_iff sig (signature c s env)).0 sigs),
            as_dict-some (get env (codes "cmd")) cmd has_cmd,
            has_exp,
            alive,
          )
    ]
  ]
