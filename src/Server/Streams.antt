-- ===== src/Server/Streams.antt =====
-- The tickets that the server hands out are the ones that the Flight server takes.
use memcove.Common.{
  ℕ, ◌≡◌, ◌≤◌, ◌<◌, ◌+◌, refl, sym, ap, ◌∙◌, true, [], ◌∷◌, Text, all, leb, text_eq, arith,
  if◌then◌else◌,
}
use memcove.Common.Result.{ok, err, >>=-eq-ok, ok-injective, ticket_error}
use memcove.Unicode.{Unicode, is_word}
use memcove.Config.{Settings}
use memcove.Naming.{validate_label}
use memcove.Naming.Labels.{validate_label_idem, validate_label-IsLabel, full_label-words}
use memcove.Tenancy.{Sha256}
use memcove.Tenancy.Namespace.{IsNamespace, normalize_tenant_idem, tenant_matches-words}
use memcove.Tickets.{
  Codec, Dict, is_text, plain_entries, read_command, query_command, ingest_command, sign, verify,
  get, text,
}
use memcove.Tickets.Signed.{verify-sign}
use memcove.Catalog.{TableSchema}
use memcove.Flight.{target_of, tenant_of, string_of, mode_of}
use memcove.Server.{Call, Grant, caller_tenant, open_ingest_stream}
use memcove.Server.Callers.{caller_tenant-IsNamespace}

pub is_text-words : (t : Text) → all is_word t ≡ true → is_text t ≡ true
unfolding is_text all is_word
is_text-words [] h = refl
is_text-words (c ∷ t) h = ground (arith, is_text-words t)

ingest_command-plain :
    (tenant label mode : Text)
    → is_text tenant ≡ true
    → is_text label ≡ true
    → is_text mode ≡ true
    → plain_entries (ingest_command tenant label mode) ≡ true
unfolding plain_entries memcove.Tickets.has_key text_eq is_text all
ingest_command-plain tenant label mode a b c = ground arith

pub namespace_text : (t : Text) → IsNamespace t → is_text t ≡ true
namespace_text t ns = is_text-words t (tenant_matches-words t ns.matches)

pub label_text : (u : Unicode) (raw l : Text) → validate_label u raw ≡ ok l → is_text l ≡ true
label_text u raw l h = is_text-words l (full_label-words l (validate_label-IsLabel u raw l h))

module _ (u : Unicode) (sha : Sha256) (s : Settings) where
  -- a ticket is good for its command until it expires
  pub verify-granted :
      (c : Codec) (now later : ℕ) (nonce : Text) (cmd : Dict) (ticket : c.Bytes)
      → plain_entries cmd ≡ true
      → is_text nonce ≡ true
      → later ≤ now + s.flight_ticket_ttl_seconds
      → now + s.flight_ticket_ttl_seconds < 9223372036854775808
      → ticket ≡ sign c s now nonce cmd
      → verify c s later ticket ≡ ok cmd
  verify-granted c now later nonce cmd ticket plain a alive range made =
      ap (λ t. verify c s later t) made
      ∙ verify-sign c s now later nonce cmd plain a range
      ∙ in_time later (now + s.flight_ticket_ttl_seconds) cmd alive
    where
      in_time :
          (a b : ℕ) (cmd : Dict) → a ≤ b → (if leb a b then ok cmd else err ticket_error) ≡ ok cmd
      in_time a b cmd h = ground arith

  target_of-ingest :
      (tenant label mode : Text) (schema : TableSchema)
      → IsNamespace tenant
      → validate_label u label ≡ ok label
      → target_of u s schema (ingest_command tenant label mode)
        ≡ ok (record { tenant = tenant; name = label; mode = mode; schema = schema })
  unfolding target_of get text_eq mode_of string_of tenant_of
  target_of-ingest tenant label mode schema ns valid =
      rw (normalize_tenant_idem u s tenant ns, valid) refl

  -- A granted ingest stream is one that the Flight server takes: until its ticket expires the
  -- ticket verifies, and what do_put reads of it is an upload into the namespace of the caller,
  -- under the validated name and in the mode of the request.
  pub open_ingest_stream-accepted :
      (c : Codec) (now later : ℕ) (nonce : Text) (call : Call) (name mode : Text) (grant : Grant c)
      (schema : TableSchema)
      → is_text nonce ≡ true
      → is_text mode ≡ true
      → later ≤ now + s.flight_ticket_ttl_seconds
      → now + s.flight_ticket_ttl_seconds < 9223372036854775808
      → open_ingest_stream u sha s c now nonce call name mode ≡ ok grant
      → (cmd : Dict) × (tenant label : Text) × (verify c s later grant.ticket ≡ ok cmd)
        × (caller_tenant u sha s call ≡ ok tenant)
        × (validate_label u name ≡ ok label)
        × (target_of u s schema cmd
            ≡ ok (record { tenant = tenant; name = label; mode = mode; schema = schema }))
  unfolding open_ingest_stream
  open_ingest_stream-accepted c now later nonce call name mode grant schema a b alive range h =
      let (tenant, known, h₁) = >>=-eq-ok (caller_tenant u sha s call) _ h in
      let (label, valid, h₂) = >>=-eq-ok (validate_label u name) _ h₁ in
      let ns = caller_tenant-IsNamespace u sha s call tenant known in
      let cmd = ingest_command tenant label mode in
      let plain =
        ingest_command-plain tenant label mode (namespace_text tenant ns)
          (label_text u name label valid) b in
      let made = sym (ap (λ (g : Grant c). g.ticket) (ok-injective _ grant h₂)) in
      (
        cmd,
        tenant,
        label,
        verify-granted c now later nonce cmd grant.ticket plain a alive range made,
        known,
        valid,
        target_of-ingest tenant label mode schema ns (validate_label_idem u name label valid),
      )
