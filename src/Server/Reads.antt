-- ===== src/Server/Reads.antt =====
-- A ticket to download streams what it was granted for.
use memcove.Common.{
  ℕ, ◌≡◌, ◌≤◌, ◌<◌, ◌+◌, ◌⊎◌, refl, sym, ap, ◌∙◌, true, false, not, Option, [], Text, all, text_eq,
  arith, inl, inr, Bool-cases,
}
use memcove.Common.Result.{
  Result, ok, err, ◌>>=◌, >>=-eq-ok, guard, ok-injective, value_error, Result-cases,
}
use memcove.Unicode.{Unicode}
use memcove.Config.{Settings, is_set, or_else}
use memcove.Naming.{validate_label}
use memcove.Naming.Labels.{validate_label_idem}
use memcove.Tenancy.{Sha256}
use memcove.Tenancy.Namespace.{IsNamespace, normalize_tenant_idem}
use memcove.SqlGuard.{Sqlglot, GuardedQuery, validate_select}
use memcove.Tickets.{
  Codec, Dict, is_text, plain_entries, has_key, read_command, query_command, sign, verify, get,
}
use memcove.Flight.{
  do_get, validated_query, requested_sql, select_all, read_scope, as_flight_error, tenant_of,
  string_of,
}
use memcove.Server.{Call, Grant, caller_tenant, stream_command, stream_dataset, same_bool}
use memcove.Server.Callers.{caller_tenant-IsNamespace}
use memcove.Server.Streams.{namespace_text, label_text, verify-granted}

read_command-plain :
    (tenant label : Text)
    → is_text tenant ≡ true
    → is_text label ≡ true
    → plain_entries (read_command tenant label) ≡ true
unfolding plain_entries has_key text_eq is_text all
read_command-plain tenant label a b = ground arith

query_command-plain :
    (tenant sql : Text)
    → is_text tenant ≡ true
    → is_text sql ≡ true
    → plain_entries (query_command tenant sql) ≡ true
unfolding plain_entries has_key text_eq is_text all
query_command-plain tenant sql a b = ground arith

reassociated :
    {Stream : Type 0} (v : Result GuardedQuery) (tenant : Text)
    (stream : Text → Text → Result Stream)
    → as_flight_error (
        ◌>>=◌ {X = Text × Text}
          (◌>>=◌ {Y = Text × Text} v (λ q. ok (tenant, q.sql)))
          (λ p. stream p.1 p.0))
      ≡ as_flight_error (v >>= λ q. stream q.sql tenant)
reassociated (ok q) tenant stream = refl
reassociated (err e) tenant stream = refl

module _ (u : Unicode) (sha : Sha256) (s : Settings) (g : Sqlglot) where
  -- what the Flight server streams for a tenant and a statement
  abbrev pub Streamed :
      {Stream : Type 0} → (Text → Text → Result Stream) → Text → Text → Result Stream
  Streamed stream tenant asked =
      as_flight_error (validate_select g u (read_scope s tenant) asked >>= λ q. stream q.sql tenant)

  do_get-read :
      {Stream : Type 0} (c : Codec) (stream : Text → Text → Result Stream) (now : ℕ)
      (ticket : c.Bytes) (tenant label : Text)
      → verify c s now ticket ≡ ok (read_command tenant label)
      → IsNamespace tenant
      → validate_label u label ≡ ok label
      → do_get g u s c stream now ticket ≡ Streamed stream tenant (select_all label)
  unfolding do_get validated_query requested_sql get text_eq string_of tenant_of
  do_get-read c stream now ticket tenant label known ns valid =
      rw (known, normalize_tenant_idem u s tenant ns, valid)
        (reassociated (validate_select g u (read_scope s tenant) (select_all label)) tenant stream)

  do_get-query :
      {Stream : Type 0} (c : Codec) (stream : Text → Text → Result Stream) (now : ℕ)
      (ticket : c.Bytes) (tenant sql : Text)
      → verify c s now ticket ≡ ok (query_command tenant sql)
      → IsNamespace tenant
      → do_get g u s c stream now ticket ≡ Streamed stream tenant sql
  unfolding do_get validated_query requested_sql get text_eq string_of tenant_of
  do_get-query c stream now ticket tenant sql known ns =
      rw (known, normalize_tenant_idem u s tenant ns)
        (reassociated (validate_select g u (read_scope s tenant) sql) tenant stream)

  -- what a request asks to stream: a whole data set, or a statement
  abbrev pub Asked : Option Text → Option Text → Text → Type 0
  Asked name sql asked =
      ((label : Text) × (is_set name ≡ true)
        × (validate_label u (or_else name []) ≡ ok label)
        × (asked ≡ select_all label))
      ⊎ ((is_set name ≡ false) × (asked ≡ or_else sql []))

  stream_command-cases :
      (c : Codec) (tenant : Text) (name sql : Option Text) (cmd : Dict)
      → stream_command u sha s c g tenant name sql ≡ ok cmd
      → ((label : Text) × (is_set name ≡ true)
          × (validate_label u (or_else name []) ≡ ok label)
          × (cmd ≡ read_command tenant label))
        ⊎ ((is_set name ≡ false) × (cmd ≡ query_command tenant (or_else sql [])))
  unfolding stream_command
  stream_command-cases c tenant name sql cmd h = elim (Bool-cases (is_set name)) [
    | inl named ↦ elim (Result-cases (validate_label u (or_else name []))) [
      | inl (label, valid) ↦ inl (label, named, valid, ground arith)
      | inr (e, bad) ↦ absurd (ground arith)
    ]
    | inr unnamed ↦
        elim (Result-cases (validate_select g u (read_scope s tenant) (or_else sql []))) [
          | inl (q, good) ↦ inr (unnamed, ground arith)
          | inr (e, bad) ↦ absurd (ground arith)
        ]
  ]

  command_streams :
      {Stream : Type 0} (c : Codec) (stream : Text → Text → Result Stream) (now later : ℕ)
      (nonce tenant : Text) (name sql : Option Text) (cmd : Dict) (ticket : c.Bytes)
      → is_text nonce ≡ true
      → is_text (or_else sql []) ≡ true
      → later ≤ now + s.flight_ticket_ttl_seconds
      → now + s.flight_ticket_ttl_seconds < 9223372036854775808
      → IsNamespace tenant
      → stream_command u sha s c g tenant name sql ≡ ok cmd
      → ticket ≡ sign c s now nonce cmd
      → (asked : Text) × Asked name sql asked
        × (do_get g u s c stream later ticket ≡ Streamed stream tenant asked)
  command_streams c stream now later nonce tenant name sql cmd ticket a b alive range ns h made =
      elim (stream_command-cases c tenant name sql cmd h) [
        | inl (label, named, valid, reads) ↦
            let signed = made ∙ ap (sign c s now nonce) reads in
            let plain =
              read_command-plain tenant label (namespace_text tenant ns)
                (label_text u (or_else name []) label valid) in
            let known =
              verify-granted u sha s c now later nonce (read_command tenant label) ticket plain a
                alive range signed in
            (
              select_all label,
              inl (label, named, valid, refl),
              do_get-read c stream later ticket tenant label known ns
                  (validate_label_idem u (or_else name []) label valid),
            )
        | inr (unnamed, queries) ↦
            let asked = or_else sql [] in
            let signed = made ∙ ap (sign c s now nonce) queries in
            let plain = query_command-plain tenant asked (namespace_text tenant ns) b in
            let known =
              verify-granted u sha s c now later nonce (query_command tenant asked) ticket plain a
                alive range signed in
            (asked, inr (unnamed, refl), do_get-query c stream later ticket tenant asked known ns)
      ]

  -- A granted download streams what it was granted for: until its ticket expires, do_get of the
  -- ticket is, errors as FlightErrors, the stream of what the guard makes of the request, the
  -- whole validated data set or the statement, in the namespace of the caller of the grant.
  pub stream_dataset-streams :
      {Stream : Type 0} (c : Codec) (stream : Text → Text → Result Stream) (now later : ℕ)
      (nonce : Text) (call : Call) (name sql : Option Text) (grant : Grant c)
      → is_text nonce ≡ true
      → is_text (or_else sql []) ≡ true
      → later ≤ now + s.flight_ticket_ttl_seconds
      → now + s.flight_ticket_ttl_seconds < 9223372036854775808
      → stream_dataset u sha s c g now nonce call name sql ≡ ok grant
      → (tenant asked : Text) × (caller_tenant u sha s call ≡ ok tenant)
        × Asked name sql asked
        × (do_get g u s c stream later grant.ticket ≡ Streamed stream tenant asked)
  unfolding stream_dataset
  stream_dataset-streams c stream now later nonce call name sql grant a b alive range h =
      let (x, one, h₀) =
        >>=-eq-ok (guard (not (same_bool (is_set name) (is_set sql))) value_error) _ h in
      let (tenant, known, h₁) = >>=-eq-ok (caller_tenant u sha s call) _ h₀ in
      let (cmd, asks, h₂) = >>=-eq-ok (stream_command u sha s c g tenant name sql) _ h₁ in
      let made = sym (ap (λ (g : Grant c). g.ticket) (ok-injective _ grant h₂)) in
      let (asked, what, streamed) =
        command_streams c stream now later nonce tenant name sql cmd grant.ticket a b alive range
          (caller_tenant-IsNamespace u sha s call tenant known) asks made in
      (tenant, asked, known, what, streamed)
