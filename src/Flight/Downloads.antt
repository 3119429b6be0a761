-- ===== src/Flight/Downloads.antt =====
-- What a download sends to the query engine.
use memcove.Common.{ℕ, ◌≡◌, ap, ◌∙◌, Option, subst, Text, codes, ◌⊎◌, inl, inr, arith}
use memcove.Common.Result.{Result, ok, err, Result-cases, >>=-eq-ok, flight_error}
use memcove.Unicode.{Unicode}
use memcove.Config.{Settings}
use memcove.Tenancy.{normalize_tenant}
use memcove.Tenancy.Namespace.{IsNamespace, normalize_tenant-IsNamespace}
use memcove.SqlGuard.{Sqlglot, GuardedQuery, validate_select}
use memcove.Tickets.{Codec, Dict, verify, get}
use memcove.Flight.{do_get, validated_query, requested_sql, read_scope, tenant_of}

module _ (g : Sqlglot) (u : Unicode) (s : Settings) where
  -- the namespace of the tenant field of a command
  abbrev pub NamedTenant : Dict → Text → Type 0
  NamedTenant cmd tenant =
      (claimed : Option Text) × (tenant_of (get cmd (codes "tenant")) ≡ ok claimed)
      × (normalize_tenant u s claimed ≡ ok tenant)

  validated_query-guarded :
      (cmd : Dict) (tenant sql : Text)
      → validated_query g u s cmd ≡ ok (tenant, sql)
      → (raw : Text) × (q : GuardedQuery) × NamedTenant cmd tenant
        × IsNamespace tenant
        × (requested_sql g u s cmd ≡ ok raw)
        × (validate_select g u (read_scope s tenant) raw ≡ ok q)
        × (q.sql ≡ sql)
  unfolding validated_query
  validated_query-guarded cmd tenant sql h =
      let (claimed, e, h₁) = >>=-eq-ok (tenant_of (get cmd (codes "tenant"))) _ h in
      let (ns, f, h₂) = >>=-eq-ok (normalize_tenant u s claimed) _ h₁ in
      let (raw, r, h₃) = >>=-eq-ok (requested_sql g u s cmd) _ h₂ in
      let (q, v, last) = >>=-eq-ok (validate_select g u (read_scope s ns) raw) _ h₃ in
      let same : ns ≡ tenant = cc in
      (
        raw,
        q,
        (claimed, e, f ∙ ap ok same),
        subst IsNamespace same (normalize_tenant-IsNamespace u s claimed ns f),
        r,
        subst (λ n. validate_select g u (read_scope s n) raw ≡ ok q) same v,
        cc,
      )

  -- the answer is the stream of a guarded statement, for the tenant of a ticket that verifies
  abbrev pub Answered :
      {Stream : Type 0}
      → (c : Codec) → (Text → Text → Result Stream)
      → ℕ
      → c.Bytes
      → Stream
      → Type 0
  Answered c stream now ticket r =
      (cmd : Dict) × (tenant raw : Text) × (q : GuardedQuery) × (do_get g u s c stream now ticket
        ≡ ok r)
      × (verify c s now ticket ≡ ok cmd)
      × NamedTenant cmd tenant
      × IsNamespace tenant
      × (requested_sql g u s cmd ≡ ok raw)
      × (validate_select g u (read_scope s tenant) raw ≡ ok q)
      × (stream q.sql tenant ≡ ok r)

  -- A download that is answered streams, as the namespace of the tenant that a verified ticket
  -- names, the SQL that the guard made of the request for that namespace alone; every other
  -- outcome is a FlightError.
  pub do_get-guarded :
      {Stream : Type 0} (c : Codec) (stream : Text → Text → Result Stream) (now : ℕ)
      (ticket : c.Bytes)
      → ((r : Stream) × Answered c stream now ticket r)
        ⊎ (do_get g u s c stream now ticket ≡ err flight_error)
  unfolding do_get
  do_get-guarded c stream now ticket = elim (Result-cases (verify c s now ticket)) [
    | inr (e, failed) ↦ inr (ground arith)
    | inl (cmd, ticket_ok) ↦ elim (Result-cases (validated_query g u s cmd)) [
      | inr (e, failed) ↦ inr (ground arith)
      | inl ((tenant, sql), query_ok) ↦ elim (Result-cases (stream sql tenant)) [
        | inr (e, failed) ↦ inr (ground arith)
        | inl (r, streamed) ↦
            let (raw, q, named, ns, asked, guarded, same) =
              validated_query-guarded cmd tenant sql query_ok in
            inl (
              r,
              (
                cmd,
                tenant,
                raw,
                q,
                ground arith,
                ticket_ok,
                named,
                ns,
                asked,
                guarded,
                rw same streamed,
              ),
            )
      ]
    ]
  ]
