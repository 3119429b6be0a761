-- ===== src/Server/Callers.antt =====
-- The namespace that a call works in.
use memcove.Common.{
  ◌≡◌, refl, ap, ◌∙◌, Option, none, some, Text, text_eq, text_eq_iff, ◌⊎◌, inl, inr, Bool-cases,
  arith,
}
use memcove.Common.Result.{Error, ok, err, tenancy_error, Result-cases}
use memcove.Unicode.{Unicode}
use memcove.Config.{Settings}
use memcove.Tenancy.{Sha256, normalize_tenant}
use memcove.Tenancy.Claims.{resolve_tenant_from_claims-IsNamespace}
use memcove.Tenancy.Modes.{resolve_tenant-IsNamespace}
use memcove.Tenancy.Namespace.{IsNamespace}
use memcove.Catalog.{Iceberg}
use memcove.Trino.{Engine}
use memcove.Objects.{describe_object}
use memcove.World.{World}
use memcove.Server.{
  Call, caller_tenant, claimed, authorized_tenant, as_authorized, dataset_resource,
}

module _ (u : Unicode) (sha : Sha256) (s : Settings) where
  claimed-IsNamespace :
      (token : Option (Option _)) (ns : Text) → claimed u sha s token ≡ ok ns → IsNamespace ns
  unfolding claimed
  claimed-IsNamespace none ns h = absurd (cc)
  claimed-IsNamespace (some none) ns h = absurd (cc)
  claimed-IsNamespace (some (some claims)) ns h =
      resolve_tenant_from_claims-IsNamespace u sha s claims ns h

  -- the caller of a call is a namespace, with OAuth or without it
  pub caller_tenant-IsNamespace :
      (call : Call) (ns : Text) → caller_tenant u sha s call ≡ ok ns → IsNamespace ns
  unfolding caller_tenant
  caller_tenant-IsNamespace call ns h = elim (Bool-cases s.oauth_enabled) [
    | inl on ↦ claimed-IsNamespace call.token ns (ground arith)
    | inr off ↦ resolve_tenant-IsNamespace u sha s call.headers ns (ground arith)
  ]

  authorized_tenant-cases :
      (call : Call) (uri : Text)
      → ((ns : Text) × (authorized_tenant u sha s call uri ≡ ok ns)
          × (caller_tenant u sha s call ≡ ok ns)
          × (normalize_tenant u s (some uri) ≡ ok ns))
        ⊎ ((e : Error) × (authorized_tenant u sha s call uri ≡ err e))
  unfolding authorized_tenant
  authorized_tenant-cases call uri = elim (Result-cases (caller_tenant u sha s call)) [
    | inr (e, failed) ↦ inr (e, ground arith)
    | inl (ns, known) ↦ elim (Result-cases (normalize_tenant u s (some uri))) [
      | inr (e, failed) ↦ inr (e, ground arith)
      | inl (named, norm) ↦ elim (Bool-cases (text_eq named ns)) [
        | inl same ↦ inl (ns, ground arith, known, norm ∙ ap ok ((text_eq_iff named ns).0 same))
        | inr other ↦ inr (tenancy_error, ground arith)
      ]
    ]
  ]

  module _ (Row : Type 0) (ice : Iceberg Row) (e : Engine ice.Lake) where
    -- A dataset resource answers for its caller alone: either the tenant in the URI is the
    -- namespace that the call's own identity resolves to, and the answer is what describe gives in
    -- that namespace; or the call raises, and neither the lakehouse nor the registry was touched.
    pub dataset_resource-own :
        (call : Call) (uri name : Text) (w : World ice.Lake)
        → ((ns : Text) × IsNamespace ns
            × (caller_tenant u sha s call ≡ ok ns)
            × (normalize_tenant u s (some uri) ≡ ok ns)
            × (dataset_resource u sha s Row ice e call uri name w
                ≡ describe_object Row ice e u s ns name w))
          ⊎ ((raised : Error) × (dataset_resource u sha s Row ice e call uri name w
                ≡ (err raised, w)))
    unfolding dataset_resource as_authorized
    dataset_resource-own call uri name w = elim (authorized_tenant-cases call uri) [
      | inl (ns, given, known, norm) ↦ inl (
        ns,
        caller_tenant-IsNamespace call ns known,
        known,
        norm,
        rw (given, dataset_resource, as_authorized) refl,
      )
      | inr (raised, refused) ↦ inr (raised, rw (refused, dataset_resource, as_authorized) refl)
    ]
