-- ===== src/Query/Preview.antt =====
-- The rows of a preview.
use memcove.Common.{
  ℕ, ◌≡◌, ◌≤◌, ◌<◌, refl, subst, ap, false, Option, none, some, List, Text, length, take,
  length-take, ltb, arith, zero, suc, ◌==◌,
}
use memcove.Common.Result.{ok}
use memcove.Common.Exec.{pure, lift, >>=-returns}
use memcove.Unicode.{Unicode, strip_by, rstrip_by}
use memcove.Config.{Settings}
use memcove.SqlGuard.{Sqlglot, GuardedQuery, literal, validate_select}
use memcove.Trino.{Engine, Cell, Rows, execute}
use memcove.Query.{
  PreviewResult, cap_of, query_scope, preview, wrap_preview, limited, run_preview, run_query,
}

cap_of-le : (s : Settings) (limit : Option ℕ) → cap_of s limit ≤ s.preview_row_cap
unfolding cap_of
cap_of-le s none = omega arith
cap_of-le s (some zero) = omega arith
cap_of-le s (some (suc n)) = omega arith

-- the result is a start of the rows, within a bound, and says of itself what it left out
abbrev pub IsPreview : {Row : Type 0} → ℕ → ℕ → List Row → PreviewResult Row → Type 0
IsPreview cap bound rows r =
    (r.rows ≡ take cap rows)
    × (r.row_count ≡ length r.rows)
    × (length r.rows ≤ bound)
    × (r.truncated ≡ ltb (length r.rows) (length rows))

module _ (g : Sqlglot) (u : Unicode) where
  preview-IsPreview :
      {Row : Type 0} (cap bound : ℕ) (columns : List Text) (rows : List Row)
      → cap ≤ bound
      → IsPreview cap bound rows (preview g u cap (columns, rows))
  unfolding preview
  preview-IsPreview cap bound columns rows h =
      let counted = length-take cap rows in
      (refl, omega (arith, counted), omega (arith, counted, h), rw counted (ground arith))

  module _ {L : Type 0} (e : Engine L) (s : Settings) (tenant : Text) where
    pub run_preview-returns :
        (q : GuardedQuery) (limit : Option ℕ) (w w' : L) (r : PreviewResult (List (Cell e.Other)))
        → run_preview g u e s tenant q limit w ≡ (ok r, w')
        → (result : Rows e.Other) × (execute e s
              (wrap_preview g u q.sql (cap_of s limit))
              (some tenant)
              w
            ≡ (ok result, w'))
          × (preview g u (cap_of s limit) result ≡ r)
    unfolding run_preview
    run_preview-returns q limit w w' r h =
        let (result, mid, ran, last) =
          >>=-returns (execute e s (wrap_preview g u q.sql (cap_of s limit)) (some tenant))
            (λ result. pure (preview g u (cap_of s limit) result)) w w' r h in
        let same : mid ≡ w' = cc in
        (
          result,
          subst
              (λ m.
                execute e s (wrap_preview g u q.sql (cap_of s limit)) (some tenant) w
                ≡ (ok result, m))
              same ran,
          cc,
        )

    -- A query that returns was accepted by the guard for the caller's scope and ran, as the
    -- caller, as the preview of the guarded SQL. It returns a start of the engine's rows, no more
    -- than the configured cap allows, whatever limit was asked for; row_count is their number; and
    -- truncated says exactly that rows of the engine were left out.
    pub run_query-Preview :
        (sql : Text) (limit : Option ℕ) (w w' : L) (r : PreviewResult (List (Cell e.Other)))
        → run_query g u e s tenant sql limit w ≡ (ok r, w')
        → (q : GuardedQuery) × (result : Rows e.Other) × (validate_select g u
              (query_scope s tenant)
              sql
            ≡ ok q)
          × (execute e s (wrap_preview g u q.sql (cap_of s limit)) (some tenant) w
              ≡ (ok result, w'))
          × IsPreview (cap_of s limit) s.preview_row_cap result.1 r
    unfolding run_query
    run_query-Preview sql limit w w' r h =
        let (q, mid, accepted, rest) =
          >>=-returns (lift (validate_select g u (query_scope s tenant) sql))
            (λ q. run_preview g u e s tenant q limit) w w' r h in
        let same : mid ≡ w = cc in
        let (result, ran, made) =
          run_preview-returns q limit w w' r
            (subst (λ m. run_preview g u e s tenant q limit m ≡ (ok r, w')) same rest) in
        (
          q,
          result,
          ap (λ p. p.0) accepted,
          ran,
          subst (IsPreview (cap_of s limit) s.preview_row_cap result.1) made (
              preview-IsPreview (cap_of s limit) s.preview_row_cap result.0 result.1
                (cap_of-le s limit)),
        )

    limited-literal :
        (tree : g.Tree) (cap k : ℕ)
        → cap < k
        → limited g u tree cap (some (literal k)) ≡ g.with_limit tree cap
    unfolding limited
    limited-literal tree cap k h = ground arith

    wrapped :
        (q : GuardedQuery) (tree : g.Tree) (k cap : ℕ)
        → g.parse_one (rstrip_by (λ c. c == b';') (strip_by u.is_space q.sql)) ≡ some tree
        → g.limit tree ≡ some (literal k)
        → cap < k
        → wrap_preview g u q.sql cap ≡ g.render (g.with_limit tree cap)
    unfolding wrap_preview
    wrapped q tree k cap parsed own above =
        rw (parsed, wrap_preview, own) (ap g.render (limited-literal tree cap k above))

    -- A guarded query whose own LIMIT is above the cap never says that it was truncated, if the
    -- engine returns no more rows than a LIMIT allows: the preview asks for cap rows, not for one
    -- more.
    pub run_preview_own_limit :
        (q : GuardedQuery) (limit : Option ℕ) (tree : g.Tree) (k : ℕ) (w w' : L)
        (r : PreviewResult (List (Cell e.Other)))
        → g.parse_one (rstrip_by (λ c. c == b';') (strip_by u.is_space q.sql)) ≡ some tree
        → g.limit tree ≡ some (literal k)
        → cap_of s limit < k
        → ((result : Rows e.Other)
            → execute e s (g.render (g.with_limit tree (cap_of s limit))) (some tenant) w
              ≡ (ok result, w')
            → length result.1 ≤ cap_of s limit)
        → run_preview g u e s tenant q limit w ≡ (ok r, w')
        → r.truncated ≡ false
    unfolding preview
    run_preview_own_limit q limit tree k w w' r parsed own above obeys h =
        let (result, ran, made) = run_preview-returns q limit w w' r h in
        let text : wrap_preview g u q.sql (cap_of s limit)
            ≡ g.render (g.with_limit tree (cap_of s limit)) =
          wrapped q tree k (cap_of s limit) parsed own above in
        let few =
          obeys result (subst (λ t. execute e s t (some tenant) w ≡ (ok result, w')) text ran) in
        ground (arith, few)
