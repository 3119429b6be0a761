-- ===== src/Query.antt =====
-- tools/query.py, with wrap_preview of core/sql_guard.py. A limit below zero is not modelled.
pub mod Preview
mod Tests
use memcove.Common.{
  ℕ, zero, suc, ◌+◌, Bool, true, false, Option, none, some, List, [], ◌∷◌, ◌++◌, Text, codes, str,
  take, length, ltb, ◌==◌, min, is_nonempty, if◌then◌else◌,
}
use memcove.Common.Exec.{Exec, pure, lift, ◌>>=◌}
use memcove.Unicode.{Unicode, strip_by, rstrip_by}
use memcove.Config.{Settings}
use memcove.SqlGuard.{Sqlglot, Scope, Limit, literal, expression, GuardedQuery, validate_select}
use memcove.Trino.{Engine, Cell, execute}
use memcove.Scratch.{guard_params}

abbrev pub query_scope : Settings → Text → Scope
query_scope s tenant = record {
  tenant_ns = tenant;
  catalog = s.trino_catalog;
  shared_schemas = s.shared_schemas;
  scratch_catalog = (guard_params s tenant).0;
  scratch_schema = (guard_params s tenant).1;
}

-- `min(limit or preview_row_cap, preview_row_cap)`
unfoldable pub cap_of : Settings → Option ℕ → ℕ
cap_of s none = s.preview_row_cap
cap_of s (some zero) = s.preview_row_cap
cap_of s (some (suc n)) = min (suc n) s.preview_row_cap

pub record PreviewResult (Row : Type 0) : Type 0 where
  pub columns : List Text
  pub rows : List Row
  pub row_count : ℕ
  pub truncated : Bool

module _ (g : Sqlglot) (u : Unicode) where
  -- the LIMIT that the preview gives a tree
  unfoldable pub limited : g.Tree → ℕ → Option Limit → g.Tree
  limited tree cap none = g.with_limit tree (cap + 1)
  limited tree cap (some expression) = g.with_limit tree cap
  limited tree cap (some (literal current)) =
      if ltb cap current then g.with_limit tree cap else tree

  unfoldable pub wrap_preview : Text → ℕ → Text
  wrap_preview validated_sql cap =
      let inner = rstrip_by (λ c. c == b';') (strip_by u.is_space validated_sql) in
      elim (g.parse_one inner) [
        | none ↦
            codes "SELECT * FROM (\n" ++ inner ++ codes "\n) AS _memcove_q LIMIT " ++ str (cap + 1)
        | some tree ↦ g.render (limited tree cap (g.limit tree))
      ]

  -- what is returned of the rows of the engine
  unfoldable pub preview : {Row : Type 0} → ℕ → List Text × List Row → PreviewResult Row
  preview cap (columns, rows) = record {
    columns = columns;
    rows = take cap rows;
    row_count = min (length rows) cap;
    truncated = ltb cap (length rows);
  }

  module _ {L : Type 0} (e : Engine L) (s : Settings) where
    -- the preview of a guarded statement, run as the tenant
    unfoldable pub run_preview :
        Text → GuardedQuery → Option ℕ → Exec L (PreviewResult (List (Cell e.Other)))
    run_preview tenant q limit = do
      result ← execute e s (wrap_preview q.sql (cap_of s limit)) (some tenant)
      pure (preview (cap_of s limit) result)

    unfoldable pub run_query : Text → Text → Option ℕ → Exec L (PreviewResult (List (Cell e.Other)))
    run_query tenant sql limit = do
      q ← lift (validate_select g u (query_scope s tenant) sql)
      run_preview tenant q limit
