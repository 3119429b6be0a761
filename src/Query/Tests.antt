-- ===== src/Query/Tests.antt =====
-- Queries through the toy parser, on engines with fixed rows.
use memcove.Common.{
  ℕ, ◌≡◌, ◌≤◌, refl, true, false, none, some, List, [], ◌∷◌, Text, codes, length, ap, arith,
}
use memcove.Common.Result.{ok}
use memcove.Unicode.Ascii.{ascii}
use memcove.Config.Defaults.{defaults}
use memcove.SqlGuard.{Sqlglot, GuardedQuery, literal, validate_select}
use memcove.SqlGuard.Toy.{toy, parse_words}
use memcove.Trino.{Cell, Rows, Engine, execute, other}
use memcove.Trino.Toy.{fixed}
use memcove.Query.{PreviewResult, cap_of, query_scope, wrap_preview, run_preview, run_query}
use memcove.Query.Preview.{run_preview_own_limit}

abbrev three : Engine ℕ
three = fixed ℕ ((other 1 ∷ []) ∷ (other 2 ∷ []) ∷ (other 3 ∷ []) ∷ [])

abbrev two_of_three : PreviewResult (List (Cell ℕ))
two_of_three = record {
  columns = codes "n" ∷ [];
  rows = (other 1 ∷ []) ∷ (other 2 ∷ []) ∷ [];
  row_count = 2;
  truncated = true;
}

previewed :
    run_query toy ascii three defaults (codes "t_a") (codes "a") (some 2) 7 ≡ (ok two_of_three, 7)
unfolding run_query validate_select memcove.SqlGuard.trimmed memcove.Unicode.strip_by
    memcove.Unicode.rstrip_by memcove.Unicode.lstrip_by memcove.Unicode.ascii_space
    memcove.SqlGuard.statement memcove.SqlGuard.single memcove.SqlGuard.present
    memcove.SqlGuard.validate_tree memcove.SqlGuard.is_allowed_top memcove.Common.any
    memcove.SqlGuard.is_forbidden memcove.SqlGuard.resolve_tables parse_words
    memcove.Unicode.split_on memcove.Common.filter memcove.Common.contains memcove.Common.str
    memcove.Common.text_eq cap_of memcove.Query.limited memcove.Query.preview run_preview
    wrap_preview memcove.Scratch.catalog_for memcove.Scratch.guard_params
    memcove.SqlGuard.Toy.word_table memcove.SqlGuard.add_new memcove.SqlGuard.cte_names
    memcove.SqlGuard.deny_schemas memcove.SqlGuard.note memcove.SqlGuard.resolve_schema
    memcove.SqlGuard.resolve_table memcove.SqlGuard.shared_names execute memcove.Trino.principal
    memcove.Unicode.partition
previewed = refl

-- a statement with a LIMIT of its own, on an engine that obeys a LIMIT of 2
abbrev limit_nine : Sqlglot
limit_nine = record toy { limit = λ t. some (literal 9) }

abbrev two : Engine ℕ
two = fixed ℕ ((other 1 ∷ []) ∷ (other 2 ∷ []) ∷ [])

abbrev nine : GuardedQuery
nine = record { sql = codes "a"; referenced_labels = []; scratch_labels = [] }

abbrev not_truncated : PreviewResult (List (Cell ℕ))
not_truncated = record two_of_three { truncated = false }

answered :
    run_preview limit_nine ascii two defaults (codes "t_a") nine (some 2) 7 ≡ (ok not_truncated, 7)
unfolding run_preview execute memcove.Query.preview cap_of
answered = refl

obeys :
    (result : Rows ℕ)
    → execute two defaults
        (limit_nine.render (limit_nine.with_limit (parse_words (codes "a")) 2))
        (some (codes "t_a"))
        7
      ≡ (ok result, 7)
    → length result.1 ≤ 2
unfolding execute
obeys result h =
    let same : ◌≡◌ {A = Rows ℕ} (codes "n" ∷ [], (other 1 ∷ []) ∷ (other 2 ∷ []) ∷ []) result =
      cc in
    omega (arith, ap (λ (r : Rows ℕ). length r.1) same)

run_preview_own_limit_example : not_truncated.truncated ≡ false
unfolding memcove.Unicode.rstrip_by memcove.Unicode.strip_by memcove.Unicode.lstrip_by
    memcove.Unicode.ascii_space cap_of
run_preview_own_limit_example =
    run_preview_own_limit limit_nine ascii two defaults (codes "t_a") nine (some 2)
      (parse_words (codes "a")) 9 7 7 not_truncated refl refl (omega arith) obeys answered
