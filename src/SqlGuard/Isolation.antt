-- ===== src/SqlGuard/Isolation.antt =====
-- What an accepted statement is: one tree that reads, with every table in an allowed place.
use memcove.Common.{◌≡◌, ◌∙◌, true, false, not, some, Text, any, All, arith, Option-cases, inl, inr}
use memcove.Common.Result.{ok, >>=-eq-ok, guard, guard-ok, sql_guard_error}
use memcove.Unicode.{Unicode}
use memcove.SqlGuard.{
  Sqlglot, Scope, GuardedQuery, Progress, no_progress, is_allowed_top, is_forbidden, resolve_tables,
  cte_names, statement, trimmed, validate_tree, validate_select,
}
use memcove.SqlGuard.Tables.{Allowed, resolve_tables-Allowed, length-resolve_tables}

module _ (g : Sqlglot) (u : Unicode) (c : Scope) where
  -- what the checks of an accepted tree have shown
  pub validate_tree-steps :
      (tree : g.Tree) (q : GuardedQuery)
      → validate_tree g u c tree ≡ ok q
      → (p : Progress) × (resolve_tables u c (cte_names g u tree) (g.tables tree) no_progress
          ≡ ok p)
        × (is_allowed_top (g.top tree) ≡ true)
        × (any is_forbidden (g.nodes tree) ≡ false)
        × (q ≡ record {
          sql = g.render (g.with_tables tree p.tables);
          referenced_labels = p.referenced;
          scratch_labels = p.scratch_refs;
        })
  unfolding validate_tree
  validate_tree-steps tree q h =
      let (_, top, h₁) = >>=-eq-ok (guard (is_allowed_top (g.top tree)) sql_guard_error) _ h in
      let (_, reads, h₂) =
        >>=-eq-ok (guard (not (any is_forbidden (g.nodes tree))) sql_guard_error) _ h₁ in
      let (p, loop, last) =
        >>=-eq-ok (resolve_tables u c (cte_names g u tree) (g.tables tree) no_progress) _ h₂ in
      (
        p,
        loop,
        guard-ok _ _ _ top,
        ground (arith, guard-ok (not (any is_forbidden (g.nodes tree))) sql_guard_error tt reads),
        cc last,
      )

  pub validate_select-tree :
      (sql : Text) (q : GuardedQuery)
      → validate_select g u c sql ≡ ok q
      → (tree : g.Tree) × (statement g (trimmed u sql) ≡ some tree)
        × (validate_tree g u c tree ≡ ok q)
  unfolding validate_select
  validate_select-tree sql q h = elim (Option-cases (statement g (trimmed u sql))) [
    | inl e ↦ absurd (ground arith)
    | inr (tree, e) ↦ (tree, e, ground arith)
  ]

  -- An accepted statement is the rendering of one tree that reads, no INSERT, UPDATE, DELETE, MERGE,
  -- CREATE, DROP, ALTER, TRUNCATE or unparsed command anywhere in it, and in which every table
  -- points to the caller's namespace, to a shared schema that is no metadata schema, to the
  -- caller's scratchpad, or is a bare name of a CTE.
  pub validate_select-isolated :
      (sql : Text) (q : GuardedQuery)
      → validate_select g u c sql ≡ ok q
      → (tree out : g.Tree) × (statement g (trimmed u sql) ≡ some tree)
        × (q.sql ≡ g.render out)
        × (is_allowed_top (g.top tree) ≡ true)
        × (any is_forbidden (g.nodes out) ≡ false)
        × All (Allowed u c (cte_names g u tree)) (g.tables out)
  validate_select-isolated sql q h =
      let (tree, parsed, h₁) = validate_select-tree sql q h in
      let (p, loop, top, reads, last) = validate_tree-steps tree q h₁ in
      let out = g.with_tables tree p.tables in
      let same =
        length-resolve_tables u c (cte_names g u tree) (g.tables tree) no_progress p loop in
      let kept = g.tables_with_tables tree p.tables (omega (arith, same)) in
      (
        tree,
        out,
        parsed,
        rw last,
        top,
        g.forbidden_with_tables tree p.tables ∙ reads,
        rw kept
            (resolve_tables-Allowed u c (cte_names g u tree) (g.tables tree) no_progress p loop tt),
      )
