-- ===== src/SqlGuard/Rejects.antt =====
-- What is refused, and what is always accepted.
use memcove.Common.{
  ◌≡◌, refl, Bool, true, false, not, ◌&&◌, ◌||◌, some, List, [], ◌∷◌, Text, text_eq, contains,
  is_nonempty, any, all, arith, Bool-cases, inl, inr,
}
use memcove.Common.Result.{Error, err, is_ok, Result-cases, sql_guard_error}
use memcove.Unicode.{Unicode}
use memcove.Config.{is_set}
use memcove.SqlGuard.{
  Sqlglot, Table, Scope, Progress, no_progress, scratch_alias, deny_schemas, shared_names,
  resolve_schema, resolve_table, note, resolve_tables, cte_names, is_allowed_top, is_forbidden,
  statement, trimmed, validate_tree, validate_select,
}

-- the reserved alias of the scratchpad, which is enabled
abbrev pub is_scratch_ref : Unicode → Scope → Table → Bool
is_scratch_ref u c t =
    is_set c.scratch_catalog
    && text_eq (u.lower t.db) scratch_alias
    && not (is_nonempty (u.lower t.catalog))

-- the schema is neither absent nor the caller's own nor a shared one
abbrev pub is_foreign_schema : Unicode → Scope → Text → Bool
is_foreign_schema u c db =
    is_nonempty db
    && not (text_eq db (u.lower c.tenant_ns))
    && not (contains (shared_names u c.shared_schemas) db)

-- The table is qualified, and by a foreign catalog, a metadata schema or a foreign schema.
abbrev pub is_foreign : Unicode → Scope → Table → Bool
is_foreign u c t =
    not (is_scratch_ref u c t)
    && ((is_nonempty (u.lower t.catalog) && not (text_eq (u.lower t.catalog) (u.lower c.catalog)))
        || (is_nonempty (u.lower t.db)
            && (contains deny_schemas (u.lower t.db) || is_foreign_schema u c (u.lower t.db))))

resolve_schema-foreign :
    (u : Unicode) (c : Scope) (t : Table) (db : Text)
    → (contains deny_schemas db || is_foreign_schema u c db) ≡ true
    → resolve_schema u c t db ≡ err sql_guard_error
unfolding resolve_schema
resolve_schema-foreign u c t db f = ground arith

resolve_table-foreign :
    (u : Unicode) (c : Scope) (ctes : List Text) (t : Table)
    → is_foreign u c t ≡ true
    → resolve_table u c ctes t ≡ err sql_guard_error
unfolding resolve_table
resolve_table-foreign u c ctes t f = ground (arith, resolve_schema-foreign u c t (u.lower t.db))

-- the loop raises nothing but SqlGuardError
resolve_schema-raises :
    (u : Unicode) (c : Scope) (t : Table) (db : Text) (e : Error)
    → resolve_schema u c t db ≡ err e
    → e ≡ sql_guard_error
unfolding resolve_schema
resolve_schema-raises u c t db e h = ground arith

resolve_table-raises :
    (u : Unicode) (c : Scope) (ctes : List Text) (t : Table) (e : Error)
    → resolve_table u c ctes t ≡ err e
    → e ≡ sql_guard_error
unfolding resolve_table
resolve_table-raises u c ctes t e h = ground (arith, resolve_schema-raises u c t (u.lower t.db) e)

resolve_tables-foreign :
    (u : Unicode) (c : Scope) (ctes : List Text) (ts : List Table) (p : Progress)
    → any (is_foreign u c) ts ≡ true
    → resolve_tables u c ctes ts p ≡ err sql_guard_error
unfolding resolve_tables any
resolve_tables-foreign u c ctes [] p f = cc
resolve_tables-foreign u c ctes (t ∷ ts) p f = elim (Bool-cases (is_foreign u c t)) [
  | inl bad ↦ rw (resolve_table-foreign u c ctes t bad)
  | inr fine ↦ elim (Result-cases (resolve_table u c ctes t)) [
    | inl (done, e) ↦ rw e (resolve_tables-foreign u c ctes ts (note p done) (ground arith))
    | inr (e, raised) ↦ ground (arith, resolve_table-raises u c ctes t e)
  ]
]

-- A statement is refused with SqlGuardError if any node of its tree writes, if its top is no
-- query, or if any of its tables is qualified by a foreign catalog, by a metadata schema or by a
-- schema that is neither the caller's nor shared nor the enabled scratch alias.
pub validate_select-rejects :
    (g : Sqlglot) (u : Unicode) (c : Scope) (sql : Text) (tree : g.Tree)
    → statement g (trimmed u sql) ≡ some tree
    → (not (is_allowed_top (g.top tree))
        || any is_forbidden (g.nodes tree)
        || any (is_foreign u c) (g.tables tree))
      ≡ true
    → validate_select g u c sql ≡ err sql_guard_error
unfolding validate_select validate_tree
validate_select-rejects g u c sql tree parsed bad =
    ground (arith, resolve_tables-foreign u c (cte_names g u tree) (g.tables tree) no_progress)

-- no schema and no catalog, but a name
abbrev pub is_bare : Unicode → Table → Bool
is_bare u t =
    not (is_nonempty (u.lower t.db))
    && not (is_nonempty (u.lower t.catalog))
    && is_nonempty (u.lower t.name)

empty_allowed : (s : Text) → is_nonempty s ≡ false → contains deny_schemas s ≡ false
unfolding contains deny_schemas text_eq
empty_allowed [] h = refl
empty_allowed (a ∷ s) h = cc

alias_nonempty : (s : Text) → is_nonempty s ≡ false → text_eq s scratch_alias ≡ false
unfolding text_eq
alias_nonempty [] h = refl
alias_nonempty (a ∷ s) h = cc

resolve_table-bare :
    (u : Unicode) (c : Scope) (ctes : List Text) (t : Table)
    → is_bare u t ≡ true
    → is_ok (resolve_table u c ctes t) ≡ true
unfolding resolve_table resolve_schema
resolve_table-bare u c ctes t b =
    ground (arith, empty_allowed (u.lower t.db), alias_nonempty (u.lower t.db))

resolve_tables-bare :
    (u : Unicode) (c : Scope) (ctes : List Text) (ts : List Table) (p : Progress)
    → all (is_bare u) ts ≡ true
    → is_ok (resolve_tables u c ctes ts p) ≡ true
unfolding resolve_tables all
resolve_tables-bare u c ctes [] p b = refl
resolve_tables-bare u c ctes (t ∷ ts) p b = elim (Result-cases (resolve_table u c ctes t)) [
  | inl (done, e) ↦ rw e (resolve_tables-bare u c ctes ts (note p done) (ground arith))
  | inr (e, raised) ↦ absurd (ground (arith, resolve_table-bare u c ctes t))
]

-- A read-only query over bare names is always accepted, whatever the scope.
pub validate_select-accepts_bare :
    (g : Sqlglot) (u : Unicode) (c : Scope) (sql : Text) (tree : g.Tree)
    → is_nonempty (trimmed u sql) ≡ true
    → statement g (trimmed u sql) ≡ some tree
    → is_allowed_top (g.top tree) ≡ true
    → any is_forbidden (g.nodes tree) ≡ false
    → all (is_bare u) (g.tables tree) ≡ true
    → is_ok (validate_select g u c sql) ≡ true
unfolding validate_select validate_tree
validate_select-accepts_bare g u c sql tree some_text parsed top reads bare =
    ground (arith, resolve_tables-bare u c (cte_names g u tree) (g.tables tree) no_progress bare)
