-- ===== src/SqlGuard.antt =====
-- core/sql_guard.py: a statement is accepted only if it reads, and every table that it names is
-- resolved to the caller's namespace, the shared reference plane or the caller's scratchpad.
mod Parser
pub mod Tables
pub mod Isolation
pub mod Labels
pub mod Rejects
pub mod Toy
mod Tests
unfoldable pub use Parser.*
use memcove.Common.{
  ℕ, ◌+◌, ◌≡◌, Bool, true, false, not, ◌&&◌, ◌||◌, Option, none, some, List, [], ◌∷◌, ◌++◌, map,
  Text, codes, ltb, ◌==◌, text_eq, contains, is_nonempty, filter, any, if◌then◌else◌,
}
use memcove.Common.Result.{Result, ok, err, ◌>>=◌, ◌>>◌, guard, sql_guard_error}
use memcove.Unicode.{Unicode, strip_by, rstrip_by}
use memcove.Config.{is_set}

abbrev pub scratch_alias : Text
scratch_alias = codes "scratch"

-- _DENY_SCHEMAS
unfoldable pub deny_schemas : List Text
deny_schemas =
    codes "information_schema"
    ∷ codes "system"
    ∷ codes "jdbc"
    ∷ codes "metadata"
    ∷ codes "sys"
    ∷ codes "pg_catalog"
    ∷ []

pub record GuardedQuery : Type 0 where
  pub sql : Text
  pub referenced_labels : List Text
  pub scratch_labels : List Text

-- the arguments of `validate_select` beside the statement; no shared schemas is the empty list
pub record Scope : Type 0 where
  pub tenant_ns : Text
  pub catalog : Text
  pub shared_schemas : List Text
  pub scratch_catalog : Option Text
  pub scratch_schema : Option Text

-- what becomes of one table: left alone, the scratchpad, or a dataset or reference table
pub data Target : Type 0 where
  cte : Target
  scratch : Text → Target
  lakehouse : Text → Target

-- `{s.strip().lower() for s in shared_schemas if s.strip()}`
unfoldable pub shared_names : Unicode → List Text → List Text
shared_names u schemas =
    map (λ s. u.lower (strip_by u.is_space s))
      (filter (λ s. is_nonempty (strip_by u.is_space s)) schemas)

-- `a or ""`, a set identifier that is None being absent
abbrev pub or_empty : Option Text → Text
or_empty none = []
or_empty (some a) = a

-- `db` is the table's schema, folded to lower case
unfoldable pub resolve_schema : Unicode → Scope → Table → Text → Result (Target × Table)
resolve_schema u c t db =
    if contains deny_schemas db
    then err sql_guard_error
    else if not (is_nonempty db) || text_eq db (u.lower c.tenant_ns)
    then ok (lakehouse (u.lower t.name), record t { db = c.tenant_ns; catalog = c.catalog })
    else if contains (shared_names u c.shared_schemas) db
    then ok (lakehouse (u.lower t.name), record t { db = db; catalog = c.catalog })
    else err sql_guard_error

-- the body of the loop over the tables
unfoldable pub resolve_table : Unicode → Scope → List Text → Table → Result (Target × Table)
resolve_table u c ctes t =
    let name = u.lower t.name in
    let db = u.lower t.db in
    let cat = u.lower t.catalog in
    if not (is_nonempty db) && not (is_nonempty cat) && contains ctes name
    then ok (cte, t)
    else if not (is_nonempty name)
    then err sql_guard_error
    else if is_set c.scratch_catalog && text_eq db scratch_alias && not (is_nonempty cat)
    then ok (
      scratch name,
      record t { db = or_empty c.scratch_schema; catalog = or_empty c.scratch_catalog },
    )
    else if is_nonempty cat && not (text_eq cat (u.lower c.catalog))
    then err sql_guard_error
    else resolve_schema u c t db

-- `if name not in names: names.append(name)`
unfoldable pub add_new : List Text → Text → List Text
add_new names name = if contains names name then names else names ++ name ∷ []

-- the tables that the loop has set so far, and the two lists that it fills
pub record Progress : Type 0 where
  pub tables : List Table
  pub referenced : List Text
  pub scratch_refs : List Text

unfoldable pub note : Progress → Target × Table → Progress
note p (cte, t) = record p { tables = p.tables ++ t ∷ [] }
note p (scratch name, t) = record p {
  tables = p.tables ++ t ∷ [];
  scratch_refs = add_new p.scratch_refs name;
}
note p (lakehouse name, t) = record p {
  tables = p.tables ++ t ∷ [];
  referenced = add_new p.referenced name;
}

unfoldable pub resolve_tables :
    Unicode → Scope → List Text → List Table → Progress → Result Progress
resolve_tables u c ctes [] p = ok p
resolve_tables u c ctes (t ∷ ts) p = do
  done ← resolve_table u c ctes t
  resolve_tables u c ctes ts (note p done)

abbrev pub no_progress : Progress
no_progress = record { tables = []; referenced = []; scratch_refs = [] }

-- `[s for s in statements if s is not None]`, and the one statement that must be left
unfoldable pub present {ℓ} : {A : Type ℓ} → List (Option A) → List A
present [] = []
present (none ∷ rest) = present rest
present (some a ∷ rest) = a ∷ present rest

unfoldable pub single {ℓ} : {A : Type ℓ} → List A → Option A
single (a ∷ []) = some a
single _ = none

-- `sql.strip().rstrip(";").strip()`
unfoldable pub trimmed : Unicode → Text → Text
trimmed u sql = strip_by u.is_space (rstrip_by (λ c. c == b';') (strip_by u.is_space sql))

module _ (g : Sqlglot) where
  -- `_cte_names`: the aliases in lower case, the empty ones left out
  unfoldable pub cte_names : Unicode → g.Tree → List Text
  cte_names u tree = map u.lower (filter is_nonempty (g.cte_aliases tree))

  -- the one statement of the text, if it parses
  unfoldable pub statement : Text → Option g.Tree
  statement text = elim (g.parse text) [ none ↦ none | some found ↦ single (present found) ]

  unfoldable pub validate_tree : Unicode → Scope → g.Tree → Result GuardedQuery
  validate_tree u c tree = do
    guard (is_allowed_top (g.top tree)) sql_guard_error
    guard (not (any is_forbidden (g.nodes tree))) sql_guard_error
    p ← resolve_tables u c (cte_names u tree) (g.tables tree) no_progress
    ok (record {
      sql = g.render (g.with_tables tree p.tables);
      referenced_labels = p.referenced;
      scratch_labels = p.scratch_refs;
    })

  validate_statement : Unicode → Scope → Option g.Tree → Result GuardedQuery
  validate_statement u c none = err sql_guard_error
  validate_statement u c (some tree) = validate_tree u c tree

  unfoldable pub validate_select : Unicode → Scope → Text → Result GuardedQuery
  unfolding validate_statement
  validate_select u c sql =
      if is_nonempty (trimmed u sql)
      then validate_statement u c (statement (trimmed u sql))
      else err sql_guard_error
