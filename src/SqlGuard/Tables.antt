-- ===== src/SqlGuard/Tables.antt =====
-- Where a table may point after the loop, and what the loop keeps.
use memcove.Common.{
  ◌+◌, ◌≡◌, refl, ap, subst, true, false, not, ◌&&◌, ◌||◌, List, [], ◌∷◌, ◌++◌, Text, text_eq,
  contains, is_nonempty, length, length-append, All, All-append, arith, Bool-cases, inl, inr,
}
use memcove.Common.Result.{ok, >>=-eq-ok, ok-injective}
use memcove.Unicode.{Unicode}
use memcove.Config.{is_set}
use memcove.SqlGuard.{
  Table, Scope, Target, cte, scratch, lakehouse, Progress, deny_schemas, shared_names, or_empty,
  scratch_alias, resolve_schema, resolve_table, note, resolve_tables,
}

-- Where a table of an accepted statement points: a bare CTE name; the caller's own namespace; a
-- shared schema that is no metadata schema; the caller's scratchpad. No other place.
pub data Allowed (u : Unicode) (c : Scope) (ctes : List Text) (t : Table) : Type 0 where
  cte_name :
      u.lower t.db ≡ []
      → u.lower t.catalog ≡ []
      → contains ctes (u.lower t.name) ≡ true
      → Allowed u c ctes t
  own :
      t.catalog ≡ c.catalog
      → t.db ≡ c.tenant_ns
      → is_nonempty (u.lower t.name) ≡ true
      → Allowed u c ctes t
  reference :
      t.catalog ≡ c.catalog
      → contains (shared_names u c.shared_schemas) t.db ≡ true
      → contains deny_schemas t.db ≡ false
      → is_nonempty (u.lower t.name) ≡ true
      → Allowed u c ctes t
  scratchpad :
      is_set c.scratch_catalog ≡ true
      → t.catalog ≡ or_empty c.scratch_catalog
      → t.db ≡ or_empty c.scratch_schema
      → is_nonempty (u.lower t.name) ≡ true
      → Allowed u c ctes t

empty_of_not : (s : Text) → is_nonempty s ≡ false → s ≡ []
empty_of_not [] h = refl
empty_of_not (a ∷ s) h = cc

resolve_schema-Allowed :
    (u : Unicode) (c : Scope) (ctes : List Text) (t : Table) (db : Text) (x : Target) (t' : Table)
    → is_nonempty (u.lower t.name) ≡ true
    → resolve_schema u c t db ≡ ok (x, t')
    → Allowed u c ctes t'
unfolding resolve_schema
resolve_schema-Allowed u c ctes t db x t' named h = elim (Bool-cases (contains deny_schemas db)) [
  | inl denied ↦ absurd (ground arith)
  | inr fine ↦ elim (Bool-cases (not (is_nonempty db) || text_eq db (u.lower c.tenant_ns))) [
    | inl mine ↦ own (ground arith) (ground arith) (ground arith)
    | inr alien ↦ elim (Bool-cases (contains (shared_names u c.shared_schemas) db)) [
      | inl common ↦ reference (ground arith) (ground arith) (ground arith) (ground arith)
      | inr foreign ↦ absurd (ground arith)
    ]
  ]
]

pub resolve_table-Allowed :
    (u : Unicode) (c : Scope) (ctes : List Text) (t : Table) (x : Target) (t' : Table)
    → resolve_table u c ctes t ≡ ok (x, t')
    → Allowed u c ctes t'
unfolding resolve_table
resolve_table-Allowed u c ctes t x t' h =
    elim (Bool-cases (
      not (is_nonempty (u.lower t.db))
      && not (is_nonempty (u.lower t.catalog))
      && contains ctes (u.lower t.name))) [
        | inl bare ↦
            let d = empty_of_not (u.lower t.db) in
            let k = empty_of_not (u.lower t.catalog) in
            cte_name (ground (arith, d)) (ground (arith, k)) (ground arith)
        | inr physical ↦ elim (Bool-cases (is_nonempty (u.lower t.name))) [
          | inr unnamed ↦ absurd (ground arith)
          | inl named ↦
              elim (Bool-cases (
                is_set c.scratch_catalog
                && text_eq (u.lower t.db) scratch_alias
                && not (is_nonempty (u.lower t.catalog)))) [
                  | inl pad ↦ scratchpad (ground arith) (ground arith) (ground arith) (ground arith)
                  | inr durable ↦
                      elim (Bool-cases (
                        is_nonempty (u.lower t.catalog)
                        && not (text_eq (u.lower t.catalog) (u.lower c.catalog)))) [
                          | inl foreign ↦ absurd (ground arith)
                          | inr home ↦
                              resolve_schema-Allowed u c ctes t (u.lower t.db) x t' named
                                (ground arith)
                        ]
                ]
        ]
      ]

pub tables-note :
    (p : Progress) (x : Target) (t : Table) → (note p (x, t)).tables ≡ p.tables ++ t ∷ []
unfolding note
tables-note p cte t = refl
tables-note p (scratch n) t = refl
tables-note p (lakehouse n) t = refl

-- the loop adds one table for each that it reads, and each points to an allowed place
pub resolve_tables-Allowed :
    (u : Unicode) (c : Scope) (ctes : List Text) (ts : List Table) (p q : Progress)
    → resolve_tables u c ctes ts p ≡ ok q
    → All (Allowed u c ctes) p.tables
    → All (Allowed u c ctes) q.tables
unfolding resolve_tables
resolve_tables-Allowed u c ctes [] p q h a =
    subst (λ (r : Progress). All (Allowed u c ctes) r.tables) (ok-injective p q h) a
resolve_tables-Allowed u c ctes (t ∷ ts) p q h a =
    let ((x, t'), e, rest) = >>=-eq-ok (resolve_table u c ctes t) _ h in
    resolve_tables-Allowed u c ctes ts (note p (x, t')) q rest (
      rw (tables-note p x t') (
        All-append (Allowed u c ctes) p.tables (t' ∷ []) a
          (resolve_table-Allowed u c ctes t x t' e, tt)))

pub length-resolve_tables :
    (u : Unicode) (c : Scope) (ctes : List Text) (ts : List Table) (p q : Progress)
    → resolve_tables u c ctes ts p ≡ ok q
    → length q.tables ≡ length p.tables + length ts
unfolding resolve_tables
length-resolve_tables u c ctes [] p q h = ground arith
length-resolve_tables u c ctes (t ∷ ts) p q h =
    let ((x, t'), e, rest) = >>=-eq-ok (resolve_table u c ctes t) _ h in
    omega (
      arith,
      length-resolve_tables u c ctes ts (note p (x, t')) q rest,
      ap length (tables-note p x t'),
      length-append p.tables (t' ∷ []),
    )
