-- ===== src/SqlGuard/Labels.antt =====
-- The two lists of labels: each name once, exactly those that the statement's tables resolve to.
use memcove.Common.{
  ◌≡◌, refl, Bool, true, false, not, ◌&&◌, ◌||◌, List, [], ◌∷◌, ◌++◌, Text, text_eq, text_eq_iff,
  contains, contains-append, any, arith, some,
}
use memcove.Common.Result.{Result, ok, >>=-eq-ok}
use memcove.Unicode.{Unicode}
use memcove.SqlGuard.{
  Sqlglot, Table, Scope, Target, cte, scratch, lakehouse, GuardedQuery, Progress, no_progress,
  resolve_table, add_new, note, resolve_tables, cte_names, statement, trimmed, validate_select,
}
use memcove.SqlGuard.Isolation.{validate_select-tree, validate_tree-steps}

-- no name stands twice
abbrev pub distinct : List Text → Bool
distinct [] = true
distinct (x ∷ xs) = not (contains xs x) && distinct xs

distinct-append :
    (xs : List Text) (a : Text)
    → distinct xs ≡ true
    → contains xs a ≡ false
    → distinct (xs ++ a ∷ []) ≡ true
unfolding contains
distinct-append [] a d n = refl
distinct-append (x ∷ xs) a d n =
    ground
      (arith, distinct-append xs a, contains-append xs (a ∷ []) x, text_eq_iff a x, text_eq_iff x a)

add_new-distinct : (xs : List Text) (a : Text) → distinct xs ≡ true → distinct (add_new xs a) ≡ true
unfolding add_new
add_new-distinct xs a d = ground (arith, distinct-append xs a)

contains-add_new :
    (xs : List Text) (a n : Text) → contains (add_new xs a) n ≡ contains xs n || text_eq a n
unfolding add_new contains
contains-add_new xs a n = ground (arith, contains-append xs (a ∷ []) n, text_eq_iff a n)

-- the target is the dataset, or the scratch dataset, of this name
abbrev pub is_dataset : Text → Result (Target × Table) → Bool
is_dataset n (ok (lakehouse m, t)) = text_eq m n
is_dataset n _ = false

abbrev pub is_scratch : Text → Result (Target × Table) → Bool
is_scratch n (ok (scratch m, t)) = text_eq m n
is_scratch n _ = false

module _ (u : Unicode) (c : Scope) (ctes : List Text) (n : Text) where
  referenced-note :
      (p : Progress) (x : Target) (t : Table)
      → contains (note p (x, t)).referenced n ≡ contains p.referenced n || is_dataset n (ok (x, t))
  unfolding note
  referenced-note p cte t = ground arith
  referenced-note p (scratch m) t = ground arith
  referenced-note p (lakehouse m) t = contains-add_new p.referenced m n

  scratch_refs-note :
      (p : Progress) (x : Target) (t : Table)
      → contains (note p (x, t)).scratch_refs n
        ≡ contains p.scratch_refs n || is_scratch n (ok (x, t))
  unfolding note
  scratch_refs-note p cte t = ground arith
  scratch_refs-note p (scratch m) t = contains-add_new p.scratch_refs m n
  scratch_refs-note p (lakehouse m) t = ground arith

  resolve_tables-names :
      (ts : List Table) (p q : Progress)
      → resolve_tables u c ctes ts p ≡ ok q
      → (contains q.referenced n
          ≡ contains p.referenced n || any (λ t. is_dataset n (resolve_table u c ctes t)) ts)
        × (contains q.scratch_refs n
            ≡ contains p.scratch_refs n || any (λ t. is_scratch n (resolve_table u c ctes t)) ts)
  unfolding resolve_tables any
  resolve_tables-names [] p q h = ground arith
  resolve_tables-names (t ∷ ts) p q h =
      let ((x, t'), e, rest) = >>=-eq-ok (resolve_table u c ctes t) _ h in
      let (ds, ss) = resolve_tables-names ts (note p (x, t')) q rest in
      ground (arith, ds, ss, e, referenced-note p x t', scratch_refs-note p x t')

note-distinct :
    (p : Progress) (x : Target) (t : Table)
    → distinct p.referenced ≡ true
    → distinct p.scratch_refs ≡ true
    → (distinct (note p (x, t)).referenced ≡ true) × (distinct (note p (x, t)).scratch_refs ≡ true)
unfolding note
note-distinct p cte t d e = (d, e)
note-distinct p (scratch m) t d e = (d, add_new-distinct p.scratch_refs m e)
note-distinct p (lakehouse m) t d e = (add_new-distinct p.referenced m d, e)

resolve_tables-distinct :
    (u : Unicode) (c : Scope) (ctes : List Text) (ts : List Table) (p q : Progress)
    → resolve_tables u c ctes ts p ≡ ok q
    → distinct p.referenced ≡ true
    → distinct p.scratch_refs ≡ true
    → (distinct q.referenced ≡ true) × (distinct q.scratch_refs ≡ true)
unfolding resolve_tables
resolve_tables-distinct u c ctes [] p q h d e = ground arith
resolve_tables-distinct u c ctes (t ∷ ts) p q h d e =
    let ((x, t'), f, rest) = >>=-eq-ok (resolve_table u c ctes t) _ h in
    let (d', e') = note-distinct p x t' d e in
    resolve_tables-distinct u c ctes ts (note p (x, t')) q rest d' e'

-- The labels of an accepted statement are, each once, the names that its tables resolve to: the
-- referenced labels those of datasets and reference tables, the scratch labels those behind the
-- scratch alias, and CTE names in neither.
pub validate_select-labels :
    (g : Sqlglot) (u : Unicode) (c : Scope) (sql : Text) (q : GuardedQuery)
    → validate_select g u c sql ≡ ok q
    → (tree : g.Tree) × (statement g (trimmed u sql) ≡ some tree)
      × ((n : Text)
          → contains q.referenced_labels n
            ≡ any (λ t. is_dataset n (resolve_table u c (cte_names g u tree) t)) (g.tables tree))
      × ((n : Text)
          → contains q.scratch_labels n
            ≡ any (λ t. is_scratch n (resolve_table u c (cte_names g u tree) t)) (g.tables tree))
      × (distinct q.referenced_labels ≡ true)
      × (distinct q.scratch_labels ≡ true)
unfolding contains
validate_select-labels g u c sql q h =
    let (tree, parsed, h₁) = validate_select-tree g u c sql q h in
    let (p, loop, top, reads, last) = validate_tree-steps g u c tree q h₁ in
    let (d, e) =
      resolve_tables-distinct u c (cte_names g u tree) (g.tables tree) no_progress p loop refl
        refl in
    (
      tree,
      parsed,
      λ n.
          rw last (
            (resolve_tables-names u c (cte_names g u tree) n (g.tables tree) no_progress p loop).0),
      λ n.
          rw last (
            (resolve_tables-names u c (cte_names g u tree) n (g.tables tree) no_progress p loop).1),
      rw last d,
      rw last e,
    )
