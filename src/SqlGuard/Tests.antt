-- ===== src/SqlGuard/Tests.antt =====
-- The guard at concrete statements.
use memcove.Common.{
  ◌≡◌, refl, Bool, true, false, Option, none, some, List, [], ◌∷◌, ◌++◌, map, Text, codes, all, any,
  is_nonempty, contains, All, if◌then◌else◌,
}
use memcove.Common.Result.{ok, err, sql_guard_error}
use memcove.Unicode.{split_on, partition}
use memcove.Unicode.Ascii.{ascii}
use memcove.SqlGuard.{
  Sqlglot, Table, Node, Limit, Scope, GuardedQuery, is_allowed_top, is_forbidden, statement,
  trimmed, cte_names, resolve_table, validate_select,
}
use memcove.SqlGuard.Toy.{toy, word_table, render_table, render_tables, parse_words}
use memcove.SqlGuard.Tables.{Allowed}
use memcove.SqlGuard.Isolation.{validate_select-isolated}
use memcove.SqlGuard.Labels.{is_dataset, is_scratch, distinct, validate_select-labels}
use memcove.SqlGuard.Rejects.{validate_select-rejects}

abbrev acme : Scope
acme = record {
  tenant_ns = codes "t_acme";
  catalog = codes "iceberg";
  shared_schemas = codes " REF_market " ∷ [];
  scratch_catalog = some (codes "duck");
  scratch_schema = some (codes "t_acme");
}

abbrev join : Text
join = codes " Orders ref_market.prices scratch.tmp orders ; "

abbrev joined : GuardedQuery
joined = record {
  sql =
      codes
        "iceberg.t_acme.Orders iceberg.ref_market.prices duck.t_acme.tmp iceberg.t_acme.orders ";
  referenced_labels = codes "orders" ∷ codes "prices" ∷ [];
  scratch_labels = codes "tmp" ∷ [];
}

join_accepted : validate_select toy ascii acme join ≡ ok joined
unfolding validate_select trimmed memcove.Unicode.strip_by memcove.Unicode.rstrip_by
    memcove.Unicode.lstrip_by memcove.Unicode.ascii_space statement memcove.SqlGuard.single
    memcove.SqlGuard.present memcove.SqlGuard.validate_tree is_allowed_top any is_forbidden
    memcove.SqlGuard.resolve_tables parse_words split_on resolve_table memcove.Common.filter
    contains memcove.Common.text_eq word_table memcove.SqlGuard.add_new cte_names
    memcove.SqlGuard.deny_schemas memcove.SqlGuard.note memcove.SqlGuard.resolve_schema
    memcove.SqlGuard.shared_names memcove.SqlGuard.validate_statement partition
    memcove.Unicode.ascii_lower render_tables render_table
join_accepted = refl

validate_select-isolated_example :
    (tree out : List Table) × (statement toy (trimmed ascii join) ≡ some tree)
    × (joined.sql ≡ render_tables out)
    × (is_allowed_top Node.select ≡ true)
    × (any is_forbidden (Node.select ∷ Node.other ∷ []) ≡ false)
    × All (Allowed ascii acme (cte_names toy ascii tree)) out
validate_select-isolated_example = validate_select-isolated toy ascii acme join joined join_accepted

validate_select-labels_example :
    (tree : List Table) × (statement toy (trimmed ascii join) ≡ some tree)
    × ((n : Text)
        → contains joined.referenced_labels n
          ≡ any (λ t. is_dataset n (resolve_table ascii acme (cte_names toy ascii tree) t)) tree)
    × ((n : Text)
        → contains joined.scratch_labels n
          ≡ any (λ t. is_scratch n (resolve_table ascii acme (cte_names toy ascii tree) t)) tree)
    × (distinct joined.referenced_labels ≡ true)
    × (distinct joined.scratch_labels ≡ true)
validate_select-labels_example = validate_select-labels toy ascii acme join joined join_accepted

abbrev probe : Text
probe = codes "orders information_schema.tables"

abbrev probe_tree : List Table
probe_tree = parse_words probe

probe_parsed : statement toy (trimmed ascii probe) ≡ some probe_tree
unfolding statement memcove.SqlGuard.single memcove.SqlGuard.present trimmed
    memcove.Unicode.strip_by memcove.Unicode.rstrip_by memcove.Unicode.lstrip_by
    memcove.Unicode.ascii_space
probe_parsed = refl

probe_foreign : (any is_forbidden (Node.select ∷ Node.other ∷ []) ≡ false)
unfolding any is_forbidden
probe_foreign = refl

validate_select-rejects_example : validate_select toy ascii acme probe ≡ err sql_guard_error
unfolding is_allowed_top any is_forbidden parse_words split_on memcove.Common.text_eq word_table
    partition memcove.Unicode.ascii_lower contains memcove.SqlGuard.deny_schemas
validate_select-rejects_example =
    validate_select-rejects toy ascii acme probe probe_tree probe_parsed refl

abbrev bare_pair : Text
bare_pair = codes "orders returns"

bare_parsed : statement toy (trimmed ascii bare_pair) ≡ some (parse_words bare_pair)
unfolding statement memcove.SqlGuard.single memcove.SqlGuard.present trimmed
    memcove.Unicode.strip_by memcove.Unicode.rstrip_by memcove.Unicode.lstrip_by
    memcove.Unicode.ascii_space
bare_parsed = refl
