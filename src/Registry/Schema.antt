-- ===== src/Registry/Schema.antt =====
-- The four tables of core/registry_backends.py, with the collation of the tags, and the effect of each SQL statement on them.
use memcove.Common.{
  ℕ, ◌+◌, Bool, not, ◌&&◌, ◌||◌, Option, none, some, List, [], ◌∷◌, ◌++◌, map, Text, text_eq,
  text_lt, contains, is_nonempty, filter, any, ltb, if◌then◌else◌,
}
use memcove.Common.Result.{Result, ok, err, backend_error}

pub record ObjectRow : Type 0 where
  pub tenant : Text
  pub label : Text
  pub table_ident : Text
  pub source : Text
  pub source_ref : Option Text
  pub producing_sql : Option Text
  pub created_at : ℕ
  pub updated_at : ℕ

pub record TagRow : Type 0 where
  pub tenant : Text
  pub label : Text
  pub tag : Text

pub record LineageRow : Type 0 where
  pub child_tenant : Text
  pub child_label : Text
  pub parent_label : Text

pub record TombstoneRow : Type 0 where
  pub tenant : Text
  pub label : Text
  pub absent_sweeps : ℕ

pub record Tables : Type 0 where
  pub objects : List ObjectRow
  pub tags : List TagRow
  pub lineage : List LineageRow
  pub tombstones : List TombstoneRow
  -- when two tags count as the same: the collation of the column, a parameter
  pub same_tag : Text → Text → Bool

-- the six parameters of the upsert
pub record ObjectValues : Type 0 where
  pub tenant : Text
  pub label : Text
  pub table_ident : Text
  pub source : Text
  pub source_ref : Option Text
  pub producing_sql : Option Text

-- `WHERE tenant = ? AND label = ?`
unfoldable pub at_key : Text → Text → Text → Text → Bool
at_key tenant label t l = text_eq t tenant && text_eq l label

-- the row of a primary key
unfoldable pub find_object : Text → Text → List ObjectRow → Option ObjectRow
find_object tenant label [] = none
find_object tenant label (r ∷ rs) =
    if at_key tenant label r.tenant r.label then some r else find_object tenant label rs

abbrev pub updated_row : ℕ → ObjectValues → ObjectRow → ObjectRow
updated_row now v r = record r {
  table_ident = v.table_ident;
  source = v.source;
  source_ref = v.source_ref;
  producing_sql = v.producing_sql;
  updated_at = now;
}

abbrev pub new_row : ℕ → ObjectValues → ObjectRow
new_row now v = record {
  tenant = v.tenant;
  label = v.label;
  table_ident = v.table_ident;
  source = v.source;
  source_ref = v.source_ref;
  producing_sql = v.producing_sql;
  created_at = now;
  updated_at = now;
}

-- INSERT … ON CONFLICT (tenant, label) DO UPDATE
unfoldable pub upsert_row : ℕ → ObjectValues → List ObjectRow → List ObjectRow
upsert_row now v [] = new_row now v ∷ []
upsert_row now v (r ∷ rs) =
    if at_key v.tenant v.label r.tenant r.label
    then updated_row now v r ∷ rs
    else r ∷ upsert_row now v rs

unfoldable pub upsert_object_sql : ℕ → ObjectValues → Tables → Result Tables
upsert_object_sql now v t = ok (record t { objects = upsert_row now v t.objects })

unfoldable pub tags_of : Text → Text → List TagRow → List Text
tags_of tenant label rows =
    map (λ r. r.tag) (filter (λ r. at_key tenant label r.tenant r.label) rows)

unfoldable pub delete_tags : Text → Text → Tables → Result Tables
delete_tags tenant label t =
    ok (record t { tags = filter (λ r. not (at_key tenant label r.tenant r.label)) t.tags })

-- INSERT: a second row of one primary key (tenant, label, tag) is refused
unfoldable pub insert_tag : Text → Text → Text → Tables → Result Tables
insert_tag tenant label tag t =
    if any (t.same_tag tag) (tags_of tenant label t.tags)
    then err backend_error
    else ok
        (record t { tags = t.tags ++ record { tenant = tenant; label = label; tag = tag } ∷ [] })

unfoldable pub parents_of : Text → Text → List LineageRow → List Text
parents_of tenant child rows =
    map (λ r. r.parent_label) (filter (λ r. at_key tenant child r.child_tenant r.child_label) rows)

unfoldable pub delete_lineage : Text → Text → Tables → Result Tables
delete_lineage tenant child t = ok (record t {
  lineage = filter (λ r. not (at_key tenant child r.child_tenant r.child_label)) t.lineage;
})

-- INSERT … ON CONFLICT DO NOTHING
unfoldable pub insert_lineage : Text → Text → Text → Tables → Result Tables
insert_lineage tenant child parent t =
    if contains (parents_of tenant child t.lineage) parent
    then ok t
    else ok (record t {
      lineage =
          t.lineage
          ++ record { child_tenant = tenant; child_label = child; parent_label = parent } ∷ [];
    })

unfoldable pub delete_objects : Text → Text → Tables → Result Tables
delete_objects tenant label t =
    ok (record t { objects = filter (λ r. not (at_key tenant label r.tenant r.label)) t.objects })

unfoldable pub bump_row : Text → Text → List TombstoneRow → List TombstoneRow
bump_row tenant label [] = record { tenant = tenant; label = label; absent_sweeps = 1 } ∷ []
bump_row tenant label (r ∷ rs) =
    if at_key tenant label r.tenant r.label
    then record r { absent_sweeps = r.absent_sweeps + 1 } ∷ rs
    else r ∷ bump_row tenant label rs

unfoldable pub upsert_tombstone : Text → Text → Tables → Result Tables
upsert_tombstone tenant label t = ok (record t { tombstones = bump_row tenant label t.tombstones })

unfoldable pub delete_tombstone : Text → Text → Tables → Result Tables
delete_tombstone tenant label t = ok (record t {
  tombstones = filter (λ r. not (at_key tenant label r.tenant r.label)) t.tombstones;
})

-- `sorted`, and ORDER BY on a text column
unfoldable pub insert_sorted : Text → List Text → List Text
insert_sorted a [] = a ∷ []
insert_sorted a (b ∷ bs) = if text_lt b a then b ∷ insert_sorted a bs else a ∷ b ∷ bs

unfoldable pub sorted : List Text → List Text
sorted [] = []
sorted (a ∷ rest) = insert_sorted a (sorted rest)

-- ORDER BY updated_at DESC
insert_latest : ObjectRow → List ObjectRow → List ObjectRow
insert_latest r [] = r ∷ []
insert_latest r (q ∷ qs) =
    if ltb r.updated_at q.updated_at then q ∷ insert_latest r qs else r ∷ q ∷ qs

unfoldable pub latest_first : List ObjectRow → List ObjectRow
unfolding insert_latest
latest_first [] = []
latest_first (r ∷ rs) = insert_latest r (latest_first rs)

unfoldable pub select_object : Text → Text → Tables → Option ObjectRow
select_object tenant label t = find_object tenant label t.objects

unfoldable pub select_tags : Text → Text → Tables → List Text
select_tags tenant label t = sorted (tags_of tenant label t.tags)

-- with tags, only the rows that carry one of them
unfoldable pub select_objects : Text → List Text → Tables → List ObjectRow
select_objects tenant tags t = latest_first (
    filter
      (λ r.
        text_eq r.tenant tenant
        && (not (is_nonempty tags)
            || any (λ tag. any (t.same_tag tag) tags) (tags_of r.tenant r.label t.tags)))
      t.objects)

unfoldable pub select_tenant_tags : Text → Tables → List TagRow
select_tenant_tags tenant t = filter (λ r. text_eq r.tenant tenant) t.tags

unfoldable pub select_labels : Text → Tables → List Text
select_labels tenant t = map (λ r. r.label) (filter (λ r. text_eq r.tenant tenant) t.objects)

unfoldable pub select_parents : Text → Text → Tables → List Text
select_parents tenant child t = sorted (parents_of tenant child t.lineage)

unfoldable pub select_tombstones : Text → Tables → List (Text × ℕ)
select_tombstones tenant t =
    map (λ r. (r.label, r.absent_sweeps)) (filter (λ r. text_eq r.tenant tenant) t.tombstones)
