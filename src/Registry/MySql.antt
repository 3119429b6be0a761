-- ===== src/Registry/MySql.antt =====
-- The statements of MySQLBackend in core/registry_backends.py, and that they do what those of the
-- other backends do.
use memcove.Common.{
  ℕ, ◌+◌, ◌≡◌, refl, ap, sym, Bool, true, false, not, List, [], ◌∷◌, ◌++◌, map, Text, contains, any,
  append_nil, arith, inl, inr, Bool-cases, if◌then◌else◌,
}
use memcove.Common.Result.{Result, ok}
use memcove.Registry.{
  Tables, ObjectRow, ObjectValues, TombstoneRow, LineageRow, at_key, new_row, updated_row,
  upsert_row, upsert_object_sql, bump_row, upsert_tombstone, parents_of, insert_lineage,
}

-- INSERT … ON DUPLICATE KEY UPDATE: the rows with the key are updated, and where there is none the
-- new row is inserted
unfoldable pub on_duplicate : {A : Type 0} → (A → Bool) → (A → A) → A → List A → List A
on_duplicate key update new rows =
    if any key rows then map (λ r. if key r then update r else r) rows else rows ++ new ∷ []

unfoldable pub mysql_upsert_object : ℕ → ObjectValues → Tables → Result Tables
mysql_upsert_object now v t = ok (record t {
  objects =
      on_duplicate (λ r. at_key v.tenant v.label r.tenant r.label) (updated_row now v)
        (new_row now v) t.objects;
})

-- INSERT IGNORE: a duplicate is left out
unfoldable pub mysql_insert_lineage : Text → Text → Text → Tables → Result Tables
mysql_insert_lineage tenant child parent t =
    let row : LineageRow = record {
      child_tenant = tenant;
      child_label = child;
      parent_label = parent;
    } in
    let fresh = if contains (parents_of tenant child t.lineage) parent then [] else row ∷ [] in
    ok (record t { lineage = t.lineage ++ fresh })

abbrev counted_again : TombstoneRow → TombstoneRow
counted_again r = record r { absent_sweeps = r.absent_sweeps + 1 }

unfoldable pub mysql_upsert_tombstone : Text → Text → Tables → Result Tables
mysql_upsert_tombstone tenant label t = ok (record t {
  tombstones =
      on_duplicate (λ r. at_key tenant label r.tenant r.label) counted_again
        (record { tenant = tenant; label = label; absent_sweeps = 1 }) t.tombstones;
})

-- at most one row has the key, as a primary key demands
unfoldable pub at_most_one : {A : Type 0} → (A → Bool) → List A → Bool
at_most_one key [] = true
at_most_one key (r ∷ rs) = let rest = at_most_one key rs in if key r then not (any key rs) else rest

-- what ON CONFLICT … DO UPDATE does
on_conflict : {A : Type 0} → (A → Bool) → (A → A) → A → List A → List A
on_conflict key update new [] = new ∷ []
on_conflict key update new (r ∷ rs) =
    let later = on_conflict key update new rs in if key r then update r ∷ rs else r ∷ later

module _ {A : Type 0} (key : A → Bool) (update : A → A) (new : A) where
  map-absent :
      (rows : List A) → any key rows ≡ false → map (λ r. if key r then update r else r) rows ≡ rows
  unfolding any
  map-absent [] h = refl
  map-absent (r ∷ rs) h = ground (arith, map-absent rs)

  conflict-duplicate :
      (rows : List A)
      → at_most_one key rows ≡ true
      → on_conflict key update new rows ≡ on_duplicate key update new rows
  unfolding on_conflict on_duplicate at_most_one any
  conflict-duplicate [] h = refl
  conflict-duplicate (r ∷ rs) h = ground (arith, conflict-duplicate rs, map-absent rs)

upsert_row-conflict :
    (now : ℕ) (v : ObjectValues) (rows : List ObjectRow)
    → upsert_row now v rows
      ≡ on_conflict
          (λ r. at_key v.tenant v.label r.tenant r.label)
          (updated_row now v)
          (new_row now v)
          rows
unfolding upsert_row on_conflict
upsert_row-conflict now v [] = refl
upsert_row-conflict now v (r ∷ rs) = ground (arith, upsert_row-conflict now v rs)

bump_row-conflict :
    (t l : Text) (rows : List TombstoneRow)
    → bump_row t l rows
      ≡ on_conflict
          (λ r. at_key t l r.tenant r.label)
          counted_again
          (record { tenant = t; label = l; absent_sweeps = 1 })
          rows
unfolding bump_row on_conflict
bump_row-conflict t l [] = refl
bump_row-conflict t l (r ∷ rs) = ground (arith, bump_row-conflict t l rs)

-- The dialects agree: on tables that keep their primary keys, each statement that MySQL has of its
-- own leaves the tables that the statement of Postgres and SQLite leaves.
pub upsert_object_sql-same :
    (now : ℕ) (v : ObjectValues) (parent : Text) (t : Tables)
    → at_most_one (λ r. at_key v.tenant v.label r.tenant r.label) t.objects ≡ true
    → at_most_one (λ r. at_key v.tenant v.label r.tenant r.label) t.tombstones ≡ true
    → (upsert_object_sql now v t ≡ mysql_upsert_object now v t)
      × (insert_lineage v.tenant v.label parent t ≡ mysql_insert_lineage v.tenant v.label parent t)
      × (upsert_tombstone v.tenant v.label t ≡ mysql_upsert_tombstone v.tenant v.label t)
unfolding upsert_object_sql mysql_upsert_object insert_lineage mysql_insert_lineage upsert_tombstone
    mysql_upsert_tombstone
upsert_object_sql-same now v parent t one once = (
  rw (upsert_row-conflict now v t.objects)
      (ap (λ q. ok (record t { objects = q })) (conflict-duplicate _ _ _ t.objects one)),
  elim (Bool-cases (contains (parents_of v.tenant v.label t.lineage) parent)) [
    | inl there ↦ rw there (ap (λ q. ok (record t { lineage = q })) (sym (append_nil t.lineage)))
    | inr fresh ↦ rw fresh refl
  ],
  rw (bump_row-conflict v.tenant v.label t.tombstones)
      (ap (λ q. ok (record t { tombstones = q })) (conflict-duplicate _ _ _ t.tombstones once)),
)
