-- ===== src/Registry/Tombstones.antt =====
-- The tombstones of core/registry.py, and its statements where the database raises nothing.
use memcove.Common.{
  ℕ, ◌+◌, ◌≡◌, refl, false, not, List, [], ◌∷◌, Text, text_eq, text_eq_iff, text_eq_refl,
  Bool-cases, inl, inr, filter, arith, none, if◌then◌else◌,
}
use memcove.Common.Result.{Result, ok}
use memcove.Common.Exec.{Exec, ◌>>=◌}
use memcove.Registry.{
  Tables, Store, ObjectRow, TombstoneRow, at_key, find_object, bump_row, upsert_tombstone,
  delete_tombstone, delete_objects, delete_tags, delete_lineage, select_labels, select_tombstones,
  execute, connection, bump_tombstone, clear_tombstone, delete_object, labels_for_tenant,
  tombstones_for_tenant,
}
use memcove.Registry.Tags.{bind-Succeeds, execute-Succeeds}
use memcove.Registry.Total.{connection-Succeeds}
use memcove.Registry.Frames.{deleted, find-delete, find-delete_other}
use memcove.Registry.Calm.{query-Succeeds}

-- a transaction of one statement
statement-calm :
    (f : ℕ → Tables → Result Tables) (s : Store) (t : Tables)
    → s.faults ≡ []
    → f s.clock s.tables ≡ ok t
    → connection (execute f) s ≡ (ok tt, record s { tables = t })
statement-calm f s t calm e =
    connection-Succeeds (execute f) tt s (record s { tables = t }) calm
      (execute-Succeeds f s t calm e)

unfoldable pub bumped : Text → Text → Tables → Tables
bumped t l b = record b { tombstones = bump_row t l b.tombstones }

unfoldable pub cleared : Text → Text → Tables → Tables
cleared t l b = record b {
  tombstones = filter (λ r. not (at_key t l r.tenant r.label)) b.tombstones;
}

module _ (t l : Text) (s : Store) (calm : s.faults ≡ []) where
  pub bump_tombstone-calm :
      bump_tombstone t l s ≡ (ok tt, record s { tables = bumped t l s.tables })
  unfolding bump_tombstone upsert_tombstone bumped
  bump_tombstone-calm =
      statement-calm (λ now. upsert_tombstone t l) s (bumped t l s.tables) calm refl

  pub clear_tombstone-calm :
      clear_tombstone t l s ≡ (ok tt, record s { tables = cleared t l s.tables })
  unfolding clear_tombstone delete_tombstone cleared
  clear_tombstone-calm =
      statement-calm (λ now. delete_tombstone t l) s (cleared t l s.tables) calm refl

  pub delete_object-calm : delete_object t l s ≡ (ok tt, record s { tables = deleted t l s.tables })
  unfolding delete_object delete_objects delete_tags delete_lineage deleted
  delete_object-calm =
      let key = λ (a b : Text). not (at_key t l a b) in
      let one : Tables = record (s.tables) {
        objects = filter (λ r. key r.tenant r.label) s.tables.objects;
      } in
      let two : Tables = record one { tags = filter (λ r. key r.tenant r.label) s.tables.tags } in
      let three : Tables = record two {
        lineage = filter (λ r. key r.child_tenant r.child_label) s.tables.lineage;
      } in
      let mid : Store = record s { tables = one } in
      let mid' : Store = record s { tables = two } in
      let last : Store = record s { tables = three } in
      let objects : Exec Store (Unit {0}) = execute (λ now. delete_objects t l) in
      let tags : Exec Store (Unit {0}) = execute (λ now. delete_tags t l) in
      let lineage : Exec Store (Unit {0}) = execute (λ now. delete_lineage t l) in
      connection-Succeeds (objects >>= λ _. tags >>= λ _. lineage) tt s last calm (
        bind-Succeeds objects (λ _. tags >>= λ _. lineage) tt tt s mid last
          (execute-Succeeds (λ now. delete_objects t l) s one calm refl)
          (bind-Succeeds tags (λ _. lineage) tt tt mid mid' last
            (execute-Succeeds (λ now. delete_tags t l) mid two calm refl)
            (execute-Succeeds (λ now. delete_lineage t l) mid' three calm refl)))

module _ (t : Text) (s : Store) (calm : s.faults ≡ []) where
  pub labels_for_tenant-calm : labels_for_tenant t s ≡ (ok (select_labels t s.tables), s)
  unfolding labels_for_tenant
  labels_for_tenant-calm =
      connection-Succeeds _ (select_labels t s.tables) s s calm
        (query-Succeeds (select_labels t) s calm)

  pub tombstones_for_tenant-calm :
      tombstones_for_tenant t s ≡ (ok (select_tombstones t s.tables), s)
  unfolding tombstones_for_tenant
  tombstones_for_tenant-calm =
      connection-Succeeds _ (select_tombstones t s.tables) s s calm
        (query-Succeeds (select_tombstones t) s calm)

-- how often the row was absent in a row; 0 without a tombstone
unfoldable pub absences : Text → Text → List TombstoneRow → ℕ
absences t l [] = 0
absences t l (r ∷ rs) = if at_key t l r.tenant r.label then r.absent_sweeps else absences t l rs

pub absences-bump :
    (t l a : Text) (rows : List TombstoneRow)
    → absences t a (bump_row t l rows)
      ≡ (if text_eq l a then absences t a rows + 1 else absences t a rows)
unfolding absences bump_row at_key
absences-bump t l a [] = ground (arith, text_eq_refl t)
absences-bump t l a (r ∷ rs) =
    ground
      (arith, absences-bump t l a rs, text_eq_iff r.label l, text_eq_iff r.label a, text_eq_iff l a)

pub absences-clear :
    (t l a : Text) (rows : List TombstoneRow)
    → absences t a (filter (λ r. not (at_key t l r.tenant r.label)) rows)
      ≡ (if text_eq l a then 0 else absences t a rows)
unfolding absences filter at_key
absences-clear t l a [] = ground arith
absences-clear t l a (r ∷ rs) =
    ground (
      arith,
      absences-clear t l a rs,
      text_eq_iff r.label l,
      text_eq_iff r.label a,
      text_eq_iff l a,
    )

pub other_label : (t l a : Text) → text_eq l a ≡ false → at_key t l t a ≡ false
unfolding at_key
other_label t l a h = ground (arith, text_eq_iff l a, text_eq_iff a l)

-- the row of a label, after another was deleted or itself
pub find-deleted :
    (t l a : Text) (rows : List ObjectRow)
    → find_object t a (filter (λ r. not (at_key t l r.tenant r.label)) rows)
      ≡ (if text_eq l a then none else find_object t a rows)
find-deleted t l a rows = elim (Bool-cases (text_eq l a)) [
  | inl same ↦ rw (same, (text_eq_iff l a).0 same) (find-delete t a rows)
  | inr other ↦ rw other (find-delete_other t l t a (other_label t l a other) rows)
]
