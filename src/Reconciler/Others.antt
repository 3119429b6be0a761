-- ===== src/Reconciler/Others.antt =====
-- A sweep of one namespace leaves the other tenants alone, whatever fails.
use memcove.Common.{
  ◌≡◌, refl, ◌∙◌, ap, Bool, true, false, not, List, [], ◌∷◌, Text, text_eq, text_eq_iff, any,
  filter, arith,
}
use memcove.Common.Result.{Result, ok, err}
use memcove.Common.Exec.{for_each}
use memcove.Config.{Settings}
use memcove.Registry
use memcove.Registry.{
  Tables, Store, ObjectRow, TombstoneRow, ObjectValues, at_key, find_object, tags_of, parents_of,
  bump_row, upsert_tombstone, delete_tombstone, execute, query, connection,
}
use memcove.Registry.Frames.{at_key_unique, delete_object-frame, delete_object-tombstones}
use memcove.Registry.Others.{at_key_sym, upsert_object-Spares}
use memcove.Registry.Refinement.{connection-SameAt}
use memcove.Registry.Tombstones.{absences}
use memcove.Reconciler.{
  Sweep, NamespacePlan, in_store, report_with, table_exists, backfill_values, backfill_one,
  delete_row, delete_unless, delete_one, mark, limits_of, apply_plan, plan_namespace,
  sweep_namespace, contain, reconcile,
}
use memcove.Reconciler.Preserve.{
  Frame, Preserves, bind-Preserves, still-Preserves, for_each-Preserves, connection-Preserves,
  query-Preserves, execute-Preserves,
}

-- what the registry has of one object: its row, its tags, its parents and its count of absences
pub record Alike (t a : Text) (x y : Tables) : Type 0 where
  pub object : find_object t a y.objects ≡ find_object t a x.objects
  pub tags : tags_of t a y.tags ≡ tags_of t a x.tags
  pub parents : parents_of t a y.lineage ≡ parents_of t a x.lineage
  pub count : absences t a y.tombstones ≡ absences t a x.tombstones

module _ (t a : Text) where
  alike : Frame (Alike t a)
  alike = record {
    same = λ x y e. record { object = cc e; tags = cc e; parents = cc e; count = cc e };
    chain = λ x y z h k. record {
      object = k.object ∙ h.object;
      tags = k.tags ∙ h.tags;
      parents = k.parents ∙ h.parents;
      count = k.count ∙ h.count;
    };
  }

  module _ (o l : Text) (other : at_key o l t a ≡ false) where
    absences-bump_other :
        (rows : List TombstoneRow) → absences t a (bump_row o l rows) ≡ absences t a rows
    unfolding absences bump_row
    absences-bump_other [] = ground (arith, at_key_sym o l t a other)
    absences-bump_other (r ∷ rs) =
        ground (arith, absences-bump_other rs, at_key_unique o l t a r.tenant r.label other)

    absences-clear_other :
        (rows : List TombstoneRow)
        → absences t a (filter (λ r. not (at_key o l r.tenant r.label)) rows) ≡ absences t a rows
    unfolding absences filter
    absences-clear_other [] = refl
    absences-clear_other (r ∷ rs) =
        ground (arith, absences-clear_other rs, at_key_unique o l t a r.tenant r.label other)

    upsert_tombstone-Alike : (x y : Tables) → upsert_tombstone o l x ≡ ok y → Alike t a x y
    unfolding upsert_tombstone
    upsert_tombstone-Alike x y h = record {
      object = ground arith;
      tags = ground arith;
      parents = ground arith;
      count = ground (arith, absences-bump_other x.tombstones);
    }

    delete_tombstone-Alike : (x y : Tables) → delete_tombstone o l x ≡ ok y → Alike t a x y
    unfolding delete_tombstone
    delete_tombstone-Alike x y h = record {
      object = ground arith;
      tags = ground arith;
      parents = ground arith;
      count = ground (arith, absences-clear_other x.tombstones);
    }

    clear_other : Preserves (Alike t a) (in_store (Registry.clear_tombstone o l))
    unfolding Registry.clear_tombstone
    clear_other =
        execute-Preserves alike (λ now. delete_tombstone o l) (λ now. delete_tombstone-Alike)

    bump_other : Preserves (Alike t a) (in_store (Registry.bump_tombstone o l))
    unfolding Registry.bump_tombstone
    bump_other =
        execute-Preserves alike (λ now. upsert_tombstone o l) (λ now. upsert_tombstone-Alike)

    deleted-Alike :
        (s : Store) (x : Unit {0})
        → (Registry.delete_object o l s).0 ≡ ok x
        → Alike t a s.tables (Registry.delete_object o l s).1.tables
    deleted-Alike s x done =
        let (row, ts, ps, others) = delete_object-frame o l s x done in
        let (object, tags, parents) = others t a other in
        record {
          object = object;
          tags = tags;
          parents = parents;
          count = ap (absences t a) (delete_object-tombstones o l s x done);
        }

    delete_other : Preserves (Alike t a) (in_store (Registry.delete_object o l))
    unfolding Registry.delete_object
    delete_other = connection-Preserves alike _ deleted-Alike

    recorded-Alike :
        (v : ObjectValues) (s : Store) (x : Unit {0})
        → at_key v.tenant v.label t a ≡ false
        → (Registry.record_object v [] s).0 ≡ ok x
        → Alike t a s.tables (Registry.record_object v [] s).1.tables
    unfolding Registry.record_object
    recorded-Alike v s x apart done =
        let same =
          connection-SameAt t a (Registry.upsert_object v []) s x
            (upsert_object-Spares v [] t a apart) done in
        record {
          object = same.object;
          tags = same.tags;
          parents = same.parents;
          count = ap (absences t a) same.tombstones;
        }

  other_tenant : (o l : Text) → text_eq o t ≡ false → at_key o l t a ≡ false
  unfolding at_key
  other_tenant o l h = ground (arith, text_eq_iff o t, text_eq_iff t o)

  module _ (o : Text) (other : text_eq o t ≡ false) where
    backfill_other :
        (settings : Settings) (l : Text) → Preserves (Alike t a) (backfill_one settings o l)
    unfolding backfill_one backfill_values report_with Registry.record_object
    backfill_other settings l =
        let values = backfill_values settings o l in
        bind-Preserves alike (in_store (Registry.record_object values [])) _
          (connection-Preserves alike (Registry.upsert_object values []) (λ s x done.
            recorded-Alike o l (other_tenant o l other) values s x (other_tenant o l other) done))
          (λ _. still-Preserves alike _ (λ s. refl))

    delete_row_other : (l : Text) → Preserves (Alike t a) (delete_row o l)
    unfolding delete_row report_with
    delete_row_other l =
        bind-Preserves alike (in_store (Registry.delete_object o l)) _
          (delete_other o l (other_tenant o l other))
          (λ _.
            bind-Preserves alike (in_store (Registry.clear_tombstone o l)) _
              (clear_other o l (other_tenant o l other)) (λ _. still-Preserves alike _ (λ s. refl)))

    delete_unless_other : (l : Text) (b : Bool) → Preserves (Alike t a) (delete_unless o l b)
    unfolding delete_unless
    delete_unless_other l true = clear_other o l (other_tenant o l other)
    delete_unless_other l false = delete_row_other l

    table_exists-tables : (s : Sweep) → (table_exists s).1.store.tables ≡ s.store.tables
    unfolding table_exists
    table_exists-tables s = ground arith

    delete_one_other : (l : Text) → Preserves (Alike t a) (delete_one o l)
    unfolding delete_one
    delete_one_other l =
        bind-Preserves alike table_exists _ (still-Preserves alike table_exists table_exists-tables)
          (delete_unless_other l)

    apply_plan_other :
        (settings : Settings) (p : NamespacePlan) → Preserves (Alike t a) (apply_plan settings o p)
    unfolding apply_plan mark report_with
    apply_plan_other settings p =
        bind-Preserves alike (for_each (backfill_one settings o) p.backfill) _
          (for_each-Preserves alike (backfill_one settings o) p.backfill (backfill_other settings))
          (λ _.
            bind-Preserves alike _ _
              (for_each-Preserves alike (λ l. in_store (Registry.clear_tombstone o l))
                p.tombstone_clear (λ l. clear_other o l (other_tenant o l other)))
              (λ _.
                bind-Preserves alike _ _
                  (for_each-Preserves alike (λ l. in_store (Registry.bump_tombstone o l))
                    p.tombstone_bump (λ l. bump_other o l (other_tenant o l other)))
                  (λ _.
                    bind-Preserves alike (for_each (delete_one o) p.delete) _
                      (for_each-Preserves alike (delete_one o) p.delete delete_one_other)
                      (λ _. still-Preserves alike (mark o p) (λ s. refl)))))

    sweep_other :
        (settings : Settings) (listed : List Text)
        → Preserves (Alike t a) (sweep_namespace settings o listed)
    unfolding sweep_namespace Registry.labels_for_tenant Registry.tombstones_for_tenant
    sweep_other settings listed =
        bind-Preserves alike (in_store (connection (query (Registry.select_labels o)))) _
          (query-Preserves alike (Registry.select_labels o))
          (λ reg.
            bind-Preserves alike (in_store (connection (query (Registry.select_tombstones o)))) _
              (query-Preserves alike (Registry.select_tombstones o))
              (λ marks.
                apply_plan_other settings (plan_namespace (limits_of settings) listed reg marks)))

  contain-tables :
      (o : Text) (q : Result (Unit {0}) × Sweep) → (contain o q).store.tables ≡ q.1.store.tables
  contain-tables o (ok x, s) = refl
  contain-tables o (err e, s) = refl

  -- Tenants are apart: a sweep over any namespaces but this one, whatever they list, whatever the
  -- database raises and whichever tables come back, leaves every object of this tenant with the row,
  -- the tags, the parents and the count of absences that it had.
  pub reconcile-Alike :
      (settings : Settings) (namespaces : List (Text × List Text)) (s : Sweep)
      → any (λ n. text_eq n.0 t) namespaces ≡ false
      → Alike t a s.store.tables (reconcile settings namespaces s).store.tables
  unfolding reconcile any
  reconcile-Alike settings [] s apart = alike.same s.store.tables s.store.tables refl
  reconcile-Alike settings ((o, listed) ∷ rest) s apart =
      let other : text_eq o t ≡ false = ground arith in
      let swept = sweep_namespace settings o listed s in
      alike.chain s.store.tables swept.1.store.tables _ ((sweep_other o other settings listed).at s)
        (alike.chain swept.1.store.tables (contain o swept).store.tables _
          (alike.same swept.1.store.tables (contain o swept).store.tables (contain-tables o swept))
          (reconcile-Alike settings rest (contain o swept) (ground arith)))
