-- ===== src/Reconciler/Apply.antt =====
-- What the execution of a plan can do to the metadata.
use memcove.Common.{ℕ, ◌≡◌, ◌≢◌, refl, ◌∙◌, Bool, true, false, List, [], ◌∷◌, Text, filter, arith}
use memcove.Common.Result.{Result, ok, err}
use memcove.Common.Exec.{Exec, for_each}
use memcove.Config.{Settings}
use memcove.Registry
use memcove.Registry.{
  Tables, Store, TombstoneRow, execute, query, touch, connection, delete_tombstone,
  upsert_tombstone,
}
use memcove.Reconciler.Preserve.{
  Frame, Preserves, bind-Preserves, still-Preserves, for_each-Preserves, query-Preserves,
  execute-Preserves,
}
use memcove.Reconciler.Safety.{nonempty-sort_set}
use memcove.Reconciler.{
  Sweep, NamespacePlan, Limits, in_store, limits_of, table_exists, backfill_one, delete_one, mark,
  apply_plan, sweep_namespace, sort_set, difference, plan_absent, plan_namespace,
}

-- objects, tags and lineage are as they were; the tombstones may differ
pub record Untouched (a b : Tables) : Type 0 where
  pub objects : b.objects ≡ a.objects
  pub tags : b.tags ≡ a.tags
  pub lineage : b.lineage ≡ a.lineage

pub Untouched-refl : (a b : Tables) → b ≡ a → Untouched a b
Untouched-refl a b e = record { objects = cc e; tags = cc e; lineage = cc e }

Untouched-trans : (a b c : Tables) → Untouched a b → Untouched b c → Untouched a c
Untouched-trans a b c h k = record {
  objects = k.objects ∙ h.objects;
  tags = k.tags ∙ h.tags;
  lineage = k.lineage ∙ h.lineage;
}

untouched : Frame Untouched
untouched = record { same = Untouched-refl; chain = Untouched-trans }

-- the action leaves the metadata alone, whether it returns or raises
abbrev Keeps : {A : Type 0} → Exec Sweep A → Type 0
Keeps = Preserves Untouched

delete_tombstone-Untouched :
    (t l : Text) (now : ℕ) (a b : Tables) → delete_tombstone t l a ≡ ok b → Untouched a b
unfolding delete_tombstone
delete_tombstone-Untouched t l now a b h = ground arith

upsert_tombstone-Untouched :
    (t l : Text) (now : ℕ) (a b : Tables) → upsert_tombstone t l a ≡ ok b → Untouched a b
unfolding upsert_tombstone
upsert_tombstone-Untouched t l now a b h = ground arith

clear-Keeps : (t l : Text) → Keeps (in_store (Registry.clear_tombstone t l))
unfolding Registry.clear_tombstone
clear-Keeps t l =
    execute-Preserves untouched (λ now. delete_tombstone t l) (delete_tombstone-Untouched t l)

bump-Keeps : (t l : Text) → Keeps (in_store (Registry.bump_tombstone t l))
unfolding Registry.bump_tombstone
bump-Keeps t l =
    execute-Preserves untouched (λ now. upsert_tombstone t l) (upsert_tombstone-Untouched t l)

mark-Keeps : (t : Text) (p : NamespacePlan) → Keeps (mark t p)
unfolding mark
mark-Keeps t p = still-Preserves untouched (mark t p) (λ s. refl)

answers :
    (s : Sweep) (answer : Result Bool) (rest : List (Result Bool))
    → s.exists_later ≡ answer ∷ rest
    → table_exists s ≡ (answer, record s { exists_later = rest })
unfolding table_exists
answers s answer rest e = ground arith

-- The live re-check: if `table_exists` answers anything but false, a planned deletion leaves the
-- row, the tags and the lineage in place.
pub delete_one-rechecks :
    (tenant label : Text) (s : Sweep) (answer : Result Bool) (rest : List (Result Bool))
    → s.exists_later ≡ answer ∷ rest
    → answer ≢ ok false
    → Untouched s.store.tables (delete_one tenant label s).1.store.tables
unfolding delete_one
delete_one-rechecks tenant label s (ok true) rest e n =
    rw (answers s (ok true) rest e)
      ((clear-Keeps tenant label).at (record s { exists_later = rest }))
delete_one-rechecks tenant label s (ok false) rest e n = absurd (n refl)
delete_one-rechecks tenant label s (err x) rest e n =
    rw (answers s (err x) rest e) (Untouched-refl s.store.tables s.store.tables refl)

nil-Keeps : (f : Text → Exec Sweep (Unit {0})) → Keeps (for_each f [])
unfolding for_each
nil-Keeps f = still-Preserves untouched (for_each f []) (λ s. refl)

-- a plan that neither backfills nor deletes
apply_plan-Keeps :
    (settings : Settings) (tenant : Text) (p : NamespacePlan)
    → p.backfill ≡ []
    → p.delete ≡ []
    → Keeps (apply_plan settings tenant p)
unfolding apply_plan
apply_plan-Keeps settings tenant p b d =
    let clear = λ (label : Text). in_store (Registry.clear_tombstone tenant label) in
    let bump = λ (label : Text). in_store (Registry.bump_tombstone tenant label) in
    bind-Preserves untouched (for_each (backfill_one settings tenant) p.backfill) _
      (rw b (nil-Keeps (backfill_one settings tenant)))
      λ _.
        bind-Preserves untouched (for_each clear p.tombstone_clear) _
          (for_each-Preserves untouched clear p.tombstone_clear (clear-Keeps tenant))
          λ _.
            bind-Preserves untouched (for_each bump p.tombstone_bump) _
              (for_each-Preserves untouched bump p.tombstone_bump (bump-Keeps tenant))
              λ _.
                bind-Preserves untouched (for_each (delete_one tenant) p.delete) _
                  (rw d (nil-Keeps (delete_one tenant))) (λ _. mark-Keeps tenant p)

plan-empty :
    (c : Limits) (reg : List Text) (tombstones : List (Text × ℕ))
    → ((plan_namespace c [] reg tombstones).backfill ≡ [])
      × ((plan_namespace c [] reg tombstones).delete ≡ [])
unfolding plan_namespace plan_absent sort_set difference filter
plan-empty c [] tombstones = ground arith
plan-empty c (r ∷ reg) tombstones = ground (arith, nonempty-sort_set (r ∷ reg))

-- Fail-safe: when the catalog lists nothing, be the namespace empty, unavailable or unknown, the
-- sweep of that namespace leaves every object row, every tag and every lineage edge of every
-- tenant as it was, whether it returns or raises.
pub sweep_namespace-empty_listing :
    (settings : Settings) (tenant : Text) (s : Sweep)
    → Untouched s.store.tables (sweep_namespace settings tenant [] s).1.store.tables
unfolding sweep_namespace Registry.labels_for_tenant Registry.tombstones_for_tenant
sweep_namespace-empty_listing settings tenant s =
    (bind-Preserves untouched (in_store (connection (query (Registry.select_labels tenant)))) _
        (query-Preserves untouched (Registry.select_labels tenant))
        λ reg.
          bind-Preserves untouched
            (in_store (connection (query (Registry.select_tombstones tenant)))) _
            (query-Preserves untouched (Registry.select_tombstones tenant))
            λ tombstones.
              let empty = plan-empty (limits_of settings) reg tombstones in
              apply_plan-Keeps settings tenant
                (plan_namespace (limits_of settings) [] reg tombstones) empty.0 empty.1).at
      s
