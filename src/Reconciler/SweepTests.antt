-- ===== src/Reconciler/SweepTests.antt =====
-- Sweeps of a namespace, one after the other.
use memcove.Common.{
  ℕ, ◌≤◌, ◌*◌, ◌≡◌, ◌≢◌, refl, ◌⊎◌, Bool, true, false, not, ◌&&◌, arith, ◌++◌, none, some, List, [],
  ◌∷◌, Text, codes, contains, length, any, text_eq, ltb, if◌then◌else◌,
}
use memcove.Common.Result.{ok, backend_down}
use memcove.Config.Defaults.{defaults}
use memcove.Registry.{Store, ObjectRow, select_labels}
use memcove.Reconciler.{
  Sweep, SweepReport, Limits, names, sort_set, is_due, plan_namespace, sweep_namespace, delete_one,
  limits_of, reconcile,
}
use memcove.Reconciler.Safety.{may_act}
use memcove.Reconciler.Quiet.{At, Reaches}
use memcove.Reconciler.Step.{Held, after_sweep, sweep_namespace-Held}
use memcove.Reconciler.Backfill.{Backfilled}
use memcove.Reconciler.Converge.{sweep_namespace-backfills}
use memcove.Reconciler.Grace.{Missed, Missed-Held}
use memcove.Reconciler.Others.{Alike, reconcile-Alike}

abbrev listed : List Text
listed = codes "b" ∷ codes "n" ∷ []

abbrev empty_report : SweepReport
empty_report = record {
  backfilled = [];
  deleted = [];
  skipped_namespaces = [];
  capped_namespaces = [];
  errored_namespaces = [];
}

abbrev row_of : Text → ObjectRow
row_of label = record {
  tenant = codes "t_acme";
  label = label;
  table_ident = codes "iceberg.t_acme." ++ label;
  source = codes "inline";
  source_ref = none;
  producing_sql = none;
  created_at = 1;
  updated_at = 1;
}

abbrev dangling : Sweep
dangling = record {
  store = record {
    tables = record {
      objects = row_of (codes "a") ∷ row_of (codes "b") ∷ [];
      tags = [];
      lineage = [];
      tombstones = [];
      same_tag = text_eq;
    };
    clock = 9;
    faults = [];
  };
  report = empty_report;
  exists_later = ok false ∷ [];
}

dangling-At : At (codes "t_acme") (codes "a") (some (row_of (codes "a"))) 0 dangling
unfolding memcove.Registry.find_object memcove.Registry.at_key memcove.Common.text_eq
    memcove.Registry.Tombstones.absences
dangling-At = record { calm = refl; gone = (refl, tt); object = refl; count = refl }

not_listed : contains listed (codes "a") ≡ false
unfolding contains memcove.Common.text_eq
not_listed = refl

first_acts :
    may_act (limits_of defaults) listed (select_labels (codes "t_acme") dangling.store.tables)
    ≡ true
unfolding select_labels memcove.Common.filter memcove.Common.text_eq memcove.Reconciler.past_cap
    memcove.Reconciler.difference sort_set memcove.Reconciler.insert_set memcove.Common.text_lt
    contains
first_acts = refl

abbrev swept_once : Sweep
swept_once = (sweep_namespace defaults (codes "t_acme") listed dangling).1

second_acts :
    may_act (limits_of defaults) listed (select_labels (codes "t_acme") swept_once.store.tables)
    ≡ true
unfolding select_labels memcove.Common.filter sweep_namespace memcove.Registry.labels_for_tenant
    memcove.Registry.connection memcove.Registry.touch memcove.Registry.finish
    memcove.Registry.query memcove.Registry.tombstones_for_tenant memcove.Reconciler.apply_plan
    memcove.Common.Exec.for_each plan_namespace sort_set memcove.Common.text_eq
    memcove.Reconciler.insert_set memcove.Common.text_lt memcove.Reconciler.past_cap contains
    memcove.Reconciler.count_of memcove.Reconciler.difference memcove.Reconciler.intersection is_due
    memcove.Reconciler.plan_absent memcove.Reconciler.union memcove.Reconciler.backfill_one
    memcove.Reconciler.backfill_values delete_one memcove.Reconciler.delete_row
    memcove.Reconciler.delete_unless memcove.Reconciler.in_store memcove.Reconciler.mark
    memcove.Reconciler.report_with memcove.Reconciler.table_exists memcove.Registry.at_key
    memcove.Registry.bump_row memcove.Registry.delete_lineage memcove.Registry.delete_objects
    memcove.Registry.delete_tags memcove.Registry.delete_tombstone memcove.Registry.insert_tag
    memcove.Registry.select_tombstones memcove.Registry.tags_of memcove.Registry.upsert_object_sql
    memcove.Registry.upsert_row memcove.Registry.upsert_tombstone memcove.Registry.execute
    memcove.Registry.run memcove.Registry.bump_tombstone memcove.Registry.clear_tombstone
    memcove.Registry.dedupe memcove.Registry.dedupe_from memcove.Registry.delete_object
    memcove.Registry.record_object memcove.Registry.replace_tags memcove.Registry.upsert_object
second_acts = refl

first_sweep : Missed defaults (codes "t_acme") (codes "a") dangling 1 swept_once
first_sweep = Missed.sweep listed Missed.start not_listed first_acts

second_sweep :
    Missed defaults
      (codes "t_acme")
      (codes "a")
      dangling
      2
      (sweep_namespace defaults (codes "t_acme") listed swept_once).1
second_sweep = Missed.sweep listed first_sweep not_listed second_acts

sweep_namespace-Held_example :
    Reaches
      (sweep_namespace defaults (codes "t_acme") listed)
      (Held (codes "t_acme") (codes "a") (row_of (codes "a")) (
        after_sweep
          (limits_of defaults)
          (contains listed (codes "a"))
          (may_act
            (limits_of defaults)
            listed
            (select_labels (codes "t_acme") dangling.store.tables))
          0))
      dangling
sweep_namespace-Held_example =
    sweep_namespace-Held defaults (codes "t_acme") (codes "a") listed (row_of (codes "a")) 0
      dangling dangling-At

Missed-Held_example :
    Held
      (codes "t_acme")
      (codes "a")
      (row_of (codes "a"))
      (if ltb 2 2 then some 2 else none)
      (sweep_namespace defaults (codes "t_acme") listed swept_once).1
Missed-Held_example =
    Missed-Held defaults (codes "t_acme") (codes "a") (row_of (codes "a")) dangling 2
      (sweep_namespace defaults (codes "t_acme") listed swept_once).1 dangling-At (omega arith)
      (omega arith) second_sweep

-- a sweep of another namespace that meets a fault
abbrev failing : Sweep
failing = record dangling {
  store = record (dangling.store) { faults = none ∷ some backend_down ∷ [] };
}

abbrev elsewhere : List (Text × List Text)
elsewhere = (codes "t_rival", codes "a" ∷ codes "z" ∷ []) ∷ []

not_swept : any (λ (n : Text × List Text). text_eq n.0 (codes "t_acme")) elsewhere ≡ false
unfolding any text_eq
not_swept = refl

reconcile-Alike_example :
    Alike
      (codes "t_acme")
      (codes "a")
      failing.store.tables
      (reconcile defaults elsewhere failing).store.tables
reconcile-Alike_example =
    reconcile-Alike (codes "t_acme") (codes "a") defaults elsewhere failing not_swept

not_registered : At (codes "t_acme") (codes "n") none 0 dangling
unfolding memcove.Registry.find_object memcove.Registry.at_key memcove.Common.text_eq
    memcove.Registry.Tombstones.absences
not_registered = record { calm = refl; gone = (refl, tt); object = refl; count = refl }

lists_new : contains listed (codes "n") ≡ true
unfolding contains memcove.Common.text_eq
lists_new = refl

sweep_namespace-backfills_example :
    (row : ObjectRow) × (k : ℕ) × Backfilled defaults (codes "t_acme") (codes "n") row
    × Reaches
        (sweep_namespace defaults (codes "t_acme") listed)
        (At (codes "t_acme") (codes "n") (some row) k)
        dangling
sweep_namespace-backfills_example =
    sweep_namespace-backfills defaults (codes "t_acme") (codes "n") listed 0 dangling not_registered
      lists_new
