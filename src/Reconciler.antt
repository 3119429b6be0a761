-- ===== src/Reconciler.antt =====
-- reconciler.py: the sweep that brings the registry back to what the Iceberg catalog holds.
mod Plan
pub mod Safety
pub mod Sets
pub mod Quiet
pub mod Presence
pub mod Backfill
pub mod Step
pub mod Grace
pub mod Converge
pub mod Others
pub mod Preserve
pub mod Apply
mod Tests
mod SweepTests
pub use Plan.{NamespacePlan, Limits, names}
unfoldable pub use Plan.{
  insert_set, sort_set, difference, intersection, union, count_of, past_cap, is_due, plan_absent,
  plan_namespace,
}
use memcove.Common.{
  ℕ, zero, suc, ◌+◌, ◌≡◌, Bool, true, false, Option, none, some, List, [], ◌∷◌, ◌++◌, map, Text,
  codes, if◌then◌else◌,
}
use memcove.Common.Result.{Error, Result, ok, err}
use memcove.Common.Exec.{Exec, pure, ◌>>=◌, ◌>>◌, for_each, modify, continue}
use memcove.Config.{Settings}
use memcove.Registry
use memcove.Registry.{Store, ObjectValues}

pub record SweepReport : Type 0 where
  pub backfilled : List (Text × Text)
  pub deleted : List (Text × Text)
  pub skipped_namespaces : List Text
  pub capped_namespaces : List Text
  pub errored_namespaces : List Text

-- What the sweep works on: the registry, the report, and the Iceberg catalog, which other
-- processes change: `exists_later` says what each coming call of `table_exists` answers.
pub record Sweep : Type 0 where
  pub store : Store
  pub report : SweepReport
  pub exists_later : List (Result Bool)

pub in_store : {A : Type 0} → Exec Store A → Exec Sweep A
in_store m s = let (r, store') = m s.store in (r, record s { store = store' })

pub report_with : (SweepReport → SweepReport) → Exec Sweep (Unit {0})
report_with f s = (ok tt, record s { report = f s.report })

-- `catalog.table_exists`; with no answer left the table does not exist
unfoldable pub table_exists : Exec Sweep Bool
table_exists s = elim s.exists_later [
  | [] ↦ (ok false, s)
  | answer ∷ rest ↦ (answer, record s { exists_later = rest })
]

unfoldable pub backfill_values : Settings → Text → Text → ObjectValues
backfill_values settings tenant label = record {
  tenant = tenant;
  label = label;
  table_ident = settings.trino_catalog ++ codes "." ++ tenant ++ codes "." ++ label;
  source = codes "reconciled";
  source_ref = none;
  producing_sql = none;
}

-- _backfill, with its line of the report
unfoldable pub backfill_one : Settings → Text → Text → Exec Sweep (Unit {0})
unfolding in_store report_with backfill_values
backfill_one settings tenant label = do
  in_store (Registry.record_object (backfill_values settings tenant label) [])
  report_with (λ r. record r { backfilled = r.backfilled ++ (tenant, label) ∷ [] })

pub delete_row : Text → Text → Exec Sweep (Unit {0})
delete_row tenant label = do
  in_store (Registry.delete_object tenant label)
  in_store (Registry.clear_tombstone tenant label)
  report_with (λ r. record r { deleted = r.deleted ++ (tenant, label) ∷ [] })

delete_unless : Text → Text → Bool → Exec Sweep (Unit {0})
delete_unless tenant label true = in_store (Registry.clear_tombstone tenant label)
delete_unless tenant label false = delete_row tenant label

-- the body of the deletion loop: the table is looked up again first
unfoldable pub delete_one : Text → Text → Exec Sweep (Unit {0})
unfolding in_store report_with delete_row delete_unless table_exists
delete_one tenant label = do exists ← table_exists; delete_unless tenant label exists

unfoldable pub mark : Text → NamespacePlan → Exec Sweep (Unit {0})
unfolding report_with
mark tenant plan = report_with (λ r. record r {
  skipped_namespaces =
      if plan.skipped then r.skipped_namespaces ++ tenant ∷ [] else r.skipped_namespaces;
  capped_namespaces =
      if plan.capped then r.capped_namespaces ++ tenant ∷ [] else r.capped_namespaces;
})

unfoldable pub apply_plan : Settings → Text → NamespacePlan → Exec Sweep (Unit {0})
unfolding in_store
apply_plan settings tenant plan = do
  for_each (backfill_one settings tenant) plan.backfill
  for_each (λ label. in_store (Registry.clear_tombstone tenant label)) plan.tombstone_clear
  for_each (λ label. in_store (Registry.bump_tombstone tenant label)) plan.tombstone_bump
  for_each (delete_one tenant) plan.delete
  mark tenant plan

abbrev limits_of : Settings → Limits
limits_of s = record {
  min_absent_sweeps = s.reconcile_min_absent_sweeps;
  cap_num = s.reconcile_deletion_cap_num;
  cap_den = s.reconcile_deletion_cap_den;
  cap_min = s.reconcile_deletion_cap_min;
}

-- one namespace: what the catalog listed, the plan, and its execution. `list_labels` answers the
-- empty list when the listing fails.
unfoldable pub sweep_namespace : Settings → Text → List Text → Exec Sweep (Unit {0})
unfolding in_store
sweep_namespace settings tenant listed = do
  reg ← in_store (Registry.labels_for_tenant tenant)
  tombstones ← in_store (Registry.tombstones_for_tenant tenant)
  apply_plan settings tenant (plan_namespace (limits_of settings) listed reg tombstones)

abbrev pub contain : Text → Result (Unit {0}) × Sweep → Sweep
contain tenant (ok x, s) = s
contain tenant (err e, s) = record s {
  report = record (s.report) { errored_namespaces = s.report.errored_namespaces ++ tenant ∷ [] };
}

-- `reconcile`, over the namespaces and what each lists: an error ends only its own namespace
unfoldable pub reconcile : Settings → List (Text × List Text) → Sweep → Sweep
reconcile settings [] s = s
reconcile settings ((tenant, listed) ∷ rest) s =
    reconcile settings rest (contain tenant (sweep_namespace settings tenant listed s))
