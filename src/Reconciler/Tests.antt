-- ===== src/Reconciler/Tests.antt =====
-- Plans and sweeps at concrete labels.
use memcove.Common.{
  ℕ, ◌≤◌, ◌*◌, ◌≡◌, ◌≢◌, refl, ◌⊎◌, Bool, true, false, not, ◌&&◌, arith, ◌++◌, none, some, List, [],
  ◌∷◌, Text, codes, contains, length, any, text_eq, ltb, if◌then◌else◌,
}
use memcove.Common.Result.{ok}
use memcove.Config.Defaults.{defaults}
use memcove.Registry.{Store}
use memcove.Reconciler.{
  Sweep, SweepReport, Limits, names, sort_set, is_due, plan_namespace, sweep_namespace, delete_one,
  limits_of, reconcile,
}
use memcove.Reconciler.Safety.{may_act, plan_namespace-delete_iff, plan_namespace-capped}
use memcove.Reconciler.Apply.{Untouched, sweep_namespace-empty_listing}

abbrev limits : Limits
limits = limits_of defaults

abbrev listed : List Text
listed = codes "b" ∷ codes "n" ∷ []

abbrev registered : List Text
registered = codes "a" ∷ codes "b" ∷ []

abbrev seen_absent : List (Text × ℕ)
seen_absent = (codes "a", 1) ∷ []

deletes_after_grace : (plan_namespace limits listed registered seen_absent).delete ≡ codes "a" ∷ []
unfolding plan_namespace sort_set memcove.Reconciler.insert_set memcove.Common.text_eq
    memcove.Common.text_lt memcove.Reconciler.past_cap memcove.Reconciler.difference
    memcove.Common.filter contains memcove.Reconciler.plan_absent is_due memcove.Reconciler.count_of
deletes_after_grace = refl

marks_first : (plan_namespace limits listed registered []).tombstone_bump ≡ codes "a" ∷ []
unfolding plan_namespace sort_set memcove.Reconciler.insert_set memcove.Common.text_eq
    memcove.Common.text_lt memcove.Reconciler.past_cap memcove.Reconciler.difference
    memcove.Common.filter contains memcove.Reconciler.plan_absent is_due memcove.Reconciler.count_of
marks_first = refl

plan_namespace-delete_iff_example :
    (contains (plan_namespace limits listed registered seen_absent).delete (codes "a") ≡ (
      may_act limits listed registered
      && (contains registered (codes "a") && not (contains listed (codes "a")))
      && is_due limits seen_absent (codes "a")))
    × (contains (plan_namespace limits listed registered seen_absent).tombstone_bump (codes "a") ≡ (
        may_act limits listed registered
        && (contains registered (codes "a") && not (contains listed (codes "a")))
        && not (is_due limits seen_absent (codes "a"))))
plan_namespace-delete_iff_example =
    plan_namespace-delete_iff limits listed registered seen_absent (codes "a")

plan_namespace-capped_example :
    (length (plan_namespace limits listed registered seen_absent).delete ≤ 3)
    ⊎ (4 * length (plan_namespace limits listed registered seen_absent).delete
        ≤ 1 * length (sort_set registered))
plan_namespace-capped_example = plan_namespace-capped limits listed registered seen_absent

abbrev empty_report : SweepReport
empty_report = record {
  backfilled = [];
  deleted = [];
  skipped_namespaces = [];
  capped_namespaces = [];
  errored_namespaces = [];
}

abbrev stored : Store
stored = record {
  tables = record {
    objects =
        record {
          tenant = codes "t_acme";
          label = codes "a";
          table_ident = codes "iceberg.t_acme.a";
          source = codes "inline";
          source_ref = none;
          producing_sql = none;
          created_at = 1;
          updated_at = 1;
        }
        ∷ [];
    tags = [];
    lineage = [];
    tombstones = record { tenant = codes "t_acme"; label = codes "a"; absent_sweeps = 1 } ∷ [];
    same_tag = text_eq;
  };
  clock = 9;
  faults = [];
}

abbrev reappearing : Sweep
reappearing = record { store = stored; report = empty_report; exists_later = ok true ∷ [] }

sweep_namespace-empty_listing_example :
    Untouched stored.tables
      (sweep_namespace defaults (codes "t_acme") [] reappearing).1.store.tables
sweep_namespace-empty_listing_example =
    sweep_namespace-empty_listing defaults (codes "t_acme") reappearing
