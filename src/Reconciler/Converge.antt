-- ===== src/Reconciler/Converge.antt =====
-- A sweep that meets no fault leaves every listed table with a row.
use memcove.Common.{
  ℕ, ◌≡◌, refl, true, false, none, some, List, [], ◌∷◌, map, Text, text_eq, contains, filter, arith,
  if◌then◌else◌,
}
use memcove.Config.{Settings}
use memcove.Registry.{Tables, ObjectRow, find_object, select_labels, select_tombstones, at_key}
use memcove.Reconciler.{Sweep, limits_of, sweep_namespace, sort_set, plan_namespace}
use memcove.Reconciler.Sets.{ascending, difference-ascending}
use memcove.Reconciler.Safety.{plan_namespace-delete_iff, plan_namespace-backfill_iff, backfill-eq}
use memcove.Reconciler.Quiet.{At, Reaches}
use memcove.Reconciler.Presence.{same_At, apply_plan-At}
use memcove.Reconciler.Backfill.{Backfilled, backfill_own_loop}
use memcove.Reconciler.Step.{sweep-Reaches, bump-ascending}

unregistered :
    (t a : Text) (rows : List ObjectRow)
    → find_object t a rows ≡ none
    → contains (map (λ r. r.label) (filter (λ r. text_eq r.tenant t) rows)) a ≡ false
unfolding find_object contains filter at_key
unregistered t a [] h = refl
unregistered t a (r ∷ rs) h = ground (arith, unregistered t a rs)

label-unregistered :
    (t a : Text) (b : Tables)
    → find_object t a b.objects ≡ none
    → contains (select_labels t b) a ≡ false
unfolding select_labels
label-unregistered t a b h = unregistered t a b.objects h

-- Where the database raises nothing and no table comes back while it runs, a sweep returns, and
-- leaves a table that it lists and that has no row with a row of the source reconciled that names
-- the table.
pub sweep_namespace-backfills :
    (settings : Settings) (t a : Text) (listed : List Text) (n : ℕ) (s : Sweep)
    → At t a none n s
    → contains listed a ≡ true
    → (row : ObjectRow) × (k : ℕ) × Backfilled settings t a row
      × Reaches (sweep_namespace settings t listed) (At t a (some row) k) s
sweep_namespace-backfills settings t a listed n s h here =
    let c = limits_of settings in
    let reg = select_labels t s.store.tables in
    let marks = select_tombstones t s.store.tables in
    let p = plan_namespace c listed reg marks in
    let new = label-unregistered t a s.store.tables h.object in
    let k = if contains p.tombstone_clear a then 0 else n in
    let up : ascending p.backfill ≡ true =
      rw (backfill-eq c listed reg marks) (difference-ascending listed (sort_set reg)) in
    let planned : contains p.backfill a ≡ true =
      ground (arith, plan_namespace-backfill_iff c listed reg marks a) in
    let (row, written, filled) = backfill_own_loop settings t a p.backfill none n s up planned h in
    let decided = plan_namespace-delete_iff c listed reg marks a in
    let spared : contains p.delete a ≡ false = ground (arith, decided.0) in
    let unmarked : contains p.tombstone_bump a ≡ false = ground (arith, decided.1) in
    (
      row,
      k,
      written,
      sweep-Reaches settings t listed s h.calm (
          same_At (rw spared refl) (rw (spared, unmarked) refl) (
            apply_plan-At t a settings p (some row) n k s (bump-ascending c listed reg marks) refl
              filled)),
    )
