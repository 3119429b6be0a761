-- ===== src/Reconciler/Step.antt =====
-- One sweep of a namespace as a state machine on each label that the registry has.
use memcove.Common.{
  ℕ, ◌+◌, ◌≡◌, refl, ◌∙◌, Bool, true, false, not, ◌&&◌, Option, none, some, List, [], ◌∷◌, ◌++◌,
  map, Text, text_eq, contains, contains-append, filter, leb, arith, inl, inr, Bool-cases,
  if◌then◌else◌,
}
use memcove.Common.Exec.{Exec}
use memcove.Config.{Settings}
use memcove.Registry.{
  Tables, ObjectRow, TombstoneRow, find_object, select_labels, select_tombstones, at_key,
}
use memcove.Registry.Tombstones.{absences, labels_for_tenant-calm, tombstones_for_tenant-calm}
use memcove.Reconciler.{
  Sweep, Limits, names, in_store, limits_of, apply_plan, sweep_namespace, sort_set, difference,
  intersection, union, count_of, is_due, plan_absent, plan_namespace,
}
use memcove.Reconciler.Sets.{ascending, filter-ascending, difference-ascending}
use memcove.Reconciler.Safety.{
  may_act, absent_labels, reappeared, orphaned, plan_namespace-delete_iff,
  plan_namespace-backfill_iff, contains-sort_set, contains-difference, contains-intersection,
}
use memcove.Reconciler.Quiet.{At, Reaches}
use memcove.Reconciler.Presence.{same_At, backfill_loop, apply_plan-At}

-- How many sweeps in a row a registered label has been absent after one more sweep, `none` for a
-- row that the sweep deletes: a listed label starts over, and a label that is not listed counts on
-- if the plan acts on absent rows, to its deletion at the grace period.
unfoldable pub after_sweep : Limits → Bool → Bool → ℕ → Option ℕ
after_sweep c true acts n = some 0
after_sweep c false false n = some n
after_sweep c false true n = if leb c.min_absent_sweeps (n + 1) then none else some (n + 1)

-- the registry as that count says
abbrev pub Held : Text → Text → ObjectRow → Option ℕ → Sweep → Type 0
Held t a row (some n) = At t a (some row) n
Held t a row none = At t a none 0

count-absences :
    (t l : Text) (rows : List TombstoneRow)
    → count_of l (map (λ r. (r.label, r.absent_sweeps)) (filter (λ r. text_eq r.tenant t) rows))
      ≡ absences t l rows
unfolding count_of filter absences at_key
count-absences t l [] = refl
count-absences t l (r ∷ rs) = ground (arith, count-absences t l rs)

count-unmarked :
    (l : Text) (marks : List (Text × ℕ)) → contains (names marks) l ≡ false → count_of l marks ≡ 0
unfolding count_of contains
count-unmarked l [] h = refl
count-unmarked l ((k, n) ∷ rest) h = ground (arith, count-unmarked l rest)

labels-found :
    (t a : Text) (row : ObjectRow) (rows : List ObjectRow)
    → find_object t a rows ≡ some row
    → contains (map (λ r. r.label) (filter (λ r. text_eq r.tenant t) rows)) a ≡ true
unfolding find_object contains filter at_key
labels-found t a row [] h = cc
labels-found t a row (r ∷ rs) h = ground (arith, labels-found t a row rs)

module _ (c : Limits) (live reg : List Text) (marks : List (Text × ℕ)) (a : Text) where
  -- for a label that the registry has, only its being listed again clears the tombstone
  reappeared-registered :
      contains reg a ≡ true
      → contains (reappeared live reg marks) a ≡ contains live a && contains (names marks) a
  reappeared-registered here = ground (
    arith,
    contains-intersection (intersection (sort_set reg) (sort_set live)) (sort_set (names marks)) a,
    contains-intersection (sort_set reg) (sort_set live) a,
    contains-sort_set reg a,
    contains-sort_set live a,
    contains-sort_set (names marks) a,
  )

  orphaned-registered : contains reg a ≡ true → contains (orphaned live reg marks) a ≡ false
  orphaned-registered here = ground (
    arith,
    contains-difference (difference (sort_set (names marks)) (sort_set reg)) (sort_set live) a,
    contains-difference (sort_set (names marks)) (sort_set reg) a,
    contains-sort_set reg a,
  )

  clearable-registered :
      contains reg a ≡ true
      → contains (sort_set (union (reappeared live reg marks) (orphaned live reg marks))) a
        ≡ contains live a && contains (names marks) a
  unfolding union
  clearable-registered here = ground (
    arith,
    contains-sort_set (reappeared live reg marks ++ orphaned live reg marks) a,
    contains-append (reappeared live reg marks) (orphaned live reg marks) a,
    reappeared-registered here,
    orphaned-registered here,
  )

  clear-registered :
      contains reg a ≡ true
      → contains (plan_namespace c live reg marks).tombstone_clear a
        ≡ contains live a && contains (names marks) a
  unfolding plan_namespace plan_absent
  clear-registered here = ground (arith, reappeared-registered here, clearable-registered here)

ascending_nil : ascending [] ≡ true
unfolding ascending
ascending_nil = refl

pub bump-ascending :
    (c : Limits) (live reg : List Text) (marks : List (Text × ℕ))
    → ascending (plan_namespace c live reg marks).tombstone_bump ≡ true
unfolding plan_namespace plan_absent
bump-ascending c live reg marks = ground (
  arith,
  ascending_nil,
  filter-ascending (λ label. not (is_due c marks label)) (absent_labels live reg)
      (difference-ascending reg (sort_set live)),
)

label-registered :
    (t a : Text) (row : ObjectRow) (b : Tables)
    → find_object t a b.objects ≡ some row
    → contains (select_labels t b) a ≡ true
unfolding select_labels
label-registered t a row b h = labels-found t a row b.objects h

marks-counted :
    (t a : Text) (b : Tables) → count_of a (select_tombstones t b) ≡ absences t a b.tombstones
unfolding select_tombstones
marks-counted t a b = count-absences t a b.tombstones

-- the outcome that the plan's two lists say, as that step
decided_after :
    (c : Limits) (live acts d b : Bool) (n : ℕ) (t a : Text) (row : ObjectRow)
    (m : Exec Sweep (Unit {0})) (s : Sweep)
    → d ≡ (acts && (true && not live) && leb c.min_absent_sweeps (n + 1))
    → b ≡ (acts && (true && not live) && not (leb c.min_absent_sweeps (n + 1)))
    → Reaches m
        (At t a
          (if d then none else some row)
          (if d then 0 else if b then (if live then 0 else n) + 1 else if live then 0 else n))
        s
    → Reaches m (Held t a row (after_sweep c live acts n)) s
unfolding after_sweep
decided_after c true true d b n t a row m s e f h = same_At (rw e refl) (rw (e, f) refl) h
decided_after c true false d b n t a row m s e f h = same_At (rw e refl) (rw (e, f) refl) h
decided_after c false false d b n t a row m s e f h = same_At (rw e refl) (rw (e, f) refl) h
decided_after c false true d b n t a row m s e f h =
    elim (Bool-cases (leb c.min_absent_sweeps (n + 1))) [
      | inl due ↦ rw due (same_At (rw (e, due) refl) (rw (e, due) refl) h)
      | inr early ↦ rw early (same_At (rw (e, early) refl) (rw (e, f, early) refl) h)
    ]

pub sweep-Reaches :
    {P : Sweep → Type 0} (settings : Settings) (t : Text) (listed : List Text) (s : Sweep)
    → s.store.faults ≡ []
    → Reaches
        (apply_plan settings t (
          plan_namespace
            (limits_of settings)
            listed
            (select_labels t s.store.tables)
            (select_tombstones t s.store.tables)))
        P
        s
    → Reaches (sweep_namespace settings t listed) P s
unfolding sweep_namespace in_store
sweep-Reaches settings t listed s calm done = record {
  after = done.after;
  returns =
      rw (labels_for_tenant-calm t s.store calm, tombstones_for_tenant-calm t s.store calm)
        done.returns;
  holds = done.holds;
}

-- Where the database raises nothing and no table comes back while it runs, a sweep of a namespace
-- returns, and takes every label that the registry has, whatever the other labels are, by one step
-- of `after_sweep`: the row is kept as it is with the new count of absences, or it is deleted and
-- its tombstone with it.
pub sweep_namespace-Held :
    (settings : Settings) (t a : Text) (listed : List Text) (row : ObjectRow) (n : ℕ) (s : Sweep)
    → At t a (some row) n s
    → Reaches
        (sweep_namespace settings t listed)
        (Held t a row (
          after_sweep
            (limits_of settings)
            (contains listed a)
            (may_act (limits_of settings) listed (select_labels t s.store.tables))
            n))
        s
unfolding is_due
sweep_namespace-Held settings t a listed row n s h =
    let c = limits_of settings in
    let reg = select_labels t s.store.tables in
    let marks = select_tombstones t s.store.tables in
    let p = plan_namespace c listed reg marks in
    let acts = may_act c listed reg in
    let here = label-registered t a row s.store.tables h.object in
    let counted : count_of a marks ≡ n = marks-counted t a s.store.tables ∙ h.count in
    let decided = plan_namespace-delete_iff c listed reg marks a in
    let done =
      apply_plan-At t a settings p (some row) n (if contains listed a then 0 else n) s
        (bump-ascending c listed reg marks)
        (ground (arith, clear-registered c listed reg marks a here, count-unmarked a marks))
        (backfill_loop t a settings p.backfill (some row) n s
          (ground (arith, plan_namespace-backfill_iff c listed reg marks a)) h) in
    sweep-Reaches settings t listed s h.calm (
      decided_after c (contains listed a) acts (contains p.delete a) (contains p.tombstone_bump a) n
        t a row (apply_plan settings t p) s (ground (arith, decided.0)) (ground (arith, decided.1))
        done)
