-- ===== src/Reconciler/Grace.antt =====
-- The grace period of reconciler.py over any number of sweeps, with other work in between.
use memcove.Common.{
  ℕ, suc, ◌+◌, ◌<◌, ◌≡◌, subst, ◌∙◌, Bool, true, false, Option, none, some, List, [], Text,
  contains, leb, ltb, ◌≤◌, inl, inr, Bool-cases, if◌then◌else◌, arith, All,
}
use memcove.Common.Result.{Result, ok}
use memcove.Config.{Settings}
use memcove.Registry.{ObjectRow, find_object, select_labels}
use memcove.Registry.Tombstones.{absences}
use memcove.Reconciler.{Sweep, limits_of, sweep_namespace}
use memcove.Reconciler.Safety.{may_act}
use memcove.Reconciler.Quiet.{At}
use memcove.Reconciler.Step.{Held, after_sweep, sweep_namespace-Held}

-- work of others that leaves the row and the tombstone of the label alone
pub record Spared (t a : Text) (s s' : Sweep) : Type 0 where
  pub calm : s'.store.faults ≡ []
  pub gone : All (λ (r : Result Bool). r ≡ ok false) s'.exists_later
  pub object : find_object t a s'.store.tables.objects ≡ find_object t a s.store.tables.objects
  pub count : absences t a s'.store.tables.tombstones ≡ absences t a s.store.tables.tombstones

-- `n` sweeps of the namespace of which none lists the label and each may act on absent rows, with
-- any amount of work between them that leaves the label alone
pub data Missed (settings : Settings) (t a : Text) (s : Sweep) : ℕ → Sweep → Type 0 where
  start : Missed settings t a s 0 s
  meanwhile :
      {n : ℕ} {mid next : Sweep}
      → Missed settings t a s n mid
      → Spared t a mid next
      → Missed settings t a s n next
  sweep :
      {n : ℕ} {mid : Sweep} (listed : List Text)
      → Missed settings t a s n mid
      → contains listed a ≡ false
      → may_act (limits_of settings) listed (select_labels t mid.store.tables) ≡ true
      → Missed settings t a s (suc n) (sweep_namespace settings t listed mid).1

Spared-At :
    {t a : Text} {row : Option ObjectRow} {n : ℕ} {s s' : Sweep}
    → Spared t a s s'
    → At t a row n s
    → At t a row n s'
Spared-At k h = record {
  calm = k.calm;
  gone = k.gone;
  object = k.object ∙ h.object;
  count = k.count ∙ h.count;
}

module _ (settings : Settings) (t a : Text) (row : ObjectRow) where
  missed_once :
      (listed : List Text) (n : ℕ) (s : Sweep)
      → At t a (some row) n s
      → contains listed a ≡ false
      → may_act (limits_of settings) listed (select_labels t s.store.tables) ≡ true
      → Held t a row
          (after_sweep (limits_of settings) false true n)
          (sweep_namespace settings t listed s).1
  missed_once listed n s h out acts =
      let r = sweep_namespace-Held settings t a listed row n s h in
      rw r.returns (rw (out, acts) at (r.holds))

  counts_on :
      (n : ℕ) (s : Sweep)
      → n + 1 < settings.reconcile_min_absent_sweeps
      → Held t a row (after_sweep (limits_of settings) false true n) s
      → At t a (some row) (suc n) s
  unfolding after_sweep
  counts_on n s early h =
      let e : leb settings.reconcile_min_absent_sweeps (n + 1) ≡ false = ground arith in
      let f : n + 1 ≡ suc n = omega arith in subst (λ k. At t a (some row) k s) f (rw e at h)

  falls_due :
      (n : ℕ) (s : Sweep)
      → n + 1 ≡ settings.reconcile_min_absent_sweeps
      → Held t a row (after_sweep (limits_of settings) false true n) s
      → At t a none 0 s
  unfolding after_sweep
  falls_due n s due h =
      let e : leb settings.reconcile_min_absent_sweeps (n + 1) ≡ true = ground arith in rw e at h

  -- as long as fewer than min_absent_sweeps sweeps have missed it, a row without
  -- a tombstone stays as it was, with a tombstone that counts those sweeps.
  pub Missed-kept :
      (s : Sweep) (n : ℕ) (s' : Sweep)
      → At t a (some row) 0 s
      → n < settings.reconcile_min_absent_sweeps
      → Missed settings t a s n s'
      → At t a (some row) n s'
  Missed-kept s n s' h early start = h
  Missed-kept s n s' h early (meanwhile before spared) =
      Spared-At spared (Missed-kept s n _ h early before)
  Missed-kept s _ _ h early (sweep {n = k} {mid} listed before out acts) =
      counts_on k (sweep_namespace settings t listed mid).1 (omega arith)
        (missed_once listed k mid (Missed-kept s k mid h (omega arith) before) out acts)

  -- with the sweep number min_absent_sweeps (not 0) that misses it, the
  -- row of a table that is gone is deleted, and its tombstone with it.
  pub Missed-deleted :
      (s : Sweep) (n : ℕ) (s' : Sweep)
      → At t a (some row) 0 s
      → 0 < n
      → n ≡ settings.reconcile_min_absent_sweeps
      → Missed settings t a s n s'
      → At t a none 0 s'
  Missed-deleted s _ _ h pos due start = absurd (omega arith)
  Missed-deleted s n _ h pos due (meanwhile before spared) =
      Spared-At spared (Missed-deleted s n _ h pos due before)
  Missed-deleted s _ _ h pos due (sweep {n = k} {mid} listed before out acts) =
      falls_due k (sweep_namespace settings t listed mid).1 (omega arith)
        (missed_once listed k mid (Missed-kept s k mid h (omega arith) before) out acts)

  -- The grace period, in which no row is deleted early and every dangling row goes. Take a row with
  -- no tombstone, and sweeps that each miss its table, may act on absent rows, and meet no fault and
  -- no table that comes back, with any work between them that leaves the row and its tombstone
  -- alone: fewer than min_absent_sweeps of them (not 0) keep the row as it was, with a tombstone
  -- that counts them, and the sweep of that number deletes the row and its tombstone.
  pub Missed-Held :
      (s : Sweep) (n : ℕ) (s' : Sweep)
      → At t a (some row) 0 s
      → 0 < settings.reconcile_min_absent_sweeps
      → n ≤ settings.reconcile_min_absent_sweeps
      → Missed settings t a s n s'
      → Held t a row (if ltb n settings.reconcile_min_absent_sweeps then some n else none) s'
  Missed-Held s n s' h pos within missed =
      elim (Bool-cases (ltb n settings.reconcile_min_absent_sweeps)) [
        | inl early ↦ rw early (Missed-kept s n s' h (ground arith) missed)
        | inr due ↦
            let last : n ≡ settings.reconcile_min_absent_sweeps = ground arith in
            rw due (Missed-deleted s n s' h (omega arith) last missed)
      ]
