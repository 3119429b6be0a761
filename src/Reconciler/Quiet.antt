-- ===== src/Reconciler/Quiet.antt =====
-- What each action of a sweep does to one label, where the database raises nothing and no table
-- that the sweep looks up again has come back.
use memcove.Common.{
  ℕ, ◌+◌, ◌≡◌, refl, sym, ◌∙◌, ap, Bool, true, false, Option, none, List, [], ◌∷◌, Text, text_eq,
  text_eq_iff, contains, All, arith, if◌then◌else◌,
}
use memcove.Common.Result.{Result, ok}
use memcove.Common.Exec.{Exec, ◌>>=◌, for_each}
use memcove.Config.{Settings}
use memcove.Registry
use memcove.Registry.{Store, ObjectRow, TombstoneRow, find_object, select_tombstones, at_key}
use memcove.Registry.Tombstones.{
  absences, bumped, cleared, bump_tombstone-calm, clear_tombstone-calm, delete_object-calm,
  absences-bump, absences-clear, find-deleted, other_label,
}
use memcove.Registry.Frames.{deleted}
use memcove.Registry.Tags.{none_apart}
use memcove.Registry.Calm.{record_object-calm}
use memcove.Registry.Others.{upsert_object-Spares}
use memcove.Registry.Refinement.{connection-SameAt}
use memcove.Reconciler.{
  Sweep, NamespacePlan, in_store, report_with, table_exists, backfill_one, delete_row,
  delete_unless, delete_one, mark, backfill_values,
}

-- quiet, and the label has this row and this count of absences
pub record At (t a : Text) (row : Option ObjectRow) (n : ℕ) (s : Sweep) : Type 0 where
  pub calm : s.store.faults ≡ []
  pub gone : All (λ (r : Result Bool). r ≡ ok false) s.exists_later
  pub object : find_object t a s.store.tables.objects ≡ row
  pub count : absences t a s.store.tables.tombstones ≡ n

-- the action returns, and then `P` holds
pub record Reaches (m : Exec Sweep (Unit {0})) (P : Sweep → Type 0) (s : Sweep) : Type 0 where
  pub after : Sweep
  pub returns : m s ≡ (ok tt, after)
  pub holds : P after

pub bind-Reaches :
    {P Q : Sweep → Type 0} (m k : Exec Sweep (Unit {0})) (s : Sweep)
    → Reaches m P s
    → ((s' : Sweep) → P s' → Reaches k Q s')
    → Reaches (m >>= λ _. k) Q s
bind-Reaches m k s h then_do =
    let one = h in
    let two = then_do one.after one.holds in
    record {
      after = two.after;
      returns = ground (arith, one.returns, two.returns);
      holds = two.holds;
    }

pub loop-Reaches :
    {P : Sweep → Type 0} (f : Text → Exec Sweep (Unit {0})) (xs : List Text) (s : Sweep)
    → ((x : Text) (s : Sweep) → contains xs x ≡ true → P s → Reaches (f x) P s)
    → P s
    → Reaches (for_each f xs) P s
unfolding for_each contains
loop-Reaches f [] s step h = record { after = s; returns = refl; holds = h }
loop-Reaches f (x ∷ xs) s step h =
    bind-Reaches (f x) (for_each f xs) s (step x s (ground (arith, text_eq_iff x x)) h)
      λ s' h'. loop-Reaches f xs s' (λ y r k. step y r (ground arith)) h'

module _ (t a : Text) (row : Option ObjectRow) (n : ℕ) where
  pub bump-At :
      (l : Text) (s : Sweep)
      → At t a row n s
      → Reaches
          (in_store (Registry.bump_tombstone t l))
          (At t a row (if text_eq l a then n + 1 else n))
          s
  unfolding in_store bumped
  bump-At l s h = record {
    after = record s { store = record (s.store) { tables = bumped t l s.store.tables } };
    returns = rw (bump_tombstone-calm t l s.store h.calm) refl;
    holds = record {
      calm = h.calm;
      gone = h.gone;
      object = h.object;
      count = rw (absences-bump t l a s.store.tables.tombstones, h.count) refl;
    };
  }

  pub clear-At :
      (l : Text) (s : Sweep)
      → At t a row n s
      → Reaches
          (in_store (Registry.clear_tombstone t l))
          (At t a row (if text_eq l a then 0 else n))
          s
  unfolding in_store cleared
  clear-At l s h = record {
    after = record s { store = record (s.store) { tables = cleared t l s.store.tables } };
    returns = rw (clear_tombstone-calm t l s.store h.calm) refl;
    holds = record {
      calm = h.calm;
      gone = h.gone;
      object = h.object;
      count = rw (absences-clear t l a s.store.tables.tombstones, h.count) refl;
    };
  }

  forget-At :
      (l : Text) (s : Sweep)
      → At t a row n s
      → Reaches
          (in_store (Registry.delete_object t l))
          (At t a (if text_eq l a then none else row) n)
          s
  unfolding in_store deleted
  forget-At l s h = record {
    after = record s { store = record (s.store) { tables = deleted t l s.store.tables } };
    returns = rw (delete_object-calm t l s.store h.calm) refl;
    holds = record {
      calm = h.calm;
      gone = h.gone;
      object = rw (find-deleted t l a s.store.tables.objects, h.object) refl;
      count = h.count;
    };
  }

  absent-At :
      (s : Sweep)
      → At t a row n s
      → (s' : Sweep) × (table_exists s ≡ (ok false, s')) × At t a row n s'
  unfolding table_exists
  absent-At s h = go s.exists_later refl h.gone
    where
      go :
          (later : List (Result Bool))
          → s.exists_later ≡ later
          → All (λ (r : Result Bool). r ≡ ok false) later
          → (s' : Sweep) × (table_exists s ≡ (ok false, s')) × At t a row n s'
      go [] e g = (s, rw e refl, h)
      go (r ∷ rest) e g = (
        record s { exists_later = rest },
        rw e (rw (g.0) refl),
        record { calm = h.calm; gone = g.1; object = h.object; count = h.count },
      )

  pub report-At : (f : _) (s : Sweep) → At t a row n s → Reaches (report_with f) (At t a row n) s
  unfolding report_with
  report-At f s h = record {
    after = record s { report = f s.report };
    returns = refl;
    holds = record { calm = h.calm; gone = h.gone; object = h.object; count = h.count };
  }

  pub mark-At :
      (p : NamespacePlan) (s : Sweep) → At t a row n s → Reaches (mark t p) (At t a row n) s
  unfolding mark
  mark-At p s h = report-At _ s h

module _ (t a : Text) (row : Option ObjectRow) (n : ℕ) where
  delete_row-At :
      (l : Text) (s : Sweep)
      → At t a row n s
      → Reaches
          (delete_row t l)
          (At t a (if text_eq l a then none else row) (if text_eq l a then 0 else n))
          s
  unfolding delete_row
  delete_row-At l s h =
      let kept = if text_eq l a then none else row in
      let left = if text_eq l a then 0 else n in
      bind-Reaches (in_store (Registry.delete_object t l)) _ s (forget-At t a row n l s h) λ s' h'.
        bind-Reaches (in_store (Registry.clear_tombstone t l)) _ s' (clear-At t a kept n l s' h')
          λ s'' h''. report-At t a kept left _ s'' h''

  pub delete_one-At :
      (l : Text) (s : Sweep)
      → At t a row n s
      → Reaches
          (delete_one t l)
          (At t a (if text_eq l a then none else row) (if text_eq l a then 0 else n))
          s
  unfolding delete_one delete_unless
  delete_one-At l s h =
      let (s', looked, still) = absent-At t a row n s h in
      let last = delete_row-At l s' still in
      record { after = last.after; returns = rw looked last.returns; holds = last.holds }

  pub backfill-At :
      (settings : Settings) (l : Text) (s : Sweep)
      → text_eq l a ≡ false
      → At t a row n s
      → Reaches (backfill_one settings t l) (At t a row n) s
  unfolding backfill_one backfill_values Registry.record_object in_store
  backfill-At settings l s other h =
      let values = backfill_values settings t l in
      let written = record_object-calm values [] s.store h.calm (none_apart s.store.tables) in
      let same =
        connection-SameAt t a (Registry.upsert_object values []) s.store tt
          (upsert_object-Spares values [] t a (other_label t l a other))
          (ap (λ q. q.0) written.returns) in
      let stored : Sweep = record s { store = written.after } in
      bind-Reaches (in_store (Registry.record_object values [])) _ s
        (record {
          after = stored;
          returns = rw written.returns refl;
          holds = record {
            calm = written.calm;
            gone = h.gone;
            object =
                ap (λ q. find_object t a q.1.tables.objects) (sym written.returns)
                ∙ same.object
                ∙ h.object;
            count =
                ap (λ q. absences t a q.1.tables.tombstones) (sym written.returns)
                ∙ ap (λ q. absences t a q) same.tombstones
                ∙ h.count;
          };
        })
        λ s' h'. report-At t a row n _ s' h'
