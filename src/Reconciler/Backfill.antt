-- ===== src/Reconciler/Backfill.antt =====
-- The backfill of a sweep that meets no fault: a row for every listed table without one.
use memcove.Common.{
  ℕ, ◌≡◌, refl, sym, ◌∙◌, ap, true, false, Option, none, some, List, [], ◌∷◌, ◌++◌, Text, codes,
  text_eq, text_eq_iff, contains, length, arith, inl, inr, Bool-cases,
}
use memcove.Common.Exec.{for_each}
use memcove.Config.{Settings}
use memcove.Registry
use memcove.Registry.{ObjectRow, ObjectValues, find_object, at_key}
use memcove.Registry.Recording.{upserted}
use memcove.Registry.Tags.{none_apart}
use memcove.Registry.Calm.{record_object-calm}
use memcove.Registry.Others.{upsert_object-Spares}
use memcove.Registry.Refinement.{connection-SameAt}
use memcove.Registry.Tombstones.{absences, other_label}
use memcove.Reconciler.{Sweep, in_store, backfill_values, backfill_one}
use memcove.Reconciler.Sets.{ascending, head_once, tail_ascending}
use memcove.Reconciler.Quiet.{At, Reaches, bind-Reaches, report-At, backfill-At}
use memcove.Reconciler.Presence.{backfill_loop}

-- the row that a sweep writes for a table without one
pub record Backfilled (settings : Settings) (t a : Text) (row : ObjectRow) : Type 0 where
  pub table_ident : row.table_ident ≡ settings.trino_catalog ++ codes "." ++ t ++ codes "." ++ a
  pub source : row.source ≡ codes "reconciled"

longer : (c : ℕ) (l : Text) → text_eq l (c ∷ l) ≡ false
longer c l = elim (Bool-cases (text_eq l (c ∷ l))) [
  | inl same ↦ let e = ap length ((text_eq_iff l (c ∷ l)).0 same) in absurd (omega (arith, e))
  | inr other ↦ other
]

-- a write of an object leaves the tombstones alone, its own included
record_object-tombstones :
    (v : ObjectValues) (s : Registry.Store) (calm : s.faults ≡ [])
    → (record_object-calm v [] s calm (none_apart s.tables)).after.tables.tombstones
      ≡ s.tables.tombstones
unfolding Registry.record_object
record_object-tombstones v s calm =
    let written = record_object-calm v [] s calm (none_apart s.tables) in
    let key = other_label v.tenant v.label (0 ∷ v.label) (longer 0 v.label) in
    let same =
      connection-SameAt v.tenant (0 ∷ v.label) (Registry.upsert_object v []) s tt
        (upsert_object-Spares v [] v.tenant (0 ∷ v.label) key) (ap (λ q. q.0) written.returns) in
    ap (λ q. q.1.tables.tombstones) (sym written.returns) ∙ same.tombstones

module _ (settings : Settings) (t a : Text) where
  upserted-Backfilled :
      (now : ℕ) (old : Option ObjectRow)
      → Backfilled settings t a (upserted now (backfill_values settings t a) old)
  unfolding backfill_values
  upserted-Backfilled now none = record { table_ident = refl; source = refl }
  upserted-Backfilled now (some r) = record { table_ident = refl; source = refl }

  backfill_own-At :
      (row : Option ObjectRow) (n : ℕ) (s : Sweep)
      → At t a row n s
      → (r : ObjectRow) × Backfilled settings t a r
        × Reaches (backfill_one settings t a) (At t a (some r) n) s
  unfolding backfill_one backfill_values in_store
  backfill_own-At row n s h =
      let values = backfill_values settings t a in
      let written = record_object-calm values [] s.store h.calm (none_apart s.store.tables) in
      let r = upserted s.store.clock values (find_object t a s.store.tables.objects) in
      let stored : Sweep = record s { store = written.after } in
      (
        r,
        upserted-Backfilled s.store.clock (find_object t a s.store.tables.objects),
        bind-Reaches (in_store (Registry.record_object values [])) _ s
            (record {
              after = stored;
              returns = rw written.returns refl;
              holds = record {
                calm = written.calm;
                gone = h.gone;
                object = written.recorded.object;
                count =
                    ap (absences t a) (record_object-tombstones values s.store h.calm) ∙ h.count;
              };
            })
            λ s' h'. report-At t a (some r) n _ s' h',
      )

  -- the loop reaches the label once
  pub backfill_own_loop :
      (xs : List Text) (row : Option ObjectRow) (n : ℕ) (s : Sweep)
      → ascending xs ≡ true
      → contains xs a ≡ true
      → At t a row n s
      → (r : ObjectRow) × Backfilled settings t a r
        × Reaches (for_each (backfill_one settings t) xs) (At t a (some r) n) s
  unfolding for_each contains
  backfill_own_loop [] row n s up there h = absurd (cc there)
  backfill_own_loop (x ∷ xs) row n s up there h = elim (Bool-cases (text_eq x a)) [
    | inl same ↦
        let (r, written, one) = backfill_own-At row n s h in
        let e : x ≡ a = (text_eq_iff x a).0 same in
        let first : Reaches (backfill_one settings t x) (At t a (some r) n) s = rw e one in
        (
          r,
          written,
          bind-Reaches (backfill_one settings t x) (for_each (backfill_one settings t) xs) s first
              λ s' h'. backfill_loop t a settings xs (some r) n s' (head_once x a xs up same) h',
        )
    | inr other ↦
        let first = backfill-At t a row n settings x s other h in
        let (r, written, rest) =
          backfill_own_loop xs row n first.after (tail_ascending x xs up) (ground arith)
            first.holds in
        (
          r,
          written,
          record {
            after = rest.after;
            returns = ground (arith, first.returns, rest.returns);
            holds = rest.holds;
          },
        )
  ]
