-- ===== src/Reconciler/Presence.antt =====
-- The sweep as one label meets it: the loops of apply_plan, and the whole of a namespace.
use memcove.Common.{
  ℕ, ◌+◌, ◌≡◌, refl, sym, true, false, Option, none, List, [], ◌∷◌, Text, text_eq, text_eq_iff,
  contains, arith, inl, inr, Bool-cases, if◌then◌else◌,
}
use memcove.Common.Exec.{Exec, for_each}
use memcove.Config.{Settings}
use memcove.Registry
use memcove.Registry.{
  Tables, ObjectRow, TombstoneRow, find_object, select_labels, select_tombstones, at_key,
}
use memcove.Reconciler.{Sweep, NamespacePlan, in_store, backfill_one, delete_one, apply_plan}
use memcove.Reconciler.Sets.{ascending, head_once, tail_ascending}
use memcove.Reconciler.Quiet.{
  At, Reaches, bind-Reaches, loop-Reaches, bump-At, clear-At, delete_one-At, backfill-At, mark-At,
}

-- the same state by equal descriptions
pub same_At :
    {t a : Text} {row row' : Option ObjectRow} {n n' : ℕ} {m : Exec Sweep (Unit {0})} {s : Sweep}
    → row ≡ row'
    → n ≡ n'
    → Reaches m (At t a row n) s
    → Reaches m (At t a row' n') s
same_At {t} {a} {m} {s} e f h = rw (← e, ← f) h

pub other_than :
    (a x : Text) (xs : List Text)
    → contains xs a ≡ false
    → contains xs x ≡ true
    → text_eq x a ≡ false
other_than a x xs out there = elim (Bool-cases (text_eq x a)) [
  | inl same ↦ let e = (text_eq_iff x a).0 same in absurd (cc (e, out, there))
  | inr other ↦ other
]

module _ (t a : Text) where
  clear_loop :
      (xs : List Text) (row : Option ObjectRow) (n : ℕ) (s : Sweep)
      → At t a row n s
      → Reaches
          (for_each (λ l. in_store (Registry.clear_tombstone t l)) xs)
          (At t a row (if contains xs a then 0 else n))
          s
  unfolding for_each contains
  clear_loop [] row n s h = record { after = s; returns = refl; holds = h }
  clear_loop (x ∷ xs) row n s h =
      bind-Reaches (in_store (Registry.clear_tombstone t x)) _ s (clear-At t a row n x s h) λ s' h'.
        same_At refl (ground arith) (clear_loop xs row (if text_eq x a then 0 else n) s' h')

  bump_loop :
      (xs : List Text) (row : Option ObjectRow) (n : ℕ) (s : Sweep)
      → ascending xs ≡ true
      → At t a row n s
      → Reaches
          (for_each (λ l. in_store (Registry.bump_tombstone t l)) xs)
          (At t a row (if contains xs a then n + 1 else n))
          s
  unfolding for_each contains
  bump_loop [] row n s up h = record { after = s; returns = refl; holds = h }
  bump_loop (x ∷ xs) row n s up h =
      bind-Reaches (in_store (Registry.bump_tombstone t x)) _ s (bump-At t a row n x s h) λ s' h'.
        same_At refl (ground (arith, head_once x a xs up))
          (bump_loop xs row (if text_eq x a then n + 1 else n) s' (tail_ascending x xs up) h')

  delete_loop :
      (xs : List Text) (row : Option ObjectRow) (n : ℕ) (s : Sweep)
      → At t a row n s
      → Reaches
          (for_each (delete_one t) xs)
          (At t a (if contains xs a then none else row) (if contains xs a then 0 else n))
          s
  unfolding for_each contains
  delete_loop [] row n s h = record { after = s; returns = refl; holds = h }
  delete_loop (x ∷ xs) row n s h =
      bind-Reaches (delete_one t x) _ s (delete_one-At t a row n x s h) λ s' h'.
        same_At (ground arith) (ground arith)
          (delete_loop xs (if text_eq x a then none else row) (if text_eq x a then 0 else n) s' h')

  pub backfill_loop :
      (settings : Settings) (xs : List Text) (row : Option ObjectRow) (n : ℕ) (s : Sweep)
      → contains xs a ≡ false
      → At t a row n s
      → Reaches (for_each (backfill_one settings t) xs) (At t a row n) s
  backfill_loop settings xs row n s out h =
      loop-Reaches (backfill_one settings t) xs s
        (λ x s' there k. backfill-At t a row n settings x s' (other_than a x xs out there) k) h

  pub apply_plan-At :
      (settings : Settings) (p : NamespacePlan) (row : Option ObjectRow) (n k : ℕ) (s : Sweep)
      → ascending p.tombstone_bump ≡ true
      → k ≡ (if contains p.tombstone_clear a then 0 else n)
      → Reaches (for_each (backfill_one settings t) p.backfill) (At t a row n) s
      → Reaches
          (apply_plan settings t p)
          (At t a
            (if contains p.delete a then none else row)
            (if contains p.delete a then 0 else if contains p.tombstone_bump a then k + 1 else k))
          s
  unfolding apply_plan
  apply_plan-At settings p row n k s up e filled =
      bind-Reaches (for_each (backfill_one settings t) p.backfill) _ s filled λ s1 h1.
        bind-Reaches _ _ s1 (same_At refl (sym e) (clear_loop p.tombstone_clear row n s1 h1))
          λ s2 h2. bind-Reaches _ _ s2 (bump_loop p.tombstone_bump row k s2 up h2) λ s3 h3.
            bind-Reaches (for_each (delete_one t) p.delete) _ s3
              (delete_loop p.delete row (if contains p.tombstone_bump a then k + 1 else k) s3 h3)
              λ s4 h4. mark-At t a _ _ p s4 h4
