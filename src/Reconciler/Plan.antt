-- ===== src/Reconciler/Plan.antt =====
-- `plan_namespace`, and Python's sets of labels as sorted lists.
use memcove.Common.{
  ℕ, ◌+◌, ◌*◌, Bool, true, false, not, ◌&&◌, List, [], ◌∷◌, ◌++◌, map, Text, text_eq, text_lt,
  contains, is_nonempty, filter, length, ltb, leb, if◌then◌else◌,
}

pub record NamespacePlan : Type 0 where
  pub backfill : List Text
  pub delete : List Text
  pub tombstone_bump : List Text
  pub tombstone_clear : List Text
  pub skipped : Bool
  pub capped : Bool

-- `cap_ratio` is the fraction cap_num / cap_den
pub record Limits : Type 0 where
  pub min_absent_sweeps : ℕ
  pub cap_num : ℕ
  pub cap_den : ℕ
  pub cap_min : ℕ

-- a set as the list that `sorted` makes of it
unfoldable pub insert_set : Text → List Text → List Text
insert_set a [] = a ∷ []
insert_set a (b ∷ bs) =
    if text_eq a b then b ∷ bs else if text_lt a b then a ∷ b ∷ bs else b ∷ insert_set a bs

unfoldable pub sort_set : List Text → List Text
sort_set [] = []
sort_set (a ∷ rest) = insert_set a (sort_set rest)

unfoldable pub difference : List Text → List Text → List Text
difference xs ys = filter (λ x. not (contains ys x)) xs

unfoldable pub intersection : List Text → List Text → List Text
intersection xs ys = filter (contains ys) xs

unfoldable pub union : List Text → List Text → List Text
union xs ys = xs ++ ys

-- the keys of the tombstones, and `tombstones.get(label, 0)`
abbrev pub names : List (Text × ℕ) → List Text
names = map (λ e. e.0)

unfoldable pub count_of : Text → List (Text × ℕ) → ℕ
count_of label [] = 0
count_of label ((k, n) ∷ rest) = if text_eq k label then n else count_of label rest

-- `len(absent) > cap_min and len(absent) > cap_ratio * len(reg)`
unfoldable pub past_cap : Limits → ℕ → ℕ → Bool
past_cap c absent reg = ltb c.cap_min absent && ltb (c.cap_num * reg) (c.cap_den * absent)

-- the grace period is over
unfoldable pub is_due : Limits → List (Text × ℕ) → Text → Bool
is_due c tombstones label = leb c.min_absent_sweeps (count_of label tombstones + 1)

unfoldable pub plan_absent :
    Limits → List Text → List Text → List (Text × ℕ) → List Text → NamespacePlan
plan_absent c backfill absent tombstones clearable = record {
  backfill = backfill;
  delete = filter (is_due c tombstones) absent;
  tombstone_bump = filter (λ label. not (is_due c tombstones label)) absent;
  tombstone_clear = clearable;
  skipped = false;
  capped = false;
}

unfoldable pub plan_namespace : Limits → List Text → List Text → List (Text × ℕ) → NamespacePlan
plan_namespace c live_labels reg_labels tombstones =
    let live = sort_set live_labels in
    let reg = sort_set reg_labels in
    let marked = sort_set (names tombstones) in
    let backfill = difference live reg in
    let absent = difference reg live in
    let reappeared = intersection (intersection reg live) marked in
    let orphaned = difference (difference marked reg) live in
    let clearable = sort_set (union reappeared orphaned) in
    if is_nonempty reg && not (is_nonempty live)
    then record {
      backfill = backfill;
      delete = [];
      tombstone_bump = [];
      tombstone_clear = reappeared;
      skipped = true;
      capped = false;
    }
    else if past_cap c (length absent) (length reg)
    then record {
      backfill = backfill;
      delete = [];
      tombstone_bump = [];
      tombstone_clear = clearable;
      skipped = false;
      capped = true;
    }
    else plan_absent c backfill absent tombstones clearable
