-- ===== src/Reconciler/Safety.antt =====
-- What a plan may delete, and what it backfills.
use memcove.Common.{
  contains-filter, ℕ, ◌*◌, ◌≤◌, ◌≡◌, refl, ◌⊎◌, inl, inr, Bool, true, false, not, ◌&&◌, ◌||◌, List,
  [], ◌∷◌, ◌++◌, Text, text_eq, text_eq_iff, contains, contains-append, is_nonempty, length,
  length-filter-le, ltb, arith, Bool-cases,
}
use native.Mathlib.Nat.{le_trans, mul-le-mul_left}
use memcove.Reconciler.{
  Limits, names, insert_set, sort_set, difference, intersection, union, past_cap, is_due,
  plan_absent, plan_namespace,
}

contains-insert_set :
    (a x : Text) (xs : List Text) → contains (insert_set a xs) x ≡ text_eq a x || contains xs x
unfolding insert_set contains
contains-insert_set a x [] = refl
contains-insert_set a x (b ∷ bs) =
    ground (arith, contains-insert_set a x bs, text_eq_iff a b, text_eq_iff a x, text_eq_iff b x)

pub contains-sort_set : (xs : List Text) (x : Text) → contains (sort_set xs) x ≡ contains xs x
unfolding sort_set contains
contains-sort_set [] x = refl
contains-sort_set (a ∷ rest) x =
    ground (arith, contains-insert_set a x (sort_set rest), contains-sort_set rest x)

nonempty-insert_set : (a : Text) (xs : List Text) → is_nonempty (insert_set a xs) ≡ true
unfolding insert_set
nonempty-insert_set a [] = refl
nonempty-insert_set a (b ∷ bs) = ground arith

pub nonempty-sort_set : (xs : List Text) → is_nonempty (sort_set xs) ≡ is_nonempty xs
unfolding sort_set
nonempty-sort_set [] = refl
nonempty-sort_set (a ∷ rest) = nonempty-insert_set a (sort_set rest)

pub contains-difference :
    (xs ys : List Text) (a : Text)
    → contains (difference xs ys) a ≡ contains xs a && not (contains ys a)
unfolding difference
contains-difference xs ys a = contains-filter (λ x. not (contains ys x)) xs a

pub contains-intersection :
    (xs ys : List Text) (a : Text)
    → contains (intersection xs ys) a ≡ contains xs a && contains ys a
unfolding intersection
contains-intersection xs ys a = contains-filter (contains ys) xs a

-- the two sets of tombstones that a plan clears
abbrev pub reappeared : List Text → List Text → List (Text × ℕ) → List Text
reappeared live reg tombstones =
    intersection (intersection (sort_set reg) (sort_set live)) (sort_set (names tombstones))

abbrev pub orphaned : List Text → List Text → List (Text × ℕ) → List Text
orphaned live reg tombstones =
    difference (difference (sort_set (names tombstones)) (sort_set reg)) (sort_set live)

contains-reappeared :
    (live reg : List Text) (tombstones : List (Text × ℕ)) (a : Text)
    → (contains reg a && contains live a && contains (names tombstones) a) ≡ true
    → contains (reappeared live reg tombstones) a ≡ true
contains-reappeared live reg tombstones a h = ground (
  arith,
  contains-intersection (intersection (sort_set reg) (sort_set live)) (sort_set (names tombstones))
      a,
  contains-intersection (sort_set reg) (sort_set live) a,
  contains-sort_set reg a,
  contains-sort_set live a,
  contains-sort_set (names tombstones) a,
)

contains-clearable :
    (xs ys : List Text) (a : Text)
    → contains xs a ≡ true
    → contains (sort_set (union xs ys)) a ≡ true
unfolding union
contains-clearable xs ys a h =
    ground (arith, contains-sort_set (xs ++ ys) a, contains-append xs ys a)

-- the labels that the registry has and the catalog does not list
abbrev pub absent_labels : List Text → List Text → List Text
absent_labels live reg = difference (sort_set reg) (sort_set live)

contains-absent :
    (live reg : List Text) (a : Text)
    → contains (absent_labels live reg) a ≡ contains reg a && not (contains live a)
contains-absent live reg a = ground (
  arith,
  contains-difference (sort_set reg) (sort_set live) a,
  contains-sort_set reg a,
  contains-sort_set live a,
)

contains-nil : (a : Text) → contains [] a ≡ false
unfolding contains
contains-nil a = refl

-- the fail-safe and the cap: the plan acts on absent rows only where this is true
abbrev pub may_act : Limits → List Text → List Text → Bool
may_act c live reg =
    not (is_nonempty reg && not (is_nonempty live))
    && not (past_cap c (length (absent_labels live reg)) (length (sort_set reg)))

capped_by :
    (c : Limits) (gone absent reg : ℕ)
    → gone ≤ absent
    → past_cap c absent reg ≡ false
    → (gone ≤ c.cap_min) ⊎ (c.cap_den * gone ≤ c.cap_num * reg)
unfolding past_cap
capped_by c gone absent reg le within = elim (Bool-cases (ltb c.cap_min absent)) [
  | inl many ↦ inr (le_trans (mul-le-mul_left c.cap_den le) (ground arith))
  | inr few ↦ inl (ground arith)
]

module _ (c : Limits) (live reg : List Text) (tombstones : List (Text × ℕ)) where
  -- A row is planned for deletion exactly when the registry has it, the catalog does not list it,
  -- its tombstone count reaches the grace period with this sweep, the catalog listed something and
  -- the absent rows stay within the cap; it is marked as absent once more exactly when the same
  -- holds but for the grace period.
  pub plan_namespace-delete_iff :
      (a : Text)
      → (contains (plan_namespace c live reg tombstones).delete a ≡ (
          may_act c live reg && (contains reg a && not (contains live a)) && is_due c tombstones a))
        × (contains (plan_namespace c live reg tombstones).tombstone_bump a ≡ (
            may_act c live reg
            && (contains reg a && not (contains live a))
            && not (is_due c tombstones a)))
  unfolding plan_namespace plan_absent
  plan_namespace-delete_iff a = ground (
    arith,
    nonempty-sort_set reg,
    nonempty-sort_set live,
    contains-nil a,
    contains-filter (is_due c tombstones) (absent_labels live reg) a,
    contains-filter (λ label. not (is_due c tombstones label)) (absent_labels live reg) a,
    contains-absent live reg a,
  )

  pub backfill-eq :
      (plan_namespace c live reg tombstones).backfill ≡ difference (sort_set live) (sort_set reg)
  unfolding plan_namespace plan_absent
  backfill-eq = ground arith

  cleared-reappeared :
      (a : Text)
      → contains (reappeared live reg tombstones) a ≡ true
      → contains (plan_namespace c live reg tombstones).tombstone_clear a ≡ true
  unfolding plan_namespace plan_absent
  cleared-reappeared a h = ground (
    arith,
    contains-clearable (reappeared live reg tombstones) (orphaned live reg tombstones) a h,
  )

  -- In every branch the plan backfills exactly the tables that have no registry row, and clears
  -- the tombstone of a row that is listed again.
  pub plan_namespace-backfill_iff :
      (a : Text)
      → (contains (plan_namespace c live reg tombstones).backfill a
          ≡ contains live a && not (contains reg a))
        × ((contains reg a && contains live a && contains (names tombstones) a) ≡ true
            → contains (plan_namespace c live reg tombstones).tombstone_clear a ≡ true)
  plan_namespace-backfill_iff a = (
    rw (backfill-eq, contains-difference, contains-sort_set, contains-sort_set),
    λ h. cleared-reappeared a (contains-reappeared live reg tombstones a h),
  )

  delete-le : length (plan_namespace c live reg tombstones).delete ≤ length (absent_labels live reg)
  unfolding plan_namespace plan_absent
  delete-le = ground (arith, length-filter-le (is_due c tombstones) (absent_labels live reg))

  over_deletes :
      past_cap c (length (absent_labels live reg)) (length (sort_set reg)) ≡ true
      → length (plan_namespace c live reg tombstones).delete ≤ c.cap_min
  unfolding plan_namespace plan_absent
  over_deletes over = ground arith

  -- One plan deletes at most cap_min rows, or at most the fraction cap_num / cap_den of the rows
  -- that the registry has for the namespace.
  pub plan_namespace-capped :
      (length (plan_namespace c live reg tombstones).delete ≤ c.cap_min)
      ⊎ (c.cap_den * length (plan_namespace c live reg tombstones).delete
          ≤ c.cap_num * length (sort_set reg))
  plan_namespace-capped =
      let gone = length (plan_namespace c live reg tombstones).delete in
      elim (Bool-cases (past_cap c (length (absent_labels live reg)) (length (sort_set reg)))) [
        | inl over ↦ inl (over_deletes over)
        | inr within ↦
            capped_by c gone (length (absent_labels live reg)) (length (sort_set reg)) delete-le
              within
      ]
