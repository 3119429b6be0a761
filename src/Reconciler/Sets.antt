-- ===== src/Reconciler/Sets.antt =====
-- Python's sets as the lists of `sort_set`: each label once, in ascending order.
use memcove.Common.{
  ◌≡◌, refl, Bool, true, false, not, ◌&&◌, List, [], ◌∷◌, Text, text_eq, text_eq_iff, text_lt,
  contains, filter, all, arith,
}
use memcove.Reconciler.{insert_set, sort_set, difference}

text_lt_irrefl : (s : Text) → text_lt s s ≡ false
unfolding text_lt
text_lt_irrefl [] = refl
text_lt_irrefl (a ∷ s) = ground (arith, text_lt_irrefl s)

text_lt_trans : (r s t : Text) → text_lt r s ≡ true → text_lt s t ≡ true → text_lt r t ≡ true
unfolding text_lt
text_lt_trans r s [] h k = cc
text_lt_trans r [] (c ∷ t) h k = cc
text_lt_trans [] (b ∷ s) (c ∷ t) h k = refl
text_lt_trans (a ∷ r) (b ∷ s) (c ∷ t) h k = ground (arith, text_lt_trans r s t)

text_lt_total : (s t : Text) → text_eq s t ≡ false → text_lt s t ≡ false → text_lt t s ≡ true
unfolding text_lt text_eq
text_lt_total [] [] h k = cc
text_lt_total (a ∷ s) [] h k = refl
text_lt_total [] (b ∷ t) h k = cc
text_lt_total (a ∷ s) (b ∷ t) h k = ground (arith, text_lt_total s t)

unfoldable pub ascending : List Text → Bool
ascending [] = true
ascending (a ∷ rest) = all (text_lt a) rest && ascending rest

all-contains :
    (p : Text → Bool) (xs : List Text) (a : Text)
    → all p xs ≡ true
    → contains xs a ≡ true
    → p a ≡ true
unfolding all contains
all-contains p [] a h k = cc
all-contains p (x ∷ xs) a h k = ground (arith, all-contains p xs a, text_eq_iff x a)

all_below :
    (a b : Text) (xs : List Text)
    → text_lt a b ≡ true
    → all (text_lt b) xs ≡ true
    → all (text_lt a) xs ≡ true
unfolding all
all_below a b [] h k = refl
all_below a b (x ∷ xs) h k = ground (arith, all_below a b xs, text_lt_trans a b x)

all-insert_set :
    (p : Text → Bool) (a : Text) (xs : List Text)
    → p a ≡ true
    → all p xs ≡ true
    → all p (insert_set a xs) ≡ true
unfolding all insert_set
all-insert_set p a [] h k = ground arith
all-insert_set p a (b ∷ bs) h k = ground (arith, all-insert_set p a bs)

insert_set-ascending :
    (a : Text) (xs : List Text) → ascending xs ≡ true → ascending (insert_set a xs) ≡ true
unfolding ascending insert_set all
insert_set-ascending a [] h = refl
insert_set-ascending a (b ∷ bs) h = ground (
  arith,
  insert_set-ascending a bs,
  all_below a b bs,
  text_lt_total a b,
  all-insert_set (text_lt b) a bs,
)

sort_set-ascending : (xs : List Text) → ascending (sort_set xs) ≡ true
unfolding ascending sort_set
sort_set-ascending [] = refl
sort_set-ascending (a ∷ rest) = insert_set-ascending a (sort_set rest) (sort_set-ascending rest)

all-filter : (p q : Text → Bool) (xs : List Text) → all p xs ≡ true → all p (filter q xs) ≡ true
unfolding all filter
all-filter p q [] h = refl
all-filter p q (x ∷ xs) h = ground (arith, all-filter p q xs)

pub filter-ascending :
    (q : Text → Bool) (xs : List Text) → ascending xs ≡ true → ascending (filter q xs) ≡ true
unfolding ascending filter
filter-ascending q [] h = refl
filter-ascending q (x ∷ xs) h = ground (arith, filter-ascending q xs, all-filter (text_lt x) q xs)

pub difference-ascending : (xs ys : List Text) → ascending (difference (sort_set xs) ys) ≡ true
unfolding difference
difference-ascending xs ys =
    filter-ascending (λ x. not (contains ys x)) (sort_set xs) (sort_set-ascending xs)

-- the first label of an ascending list comes no second time
pub head_once :
    (x a : Text) (xs : List Text)
    → ascending (x ∷ xs) ≡ true
    → text_eq x a ≡ true
    → contains xs a ≡ false
unfolding ascending
head_once x a xs h e =
    ground (arith, all-contains (text_lt x) xs a, text_eq_iff x a, text_lt_irrefl a)

pub tail_ascending : (x : Text) (xs : List Text) → ascending (x ∷ xs) ≡ true → ascending xs ≡ true
unfolding ascending
tail_ascending x xs h = ground arith
