-- ===== src/Registry/Recording.antt =====
-- What is in the tables once an object is recorded.
use memcove.Common.{
  ℕ, ◌≡◌, refl, ◌∙◌, Bool, true, false, not, ◌&&◌, ◌||◌, Option, none, some, List, [], ◌∷◌, ◌++◌,
  Text, text_eq, text_eq_iff, text_eq_refl, contains, contains-append, filter, arith,
}
use memcove.Common.Result.{ok}
use memcove.Registry.{
  Tables, ObjectRow, ObjectValues, TagRow, LineageRow, at_key, find_object, new_row, updated_row,
  upsert_row, tags_of, insert_tag, parents_of, insert_lineage, dedupe_from, dedupe,
}

pub at_key_self : (t l : Text) → at_key t l t l ≡ true
unfolding at_key
at_key_self t l = ground (arith, text_eq_refl t, text_eq_refl l)

contains-dedupe_from :
    (seen xs : List Text) (a : Text)
    → contains (dedupe_from seen xs) a ≡ contains xs a && not (contains seen a)
unfolding dedupe_from contains
contains-dedupe_from seen [] a = refl
contains-dedupe_from seen (x ∷ xs) a = ground (
  arith,
  contains-dedupe_from seen xs a,
  contains-dedupe_from (x ∷ seen) xs a,
  text_eq_iff x a,
  contains-cons x seen a,
)
  where
    contains-cons :
        (y : Text) (ys : List Text) (b : Text) → contains (y ∷ ys) b ≡ text_eq y b || contains ys b
    contains-cons y ys b = refl

pub contains-dedupe : (xs : List Text) (a : Text) → contains (dedupe xs) a ≡ contains xs a
unfolding dedupe contains
contains-dedupe xs a = contains-dedupe_from [] xs a ∙ and_true (contains xs a)
  where
    and_true : (b : Bool) → b && true ≡ b
    and_true true = refl
    and_true false = refl

-- the row of an object after its upsert: a new one, or the old one with its creation time kept
abbrev pub upserted : ℕ → ObjectValues → Option ObjectRow → ObjectRow
upserted now v none = new_row now v
upserted now v (some r) = updated_row now v r

pub upserted-source :
    (now : ℕ) (v : ObjectValues) (old : Option ObjectRow) → (upserted now v old).source ≡ v.source
upserted-source now v none = refl
upserted-source now v (some r) = refl

pub find-upsert :
    (now : ℕ) (v : ObjectValues) (rows : List ObjectRow)
    → find_object v.tenant v.label (upsert_row now v rows)
      ≡ some (upserted now v (find_object v.tenant v.label rows))
unfolding find_object upsert_row
find-upsert now v [] = rw (at_key_self v.tenant v.label)
find-upsert now v (r ∷ rs) = ground (arith, find-upsert now v rs)

-- after the DELETE no tag of the key is left
pub tags-delete :
    (t l : Text) (rows : List TagRow)
    → tags_of t l (filter (λ r. not (at_key t l r.tenant r.label)) rows) ≡ []
unfolding tags_of filter
tags-delete t l [] = refl
tags-delete t l (r ∷ rows) = ground (arith, tags-delete t l rows)

pub tags-append :
    (t l : Text) (rows : List TagRow) (r : TagRow)
    → at_key t l r.tenant r.label ≡ true
    → tags_of t l (rows ++ r ∷ []) ≡ tags_of t l rows ++ r.tag ∷ []
unfolding tags_of filter
tags-append t l [] r h = rw h
tags-append t l (q ∷ rows) r h = ground (arith, tags-append t l rows r h)

pub parents-delete :
    (t l : Text) (rows : List LineageRow)
    → parents_of t l (filter (λ r. not (at_key t l r.child_tenant r.child_label)) rows) ≡ []
unfolding parents_of filter
parents-delete t l [] = refl
parents-delete t l (r ∷ rows) = ground (arith, parents-delete t l rows)

parents-append :
    (t l : Text) (rows : List LineageRow) (r : LineageRow)
    → at_key t l r.child_tenant r.child_label ≡ true
    → parents_of t l (rows ++ r ∷ []) ≡ parents_of t l rows ++ r.parent_label ∷ []
unfolding parents_of filter
parents-append t l [] r h = rw h
parents-append t l (q ∷ rows) r h = ground (arith, parents-append t l rows r h)

pub insert_tag-tags :
    (t l tag : Text) (before after : Tables) (a : Text)
    → insert_tag t l tag before ≡ ok after
    → (contains (tags_of t l after.tags) a ≡ contains (tags_of t l before.tags) a || text_eq tag a)
      × (after.objects ≡ before.objects)
      × (after.lineage ≡ before.lineage)
unfolding insert_tag contains
insert_tag-tags t l tag before after a h = ground (
  arith,
  tags-append t l before.tags (record { tenant = t; label = l; tag = tag }) (at_key_self t l),
  contains-append (tags_of t l before.tags) (tag ∷ []) a,
)

pub insert_lineage-parents :
    (t l p : Text) (before after : Tables) (a : Text)
    → insert_lineage t l p before ≡ ok after
    → (contains (parents_of t l after.lineage) a
        ≡ contains (parents_of t l before.lineage) a || text_eq p a)
      × (after.objects ≡ before.objects)
      × (after.tags ≡ before.tags)
unfolding insert_lineage contains
insert_lineage-parents t l p before after a h = ground (
  arith,
  parents-append t l before.lineage (record { child_tenant = t; child_label = l; parent_label = p })
      (at_key_self t l),
  contains-append (parents_of t l before.lineage) (p ∷ []) a,
  text_eq_iff p a,
)
