-- ===== src/Registry/Guarded.antt =====
-- The guarded write records everything or nothing, and says which.
use memcove.Common.{
  ℕ, ◌≡◌, refl, not, ◌&&◌, ◌||◌, Option, none, some, List, [], ◌∷◌, Text, text_eq, text_eq_iff,
  contains, filter, arith,
}
use memcove.Common.Result.{Result, ok}
use memcove.Common.Exec.{for_each, >>=-returns}
use memcove.Registry.{
  Tables, Store, ObjectValues, find_object, tags_of, delete_tags, insert_tag, parents_of,
  delete_lineage, insert_lineage, execute, dedupe, replace_tags, set_lineage_rows,
}
use memcove.Registry.Transactions.{execute-ok}
use memcove.Registry.Recording.{
  upserted, tags-delete, parents-delete, insert_tag-tags, insert_lineage-parents, contains-dedupe,
}

pub execute-returns :
    (f : ℕ → Tables → Result Tables) (s s' : Store) (x : Unit {0})
    → execute f s ≡ (ok x, s')
    → (f s.clock s.tables ≡ ok s'.tables) × (s'.clock ≡ s.clock)
execute-returns f s s' x h = ground (arith, execute-ok f s x)

-- what the INSERTs of a loop over tags, and over parents, add
tags_loop :
    (t l : Text) (xs : List Text) (s s' : Store) (x : Unit {0}) (a : Text)
    → for_each (λ tag. execute (λ now. insert_tag t l tag)) xs s ≡ (ok x, s')
    → (contains (tags_of t l s'.tables.tags) a
        ≡ contains (tags_of t l s.tables.tags) a || contains xs a)
      × (s'.tables.objects ≡ s.tables.objects)
      × (s'.tables.lineage ≡ s.tables.lineage)
unfolding for_each contains
tags_loop t l [] s s' x a h = ground arith
tags_loop t l (y ∷ xs) s s' x a h =
    let (_, mid, step, rest) = >>=-returns (execute (λ now. insert_tag t l y)) _ s s' x h in
    let (effect, _) = execute-returns (λ now. insert_tag t l y) s mid _ step in
    let one = insert_tag-tags t l y s.tables mid.tables a effect in
    let more = tags_loop t l xs mid s' x a rest in ground (arith, one, more)

lineage_loop :
    (t l : Text) (xs : List Text) (s s' : Store) (x : Unit {0}) (a : Text)
    → for_each (λ p. execute (λ now. insert_lineage t l p)) xs s ≡ (ok x, s')
    → (contains (parents_of t l s'.tables.lineage) a
        ≡ contains (parents_of t l s.tables.lineage) a || contains xs a)
      × (s'.tables.objects ≡ s.tables.objects)
      × (s'.tables.tags ≡ s.tables.tags)
unfolding for_each contains
lineage_loop t l [] s s' x a h = ground arith
lineage_loop t l (y ∷ xs) s s' x a h =
    let (_, mid, step, rest) = >>=-returns (execute (λ now. insert_lineage t l y)) _ s s' x h in
    let (effect, _) = execute-returns (λ now. insert_lineage t l y) s mid _ step in
    let one = insert_lineage-parents t l y s.tables mid.tables a effect in
    let more = lineage_loop t l xs mid s' x a rest in ground (arith, one, more)

delete_tags-tags :
    (t l : Text) (before after : Tables)
    → delete_tags t l before ≡ ok after
    → (tags_of t l after.tags ≡ [])
      × (after.objects ≡ before.objects)
      × (after.lineage ≡ before.lineage)
unfolding delete_tags
delete_tags-tags t l before after h = ground (arith, tags-delete t l before.tags)

delete_lineage-parents :
    (t l : Text) (before after : Tables)
    → delete_lineage t l before ≡ ok after
    → (parents_of t l after.lineage ≡ [])
      × (after.objects ≡ before.objects)
      × (after.tags ≡ before.tags)
unfolding delete_lineage
delete_lineage-parents t l before after h = ground (arith, parents-delete t l before.lineage)

pub replace_tags-returns :
    (t l : Text) (tags : List Text) (s s' : Store) (x : Unit {0}) (a : Text)
    → replace_tags t l tags s ≡ (ok x, s')
    → (contains (tags_of t l s'.tables.tags) a ≡ contains tags a)
      × (s'.tables.objects ≡ s.tables.objects)
      × (s'.tables.lineage ≡ s.tables.lineage)
unfolding replace_tags contains
replace_tags-returns t l tags s s' x a h =
    let (_, mid, step, rest) = >>=-returns (execute (λ now. delete_tags t l)) _ s s' x h in
    let (effect, _) = execute-returns (λ now. delete_tags t l) s mid _ step in
    ground (
      arith,
      delete_tags-tags t l s.tables mid.tables effect,
      tags_loop t l (dedupe tags) mid s' x a rest,
      contains-dedupe tags a,
    )

contains-filter_ne :
    (xs : List Text) (c a : Text)
    → contains (filter (λ p. not (text_eq p c)) xs) a ≡ contains xs a && not (text_eq a c)
unfolding filter contains
contains-filter_ne [] c a = refl
contains-filter_ne (x ∷ xs) c a =
    ground (arith, contains-filter_ne xs c a, text_eq_iff x a, text_eq_iff x c, text_eq_iff a c)

pub set_lineage_rows-returns :
    (t l : Text) (parents : List Text) (s s' : Store) (x : Unit {0}) (a : Text)
    → set_lineage_rows t l parents s ≡ (ok x, s')
    → (contains (parents_of t l s'.tables.lineage) a ≡ contains parents a && not (text_eq a l))
      × (s'.tables.objects ≡ s.tables.objects)
      × (s'.tables.tags ≡ s.tables.tags)
unfolding set_lineage_rows contains
set_lineage_rows-returns t l parents s s' x a h =
    let (_, mid, step, rest) = >>=-returns (execute (λ now. delete_lineage t l)) _ s s' x h in
    let (effect, _) = execute-returns (λ now. delete_lineage t l) s mid _ step in
    ground (
      arith,
      delete_lineage-parents t l s.tables mid.tables effect,
      lineage_loop t l (filter (λ p. not (text_eq p l)) (dedupe parents)) mid s' x a rest,
      contains-filter_ne (dedupe parents) l a,
      contains-dedupe parents a,
    )

-- the object, its tags and its lineage are in the tables
pub record IsRecorded (now : ℕ) (v : ObjectValues) (tags : List Text) (before after : Tables)
    : Type 0 where
  pub object :
      find_object v.tenant v.label after.objects
      ≡ some (upserted now v (find_object v.tenant v.label before.objects))
  pub tagged : (a : Text) → contains (tags_of v.tenant v.label after.tags) a ≡ contains tags a

-- the parents recorded; no list leaves the lineage table alone
abbrev pub HasParents : ObjectValues → Option (List Text) → Tables → Tables → Type 0
HasParents v none before after = after.lineage ≡ before.lineage
HasParents v (some parents) before after =
    (a : Text)
    → contains (parents_of v.tenant v.label after.lineage) a
      ≡ contains parents a && not (text_eq a v.label)
