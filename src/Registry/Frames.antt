-- ===== src/Registry/Frames.antt =====
-- Deletion, and that it touches no other object.
use memcove.Common.{
  ◌≡◌, refl, ◌∙◌, true, false, not, none, List, [], ◌∷◌, Text, text_eq_iff, filter, arith,
}
use memcove.Common.Result.{ok}
use memcove.Common.Exec.{Exec, ◌>>=◌, >>=-returns}
use memcove.Registry.{
  Tables, Store, ObjectRow, TagRow, LineageRow, at_key, find_object, tags_of, parents_of,
  delete_objects, delete_tags, delete_lineage, execute, touch, delete_object,
}
use memcove.Registry.Transactions.{touch-tables, connection-commit}
use memcove.Registry.Guarded.{execute-returns}
use memcove.Registry.Recording.{tags-delete, parents-delete}

pub find-delete :
    (t l : Text) (rows : List ObjectRow)
    → find_object t l (filter (λ r. not (at_key t l r.tenant r.label)) rows) ≡ none
unfolding find_object filter
find-delete t l [] = refl
find-delete t l (r ∷ rows) = ground (arith, find-delete t l rows)

-- two keys that fit one row are one key
pub at_key_unique :
    (t l t' l' a b : Text)
    → at_key t l t' l' ≡ false
    → at_key t' l' a b ≡ true
    → at_key t l a b ≡ false
unfolding at_key
at_key_unique t l t' l' a b other here = ground (
  arith,
  text_eq_iff a t,
  text_eq_iff b l,
  text_eq_iff a t',
  text_eq_iff b l',
  text_eq_iff t' t,
  text_eq_iff l' l,
)

module _ (t l t' l' : Text) (other : at_key t l t' l' ≡ false) where
  pub find-delete_other :
      (rows : List ObjectRow)
      → find_object t' l' (filter (λ r. not (at_key t l r.tenant r.label)) rows)
        ≡ find_object t' l' rows
  unfolding find_object filter
  find-delete_other [] = refl
  find-delete_other (r ∷ rows) =
      ground (arith, find-delete_other rows, at_key_unique t l t' l' r.tenant r.label other)

  pub tags-delete_other :
      (rows : List TagRow)
      → tags_of t' l' (filter (λ r. not (at_key t l r.tenant r.label)) rows) ≡ tags_of t' l' rows
  unfolding tags_of filter
  tags-delete_other [] = refl
  tags-delete_other (r ∷ rows) =
      ground (arith, tags-delete_other rows, at_key_unique t l t' l' r.tenant r.label other)

  pub parents-delete_other :
      (rows : List LineageRow)
      → parents_of t' l' (filter (λ r. not (at_key t l r.child_tenant r.child_label)) rows)
        ≡ parents_of t' l' rows
  unfolding parents_of filter
  parents-delete_other [] = refl
  parents-delete_other (r ∷ rows) =
      ground (
        arith,
        parents-delete_other rows,
        at_key_unique t l t' l' r.child_tenant r.child_label other,
      )

unfoldable pub deleted : Text → Text → Tables → Tables
deleted t l b = record b {
  objects = filter (λ r. not (at_key t l r.tenant r.label)) b.objects;
  tags = filter (λ r. not (at_key t l r.tenant r.label)) b.tags;
  lineage = filter (λ r. not (at_key t l r.child_tenant r.child_label)) b.lineage;
}

deleted_steps :
    (t l : Text) (before start one two final : Tables)
    → start ≡ before
    → delete_objects t l start ≡ ok one
    → delete_tags t l one ≡ ok two
    → delete_lineage t l two ≡ ok final
    → final ≡ deleted t l before
unfolding deleted delete_objects delete_tags delete_lineage
deleted_steps t l before start one two final e a b c = ground arith

delete_object-deleted :
    (t l : Text) (s : Store) (x : Unit {0})
    → (delete_object t l s).0 ≡ ok x
    → (delete_object t l s).1.tables ≡ deleted t l s.tables
unfolding delete_object
delete_object-deleted t l s x h =
    let objects : Exec Store (Unit {0}) = execute (λ now. delete_objects t l) in
    let tags : Exec Store (Unit {0}) = execute (λ now. delete_tags t l) in
    let lineage : Exec Store (Unit {0}) = execute (λ now. delete_lineage t l) in
    let final = ((objects >>= λ _. tags >>= λ _. lineage) (touch s).1).1 in
    let (ran, kept) = connection-commit (objects >>= λ _. tags >>= λ _. lineage) s x h in
    let whole : (objects >>= λ _. tags >>= λ _. lineage) (touch s).1 ≡ (ok x, final) =
      ground arith in
    let (y, mid, one, rest) =
      >>=-returns objects (λ _. tags >>= λ _. lineage) (touch s).1 final x whole in
    let (z, mid', two, last) = >>=-returns tags (λ _. lineage) mid final x rest in
    let gone_objects = (execute-returns (λ now. delete_objects t l) (touch s).1 mid y one).0 in
    let gone_tags = (execute-returns (λ now. delete_tags t l) mid mid' z two).0 in
    let gone_lineage = (execute-returns (λ now. delete_lineage t l) mid' final x last).0 in
    kept
    ∙ deleted_steps t l s.tables (touch s).1.tables mid.tables mid'.tables final.tables
        (touch-tables s).0 gone_objects gone_tags gone_lineage

pub delete_object-tombstones :
    (t l : Text) (s : Store) (x : Unit {0})
    → (delete_object t l s).0 ≡ ok x
    → (delete_object t l s).1.tables.tombstones ≡ s.tables.tombstones
unfolding deleted
delete_object-tombstones t l s x h = rw (delete_object-deleted t l s x h) refl

-- A deletion that returns leaves no row, no tag and no parent of the object, and every other
-- object, of this tenant and of all others, keeps its row, its tags and its parents.
pub delete_object-frame :
    (t l : Text) (s : Store) (x : Unit {0})
    → (delete_object t l s).0 ≡ ok x
    → (find_object t l (delete_object t l s).1.tables.objects ≡ none)
      × (tags_of t l (delete_object t l s).1.tables.tags ≡ [])
      × (parents_of t l (delete_object t l s).1.tables.lineage ≡ [])
      × ((t' l' : Text)
          → at_key t l t' l' ≡ false
          → (find_object t' l' (delete_object t l s).1.tables.objects
              ≡ find_object t' l' s.tables.objects)
            × (tags_of t' l' (delete_object t l s).1.tables.tags ≡ tags_of t' l' s.tables.tags)
            × (parents_of t' l' (delete_object t l s).1.tables.lineage
                ≡ parents_of t' l' s.tables.lineage))
unfolding deleted
delete_object-frame t l s x h = rw (delete_object-deleted t l s x h) (
  find-delete t l s.tables.objects,
  tags-delete t l s.tables.tags,
  parents-delete t l s.tables.lineage,
  λ t' l' other. (
    find-delete_other t l t' l' other s.tables.objects,
    tags-delete_other t l t' l' other s.tables.tags,
    parents-delete_other t l t' l' other s.tables.lineage,
  ),
)
