-- ===== src/Registry/Collation.antt =====
-- Tags under a collation that takes different texts for the same, as the default one of MySQL does.
use memcove.Common.{
  ℕ, ◌≡◌, refl, ap, ◌∙◌, true, false, [], ◌∷◌, ◌++◌, Text, any, text_eq, contains, filter, not,
  arith,
}
use memcove.Common.Result.{Error, Result, ok, err, backend_error}
use memcove.Common.Exec.{for_each}
use memcove.Registry.{
  Tables, Store, TagRow, at_key, run, tags_of, delete_tags, insert_tag, execute, replace_tags,
  dedupe, dedupe_from,
}
use memcove.Registry.Transactions.{touch-no_faults, execute-no_faults}
use memcove.Registry.Recording.{tags-delete, tags-append, at_key_self}

execute-refused :
    (f : ℕ → Tables → Result Tables) (s : Store) (e : Error)
    → s.faults ≡ []
    → f s.clock s.tables ≡ err e
    → (execute f s).0 ≡ err e
unfolding execute run
execute-refused f s e calm h = ground (arith, touch-no_faults s calm)

first_fits :
    (t l x : Text) (b : Tables)
    → tags_of t l b.tags ≡ []
    → insert_tag t l x b
      ≡ ok (record b { tags = b.tags ++ record { tenant = t; label = l; tag = x } ∷ [] })
unfolding insert_tag any
first_fits t l x b none_yet = rw none_yet refl

second_meets :
    (t l x y : Text) (b : Tables)
    → tags_of t l b.tags ≡ x ∷ []
    → b.same_tag y x ≡ true
    → insert_tag t l y b ≡ err backend_error
unfolding insert_tag any
second_meets t l x y b one equal = rw (one, equal) refl

both_kept : (x y : Text) → text_eq x y ≡ false → dedupe (x ∷ y ∷ []) ≡ x ∷ y ∷ []
unfolding dedupe dedupe_from contains
both_kept x y apart = rw apart refl

-- Two tags that differ but are equal to the collation, as in lower and upper case, fail: the second
-- INSERT meets the key of the first, although no fault is ahead.
pub replace_tags-collides :
    (t l x y : Text) (s : Store)
    → s.faults ≡ []
    → text_eq x y ≡ false
    → s.tables.same_tag y x ≡ true
    → (replace_tags t l (x ∷ y ∷ []) s).0 ≡ err backend_error
unfolding replace_tags for_each delete_tags
replace_tags-collides t l x y s calm apart equal =
    let row : TagRow = record { tenant = t; label = l; tag = x } in
    let cleared = record (s.tables) {
      tags = filter (λ r. not (at_key t l r.tenant r.label)) s.tables.tags;
    } in
    let one = record cleared { tags = cleared.tags ++ row ∷ [] } in
    let empty = tags-delete t l s.tables.tags in
    let deleted = execute-no_faults (λ now. delete_tags t l) s cleared calm refl in
    let inserted =
      execute-no_faults (λ now. insert_tag t l x) (record s { tables = cleared }) one calm
        (first_fits t l x cleared empty) in
    let there : tags_of t l one.tags ≡ x ∷ [] =
      tags-append t l cleared.tags row (at_key_self t l) ∙ ap (λ q. q ++ x ∷ []) empty in
    let refused =
      execute-refused (λ now. insert_tag t l y) (record s { tables = one }) backend_error calm
        (second_meets t l x y one there equal) in
    rw (both_kept x y apart, deleted, inserted) (ground (arith, refused))
