-- ===== src/Objects/Dropping.antt =====
-- What a drop leaves behind, in the catalog and in the registry.
use memcove.Common.{◌≡◌, ap, subst, false, none, [], Text}
use memcove.Common.Result.{ok}
use memcove.Common.Exec.{lift, >>=-returns}
use memcove.Unicode.{Unicode}
use memcove.Config.{Settings}
use memcove.Naming.{validate_label}
use memcove.Catalog.{Iceberg, found_at, drop_table}
use memcove.Catalog.Drops.{drop_table-effect}
use memcove.Registry.{Store, at_key, find_object, tags_of, parents_of, delete_object}
use memcove.Registry.Frames.{delete_object-frame}
use memcove.Trino.{Engine}
use memcove.World.{World, in_lake, in_store, in_lake-returns, in_store-returns}
use memcove.Objects.{drop_object}

-- the registry without an object, all others as before
pub record Forgotten (tenant label : Text) (before after : Store) : Type 0 where
  pub row : find_object tenant label after.tables.objects ≡ none
  pub tags : tags_of tenant label after.tables.tags ≡ []
  pub parents : parents_of tenant label after.tables.lineage ≡ []
  pub others :
      (n m : Text)
      → at_key tenant label n m ≡ false
      → (find_object n m after.tables.objects ≡ find_object n m before.tables.objects)
        × (tags_of n m after.tables.tags ≡ tags_of n m before.tables.tags)
        × (parents_of n m after.tables.lineage ≡ parents_of n m before.tables.lineage)

delete_object-Forgotten :
    (tenant label : Text) (s s' : Store) (x : Unit {0})
    → delete_object tenant label s ≡ (ok x, s')
    → Forgotten tenant label s s'
delete_object-Forgotten tenant label s s' x h =
    let (row, tags, parents, others) = delete_object-frame tenant label s x (ap (λ q. q.0) h) in
    subst (λ (after : Store). Forgotten tenant label s after) (ap (λ q. q.1) h)
      (record { row = row; tags = tags; parents = parents; others = others })

module _ (Row : Type 0) (ice : Iceberg Row) (e : Engine ice.Lake) (u : Unicode) (s : Settings) where
  -- A drop that returns names the validated label, whose table is gone from the catalog, and whose
  -- row, tags and parents are gone from the registry; every other table and every other object,
  -- of this tenant and of all others, is as it was.
  pub drop_object-Forgotten :
      (tenant raw x : Text) (w w' : World ice.Lake)
      → drop_object Row ice e u s tenant raw w ≡ (ok x, w')
      → (validate_label u raw ≡ ok x)
        × ((n m : Text) → ice.find w'.lake n m ≡ found_at tenant x none (ice.find w.lake n m) n m)
        × Forgotten tenant x w.store w'.store
  unfolding drop_object
  drop_object-Forgotten tenant raw x w w' h =
      let (label, w₀, valid, h₀) = >>=-returns (lift (validate_label u raw)) _ w w' x h in
      let (y, w₁, dropped, h₁) =
        >>=-returns (in_lake (drop_table Row ice tenant label)) _ w₀ w' x h₀ in
      let (z, w₂, deleted, last) =
        >>=-returns (in_store (delete_object tenant label)) _ w₁ w' x h₁ in
      let (lake, store) = in_lake-returns (drop_table Row ice tenant label) w₀ w₁ y dropped in
      let (store', lake') = in_store-returns (delete_object tenant label) w₁ w₂ z deleted in
      let named : label ≡ x = cc in
      let start : w₀ ≡ w = cc in
      let end : w₂ ≡ w' = cc in
      let effect = drop_table-effect Row ice tenant label w₀.lake w₁.lake y lake in
      let gone = delete_object-Forgotten tenant label w₁.store w₂.store z store' in
      let before : w₁.store ≡ w.store = cc in
      let after : w₂.store ≡ w'.store = cc in
      (
        cc,
        λ n m. cc (effect n m),
        subst (λ (name : Text). Forgotten tenant name w.store w'.store) named
            (subst (λ (b : Store). Forgotten tenant label b w'.store) before
              (subst (λ (a : Store). Forgotten tenant label w₁.store a) after gone)),
      )
