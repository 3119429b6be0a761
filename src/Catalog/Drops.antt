-- ===== src/Catalog/Drops.antt =====
-- What `drop_table` leaves in the catalog.
use memcove.Common.{◌≡◌, Option, none, some, Text}
use memcove.Common.Result.{ok}
use memcove.Catalog.{LakeTable, Iceberg, found_at, drop_table, drop_found}

module _ (Row : Type 0) (ice : Iceberg Row) where
  drop_found-effect :
      (ns l : Text) (found : Option (LakeTable Row)) (w w' : ice.Lake) (x : Unit {0})
      → drop_found Row ice ns l found w ≡ (ok x, w')
      → (n m : Text) → ice.find w' n m ≡ found_at ns l none (ice.find w n m) n m
  unfolding drop_found
  drop_found-effect ns l none w w' x h n m = absurd (cc)
  drop_found-effect ns l (some t) w w' x h n m = ice.drop_effect ns l w w' x h n m

  -- a drop that returned took its table away and no other
  pub drop_table-effect :
      (ns l : Text) (w w' : ice.Lake) (x : Unit {0})
      → drop_table Row ice ns l w ≡ (ok x, w')
      → (n m : Text) → ice.find w' n m ≡ found_at ns l none (ice.find w n m) n m
  unfolding drop_table
  drop_table-effect ns l w w' x h n m = drop_found-effect ns l (ice.find w ns l) w w' x h n m
