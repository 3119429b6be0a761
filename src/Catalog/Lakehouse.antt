-- ===== src/Catalog/Lakehouse.antt =====
-- PyIceberg's catalog, which the program calls: a parameter with its documented effects.
use memcove.Common.{◌≡◌, Option, none, some, List, [], ◌++◌, Text, ◌&&◌, text_eq, if◌then◌else◌}
use memcove.Common.Result.{Error, ok, err}
use memcove.Common.Exec.{Exec}

-- the fields of a schema: name and type
abbrev pub TableSchema : Type 0
TableSchema = List (Text × Text)

pub record LakeTable (Row : Type 0) : Type 0 where
  pub schema : TableSchema
  pub rows : List Row

-- the lookup of one table, with all others as before
abbrev pub found_at {ℓ} : {A : Type ℓ} → Text → Text → A → A → Text → Text → A
found_at ns l new old n m = if text_eq n ns && text_eq m l then new else old

pub record Iceberg (Row : Type 0) : Type 1 where
  pub Lake : Type 0
  -- the schema that a new table gets, its types being Iceberg's
  pub stored : TableSchema → TableSchema
  -- `table_exists` and `load_table`
  pub find : Lake → Text → Text → Option (LakeTable Row)
  pub create_namespace : Text → Exec Lake (Unit {0})
  pub create_table : Text → Text → TableSchema → Exec Lake (Unit {0})
  pub append : Text → Text → List Row → Exec Lake (Unit {0})
  pub overwrite : Text → Text → List Row → Exec Lake (Unit {0})
  pub drop : Text → Text → Exec Lake (Unit {0})
  pub namespace_keeps :
      (ns : Text) (w : Lake) (n m : Text) → find (create_namespace ns w).1 n m ≡ find w n m
  -- each commit has its effect on its own table, or has none
  pub create_effect :
      (ns l : Text) (s : TableSchema) (w w' : Lake) (x : Unit {0})
      → create_table ns l s w ≡ (ok x, w')
      → (n m : Text)
      → find w' n m
        ≡ found_at ns l (some (record { schema = stored s; rows = [] })) (find w n m) n m
  pub create_fails :
      (ns l : Text) (s : TableSchema) (w w' : Lake) (e : Error)
      → create_table ns l s w ≡ (err e, w')
      → (n m : Text) → find w' n m ≡ find w n m
  pub append_effect :
      (ns l : Text) (rows : List Row) (w w' : Lake) (x : Unit {0}) (t : LakeTable Row)
      → append ns l rows w ≡ (ok x, w')
      → find w ns l ≡ some t
      → (n m : Text)
      → find w' n m ≡ found_at ns l (some (record t { rows = t.rows ++ rows })) (find w n m) n m
  pub append_fails :
      (ns l : Text) (rows : List Row) (w w' : Lake) (e : Error)
      → append ns l rows w ≡ (err e, w')
      → (n m : Text) → find w' n m ≡ find w n m
  pub overwrite_effect :
      (ns l : Text) (rows : List Row) (w w' : Lake) (x : Unit {0}) (t : LakeTable Row)
      → overwrite ns l rows w ≡ (ok x, w')
      → find w ns l ≡ some t
      → (n m : Text)
      → find w' n m ≡ found_at ns l (some (record t { rows = rows })) (find w n m) n m
  pub overwrite_fails :
      (ns l : Text) (rows : List Row) (w w' : Lake) (e : Error)
      → overwrite ns l rows w ≡ (err e, w')
      → (n m : Text) → find w' n m ≡ find w n m
  pub drop_effect :
      (ns l : Text) (w w' : Lake) (x : Unit {0})
      → drop ns l w ≡ (ok x, w')
      → (n m : Text) → find w' n m ≡ found_at ns l none (find w n m) n m
  pub drop_fails :
      (ns l : Text) (w w' : Lake) (e : Error)
      → drop ns l w ≡ (err e, w')
      → (n m : Text) → find w' n m ≡ find w n m
