-- ===== src/Registry.antt =====
-- core/registry.py: the metadata of the objects, over the tables of a database.
mod Schema
mod Session
pub mod Transactions
pub mod Recording
pub mod Guarded
pub mod Atomic
pub mod Tags
pub mod Total
pub mod Frames
pub mod Calm
pub mod Backends
pub mod Ddl
pub mod Init
pub mod Switch
pub mod Drivers
pub mod Rows
pub mod MySql
pub mod Collation
pub mod Dialects
pub mod Creation
pub mod Ready
pub mod Others
pub mod Tombstones
pub mod Known
pub mod Refinement
mod Tests
mod BackendTests
unfoldable pub use Schema.*
unfoldable pub use Session.*
use memcove.Common.{
  ℕ, zero, suc, ◌+◌, Bool, true, false, not, Option, none, some, List, [], ◌∷◌, map, Text, text_eq,
  contains, is_nonempty, filter, if◌then◌else◌,
}
use memcove.Common.Result.{Error, Result, ok, err, backend_down}
use memcove.Common.Exec.{Exec, pure, ◌>>=◌, ◌>>◌, for_each}

-- `dict.fromkeys(xs)`: each text once, in the order of the first occurrences
unfoldable pub dedupe_from : List Text → List Text → List Text
dedupe_from seen [] = []
dedupe_from seen (x ∷ xs) =
    let fresh = x ∷ dedupe_from (x ∷ seen) xs in
    let rest = dedupe_from seen xs in if contains seen x then rest else fresh

unfoldable pub dedupe : List Text → List Text
dedupe = dedupe_from []

-- _replace_tags
unfoldable pub replace_tags : Text → Text → List Text → Exec Store (Unit {0})
replace_tags tenant label tags = do
  execute (λ now. delete_tags tenant label)
  for_each (λ tag. execute (λ now. insert_tag tenant label tag)) (dedupe tags)

-- _upsert_object
unfoldable pub upsert_object : ObjectValues → List Text → Exec Store (Unit {0})
upsert_object v tags = do
  execute (λ now. upsert_object_sql now v)
  replace_tags v.tenant v.label tags

-- _set_lineage
unfoldable pub set_lineage_rows : Text → Text → List Text → Exec Store (Unit {0})
set_lineage_rows tenant child parents = do
  execute (λ now. delete_lineage tenant child)
  for_each (λ parent. execute (λ now. insert_lineage tenant child parent))
      (filter (λ parent. not (text_eq parent child)) (dedupe parents))

unfoldable pub record_object : ObjectValues → List Text → Exec Store (Unit {0})
record_object v tags = connection (upsert_object v tags)

unfoldable pub set_lineage : Text → Text → List Text → Exec Store (Unit {0})
set_lineage tenant child parents = connection (set_lineage_rows tenant child parents)

-- is_connection_down: what the backend's driver raises when the database cannot be reached
abbrev pub is_connection_down : Error → Bool
is_connection_down backend_down = true
is_connection_down _ = false

pub lineage_part : Text → Text → Option (List Text) → Exec Store (Unit {0})
lineage_part tenant label none = pure tt
lineage_part tenant label (some parents) = set_lineage_rows tenant label parents

abbrev swallow_down : Result (Unit {0}) × Store → Result Bool × Store
swallow_down (ok x, s) = (ok true, s)
swallow_down (err e, s) = if is_connection_down e then (ok false, s) else (err e, s)

-- `b = _get()`, which raises where the backend has to be built and cannot be
unfoldable pub obtain_backend : Exec Store (Unit {0})
obtain_backend = touch

-- the `try`: the object row, its tags and its lineage in one transaction; false if the database
-- is down
unfoldable pub write_or_false : ObjectValues → List Text → Option (List Text) → Exec Store Bool
unfolding lineage_part
write_or_false v tags parents s =
    swallow_down (connection (do upsert_object v tags; lineage_part v.tenant v.label parents) s)

-- the backend is obtained before the `try`
unfoldable pub record_object_guarded :
    ObjectValues → List Text → Option (List Text) → Exec Store Bool
record_object_guarded v tags parents = do obtain_backend; write_or_false v tags parents

unfoldable pub delete_object : Text → Text → Exec Store (Unit {0})
delete_object tenant label = connection (do
  execute (λ now. delete_objects tenant label)
  execute (λ now. delete_tags tenant label)
  execute (λ now. delete_lineage tenant label))

-- `get_object`: the row, and its tags in order
abbrev pub ObjectView : Type 0
ObjectView = ObjectRow × List Text

with_tags : Option ObjectRow → Text → Text → Exec Store (Option ObjectView)
with_tags none tenant label = pure none
with_tags (some row) tenant label = do
  tags ← query (select_tags tenant label)
  pure (some (row, tags))

unfoldable pub get_object : Text → Text → Exec Store (Option ObjectView)
unfolding with_tags
get_object tenant label =
    connection (do row ← query (select_object tenant label); with_tags row tenant label)

-- `list_objects`; no tags is the empty list
unfoldable pub list_objects : Text → List Text → Exec Store (List ObjectView)
list_objects tenant tags = connection (do
  rows ← query (select_objects tenant tags)
  tag_rows ← query (select_tenant_tags tenant)
  pure (map (λ row. (row, sorted (tags_of row.tenant row.label tag_rows))) rows))

unfoldable pub labels_for_tenant : Text → Exec Store (List Text)
labels_for_tenant tenant = connection (query (select_labels tenant))

unfoldable pub get_parents : Text → Text → Exec Store (List Text)
get_parents tenant label = connection (query (select_parents tenant label))

unfoldable pub tombstones_for_tenant : Text → Exec Store (List (Text × ℕ))
tombstones_for_tenant tenant = connection (query (select_tombstones tenant))

unfoldable pub bump_tombstone : Text → Text → Exec Store (Unit {0})
bump_tombstone tenant label = connection (execute (λ now. upsert_tombstone tenant label))

unfoldable pub clear_tombstone : Text → Text → Exec Store (Unit {0})
clear_tombstone tenant label = connection (execute (λ now. delete_tombstone tenant label))

-- `SELECT 1`
unfoldable pub ping : Exec Store (Unit {0})
ping = connection (query (λ t. tt))
