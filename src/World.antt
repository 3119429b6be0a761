-- ===== src/World.antt =====
-- What the tools act on: the state that the Iceberg catalog and the query engine share, and the
-- registry.
use memcove.Common.{◌≡◌, arith}
use memcove.Common.Result.{Result, ok}
use memcove.Common.Exec.{Exec}
use memcove.Registry.{Store}

pub record World (L : Type 0) : Type 0 where
  pub lake : L
  pub store : Store

module _ {L A : Type 0} where
  unfoldable pub in_lake : Exec L A → Exec (World L) A
  in_lake m w = let (r, lake) = m w.lake in (r, record w { lake = lake })

  unfoldable pub in_store : Exec Store A → Exec (World L) A
  in_store m w = let (r, store) = m w.store in (r, record w { store = store })

  -- a look at the catalog, which may raise
  unfoldable pub look : (L → Result A) → Exec (World L) A
  look f w = (f w.lake, w)

pub in_lake-returns :
    {L A : Type 0} (m : Exec L A) (w w' : World L) (a : A)
    → in_lake m w ≡ (ok a, w')
    → (m w.lake ≡ (ok a, w'.lake)) × (w'.store ≡ w.store)
unfolding in_lake
in_lake-returns m w w' a h = ground arith

pub in_store-returns :
    {L A : Type 0} (m : Exec Store A) (w w' : World L) (a : A)
    → in_store m w ≡ (ok a, w')
    → (m w.store ≡ (ok a, w'.store)) × (w'.lake ≡ w.lake)
unfolding in_store
in_store-returns m w w' a h = ground arith
