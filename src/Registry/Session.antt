-- ===== src/Registry/Session.antt =====
-- A database session: statements that may fail, and the transaction of `with b.connection()`.
use memcove.Common.{ℕ, Option, none, some, List, [], ◌∷◌}
use memcove.Common.Result.{Error, Result, ok, err}
use memcove.Common.Exec.{Exec}
use memcove.Registry.Schema.{Tables}

-- The database, its clock, and a schedule of what the next uses of the connection raise: none if
-- the use succeeds; with the schedule used up, every use succeeds.
pub record Store : Type 0 where
  pub tables : Tables
  pub clock : ℕ
  pub faults : List (Option Error)

-- one use of the connection
unfoldable pub touch : Exec Store (Unit {0})
touch s = elim s.faults [
  | [] ↦ (ok tt, s)
  | none ∷ rest ↦ (ok tt, record s { faults = rest })
  | some e ∷ rest ↦ (err e, record s { faults = rest })
]

unfoldable pub run : (ℕ → Tables → Result Tables) → Store → Result (Unit {0}) × Store
run f s = elim (f s.clock s.tables) [ ok t ↦ (ok tt, record s { tables = t }) | err e ↦ (err e, s) ]

-- `b.execute`
unfoldable pub execute : (ℕ → Tables → Result Tables) → Exec Store (Unit {0})
unfolding run
execute f s = let (r, s') = touch s in elim r [ ok x ↦ run f s' | err e ↦ (err e, s') ]

-- `b.query_all`, `b.query_one`
unfoldable pub query : {A : Type 0} → (Tables → A) → Exec Store A
query f s = let (r, s') = touch s in elim r [ ok x ↦ (ok (f s'.tables), s') | err e ↦ (err e, s') ]

-- Commit on a clean exit; roll back on an exception, that of the commit included: a commit that
-- raises is taken not to have happened.
unfoldable pub finish : {A : Type 0} → Tables → Result A → Exec Store A
finish before (err e) s = (err e, record s { tables = before })
finish before (ok a) s =
    let (r, s') = touch s in
    elim r [ ok x ↦ (ok a, s') | err e ↦ (err e, record s' { tables = before }) ]

-- `with b.connection() as conn: body`. What `_get` raises before it, where the backend has to be
-- built, is here what the acquisition raises, since both leave the operation alike; only the
-- guarded write tells them apart.
unfoldable pub connection : {A : Type 0} → Exec Store A → Exec Store A
connection body s =
    let (r, opened) = touch s in
    elim r [
      | ok x ↦ let (q, after) = body opened in finish s.tables q after
      | err e ↦ (err e, opened)
    ]
