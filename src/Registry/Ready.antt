-- ===== src/Registry/Ready.antt =====
-- What init_db leaves in the database.
use memcove.Common.{
  ◌≡◌, refl, ap, ◌∙◌, sym, Bool, true, false, some, List, [], ◌∷◌, Text, arith, inl, inr,
}
use memcove.Common.Result.{Result, ok, err, Result-cases}
use memcove.Common.Exec.{Exec, ◌>>=◌, for_each, >>=-returns}
use memcove.Registry.Backends.{Backend}
use memcove.Registry.Ddl.{TableDef, ddl}
use memcove.Registry.Init.{Database, find_table, use_connection, create, rolled_back, init_db}
use memcove.Registry.Creation.{
  or_else_table, find-create, created, find-created, created-there, use-defs, loop-creates,
  use-calm, loop-calm,
}

-- a chain keeps what both of its parts keep, whether it returns or raises
keeps_both :
    (P : List TableDef → Type 0) (m k : Exec Database (Unit {0}))
    → ((s : Database) → P s.defs → P (m s).1.defs)
    → ((s : Database) → P s.defs → P (k s).1.defs)
    → (s : Database) → P s.defs
    → P ((m >>= λ _. k) s).1.defs
keeps_both P m k hm hk s h = elim (Result-cases (m s).0) [
  | inl (x, done) ↦ rw done (hk (m s).1 (hm s h))
  | inr (e, failed) ↦ rw failed (hm s h)
]

module _ (n : Text) (e : TableDef) where
  Has : List TableDef → Type 0
  Has defs = find_table n defs ≡ some e

  use-keeps : (s : Database) → Has s.defs → Has (use_connection s).1.defs
  unfolding Has
  use-keeps s h = rw (use-defs s) h

  create-keeps : (d : TableDef) (s : Database) → Has s.defs → Has (create d s).1.defs
  unfolding Has create
  create-keeps d s h = elim (Result-cases (use_connection s).0) [
    | inl (x, used) ↦ ground (arith, find-create n d (use_connection s).1.defs, use-defs s)
    | inr (x, failed) ↦ ground (arith, use-defs s)
  ]

  loop-keeps : (ds : List TableDef) (s : Database) → Has s.defs → Has (for_each create ds s).1.defs
  unfolding for_each
  loop-keeps [] s h = h
  loop-keeps (d ∷ ds) s h =
      keeps_both Has (create d) (for_each create ds) (create-keeps d) (loop-keeps ds) s h

  body_keeps :
      (ds : List TableDef) (s : Database)
      → Has s.defs
      → Has ((use_connection >>= λ _. for_each create ds >>= λ _. use_connection) s).1.defs
  body_keeps ds s h =
      keeps_both Has use_connection _ use-keeps
        (λ s' h'.
          keeps_both Has (for_each create ds) use_connection (loop-keeps ds) use-keeps s' h')
        s h

  rolled_back-keeps :
      (undoes : Bool) (before : List TableDef) (q : Result (Unit {0}) × Database)
      → Has before
      → Has q.1.defs
      → Has (rolled_back undoes before q).1.defs
  rolled_back-keeps undoes before (ok x, s) old new = new
  rolled_back-keeps true before (err raised, s) old new = old
  rolled_back-keeps false before (err raised, s) old new = new

body_creates :
    (ds : List TableDef) (s s' : Database) (x : Unit {0})
    → (use_connection >>= λ _. for_each create ds >>= λ _. use_connection) s ≡ (ok x, s')
    → s'.defs ≡ created ds s.defs
body_creates ds s s' x h =
    let (y, opened, one, rest) = >>=-returns use_connection _ s s' x h in
    let (z, mid, loop, last) = >>=-returns (for_each create ds) _ opened s' x rest in
    let first : opened.defs ≡ s.defs = ap (λ q. q.1.defs) (sym one) ∙ use-defs s in
    let final : s'.defs ≡ mid.defs = ap (λ q. q.1.defs) (sym last) ∙ use-defs mid in
    final ∙ loop-creates ds opened mid z loop ∙ ap (created ds) first

body_calm :
    (ds : List TableDef) (s : Database)
    → s.faults ≡ []
    → (use_connection >>= λ _. for_each create ds >>= λ _. use_connection) s
      ≡ (ok tt, record s { defs = created ds s.defs })
body_calm ds s calm =
    rw (use-calm s calm, loop-calm ds s calm)
      (use-calm (record s { defs = created ds s.defs }) calm)

not_undone :
    (undoes : Bool) (before : List TableDef) (q : Result (Unit {0}) × Database) (x : Unit {0})
    → (rolled_back undoes before q).0 ≡ ok x
    → rolled_back undoes before q ≡ q
not_undone undoes before (ok y, s) x h = refl
not_undone undoes before (err e, s) x h = absurd (cc h)

was_ok :
    (undoes : Bool) (before : List TableDef) (q : Result (Unit {0}) × Database) (x : Unit {0})
    → (rolled_back undoes before q).0 ≡ ok x
    → q ≡ (ok x, q.1)
was_ok undoes before (ok y, s) x h = refl
was_ok undoes before (err e, s) x h = absurd (cc h)

module _ (undoes : Bool) (b : Backend) (s : Database) where
  returned :
      (x : Unit {0})
      → (init_db undoes b s).0 ≡ ok x
      → (init_db undoes b s).1.defs ≡ created (ddl b) s.defs
  unfolding init_db
  returned x h =
      let q = (use_connection >>= λ _. for_each create (ddl b) >>= λ _. use_connection) s in
      let same = not_undone undoes s.defs q x h in
      let ran : q ≡ (ok x, q.1) = was_ok undoes s.defs q x h in
      ap (λ r. r.1.defs) same ∙ body_creates (ddl b) s q.1 x ran

  again :
      (after : Database)
      → after.defs ≡ created (ddl b) s.defs
      → after.faults ≡ []
      → init_db undoes b after ≡ (ok tt, after)
  unfolding init_db
  again after e calm =
      let there : created (ddl b) after.defs ≡ after.defs =
        created-there (ddl b) after.defs (λ n. ground (arith, find-created n (ddl b) s.defs)) in
      rw (body_calm (ddl b) after calm) (rw there refl)

  -- However init_db ends, and whether the database takes tables back in a rollback or not, a table
  -- that was there is still there as it was.
  pub init_db-keeps :
      (n : Text) (d : TableDef)
      → find_table n s.defs ≡ some d
      → find_table n (init_db undoes b s).1.defs ≡ some d
  unfolding init_db Has
  init_db-keeps n d h = rolled_back-keeps n d undoes s.defs _ h (body_keeps n d (ddl b) s h)

  -- Where init_db returns, and no fault is ahead, it created exactly the tables of the backend that
  -- were missing, every other table is as it was, and init_db once more changes nothing.
  pub init_db-settles :
      (x : Unit {0}) (n : Text)
      → (init_db undoes b s).0 ≡ ok x
      → (init_db undoes b s).1.faults ≡ []
      → (find_table n (init_db undoes b s).1.defs
          ≡ or_else_table (find_table n s.defs) (find_table n (ddl b)))
        × (init_db undoes b (init_db undoes b s).1 ≡ (ok tt, (init_db undoes b s).1))
  init_db-settles x n h calm = (
    rw (returned x h) (find-created n (ddl b) s.defs),
    again (init_db undoes b s).1 (returned x h) calm,
  )
