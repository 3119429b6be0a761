-- ===== src/Registry/Transactions.antt =====
-- What a statement and a transaction do to the tables.
use memcove.Common.{ℕ, ◌≡◌, refl, [], arith, inl, inr}
use memcove.Common.Result.{Error, Result, ok, err, Result-cases}
use memcove.Common.Exec.{Exec}
use memcove.Registry.{Tables, Store, touch, run, execute, query, finish, connection}

pub touch-tables : (s : Store) → ((touch s).1.tables ≡ s.tables) × ((touch s).1.clock ≡ s.clock)
unfolding touch
touch-tables s = ground arith

pub touch-no_faults : (s : Store) → s.faults ≡ [] → touch s ≡ (ok tt, s)
unfolding touch
touch-no_faults s h = ground arith

run-ok :
    (f : ℕ → Tables → Result Tables) (s : Store) (x : Unit {0})
    → (run f s).0 ≡ ok x
    → (f s.clock s.tables ≡ ok (run f s).1.tables) × ((run f s).1.clock ≡ s.clock)
unfolding run
run-ok f s x h = ground arith

-- a statement that returned had its effect
pub execute-ok :
    (f : ℕ → Tables → Result Tables) (s : Store) (x : Unit {0})
    → (execute f s).0 ≡ ok x
    → (f s.clock s.tables ≡ ok (execute f s).1.tables) × ((execute f s).1.clock ≡ s.clock)
unfolding execute
execute-ok f s x h = ground (arith, touch-tables s, run-ok f (touch s).1 x)

-- without faults a statement returns whenever its effect is defined
pub execute-no_faults :
    (f : ℕ → Tables → Result Tables) (s : Store) (t : Tables)
    → s.faults ≡ []
    → f s.clock s.tables ≡ ok t
    → execute f s ≡ (ok tt, record s { tables = t })
unfolding execute run
execute-no_faults f s t nf e = ground (arith, touch-no_faults s nf)

pub query-tables :
    {A : Type 0} (f : Tables → A) (s : Store)
    → ((query f s).1.tables ≡ s.tables) × ((query f s).1.clock ≡ s.clock)
unfolding query
query-tables f s = ground (arith, touch-tables s)

pub query-ok :
    {A : Type 0} (f : Tables → A) (s : Store) (a : A) → (query f s).0 ≡ ok a → a ≡ f s.tables
unfolding query
query-ok f s a h = ground (arith, touch-tables s)

finish-rollback :
    {A : Type 0} (before : Tables) (q : Result A) (s : Store) (e : Error)
    → (finish before q s).0 ≡ err e
    → (finish before q s).1.tables ≡ before
unfolding finish
finish-rollback before (err e') s e h = refl
finish-rollback before (ok a) s e h = ground arith

finish-commit :
    {A : Type 0} (before : Tables) (q : Result A) (s : Store) (a : A)
    → (finish before q s).0 ≡ ok a
    → (q ≡ ok a) × ((finish before q s).1.tables ≡ s.tables)
unfolding finish
finish-commit before (err e') s a h = cc
finish-commit before (ok b) s a h = ground (arith, touch-tables s)

-- A transaction that raises, be it in the body, at the acquisition of the connection or in the
-- commit, leaves every table as it was.
pub connection-rollback :
    {A : Type 0} (body : Exec Store A) (s : Store) (e : Error)
    → (connection body s).0 ≡ err e
    → (connection body s).1.tables ≡ s.tables
unfolding connection
connection-rollback body s e h = elim (Result-cases (touch s).0) [
  | inl (x, opened) ↦
      ground (arith, finish-rollback s.tables (body (touch s).1).0 (body (touch s).1).1 e)
  | inr (e', failed) ↦ ground (arith, touch-tables s)
]

-- a transaction that returns ran its body from the same tables, to the end
pub connection-commit :
    {A : Type 0} (body : Exec Store A) (s : Store) (a : A)
    → (connection body s).0 ≡ ok a
    → ((body (touch s).1).0 ≡ ok a) × ((connection body s).1.tables ≡ (body (touch s).1).1.tables)
unfolding connection
connection-commit body s a h = elim (Result-cases (touch s).0) [
  | inl (x, opened) ↦
      ground (arith, finish-commit s.tables (body (touch s).1).0 (body (touch s).1).1 a)
  | inr (e', failed) ↦ absurd (ground arith)
]
