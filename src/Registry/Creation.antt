-- ===== src/Registry/Creation.antt =====
-- The statements of init_db, one after the other.
use memcove.Common.{
  ◌≡◌, refl, ap, ◌∙◌, Option, none, some, List, [], ◌∷◌, Text, text_eq, text_eq_iff, text_eq_refl,
  arith, inl, inr, if◌then◌else◌, Option-cases,
}
use memcove.Common.Result.{ok, Result-cases}
use memcove.Common.Exec.{for_each, >>=-returns}
use memcove.Registry.Ddl.{TableDef}
use memcove.Registry.Init.{Database, find_table, create_table, use_connection, create}

-- the first that is there
abbrev pub or_else_table : Option TableDef → Option TableDef → Option TableDef
or_else_table none d = d
or_else_table (some e) d = some e

pub find-create :
    (n : Text) (d : TableDef) (ds : List TableDef)
    → find_table n (create_table d ds)
      ≡ or_else_table (find_table n ds) (if text_eq d.name n then some d else none)
unfolding find_table create_table
find-create n d [] = refl
find-create n d (e ∷ es) = ground (
  arith,
  find-create n d es,
  text_eq_iff e.name d.name,
  text_eq_iff e.name n,
  text_eq_iff d.name n,
)

create-there :
    (d e : TableDef) (ds : List TableDef) → find_table d.name ds ≡ some e → create_table d ds ≡ ds
unfolding find_table create_table
create-there d e [] h = absurd (cc h)
create-there d e (c ∷ cs) h = ground (arith, create-there d e cs)

-- all statements, without faults
pub created : List TableDef → List TableDef → List TableDef
created [] defs = defs
created (d ∷ ds) defs = created ds (create_table d defs)

pub find-created :
    (n : Text) (ds defs : List TableDef)
    → find_table n (created ds defs) ≡ or_else_table (find_table n defs) (find_table n ds)
unfolding created find_table
find-created n [] defs = ground arith
find-created n (d ∷ ds) defs =
    ground (arith, find-created n ds (create_table d defs), find-create n d defs)

head_there :
    (d : TableDef) (ds defs : List TableDef)
    → find_table d.name defs ≡ or_else_table (find_table d.name defs) (find_table d.name (d ∷ ds))
    → (e : TableDef) × (find_table d.name defs ≡ some e)
unfolding find_table
head_there d ds defs h = elim (Option-cases (find_table d.name defs)) [
  | inl missing ↦ absurd (ground (arith, text_eq_refl d.name))
  | inr there ↦ there
]

tail_there :
    (d : TableDef) (ds defs : List TableDef) (n : Text)
    → find_table n defs ≡ or_else_table (find_table n defs) (find_table n (d ∷ ds))
    → find_table n defs ≡ or_else_table (find_table n defs) (find_table n ds)
unfolding find_table
tail_there d ds defs n h = ground arith

pub created-there :
    (ds defs : List TableDef)
    → ((n : Text) → find_table n defs ≡ or_else_table (find_table n defs) (find_table n ds))
    → created ds defs ≡ defs
unfolding created find_table
created-there [] defs h = refl
created-there (d ∷ ds) defs h =
    let (e, there) = head_there d ds defs (h d.name) in
    rw (create-there d e defs there) (created-there ds defs (λ n. tail_there d ds defs n (h n)))

pub use-defs : (s : Database) → (use_connection s).1.defs ≡ s.defs
unfolding use_connection
use-defs s = ground arith

pub create-defs :
    (d : TableDef) (s mid : Database) (x : Unit {0})
    → create d s ≡ (ok x, mid)
    → mid.defs ≡ create_table d s.defs
unfolding create
create-defs d s mid x h = elim (Result-cases (use_connection s).0) [
  | inl (y, used) ↦ ground (arith, use-defs s)
  | inr (e, failed) ↦ absurd (ground arith)
]

pub loop-creates :
    (ds : List TableDef) (s s' : Database) (x : Unit {0})
    → for_each create ds s ≡ (ok x, s')
    → s'.defs ≡ created ds s.defs
unfolding for_each create created
loop-creates [] s s' x h = cc h
loop-creates (d ∷ ds) s s' x h =
    let (y, mid, one, rest) = >>=-returns (create d) (λ _. for_each create ds) s s' x h in
    loop-creates ds mid s' x rest ∙ ap (created ds) (create-defs d s mid y one)

-- without faults
pub use-calm : (s : Database) → s.faults ≡ [] → use_connection s ≡ (ok tt, s)
unfolding use_connection
use-calm s calm = ground arith

pub loop-calm :
    (ds : List TableDef) (s : Database)
    → s.faults ≡ []
    → for_each create ds s ≡ (ok tt, record s { defs = created ds s.defs })
unfolding for_each create created
loop-calm [] s calm = refl
loop-calm (d ∷ ds) s calm =
    rw (use-calm s calm) (loop-calm ds (record s { defs = create_table d s.defs }) calm)
