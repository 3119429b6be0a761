-- ===== src/Registry/Total.antt =====
-- Without faults a guarded write succeeds: no INSERT of it meets a key that is there.
use memcove.Common.{
  ◌≡◌, refl, ap, true, not, Option, none, some, List, [], ◌∷◌, ◌++◌, Text, text_eq, contains,
  filter, arith, if◌then◌else◌,
}
use memcove.Common.Result.{Result, ok}
use memcove.Common.Exec.{Exec, ◌>>=◌, for_each}
use memcove.Registry.{
  Tables, Store, ObjectValues, at_key, parents_of, upsert_object_sql, upsert_row, delete_lineage,
  insert_lineage, execute, finish, connection, dedupe, replace_tags, upsert_object,
  set_lineage_rows, record_object_guarded, lineage_part, obtain_backend, write_or_false,
}
use memcove.Registry.Transactions.{touch-no_faults}
use memcove.Registry.Tags.{Succeeds, bind-Succeeds, execute-Succeeds, Apart, replace_tags-Succeeds}

-- a statement that is defined on all tables
total_loop :
    {X : Type 0} (g : X → Tables → Result Tables) (f : X → Tables → Tables) (xs : List X)
    (s : Store)
    → ((x : X) (t : Tables) → g x t ≡ ok (f x t))
    → s.faults ≡ []
    → (s' : Store) × Succeeds (for_each (λ x. execute (λ now. g x)) xs) tt s s'
unfolding for_each
total_loop g f [] s total calm = (s, record { returns = refl; calm = calm })
total_loop g f (x ∷ xs) s total calm =
    let next = record s { tables = f x s.tables } in
    let step = execute-Succeeds (λ now. g x) s (f x s.tables) calm (total x s.tables) in
    let (s', rest) = total_loop g f xs next total calm in
    (
      s',
      bind-Succeeds (execute (λ now. g x)) (λ _. for_each (λ y. execute (λ now. g y)) xs) tt tt s
          next s' step rest,
    )

pub upsert_object-Succeeds :
    (v : ObjectValues) (tags : List Text) (s : Store)
    → s.faults ≡ []
    → Apart tags s.tables
    → (s' : Store) × Succeeds (upsert_object v tags) tt s s'
unfolding upsert_object upsert_object_sql
upsert_object-Succeeds v tags s calm apart =
    let written = record (s.tables) { objects = upsert_row s.clock v s.tables.objects } in
    let step = execute-Succeeds (λ now. upsert_object_sql now v) s written calm refl in
    let (s', rest) =
      replace_tags-Succeeds v.tenant v.label tags (record s { tables = written }) calm apart in
    (
      s',
      bind-Succeeds (execute (λ now. upsert_object_sql now v))
          (λ _. replace_tags v.tenant v.label tags) tt tt s (record s { tables = written }) s' step
          rest,
    )

lineage_inserted : Text → Text → Text → Tables → Tables
lineage_inserted t l p before =
    if contains (parents_of t l before.lineage) p then before else record before {
      lineage =
          before.lineage ++ record { child_tenant = t; child_label = l; parent_label = p } ∷ [];
    }

insert_lineage-total :
    (t l p : Text) (before : Tables)
    → insert_lineage t l p before ≡ ok (lineage_inserted t l p before)
unfolding insert_lineage lineage_inserted
insert_lineage-total t l p before = ground arith

lineage_part-Succeeds :
    (t l : Text) (parents : Option (List Text)) (s : Store)
    → s.faults ≡ []
    → (s' : Store) × Succeeds (lineage_part t l parents) tt s s'
unfolding lineage_part set_lineage_rows delete_lineage
lineage_part-Succeeds t l none s calm = (s, record { returns = refl; calm = calm })
lineage_part-Succeeds t l (some parents) s calm =
    let cleared = record (s.tables) {
      lineage = filter (λ r. not (at_key t l r.child_tenant r.child_label)) s.tables.lineage;
    } in
    let names = filter (λ p. not (text_eq p l)) (dedupe parents) in
    let step = execute-Succeeds (λ now. delete_lineage t l) s cleared calm refl in
    let (s', rest) =
      total_loop (insert_lineage t l) (lineage_inserted t l) names (record s { tables = cleared })
        (insert_lineage-total t l) calm in
    (
      s',
      bind-Succeeds (execute (λ now. delete_lineage t l))
          (λ _. for_each (λ p. execute (λ now. insert_lineage t l p)) names) tt tt s
          (record s { tables = cleared }) s' step rest,
    )

pub connection-Succeeds :
    {A : Type 0} (body : Exec Store A) (a : A) (s s' : Store)
    → s.faults ≡ []
    → Succeeds body a s s'
    → connection body s ≡ (ok a, s')
unfolding connection finish
connection-Succeeds body a s s' calm h =
    ground (arith, touch-no_faults s calm, h.returns, touch-no_faults s' h.calm)

-- what the guarded write leaves where nothing fails
pub record_object_guarded-calm :
    (v : ObjectValues) (tags : List Text) (parents : Option (List Text)) (s : Store)
    → s.faults ≡ []
    → Apart tags s.tables
    → (s' : Store) × (record_object_guarded v tags parents s ≡ (ok true, s')) × (s'.faults ≡ [])
unfolding record_object_guarded write_or_false obtain_backend
record_object_guarded-calm v tags parents s calm apart =
    let (mid, one) = upsert_object-Succeeds v tags s calm apart in
    let (s', two) = lineage_part-Succeeds v.tenant v.label parents mid one.calm in
    let body =
      bind-Succeeds (upsert_object v tags) (λ _. lineage_part v.tenant v.label parents) tt tt s mid
        s' one two in
    (
      s',
      rw
          (
            touch-no_faults s calm,
            connection-Succeeds
                (upsert_object v tags >>= λ _. lineage_part v.tenant v.label parents) tt s s' calm
                body,
          )
          refl,
      two.calm,
    )

-- With no fault ahead, and different tags that differ to the collation of the database as well, the
-- guarded write returns true: no INSERT of it can violate a primary key, however often a tag or a
-- parent is repeated and whatever the tables hold.
pub record_object_guarded-succeeds :
    (v : ObjectValues) (tags : List Text) (parents : Option (List Text)) (s : Store)
    → s.faults ≡ []
    → Apart tags s.tables
    → (record_object_guarded v tags parents s).0 ≡ ok true
record_object_guarded-succeeds v tags parents s calm apart =
    let (s', returns, still) = record_object_guarded-calm v tags parents s calm apart in
    ap (λ q. q.0) returns
