-- ===== src/Registry/Atomic.antt =====
-- A guarded write is all or nothing, and its result says which of the two.
use memcove.Common.{
  ℕ, ◌≢◌, ◌↔◌, ◌≡◌, refl, sym, subst, ◌∙◌, Bool, true, false, Option, none, some, List, [], Text,
  arith, inl, inr, Bool-cases,
}
use mathlib.Core.Path.{subst₂}
use memcove.Common.Result.{Error, Result, ok, err}
use memcove.Common.Exec.{Exec, ◌>>◌, >>=-returns}
use memcove.Registry.{
  Tables, Store, ObjectValues, find_object, upsert_object_sql, execute, touch, connection,
  upsert_object, record_object_guarded, lineage_part, swallow_down, is_connection_down,
  obtain_backend, write_or_false,
}
use memcove.Registry.Transactions.{touch-tables, connection-rollback, connection-commit}
use memcove.Registry.Recording.{upserted, find-upsert}
use memcove.Registry.Guarded.{
  execute-returns, replace_tags-returns, set_lineage_rows-returns, IsRecorded, HasParents,
}

upsert-find :
    (now : ℕ) (v : ObjectValues) (before after : Tables)
    → upsert_object_sql now v before ≡ ok after
    → (find_object v.tenant v.label after.objects
        ≡ some (upserted now v (find_object v.tenant v.label before.objects)))
      × (after.lineage ≡ before.lineage)
unfolding upsert_object_sql
upsert-find now v before after h = ground (arith, find-upsert now v before.objects)

-- `after` has the object and its tags, with the lineage table left alone
pub upsert_object-returns :
    (v : ObjectValues) (tags : List Text) (s s' : Store) (x : Unit {0})
    → upsert_object v tags s ≡ (ok x, s')
    → IsRecorded s.clock v tags s.tables s'.tables × (s'.tables.lineage ≡ s.tables.lineage)
unfolding upsert_object
upsert_object-returns v tags s s' x h =
    let (_, mid, step, rest) = >>=-returns (execute (λ now. upsert_object_sql now v)) _ s s' x h in
    let (effect, _) = execute-returns (λ now. upsert_object_sql now v) s mid _ step in
    let (found, kept) = upsert-find s.clock v s.tables mid.tables effect in
    let (_, objs, lin) = replace_tags-returns v.tenant v.label tags mid s' x [] rest in
    (
      record {
        object = ground arith;
        tagged = λ a. (replace_tags-returns v.tenant v.label tags mid s' x a rest).0;
      },
      lin ∙ kept,
    )

lineage_part-returns :
    (v : ObjectValues) (parents : Option (List Text)) (s s' : Store) (x : Unit {0})
    → lineage_part v.tenant v.label parents s ≡ (ok x, s')
    → HasParents v parents s.tables s'.tables
      × (s'.tables.objects ≡ s.tables.objects)
      × (s'.tables.tags ≡ s.tables.tags)
unfolding lineage_part
lineage_part-returns v none s s' x h = ground arith
lineage_part-returns v (some parents) s s' x h =
    let (_, objs, tags) = set_lineage_rows-returns v.tenant v.label parents s s' x [] h in
    (λ a. (set_lineage_rows-returns v.tenant v.label parents s s' x a h).0, objs, tags)

HasParents-from :
    (v : ObjectValues) (parents : Option (List Text)) (before mid after : Tables)
    → mid.lineage ≡ before.lineage
    → HasParents v parents mid after
    → HasParents v parents before after
HasParents-from v none before mid after same h = h ∙ same
HasParents-from v (some parents) before mid after same h = h

guarded_body : ObjectValues → List Text → Option (List Text) → Exec Store (Unit {0})
guarded_body v tags parents = do upsert_object v tags; lineage_part v.tenant v.label parents

guarded_body-returns :
    (v : ObjectValues) (tags : List Text) (parents : Option (List Text)) (s s' : Store)
    (x : Unit {0})
    → guarded_body v tags parents s ≡ (ok x, s')
    → IsRecorded s.clock v tags s.tables s'.tables × HasParents v parents s.tables s'.tables
unfolding guarded_body
guarded_body-returns v tags parents s s' x h =
    let (_, mid, step, rest) = >>=-returns (upsert_object v tags) _ s s' x h in
    let (done, kept) = upsert_object-returns v tags s mid _ step in
    let (lin, objs, same_tags) = lineage_part-returns v parents mid s' x rest in
    (
      record { object = ground (arith, done.object); tagged = λ a. ground (arith, done.tagged a) },
      HasParents-from v parents s.tables mid.tables s'.tables kept lin,
    )

-- what the result of a guarded write says of the tables
abbrev pub Outcome :
    ℕ → ObjectValues → List Text → Option (List Text) → Tables → Tables → Result Bool → Type 0
Outcome now v tags parents before after (ok true) =
    IsRecorded now v tags before after × HasParents v parents before after
Outcome now v tags parents before after (ok false) = after ≡ before
Outcome now v tags parents before after (err e) = after ≡ before

swallow_down-Outcome :
    (now : ℕ) (v : ObjectValues) (tags : List Text) (parents : Option (List Text)) (before : Tables)
    (q : Result (Unit {0})) (s : Store)
    → ((x : Unit {0})
        → q ≡ ok x
        → IsRecorded now v tags before s.tables × HasParents v parents before s.tables)
    → ((e : Error) → q ≡ err e → s.tables ≡ before)
    → Outcome now v tags parents before (swallow_down (q, s)).1.tables (swallow_down (q, s)).0
swallow_down-Outcome now v tags parents before (ok x) s done failed = done x refl
swallow_down-Outcome now v tags parents before (err e) s done failed =
    elim (Bool-cases (is_connection_down e)) [
      | inl down ↦ rw down (failed e refl)
      | inr other ↦ rw other (failed e refl)
    ]

swallow_down-caught :
    (q : Result (Unit {0}) × Store) (e : Error)
    → is_connection_down e ≡ true
    → (swallow_down q).0 ≢ err e
swallow_down-caught (ok x, s) e down h = cc
swallow_down-caught (err x, s) e down h = ground arith

-- the body ran on a connection that shows the same tables at the same time
connection-Recorded :
    (v : ObjectValues) (tags : List Text) (parents : Option (List Text)) (s : Store) (x : Unit {0})
    → (connection (guarded_body v tags parents) s).0 ≡ ok x
    → IsRecorded s.clock v tags s.tables (connection (guarded_body v tags parents) s).1.tables
      × HasParents v parents s.tables (connection (guarded_body v tags parents) s).1.tables
connection-Recorded v tags parents s x h =
    let body = guarded_body v tags parents in
    let (ran, kept) = connection-commit body s x h in
    let (same, time) = touch-tables s in
    let mid = (body (touch s).1).1 in
    let pair : body (touch s).1 ≡ (ok x, mid) = ground arith in
    let (done, lin) = guarded_body-returns v tags parents (touch s).1 mid x pair in
    let at_start =
      subst₂
        (λ (now : ℕ) (t : Tables).
          IsRecorded now v tags t mid.tables × HasParents v parents t mid.tables)
        time same (done, lin) in
    subst (λ (t : Tables). IsRecorded s.clock v tags s.tables t × HasParents v parents s.tables t)
      (sym kept) at_start

write_or_false-Outcome :
    (v : ObjectValues) (tags : List Text) (parents : Option (List Text)) (s : Store)
    → Outcome s.clock v tags parents s.tables
        (write_or_false v tags parents s).1.tables
        (write_or_false v tags parents s).0
unfolding write_or_false guarded_body
write_or_false-Outcome v tags parents s =
    swallow_down-Outcome s.clock v tags parents s.tables
      (connection (guarded_body v tags parents) s).0 (connection (guarded_body v tags parents) s).1
      (connection-Recorded v tags parents s) (connection-rollback (guarded_body v tags parents) s)

write_or_false-caught :
    (v : ObjectValues) (tags : List Text) (parents : Option (List Text)) (s : Store) (e : Error)
    → is_connection_down e ≡ true
    → (write_or_false v tags parents s).0 ≢ err e
unfolding write_or_false
write_or_false-caught v tags parents s e down h = swallow_down-caught _ e down h

-- the guarded write, where the backend is there and where it cannot be had
pub obtained :
    (v : ObjectValues) (tags : List Text) (parents : Option (List Text)) (s mid : Store)
    (x : Unit {0})
    → obtain_backend s ≡ (ok x, mid)
    → record_object_guarded v tags parents s ≡ write_or_false v tags parents mid
unfolding record_object_guarded
obtained v tags parents s mid x h = ground arith

pub not_obtained :
    (v : ObjectValues) (tags : List Text) (parents : Option (List Text)) (s mid : Store) (e : Error)
    → obtain_backend s ≡ (err e, mid)
    → record_object_guarded v tags parents s ≡ (err e, mid)
unfolding record_object_guarded
not_obtained v tags parents s mid e h = ground arith

pub obtain_backend-tables :
    (s mid : Store) (r : Result (Unit {0}))
    → obtain_backend s ≡ (r, mid)
    → (mid.tables ≡ s.tables) × (mid.clock ≡ s.clock)
unfolding obtain_backend
obtain_backend-tables s mid r h = ground (arith, touch-tables s)

-- an exception of a database that is down gets out exactly if `_get` raised it
abbrev pub Escapes : Store → Result Bool → Type 0
Escapes s r =
    (e : Error) → is_connection_down e ≡ true → (r ≡ err e) ↔ ((obtain_backend s).0 ≡ err e)

-- Whatever fails, and whenever, if a commit that raises is rolled back: true means that the row,
-- exactly the given tags and exactly the given parents but the object itself are recorded; false,
-- and an exception, mean that no table has changed; and an exception of a database that is down
-- gets out exactly if it was raised before the guard, as the backend was obtained.
pub record_object_guarded-atomic :
    (v : ObjectValues) (tags : List Text) (parents : Option (List Text)) (s : Store)
    → Outcome s.clock v tags parents s.tables
        (record_object_guarded v tags parents s).1.tables
        (record_object_guarded v tags parents s).0
      × Escapes s (record_object_guarded v tags parents s).0
record_object_guarded-atomic v tags parents s = go (obtain_backend s).0 (obtain_backend s).1 refl
  where
    go :
        (r : Result (Unit {0})) (mid : Store)
        → obtain_backend s ≡ (r, mid)
        → Outcome s.clock v tags parents s.tables
            (record_object_guarded v tags parents s).1.tables
            (record_object_guarded v tags parents s).0
          × Escapes s (record_object_guarded v tags parents s).0
    go (ok x) mid h =
        let (same, time) = obtain_backend-tables s mid (ok x) h in
        rw (obtained v tags parents s mid x h) (
          subst₂
              (λ (now : ℕ) (t : Tables).
                Outcome now v tags parents t (write_or_false v tags parents mid).1.tables
                  (write_or_false v tags parents mid).0)
              time same (write_or_false-Outcome v tags parents mid),
          λ e down. (
            λ out. absurd (write_or_false-caught v tags parents mid e down out),
            λ raised. cc (h, raised),
          ),
        )
    go (err x) mid h = rw (not_obtained v tags parents s mid x h) (
      (obtain_backend-tables s mid (err x) h).0,
      λ e down. (λ out. cc (h, out), λ raised. cc (h, raised)),
    )
