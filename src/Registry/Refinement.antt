-- ===== src/Registry/Refinement.antt =====
-- The registry refines the map that it stands for.
use mathlib.Core.Path.{fun_ext}
use memcove.Common.{
  ◌≡◌, refl, sym, ap, subst, ◌∙◌, Bool, true, false, none, some, List, [], ◌∷◌, Text, arith, inl,
  inr, Bool-cases,
}
use memcove.Common.Result.{Error, Result, ok, err}
use memcove.Common.Exec.{Exec, continue, ◌>>=◌}
use memcove.Registry.{
  Tables, Store, ObjectValues, at_key, touch, connection, upsert_object, lineage_part,
  record_object_guarded, swallow_down, delete_object, obtain_backend, write_or_false,
}
use memcove.Registry.Transactions.{touch-tables, connection-commit, connection-rollback}
use memcove.Registry.Atomic.{
  Outcome, record_object_guarded-atomic, obtained, not_obtained, obtain_backend-tables,
}
use memcove.Registry.Frames.{delete_object-frame, delete_object-tombstones}
use memcove.Registry.Others.{SameAt, Spares, write-Spares}
use memcove.Registry.Known.{
  Known, Command, record_it, forget, known, meant, perform, replay, own_key, same_known,
  record_it-meant,
}

-- a transaction that returned spares what its body spares
pub connection-SameAt :
    (t l : Text) (body : Exec Store (Unit {0})) (s : Store) (x : Unit {0})
    → Spares t l body
    → (connection body s).0 ≡ ok x
    → SameAt t l s.tables (connection body s).1.tables
connection-SameAt t l body s x spares h =
    let (ran, kept) = connection-commit body s x h in
    let mid = (body (touch s).1).1 in
    let pair : body (touch s).1 ≡ (ok x, mid) = ground arith in
    let same = spares.at (touch s).1 mid x pair in
    subst (λ (a : Tables). SameAt t l a (connection body s).1.tables) (touch-tables s).0
      (subst (λ (b : Tables). SameAt t l (touch s).1.tables b) (sym kept) same)

swallowed : (q : Result (Unit {0})) (s : Store) → (swallow_down (q, s)).0 ≡ ok true → q ≡ ok tt
swallowed (ok tt) s h = refl
swallowed (err e) s h = absurd (ground arith)

swallow_down-store : (q : Result (Unit {0})) (s : Store) → (swallow_down (q, s)).1 ≡ s
swallow_down-store (ok x) s = refl
swallow_down-store (err e) s = ground arith

guarded_write : ObjectValues → List Text → List Text → Exec Store (Unit {0})
guarded_write v tags parents =
    connection (upsert_object v tags >>= λ _. lineage_part v.tenant v.label (some parents))

write_or_false-others :
    (v : ObjectValues) (tags parents : List Text) (s : Store) (t l : Text)
    → (write_or_false v tags (some parents) s).0 ≡ ok true
    → at_key v.tenant v.label t l ≡ false
    → SameAt t l s.tables (write_or_false v tags (some parents) s).1.tables
unfolding write_or_false guarded_write
write_or_false-others v tags parents s t l h other =
    let body = upsert_object v tags >>= λ _. lineage_part v.tenant v.label (some parents) in
    let (q, after) = connection body s in
    subst (λ (b : Store). SameAt t l s.tables b.tables) (sym (swallow_down-store q after))
      (connection-SameAt t l body s tt (write-Spares v tags parents t l other)
        (swallowed q after h))

record_object_guarded-others :
    (v : ObjectValues) (tags parents : List Text) (s : Store) (t l : Text)
    → (record_object_guarded v tags (some parents) s).0 ≡ ok true
    → at_key v.tenant v.label t l ≡ false
    → SameAt t l s.tables (record_object_guarded v tags (some parents) s).1.tables
record_object_guarded-others v tags parents s t l h other =
    go (obtain_backend s).0 (obtain_backend s).1 refl
  where
    go :
        (r : Result (Unit {0})) (mid : Store)
        → obtain_backend s ≡ (r, mid)
        → SameAt t l s.tables (record_object_guarded v tags (some parents) s).1.tables
    go (err e) mid raised =
        absurd (cc (h, ap (λ q. q.0) (not_obtained v tags (some parents) s mid e raised)))
    go (ok x) mid there =
        let step = obtained v tags (some parents) s mid x there in
        let ran = sym (ap (λ q. q.0) step) ∙ h in
        rw step (
          subst (λ (a : Tables). SameAt t l a (write_or_false v tags (some parents) mid).1.tables)
            (obtain_backend-tables s mid (ok x) there).0
            (write_or_false-others v tags parents mid t l ran other))

record_it-refines :
    (v : ObjectValues) (tags parents : List Text) (s s' : Store) (q : Result Bool)
    → record_object_guarded v tags (some parents) s ≡ (q, s')
    → known s'.tables ≡ replay (record_it v tags parents) q (known s.tables)
record_it-refines v tags parents s s' q h = go q s' h (
    subst
      (λ (r : Result Bool × Store). Outcome s.clock v tags (some parents) s.tables r.1.tables r.0) h
      (record_object_guarded-atomic v tags (some parents) s).0)
  where
    go :
        (q : Result Bool) (s' : Store)
        → record_object_guarded v tags (some parents) s ≡ (q, s')
        → Outcome s.clock v tags (some parents) s.tables s'.tables q
        → known s'.tables ≡ replay (record_it v tags parents) q (known s.tables)
    go (ok true) s' h outcome =
        record_it-meant s.clock v tags parents s.tables s'.tables outcome.0 outcome.1 (λ t l other.
          subst (λ (b : Store). SameAt t l s.tables b.tables) (ap (λ r. r.1) h)
            (record_object_guarded-others v tags parents s t l (ap (λ r. r.0) h) other))
    go (ok false) s' h outcome = ap known outcome
    go (err e) s' h outcome = ap known outcome

forget-meant :
    (t l : Text) (s : Store) (x : Unit {0})
    → (delete_object t l s).0 ≡ ok x
    → known (delete_object t l s).1.tables ≡ meant (forget t l) (known s.tables)
forget-meant t l s x h = fun_ext λ n. fun_ext λ m.
    let (row, tags, parents, others) = delete_object-frame t l s x h in
    elim (Bool-cases (at_key t l n m)) [
      | inl own ↦
          let (a, b) = own_key t l n m own in
          let gone : known (delete_object t l s).1.tables t l ≡ none = cc row in
          rw own (rw (a, b) gone)
      | inr other ↦
          let (o, ts, ps) = others n m other in
          rw other (
            same_known n m s.tables (delete_object t l s).1.tables (record {
              object = o;
              tags = ts;
              parents = ps;
              tombstones = delete_object-tombstones t l s x h;
            }))
    ]

delete_object-rollback :
    (t l : Text) (s : Store) (e : Error)
    → (delete_object t l s).0 ≡ err e
    → (delete_object t l s).1.tables ≡ s.tables
unfolding delete_object
delete_object-rollback t l s e h = connection-rollback _ s e h

forget-refines :
    (t l : Text) (s after : Store) (r : Result (Unit {0}))
    → delete_object t l s ≡ (r, after)
    → known (continue r (λ _ now. (ok true, now)) after).1.tables
      ≡ replay (forget t l) (continue r (λ _ now. (ok true, now)) after).0 (known s.tables)
forget-refines t l s after (ok x) h =
    ap (λ q. known q.1.tables) (sym h) ∙ forget-meant t l s x (ap (λ q. q.0) h)
forget-refines t l s after (err e) h =
    ap (λ q. known q.1.tables) (sym h) ∙ ap known (delete_object-rollback t l s e (ap (λ q. q.0) h))

-- commands in a row, each with its outcome
abbrev pub perform_all : List Command → Store → List (Result Bool) × Store
perform_all [] s = ([], s)
perform_all (c ∷ cs) s =
    let (q, mid) = perform c s in let (qs, after) = perform_all cs mid in (q ∷ qs, after)

abbrev pub replay_all : List Command → List (Result Bool) → Known → Known
replay_all (c ∷ cs) (q ∷ qs) m = replay_all cs qs (replay c q m)
replay_all _ _ m = m

perform-refines :
    (c : Command) (s : Store)
    → known (perform c s).1.tables ≡ replay c (perform c s).0 (known s.tables)
perform-refines (record_it v tags parents) s =
    record_it-refines v tags parents s (perform (record_it v tags parents) s).1
      (perform (record_it v tags parents) s).0 refl
perform-refines (forget t l) s =
    forget-refines t l s (delete_object t l s).1 (delete_object t l s).0 refl

-- The registry refines a map from objects to their entries: after any guarded writes with lineage
-- and any deletions in a row, whatever the database raises and whenever, the tables stand for the
-- map that the commands make which report that they were carried out, each in its turn, and no
-- other; a command that reports false or raises means nothing.
pub perform_all-refines :
    (cs : List Command) (s : Store)
    → known (perform_all cs s).1.tables ≡ replay_all cs (perform_all cs s).0 (known s.tables)
perform_all-refines [] s = refl
perform_all-refines (c ∷ cs) s =
    perform_all-refines cs (perform c s).1
    ∙ ap (replay_all cs (perform_all cs (perform c s).1).0) (perform-refines c s)
