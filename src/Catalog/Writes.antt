-- ===== src/Catalog/Writes.antt =====
-- What `write_arrow` leaves in the catalog, on success and on failure.
use memcove.Common.{
  ◌≡◌, sym, ap, subst, Bool, true, Option, none, some, [], ◌++◌, Text, codes, text_eq, length,
  arith, ◌⊎◌, inl, inr, ◌∙◌, ◌||◌, Bool-cases, text_eq_refl,
}
use memcove.Common.{ℕ}
use memcove.Common.Result.{Error, ok, err}
use memcove.Common.Exec.{Exec, pure, lift, ◌>>=◌, >>=-returns, >>=-raises}
use memcove.Catalog.{
  TableSchema, LakeTable, Iceberg, ArrowTable, schemas_match, assert_schema_compatible, write_arrow,
}
use memcove.Catalog.Lakehouse.{found_at}
use memcove.Catalog

-- the modes that `write_arrow` knows
abbrev pub is_mode : Text → Bool
is_mode mode =
    text_eq mode (codes "create") || text_eq mode (codes "replace") || text_eq mode (codes "append")

-- the table that a write in a mode makes of the one before it
pub data Written {Row : Type 0} (stored : TableSchema → TableSchema) (t : ArrowTable Row)
    (mode : Text) : Option (LakeTable Row) → LakeTable Row → Type 0 where
  fresh :
      is_mode mode ≡ true
      → Written stored t mode none (record { schema = stored t.schema; rows = t.rows })
  replaced :
      {old : LakeTable Row}
      → text_eq mode (codes "replace") ≡ true
      → schemas_match old.schema t.schema ≡ true
      → Written stored t mode (some old) (record old { rows = t.rows })
  appended :
      {old : LakeTable Row}
      → text_eq mode (codes "append") ≡ true
      → schemas_match old.schema t.schema ≡ true
      → Written stored t mode (some old) (record old { rows = old.rows ++ t.rows })

pub found_at-own : {A : Type 0} (ns l : Text) (new old : A) → found_at ns l new old ns l ≡ new
found_at-own ns l new old = rw (text_eq_refl ns, text_eq_refl l)

found_at-twice :
    {A : Type 0} (ns l n m : Text) (new mid old : A)
    → found_at ns l new (found_at ns l mid old n m) n m ≡ found_at ns l new old n m
found_at-twice ns l n m new mid old = ground arith

module _ (Row : Type 0) (ice : Iceberg Row) where
  -- the lookups after a write: this table is new, the others are as before
  abbrev pub IsWrite : Text → Text → LakeTable Row → ice.Lake → ice.Lake → Type 0
  IsWrite ns l new w w' =
      (n m : Text) → ice.find w' n m ≡ found_at ns l (some new) (ice.find w n m) n m

  abbrev pub Same : ice.Lake → ice.Lake → Type 0
  Same w w' = (n m : Text) → ice.find w' n m ≡ ice.find w n m

  create-fresh :
      (ns l : Text) (t : ArrowTable Row) (w w' : ice.Lake) (x : Unit {0})
      → Catalog.create_and_append Row ice ns l t w ≡ (ok x, w')
      → IsWrite ns l (record { schema = ice.stored t.schema; rows = t.rows }) w w'
  unfolding Catalog.create_and_append
  create-fresh ns l t w w' x h n m =
      let (y, mid, made, rest) =
        >>=-returns (ice.create_table ns l t.schema) (λ _. ice.append ns l t.rows) w w' x h in
      let empty : LakeTable Row = record { schema = ice.stored t.schema; rows = [] } in
      let own =
        ice.create_effect ns l t.schema w mid y made ns l
        ∙ found_at-own ns l (some empty) (ice.find w ns l) in
      ice.append_effect ns l t.rows mid w' x empty rest own n m
      ∙ ap
          (λ o. found_at ns l (some (record { schema = ice.stored t.schema; rows = t.rows })) o n m)
          (ice.create_effect ns l t.schema w mid y made n m)
      ∙ found_at-twice ns l n m (some (record { schema = ice.stored t.schema; rows = t.rows }))
          (some empty) (ice.find w n m)

  compatible :
      (old : LakeTable Row) (t : ArrowTable Row) (body : Exec ice.Lake (Unit {0})) (w w' : ice.Lake)
      (x : Unit {0})
      → (lift (assert_schema_compatible old.schema t.schema) >>= λ _. body) w ≡ (ok x, w')
      → (schemas_match old.schema t.schema ≡ true) × (body w ≡ (ok x, w'))
  unfolding assert_schema_compatible
  compatible old t body w w' x h = elim (Bool-cases (schemas_match old.schema t.schema)) [
    | inl fits ↦ (fits, ground arith)
    | inr differs ↦ absurd (ground arith)
  ]

  -- what a mode that returns does to the table that was found
  in_mode-writes :
      (mode ns l : Text) (t : ArrowTable Row) (found : Option (LakeTable Row)) (w w' : ice.Lake)
      (x : Unit {0})
      → ice.find w ns l ≡ found
      → Catalog.in_mode Row ice mode ns l t found w ≡ (ok x, w')
      → (new : LakeTable Row) × Written ice.stored t mode found new × IsWrite ns l new w w'
  unfolding Catalog.in_mode Catalog.create_mode Catalog.replace_mode Catalog.append_mode
  in_mode-writes mode ns l t none w w' x e h =
      let known : is_mode mode ≡ true = ground arith in
      (
        record { schema = ice.stored t.schema; rows = t.rows },
        fresh known,
        create-fresh ns l t w w' x (ground arith),
      )
  in_mode-writes mode ns l t (some old) w w' x e h =
      elim (Bool-cases (text_eq mode (codes "replace"))) [
        | inl r ↦
            let (c, done) = compatible old t (ice.overwrite ns l t.rows) w w' x (ground arith) in
            (
              record old { rows = t.rows },
              replaced r c,
              ice.overwrite_effect ns l t.rows w w' x old done e,
            )
        | inr nr ↦ elim (Bool-cases (text_eq mode (codes "append"))) [
          | inl a ↦
              let (c, done) = compatible old t (ice.append ns l t.rows) w w' x (ground arith) in
              (
                record old { rows = old.rows ++ t.rows },
                appended a c,
                ice.append_effect ns l t.rows w w' x old done e,
              )
          | inr na ↦ absurd (ground arith)
        ]
      ]

  -- A write that returns reports all rows that it was given, in a mode that it knows, and leaves
  -- the table as that mode says: a new one with these rows, or, if the schemas match, the old one
  -- with these rows in place of its own or behind them. No other table of any namespace changes.
  pub write_arrow-Written :
      (ns l mode : Text) (t : ArrowTable Row) (w w' : ice.Lake) (n : ℕ)
      → write_arrow Row ice ns l t mode w ≡ (ok n, w')
      → (n ≡ length t.rows)
        × (new : LakeTable Row) × Written ice.stored t mode (ice.find w ns l) new
        × IsWrite ns l new w w'
  unfolding write_arrow Catalog.by_mode
  write_arrow-Written ns l mode t w w' n h =
      let (y, mid, made, rest) =
        >>=-returns (ice.create_namespace ns)
          (λ _. Catalog.by_mode Row ice mode ns l t >>= λ _. pure (length t.rows)) w w' n h in
      let (x, last, done, over) =
        >>=-returns (Catalog.by_mode Row ice mode ns l t) (λ _. pure (length t.rows)) mid w' n
          rest in
      let kept : Same w mid =
        λ a b. ap (λ q. ice.find q a b) (sym (ap (λ q. q.1) made)) ∙ ice.namespace_keeps ns w a b in
      let same : last ≡ w' = cc in
      let (new, how, effect) = in_mode-writes mode ns l t (ice.find w ns l) mid last x (kept ns l) (
        subst (λ found. Catalog.in_mode Row ice mode ns l t found mid ≡ (ok x, last)) (kept ns l)
          done) in
      (
        cc,
        new,
        how,
        λ a b.
            ap (λ q. ice.find q a b) (sym same)
            ∙ effect a b
            ∙ ap (λ o. found_at ns l (some new) o a b) (kept a b),
      )

  refused :
      (old : LakeTable Row) (t : ArrowTable Row) (body : Exec ice.Lake (Unit {0})) (w w' : ice.Lake)
      (e : Error)
      → (lift (assert_schema_compatible old.schema t.schema) >>= λ _. body) w ≡ (err e, w')
      → (w' ≡ w) ⊎ (body w ≡ (err e, w'))
  unfolding assert_schema_compatible
  refused old t body w w' e h = elim (Bool-cases (schemas_match old.schema t.schema)) [
    | inl fits ↦ inr (ground arith)
    | inr differs ↦ inl (ground arith)
  ]

  unchanged : (w w' : ice.Lake) → w' ≡ w → Same w w'
  unchanged w w' e n m = ap (λ q. ice.find q n m) e

  in_mode-fails :
      (mode ns l : Text) (t : ArrowTable Row) (old : LakeTable Row) (w w' : ice.Lake) (e : Error)
      → Catalog.in_mode Row ice mode ns l t (some old) w ≡ (err e, w')
      → Same w w'
  unfolding Catalog.in_mode Catalog.create_mode Catalog.replace_mode Catalog.append_mode
  in_mode-fails mode ns l t old w w' e h = elim (Bool-cases (text_eq mode (codes "create"))) [
    | inl c ↦ unchanged w w' (ground arith)
    | inr nc ↦ elim (Bool-cases (text_eq mode (codes "replace"))) [
      | inl r ↦ elim (refused old t (ice.overwrite ns l t.rows) w w' e (ground arith)) [
        | inl same ↦ unchanged w w' same
        | inr failed ↦ ice.overwrite_fails ns l t.rows w w' e failed
      ]
      | inr nr ↦ elim (Bool-cases (text_eq mode (codes "append"))) [
        | inl a ↦ elim (refused old t (ice.append ns l t.rows) w w' e (ground arith)) [
          | inl same ↦ unchanged w w' same
          | inr failed ↦ ice.append_fails ns l t.rows w w' e failed
        ]
        | inr na ↦ unchanged w w' (ground arith)
      ]
    ]
  ]

  -- A write over an existing table that raises, whatever the mode and whatever raises, leaves
  -- every table of the catalog as it was.
  pub write_arrow-fails :
      (ns l mode : Text) (t : ArrowTable Row) (old : LakeTable Row) (w w' : ice.Lake) (e : Error)
      (n m : Text)
      → ice.find w ns l ≡ some old
      → write_arrow Row ice ns l t mode w ≡ (err e, w')
      → ice.find w' n m ≡ ice.find w n m
  unfolding write_arrow Catalog.by_mode
  write_arrow-fails ns l mode t old w w' e n m there h =
      elim (>>=-raises (ice.create_namespace ns)
        (λ _. Catalog.by_mode Row ice mode ns l t >>= λ _. pure (length t.rows)) w w' e h) [
          | inl failed ↦
              ap (λ q. ice.find q n m) (sym (ap (λ q. q.1) failed)) ∙ ice.namespace_keeps ns w n m
          | inr (y, mid, made, rest) ↦
              let kept : Same w mid = λ a b.
                ap (λ q. ice.find q a b) (sym (ap (λ q. q.1) made))
                ∙ ice.namespace_keeps ns w a b in
              elim (>>=-raises (Catalog.by_mode Row ice mode ns l t) (λ _. pure (length t.rows)) mid
                w' e rest) [
                  | inl failed ↦
                      in_mode-fails mode ns l t old mid w' e
                        (subst
                          (λ found. Catalog.in_mode Row ice mode ns l t found mid ≡ (err e, w'))
                          (kept ns l ∙ there) failed)
                        n m
                      ∙ kept n m
                  | inr (x, last, done, over) ↦ absurd (cc)
                ]
        ]
