-- ===== src/Flight/Rows.antt =====
-- No row of an upload is lost, repeated or reordered by the commits in between.
use memcove.Common.{
  append_assoc, append_nil, ℕ, ◌≡◌, ◌+◌, refl, sym, ap, subst, ◌∙◌, true, false, ◌&&◌, Option, none,
  some, List, [], ◌∷◌, ◌++◌, Text, codes, text_eq, text_eq_iff, text_eq_refl, length, length-append,
  leb, is_nonempty, if◌then◌else◌, arith, Bool-cases, inl, inr,
}
use memcove.Common.Result.{Result, ok}
use memcove.Common.Exec.{pure, >>=-returns}
use memcove.Catalog.{TableSchema, LakeTable, Iceberg, found_at, ArrowTable, write_arrow}
use memcove.Catalog.Writes.{Written, fresh, replaced, appended, write_arrow-Written}
use memcove.Flight.{Upload, Target, no_upload, add_batch, concat, flush, flush_at, put_batches}
use memcove.Flight.Commits.{uploaded, concat-snoc}

-- the rows of the table before the upload that a mode keeps
abbrev pub kept_rows : {Row : Type 0} → Text → Option (LakeTable Row) → List Row
kept_rows mode none = []
kept_rows mode (some old) = if text_eq mode (codes "append") then old.rows else []

Written-rows :
    {Row : Type 0} (stored : TableSchema → TableSchema) (t : ArrowTable Row) (mode : Text)
    (old : Option (LakeTable Row)) (new : LakeTable Row)
    → Written stored t mode old new
    → new.rows ≡ kept_rows mode old ++ t.rows
unfolding text_eq
Written-rows stored t mode _ _ (fresh known) = refl
Written-rows stored t mode _ _ (replaced r fits) =
    rw ((text_eq_iff mode (codes "replace")).0 r) refl
Written-rows stored t mode _ _ (appended a fits) = rw a refl

elsewhere :
    {A : Type 0} (ns l n m : Text) (new old : A)
    → (text_eq n ns && text_eq m l) ≡ false
    → found_at ns l new old n m ≡ old
elsewhere ns l n m new old h = rw h refl

own_place : {A : Type 0} (ns l : Text) (new old : A) → found_at ns l new old ns l ≡ new
own_place ns l new old = rw (text_eq_refl ns, text_eq_refl l)

module _ (Row : Type 0) (ice : Iceberg Row) (t : Target) (start : ice.Lake) where
  -- the lookups of all other tables
  abbrev pub OthersSame : ice.Lake → Type 0
  OthersSame w =
      (n m : Text)
      → (text_eq n t.tenant && text_eq m t.name) ≡ false
      → ice.find w n m ≡ ice.find start n m

  -- the catalog after some commits: the rows done so far stand in the table behind those that the
  -- mode keeps, or there was no commit
  pub data Progress (done : List Row) (w : ice.Lake) (commits : ℕ) : Type 0 where
    untouched :
        commits ≡ 0
        → done ≡ []
        → ice.find w t.tenant t.name ≡ ice.find start t.tenant t.name
        → Progress done w commits
    committed :
        (table : LakeTable Row)
        → leb 1 commits ≡ true
        → ice.find w t.tenant t.name ≡ some table
        → table.rows ≡ kept_rows t.mode (ice.find start t.tenant t.name) ++ done
        → Progress done w commits

  -- the mode of the next commit
  abbrev next_mode : ℕ → Text
  next_mode commits = if leb 1 commits then codes "append" else t.mode

  rows_after :
      (done : List Row) (w : ice.Lake) (commits : ℕ) (batch : ArrowTable Row) (new : LakeTable Row)
      → Progress done w commits
      → Written ice.stored batch (next_mode commits) (ice.find w t.tenant t.name) new
      → new.rows ≡ kept_rows t.mode (ice.find start t.tenant t.name) ++ (done ++ batch.rows)
  unfolding text_eq
  rows_after done w commits batch new (untouched zero empty same) how =
      Written-rows ice.stored batch (next_mode commits) (ice.find w t.tenant t.name) new how
      ∙ rw (zero, empty, same) refl
  rows_after done w commits batch new (committed table some_commit there rows) how =
      Written-rows ice.stored batch (next_mode commits) (ice.find w t.tenant t.name) new how
      ∙ rw (some_commit, there, rows)
          (append_assoc (kept_rows t.mode (ice.find start t.tenant t.name)) done batch.rows)

  empty_buffer : (bs : List (List Row)) → is_nonempty bs ≡ false → concat bs ≡ []
  unfolding concat
  empty_buffer [] h = refl
  empty_buffer (b ∷ bs) h = cc

  no_buffer : (bs : List (List Row)) → is_nonempty bs ≡ false → bs ≡ []
  no_buffer [] h = refl
  no_buffer (b ∷ bs) h = cc

  abbrev Kept : Upload Row → ice.Lake → List Row → Type 0
  Kept up w done = Progress done w up.commits × OthersSame w

  flush-Progress :
      (up up' : Upload Row) (w w' : ice.Lake) (done : List Row)
      → flush Row ice t up w ≡ (ok up', w')
      → Kept up w done
      → Kept up' w' (done ++ concat up.buffer) × (up'.buffer ≡ []) × (up'.total ≡ up.total)
  unfolding flush
  flush-Progress up up' w w' done h (p, others) = elim (Bool-cases (is_nonempty up.buffer)) [
    | inl full ↦
        let batch : ArrowTable Row = record { schema = t.schema; rows = concat up.buffer } in
        let (n, mid, wrote, rest) =
          >>=-returns (write_arrow Row ice t.tenant t.name batch (next_mode up.commits))
            (λ x. pure (record up { commits = up.commits + 1; buffer = []; buffered = 0 })) w w' up'
            (ground arith) in
        let (counted, new, how, effect) =
          write_arrow-Written Row ice t.tenant t.name (next_mode up.commits) batch w mid n wrote in
        let after : record up { commits = up.commits + 1; buffer = []; buffered = 0 } ≡ up' = cc in
        let same : mid ≡ w' = cc in
        subst (λ u. Kept u w' (done ++ concat up.buffer) × (u.buffer ≡ []) × (u.total ≡ up.total))
          after
          (
            (
              committed new (ground arith)
                  (ap (λ q. ice.find q t.tenant t.name) (sym same)
                    ∙ effect t.tenant t.name
                    ∙ own_place t.tenant t.name (some new) (ice.find w t.tenant t.name))
                  (rows_after done w up.commits batch new p how),
              λ n m o.
                  ap (λ q. ice.find q n m) (sym same)
                  ∙ effect n m
                  ∙ elsewhere t.tenant t.name n m (some new) (ice.find w n m) o
                  ∙ others n m o,
            ),
            refl,
            refl,
          )
    | inr empty ↦
        let nothing = empty_buffer up.buffer empty in
        let there : ◌≡◌ {A = Result (Upload Row) × ice.Lake} (ok up, w) (ok up', w') =
          ground arith in
        let after : up ≡ up' = cc in
        let same : w ≡ w' = cc in
        subst (λ u. Kept u w' (done ++ concat up.buffer) × (u.buffer ≡ []) × (u.total ≡ up.total))
          after
          (
            subst (λ q. Kept up q (done ++ concat up.buffer)) same
                (subst (λ q. Kept up w q)
                  (sym (append_nil done) ∙ ap (λ q. done ++ q) (sym nothing)) (p, others)),
            no_buffer up.buffer empty,
            refl,
          )
  ]

  flush_at-Progress :
      (threshold : ℕ) (up up' : Upload Row) (w w' : ice.Lake) (done : List Row)
      → flush_at Row ice threshold t up w ≡ (ok up', w')
      → Kept up w done
      → (now : List Row) × Kept up' w' now
        × (now ++ concat up'.buffer ≡ done ++ concat up.buffer)
        × (up'.total ≡ up.total)
  unfolding flush_at concat
  flush_at-Progress threshold up up' w w' done h kept =
      elim (Bool-cases (leb threshold up.buffered)) [
        | inl full ↦
            let (after, empty, total) = flush-Progress up up' w w' done (ground arith) kept in
            (
              done ++ concat up.buffer,
              after,
              rw empty (append_nil (done ++ concat up.buffer)),
              total,
            )
        | inr room ↦
            let there : ◌≡◌ {A = Result (Upload Row) × ice.Lake} (ok up, w) (ok up', w') =
              ground arith in
            let after : up ≡ up' = cc in
            let same : w ≡ w' = cc in
            subst
              (λ u.
                (now : List Row) × Kept u w' now
                × (now ++ concat u.buffer ≡ done ++ concat up.buffer)
                × (u.total ≡ up.total))
              after (done, subst (λ q. Kept up q done) same kept, refl, refl)
      ]

  put_batches-Progress :
      (threshold : ℕ) (chunks : List (Option (List Row))) (up up' : Upload Row) (w w' : ice.Lake)
      (done : List Row)
      → put_batches Row ice threshold t chunks up w ≡ (ok up', w')
      → Kept up w done
      → Kept up' w' (done ++ (concat up.buffer ++ uploaded chunks))
        × (up'.total ≡ up.total + length (uploaded chunks))
  unfolding put_batches add_batch
  put_batches-Progress threshold [] up up' w w' done h kept =
      let (after, empty, total) = flush-Progress up up' w w' done h kept in
      (
        subst (λ q. Kept up' w' (done ++ q)) (sym (append_nil (concat up.buffer))) after,
        omega (arith, total),
      )
  put_batches-Progress threshold (none ∷ chunks) up up' w w' done h kept =
      put_batches-Progress threshold chunks up up' w w' done h kept
  put_batches-Progress threshold (some [] ∷ chunks) up up' w w' done h kept =
      put_batches-Progress threshold chunks up up' w w' done h kept
  put_batches-Progress threshold (some (r ∷ rs) ∷ chunks) up up' w w' done h kept =
      let (mid_up, mid, one, rest) =
        >>=-returns (flush_at Row ice threshold t (add_batch (r ∷ rs) up))
          (put_batches Row ice threshold t chunks) w w' up' h in
      let (now, at_mid, same, total) =
        flush_at-Progress threshold (add_batch (r ∷ rs) up) mid_up w mid done one kept in
      let (after, all) = put_batches-Progress threshold chunks mid_up up' mid w' now rest at_mid in
      let more = length-append (r ∷ rs) (uploaded chunks) in
      (
        subst (λ q. Kept up' w' q)
            (sym (append_assoc now (concat mid_up.buffer) (uploaded chunks))
              ∙ ap (λ q. q ++ uploaded chunks)
                  (same ∙ ap (λ q. done ++ q) (concat-snoc up.buffer (r ∷ rs)))
              ∙ append_assoc done (concat up.buffer ++ (r ∷ rs)) (uploaded chunks)
              ∙ ap (λ q. done ++ q) (append_assoc (concat up.buffer) (r ∷ rs) (uploaded chunks)))
            after,
        omega (arith, more, total, all),
      )

  -- An upload that returns, in however many commits, has put all rows of the stream, each once and
  -- in order, into its table, behind the old rows if it appends and in their place otherwise; it
  -- counted them right; and no other table of any namespace has changed. Without a commit the
  -- stream had no rows, and the table is as before.
  pub put_batches-all_rows :
      (threshold : ℕ) (chunks : List (Option (List Row))) (up' : Upload Row) (w' : ice.Lake)
      → put_batches Row ice threshold t chunks no_upload start ≡ (ok up', w')
      → Progress (uploaded chunks) w' up'.commits
        × OthersSame w'
        × (up'.total ≡ length (uploaded chunks))
  unfolding concat
  put_batches-all_rows threshold chunks up' w' h =
      let ((rows, others), total) =
        put_batches-Progress threshold chunks no_upload up' start w' [] h
          (untouched refl refl refl, λ n m o. refl) in
      (rows, others, omega (arith, total))
