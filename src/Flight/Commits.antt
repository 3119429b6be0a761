-- ===== src/Flight/Commits.antt =====
-- The commits of one upload: how many there are, and which rows they leave in the table.
use memcove.Common.{
  append_assoc, append_nil, ℕ, ◌≡◌, ◌+◌, ◌<◌, refl, sym, ap, subst, ◌∙◌, true, Option, none, some,
  List, [], ◌∷◌, ◌++◌, length, length-append, is_nonempty, arith,
}
use memcove.Common.Result.{ok}
use memcove.Common.Exec.{pure, ◌>>=◌}
use memcove.Catalog.{Iceberg, write_arrow}
use memcove.Flight.{Upload, Target, no_upload, add_batch, concat, flush, flush_at, put_batches}

-- all rows of a stream
abbrev pub uploaded : {Row : Type 0} → List (Option (List Row)) → List Row
uploaded [] = []
uploaded (none ∷ chunks) = uploaded chunks
uploaded (some batch ∷ chunks) = batch ++ uploaded chunks

pub concat-snoc :
    {A : Type 0} (bs : List (List A)) (b : List A) → concat (bs ++ (b ∷ [])) ≡ concat bs ++ b
unfolding concat
concat-snoc [] b = append_nil b
concat-snoc (a ∷ bs) b = ap (λ q. a ++ q) (concat-snoc bs b) ∙ sym (append_assoc a (concat bs) b)

-- the upload with all batches in its buffer
collected : {Row : Type 0} → List (Option (List Row)) → Upload Row → Upload Row
collected [] up = up
collected (none ∷ chunks) up = collected chunks up
collected (some [] ∷ chunks) up = collected chunks up
collected (some (r ∷ rs) ∷ chunks) up = collected chunks (add_batch (r ∷ rs) up)

module _ (Row : Type 0) (ice : Iceberg Row) where
  flush_at-below :
      (threshold : ℕ) (t : Target) (up : Upload Row) (w : ice.Lake)
      → up.buffered < threshold
      → flush_at Row ice threshold t up w ≡ (ok up, w)
  unfolding flush_at
  flush_at-below threshold t up w h = ground arith

  put_batches-small :
      (threshold : ℕ) (t : Target) (chunks : List (Option (List Row))) (up : Upload Row)
      (w : ice.Lake)
      → up.buffered + length (uploaded chunks) < threshold
      → put_batches Row ice threshold t chunks up w ≡ flush Row ice t (collected chunks up) w
  unfolding put_batches collected add_batch
  put_batches-small threshold t [] up w h = refl
  put_batches-small threshold t (none ∷ chunks) up w h = put_batches-small threshold t chunks up w h
  put_batches-small threshold t (some [] ∷ chunks) up w h =
      put_batches-small threshold t chunks up w h
  put_batches-small threshold t (some (r ∷ rs) ∷ chunks) up w h =
      let more = length-append (r ∷ rs) (uploaded chunks) in
      rw (flush_at-below threshold t (add_batch (r ∷ rs) up) w (omega (arith, more)))
        (put_batches-small threshold t chunks (add_batch (r ∷ rs) up) w (omega (arith, more)))

  collected-eq :
      (chunks : List (Option (List Row))) (up : Upload Row)
      → (concat (collected chunks up).buffer ≡ concat up.buffer ++ uploaded chunks)
        × ((collected chunks up).total ≡ up.total + length (uploaded chunks))
        × ((collected chunks up).commits ≡ up.commits)
  unfolding collected add_batch
  collected-eq [] up = (sym (append_nil (concat up.buffer)), omega arith, refl)
  collected-eq (none ∷ chunks) up = collected-eq chunks up
  collected-eq (some [] ∷ chunks) up = collected-eq chunks up
  collected-eq (some (r ∷ rs) ∷ chunks) up =
      let (rows, total, commits) = collected-eq chunks (add_batch (r ∷ rs) up) in
      let more = length-append (r ∷ rs) (uploaded chunks) in
      (
        rows
            ∙ ap (λ q. q ++ uploaded chunks) (concat-snoc up.buffer (r ∷ rs))
            ∙ append_assoc (concat up.buffer) (r ∷ rs) (uploaded chunks),
        omega (arith, more, total),
        commits,
      )

  nonempty_buffer : (bs : List (List Row)) → is_nonempty (concat bs) ≡ true → is_nonempty bs ≡ true
  unfolding concat
  nonempty_buffer [] h = cc
  nonempty_buffer (b ∷ bs) h = refl

  -- An upload with rows, but with fewer than the threshold, is exactly one write of all its rows
  -- in the requested mode, however the stream is cut into batches: what that write returns or
  -- raises, and what it leaves in the catalog.
  pub put_batches-single :
      (threshold : ℕ) (t : Target) (chunks : List (Option (List Row))) (w : ice.Lake)
      → length (uploaded chunks) < threshold
      → is_nonempty (uploaded chunks) ≡ true
      → put_batches Row ice threshold t chunks no_upload w
        ≡ (write_arrow Row ice t.tenant t.name
                (record { schema = t.schema; rows = uploaded chunks })
                t.mode
              >>= λ n. pure (record {
                buffer = [];
                buffered = 0;
                total = length (uploaded chunks);
                commits = 1;
              }))
            w
  unfolding flush concat
  put_batches-single threshold t chunks w small some_rows =
      let (rows, total, commits) = collected-eq chunks no_upload in
      let full : is_nonempty (collected chunks (no_upload {Row = Row})).buffer ≡ true =
        nonempty_buffer (collected chunks no_upload).buffer
          (subst (λ q. is_nonempty q ≡ true) (sym rows) some_rows) in
      let all_rows : (collected chunks (no_upload {Row = Row})).total ≡ length (uploaded chunks) =
        omega (arith, total) in
      put_batches-small threshold t chunks no_upload w (omega arith)
      ∙ rw (full, rows, all_rows, commits) refl
