-- ===== src/Trino/Whole.antt =====
-- execute_arrow: the whole result as one table.
use memcove.Common.{ℕ, ◌≡◌, ◌<◌, ap, ◌∙◌, subst, true, none, List, [], ◌∷◌, Text, is_nonempty}
use memcove.Common.Result.{Result, ok, err, >>=-eq-ok, ok-injective}
use memcove.Unicode.{Unicode}
use memcove.Trino.{Cell}
use memcove.Trino.Types.{ArrowType}
use memcove.Trino.Stream.{
  Arrays, fields_of, chunks, chunks-rows, concat, batch_size, collect, stream_arrow_batches,
  execute_arrow,
}
use memcove.Trino.Conforms.{Conforms, Stream, stream_arrow_batches-Stream}

module _ {O : Type 0} (a : Arrays O) where
  -- one batch for each chunk, and each fits
  abbrev pub Filled :
      List (Text × ArrowType) → List (List (List (Cell O))) → List (List a.Column) → Type 0
  Filled fields [] [] = Unit {0}
  Filled fields (rows ∷ rest) (columns ∷ later) =
      Conforms a 0 rows fields columns × Filled fields rest later
  Filled fields _ _ = ⊥

  collect-Filled :
      (fields : List (Text × ArrowType)) (chunked : List (List (List (Cell O))))
      (out : List (Result (List a.Column))) (table : List (List a.Column))
      → Stream a fields chunked out
      → collect out ≡ ok table
      → Filled fields chunked table
  unfolding collect
  collect-Filled fields [] [] table fits h = subst (Filled fields []) (ok-injective [] table h) tt
  collect-Filled fields (rows ∷ rest) (ok columns ∷ later) table fits h =
      let (bs, more, made) = >>=-eq-ok (collect later) _ h in
      subst (Filled fields (rows ∷ rest)) (ok-injective (columns ∷ bs) table made)
        (fits.0, collect-Filled fields rest later bs fits.1 more)
  collect-Filled fields (rows ∷ rest) (err e ∷ []) table fits h = absurd (cc h)
  collect-Filled fields _ _ table fits h = absurd fits

  -- A table of execute_arrow has the types of the description and holds every row of the result:
  -- its batches are made, one each and in order, from chunks that put together are the rows. The
  -- configured batch size is not 0, and the result has a column.
  pub execute_arrow-all_rows :
      (u : Unicode) (default_rows : ℕ) (description : List (Text × Text))
      (rows : List (List (Cell O))) (fields : List (Text × ArrowType))
      (table : List (List a.Column))
      → 0 < default_rows
      → is_nonempty fields ≡ true
      → execute_arrow a u default_rows description rows ≡ ok (fields, table)
      → (fields_of u description ≡ ok fields)
        × (chunked : List (List (List (Cell O)))) × (concat chunked ≡ rows)
        × Filled fields chunked table
  unfolding execute_arrow batch_size
  execute_arrow-all_rows u default_rows description rows fields table pos named h =
      let (streamed, one, h₁) =
        >>=-eq-ok (stream_arrow_batches a u default_rows none description rows) _ h in
      let (bs, two, h₂) = >>=-eq-ok (collect streamed.1) _ h₁ in
      let same = ok-injective (streamed.0, bs) (fields, table) h₂ in
      let first : streamed.0 ≡ fields = ap (λ q. q.0) same in
      let second : bs ≡ table = ap (λ q. q.1) same in
      let given : stream_arrow_batches a u default_rows none description rows
          ≡ ok (fields, streamed.1) =
        one ∙ ap (λ f. ok (f, streamed.1)) first in
      let (typed, stream) =
        stream_arrow_batches-Stream a u default_rows none description rows fields streamed.1
          given in
      let chunked = chunks default_rows rows in
      let fits : Stream a fields chunked streamed.1 = rw named at stream in
      (
        typed,
        chunked,
        (chunks-rows default_rows rows pos).0,
        collect-Filled fields chunked streamed.1 table fits (two ∙ ap ok second),
      )
