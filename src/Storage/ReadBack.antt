-- ===== src/Storage/ReadBack.antt =====
-- What is written to the object store is read back, by its place and by its URI.
use memcove.Common.{
  ℕ, ◌≡◌, refl, true, not, Option, none, some, [], ◌∷◌, ◌++◌, Text, codes, starts_with, drop, all,
  ◌==◌, is_nonempty, arith,
}
use memcove.Common.Result.{ok}
use memcove.Common.Exec.{>>=-returns}
use memcove.Unicode.{partition}
use memcove.Ingest.{split}
use memcove.Artifacts.{s3_uri}
use memcove.Storage.{ObjectStore, head, object_size, read_parquet_table, write_parquet_table}

-- an object that was put is there, with its size, and parquet keeps the table
pub record Keeps {L : Type 0} (o : ObjectStore L) : Type 0 where
  pub get_put :
      (bucket key : Text) (body : o.Body) (content_type : Option Text) (w w' : L)
      → o.put_object bucket key body content_type w ≡ (ok tt, w')
      → o.get_object bucket key w' ≡ (ok body, w')
  pub head_put :
      (bucket key : Text) (body : o.Body) (content_type : Option Text) (w w' : L)
      → o.put_object bucket key body content_type w ≡ (ok tt, w')
      → o.head_object bucket key w' ≡ (ok (o.size body), w')
  pub parquet : (table : o.Table) → o.read_table (o.write_table table) ≡ ok table

partition-bucket :
    (bucket key : Text)
    → all (λ c. not (c == b'/')) bucket ≡ true
    → partition b'/' (bucket ++ codes "/" ++ key) ≡ (bucket, key)
unfolding partition all
partition-bucket [] key h = refl
partition-bucket (c ∷ bucket) key h = ground (arith, partition-bucket bucket key)

-- `_split` undoes `s3_uri`
pub split-s3_uri :
    (bucket key : Text)
    → all (λ c. not (c == b'/')) bucket ≡ true
    → is_nonempty key ≡ true
    → split (s3_uri bucket key) none ≡ ok (bucket, key)
unfolding split s3_uri starts_with drop
split-s3_uri bucket key plain named = rw (partition-bucket bucket key plain, named) refl

module _ {L : Type 0} (o : ObjectStore L) (k : Keeps o) where
  -- what the two read paths say of an object that was put
  read_at :
      (at : Text) (at_key : Option Text) (bucket key : Text) (table : o.Table) (w : L)
      → split at at_key ≡ ok (bucket, key)
      → o.get_object bucket key w ≡ (ok (o.write_table table), w)
      → read_parquet_table o at at_key w ≡ (ok table, w)
  unfolding read_parquet_table
  read_at at at_key bucket key table w there got = rw (there, got, k.parquet table) refl

  size_at :
      (at : Text) (at_key : Option Text) (bucket key : Text) (n : ℕ) (w : L)
      → split at at_key ≡ ok (bucket, key)
      → o.head_object bucket key w ≡ (ok n, w)
      → object_size o at at_key w ≡ (ok n, w)
  unfolding object_size head
  size_at at at_key bucket key n w there got = rw (there, got) refl

  split-pair : (bucket key : Text) → split bucket (some key) ≡ ok (bucket, key)
  unfolding split
  split-pair bucket key = refl

  written :
      (table : o.Table) (bucket key : Text) (n : ℕ) (w w' : L)
      → write_parquet_table o table bucket key w ≡ (ok n, w')
      → (o.put_object bucket key (o.write_table table) none w ≡ (ok tt, w'))
        × (n ≡ o.size (o.write_table table))
  unfolding write_parquet_table
  written table bucket key n w w' h =
      let (x, mid, put, rest) =
        >>=-returns (o.put_object bucket key (o.write_table table) none) _ w w' n h in
      (cc (put, rest), cc rest)

  -- What write_parquet_table wrote is read back: where it returned, the table is read from the
  -- bucket and the key and from the URI of both, and either way the size is the one returned. The
  -- bucket has no slash, the key is not empty, the store keeps what was put, and parquet keeps a
  -- table.
  pub read-write_parquet_table :
      (table : o.Table) (bucket key : Text) (n : ℕ) (w w' : L)
      → all (λ c. not (c == b'/')) bucket ≡ true
      → is_nonempty key ≡ true
      → write_parquet_table o table bucket key w ≡ (ok n, w')
      → (read_parquet_table o (s3_uri bucket key) none w' ≡ (ok table, w'))
        × (read_parquet_table o bucket (some key) w' ≡ (ok table, w'))
        × (object_size o (s3_uri bucket key) none w' ≡ (ok n, w'))
        × (object_size o bucket (some key) w' ≡ (ok n, w'))
  read-write_parquet_table table bucket key n w w' plain named h =
      let (put, size) = written table bucket key n w w' h in
      let body = o.write_table table in
      let got = k.get_put bucket key body none w w' put in
      let sized : o.head_object bucket key w' ≡ (ok n, w') =
        rw size (k.head_put bucket key body none w w' put) in
      let uri = split-s3_uri bucket key plain named in
      let pair = split-pair bucket key in
      (
        read_at (s3_uri bucket key) none bucket key table w' uri got,
        read_at bucket (some key) bucket key table w' pair got,
        size_at (s3_uri bucket key) none bucket key n w' uri sized,
        size_at bucket (some key) bucket key n w' pair sized,
      )
