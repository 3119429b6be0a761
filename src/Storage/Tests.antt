-- ===== src/Storage/Tests.antt =====
-- The object store in memory.
use memcove.Common.{
  ℕ, ◌≡◌, refl, sym, ◌∙◌, ap, true, not, ◌&&◌, Option, none, some, Text, codes, text_eq,
  text_eq_refl, all, ◌==◌, length, if◌then◌else◌,
}
use memcove.Common.Result.{Result, ok, err, backend_error}
use memcove.Artifacts.{s3_uri}
use memcove.Storage.{ObjectStore, object_size, read_parquet_table, write_parquet_table}
use memcove.Storage.ReadBack.{Keeps, read-write_parquet_table}

-- the objects by bucket and key
abbrev Memory : Type 0
Memory = Text → Text → Option Text

abbrev memory_put : Text → Text → Text → Memory → Memory
memory_put bucket key body w b k = if text_eq b bucket && text_eq k key then some body else w b k

abbrev found : Option Text → Result Text
found none = err backend_error
found (some body) = ok body

abbrev measured : Option Text → Result ℕ
measured none = err backend_error
measured (some body) = ok (length body)

-- a table is its parquet file
abbrev memory : ObjectStore Memory
memory = record {
  Table = Text;
  Body = Text;
  Sink = Text;
  size = length;
  write_table = λ t. t;
  read_table = λ b. ok b;
  put_object = λ bucket key body content_type w. (ok tt, memory_put bucket key body w);
  get_object = λ bucket key w. (found (w bucket key), w);
  head_object = λ bucket key w. (measured (w bucket key), w);
  open_output = λ path w. (ok path, w);
  generate_presigned_url = λ method bucket key content_type seconds. s3_uri bucket key;
}

put_there :
    (bucket key body : Text) (w w' : Memory)
    → memory_put bucket key body w ≡ w'
    → w' bucket key ≡ some body
put_there bucket key body w w' e =
    ap (λ m. m bucket key) (sym e) ∙ rw (text_eq_refl bucket, text_eq_refl key) refl

memory-Keeps : Keeps memory
memory-Keeps = record {
  get_put = λ bucket key body content_type w w' h.
      let there = put_there bucket key body w w' (ap (λ q. q.1) h) in rw there refl;
  head_put = λ bucket key body content_type w w' h.
      let there = put_there bucket key body w w' (ap (λ q. q.1) h) in rw there refl;
  parquet = λ table. refl;
}

abbrev nothing : Memory
nothing bucket key = none

abbrev table : Text
table = codes "PAR1"

abbrev after_write : Memory
after_write = memory_put (codes "lake") (codes "a/b.parquet") table nothing

wrote :
    write_parquet_table memory table (codes "lake") (codes "a/b.parquet") nothing
    ≡ (ok 4, after_write)
unfolding write_parquet_table
wrote = refl

plain_bucket : all (λ c. not (c == b'/')) (codes "lake") ≡ true
unfolding all
plain_bucket = refl

read_back :
    (read_parquet_table memory (s3_uri (codes "lake") (codes "a/b.parquet")) none after_write
      ≡ (ok table, after_write))
    × (read_parquet_table memory (codes "lake") (some (codes "a/b.parquet")) after_write
        ≡ (ok table, after_write))
    × (object_size memory (s3_uri (codes "lake") (codes "a/b.parquet")) none after_write
        ≡ (ok 4, after_write))
    × (object_size memory (codes "lake") (some (codes "a/b.parquet")) after_write
        ≡ (ok 4, after_write))
read_back =
    read-write_parquet_table memory memory-Keeps table (codes "lake") (codes "a/b.parquet") 4
      nothing after_write plain_bucket refl wrote
