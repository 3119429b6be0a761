-- ===== src/Flight/Tests.antt =====
-- Uploads to a catalog in memory.
use memcove.Common.{
  ℕ, ◌≡◌, refl, Option, ◌⊎◌, none, some, List, [], ◌∷◌, Text, codes, length, arith,
}
use memcove.Common.Result.{ok, err, flight_error}
use memcove.Common.Exec.{pure, ◌>>=◌}
use memcove.Catalog.{LakeTable, write_arrow}
use memcove.Catalog.Memory.{Memory, put, memory}
use memcove.Unicode.Ascii.{ascii}
use memcove.Config.Defaults.{defaults}
use memcove.SqlGuard.Toy.{toy as parser}
use memcove.Tickets.Toy.{toy as codec}
use memcove.Tickets.{sign, read_command}
use memcove.Flight.Downloads.{Answered, do_get-guarded}
use memcove.Flight.{do_get, Upload, Target, no_upload, put_batches}
use memcove.Flight.Commits.{uploaded, put_batches-single}
use memcove.Flight.Rows.{Progress, OthersSame, put_batches-all_rows}

abbrev events : Target
events = record { tenant = codes "t"; name = codes "e"; mode = codes "replace"; schema = [] }

abbrev stream : List (Option (List ℕ))
stream = some (1 ∷ []) ∷ none ∷ some [] ∷ some (2 ∷ 3 ∷ []) ∷ some (4 ∷ []) ∷ []

abbrev holding : List ℕ → Memory
holding rows = put (codes "t") (codes "e") (record { schema = []; rows = rows }) (λ n m. none)

put_batches-single_example :
    put_batches ℕ memory 10 events stream no_upload (holding (9 ∷ []))
    ≡ (write_arrow ℕ memory
            (codes "t")
            (codes "e")
            (record { schema = []; rows = 1 ∷ 2 ∷ 3 ∷ 4 ∷ [] })
            (codes "replace")
          >>= λ n. pure (record { buffer = []; buffered = 0; total = 4; commits = 1 }))
        (holding (9 ∷ []))
put_batches-single_example =
    put_batches-single ℕ memory 10 events stream (holding (9 ∷ [])) (omega arith) refl

abbrev done : Upload ℕ
done = record { buffer = []; buffered = 0; total = 4; commits = 2 }

abbrev lake_after : Memory
lake_after = (put_batches ℕ memory 2 events stream no_upload (holding (9 ∷ []))).1

two_commits :
    put_batches ℕ memory 2 events stream no_upload (holding (9 ∷ [])) ≡ (ok done, lake_after)
unfolding put_batches memcove.Flight.flush_at memcove.Flight.add_batch memcove.Flight.flush
    write_arrow memcove.Common.text_eq memcove.Catalog.assert_schema_compatible
    memcove.Catalog.schemas_match memcove.Catalog.covers memcove.Common.all
two_commits = refl

put_batches-all_rows_example :
    Progress ℕ memory events (holding (9 ∷ [])) (1 ∷ 2 ∷ 3 ∷ 4 ∷ []) lake_after 2
    × OthersSame ℕ memory events (holding (9 ∷ [])) lake_after
    × (4 ≡ length (uploaded stream))
put_batches-all_rows_example =
    put_batches-all_rows ℕ memory events (holding (9 ∷ [])) 2 stream done lake_after two_commits

abbrev reads : codec.Bytes
reads = sign codec defaults 1000 (codes "9f") (read_command (codes "t_acme") (codes "orders"))

do_get-guarded_example :
    ((r : Text) × Answered parser ascii defaults codec (λ sql tenant. ok sql) 1100 reads r)
    ⊎ (do_get parser ascii defaults codec (λ sql tenant. ok sql) 1100 reads ≡ err flight_error)
do_get-guarded_example =
    do_get-guarded parser ascii defaults codec (λ sql tenant. ok sql) 1100 reads
