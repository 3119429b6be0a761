-- ===== src/Ingest/Confined.antt =====
-- Which objects of the store an ingest can read.
use memcove.Common.{
  ℕ, ◌≡◌, ◌≤◌, sym, ap, subst, ◌∙◌, refl, Bool, true, Option, none, some, List, [], ◌∷◌, Text,
  codes, any, contains, starts_with, ◌++◌, All, text_eq, text_eq_iff, text_eq_refl, Bool-cases, ◌⊎◌,
  inl, inr, is_nonempty, ◌==◌, false, arith,
}
use memcove.Common.Result.{ok, >>=-eq-ok, guard-ok, ok-injective, guard, ingest_error}
use memcove.Unicode.{rstrip_by}
use memcove.Config.{Settings}
use memcove.Models.{SourceKind}
use memcove.Ingest.{
  Ports, s3_parquet, upload_handle, within, split, uploads, table_from_source, is_slash,
  check_s3_ingest_allowed, check_ingest_size, read_parquet_table, from_s3, from_upload,
}

-- The URI lies under an allowed prefix: without its slashes at the end the prefix is the URI, or
-- the URI goes on behind it with a slash.
pub record LiesUnder (uri allowed : Text) : Type 0 where
  pub prefix : Text
  pub slashes : Text
  pub only_slashes : All (λ c. c ≡ b'/') slashes
  pub whole : allowed ≡ prefix ++ slashes
  pub under : (uri ≡ prefix) ⊎ ((rest : Text) × (uri ≡ (prefix ++ codes "/") ++ rest))

starts_with-rest :
    (uri prefix : Text) → starts_with uri prefix ≡ true → (rest : Text) × (uri ≡ prefix ++ rest)
unfolding starts_with
starts_with-rest uri [] h = (uri, refl)
starts_with-rest [] (c ∷ prefix) h = absurd (cc h)
starts_with-rest (x ∷ uri) (c ∷ prefix) h =
    let (rest, e) = starts_with-rest uri prefix (ground arith) in
    let same : x ≡ c = ground arith in (rest, cc (same, e))

is_empty : (t : Text) → is_nonempty t ≡ false → t ≡ []
is_empty [] h = refl
is_empty (c ∷ t) h = absurd (cc h)

rstrip_by-slashes :
    (t : Text)
    → (slashes : Text) × All (λ c. c ≡ b'/') slashes × (t ≡ rstrip_by is_slash t ++ slashes)
unfolding rstrip_by is_slash
rstrip_by-slashes [] = ([], tt, refl)
rstrip_by-slashes (c ∷ t) =
    let (slashes, only, whole) = rstrip_by-slashes t in
    elim (Bool-cases (is_nonempty (rstrip_by is_slash t))) [
      | inl kept ↦ (slashes, only, rw kept (ap (λ q. c ∷ q) whole))
      | inr gone ↦
          let all_slashes : t ≡ slashes = whole ∙ ap (λ q. q ++ slashes) (is_empty _ gone) in
          elim (Bool-cases (c == b'/')) [
            | inl slash ↦
                let same : c ≡ b'/' = ground arith in
                (c ∷ slashes, (same, only), rw (gone, slash) (ap (λ q. c ∷ q) all_slashes))
            | inr other ↦ (slashes, only, rw (gone, other) (ap (λ q. c ∷ q) all_slashes))
          ]
    ]

within-LiesUnder : (uri allowed : Text) → within uri allowed ≡ true → LiesUnder uri allowed
unfolding within
within-LiesUnder uri allowed h =
    let prefix = rstrip_by is_slash allowed in
    let (slashes, only, whole) = rstrip_by-slashes allowed in
    record {
      prefix = prefix;
      slashes = slashes;
      only_slashes = only;
      whole = whole;
      under = elim (Bool-cases (text_eq uri prefix)) [
        | inl same ↦ inl ((text_eq_iff uri prefix).0 same)
        | inr other ↦
            let (rest, e) = starts_with-rest uri (prefix ++ codes "/") (rw other at h) in
            inr (rest, e)
      ];
    }

any-found :
    (f : Text → Bool) (xs : List Text)
    → any f xs ≡ true
    → (x : Text) × (contains xs x ≡ true) × (f x ≡ true)
unfolding any contains
any-found f [] h = absurd (cc h)
any-found f (x ∷ xs) h = elim (Bool-cases (f x)) [
  | inl here ↦ (x, ground (arith, text_eq_refl x), here)
  | inr other ↦ let (y, there, holds) = any-found f xs (ground arith) in (y, ground arith, holds)
]

module _ (p : Ports) (s : Settings) where
  -- the object at a bucket and a key was read, and is no larger than the cap
  abbrev pub ReadWithin : Text → Text → p.Table → Type 0
  ReadWithin bucket key table =
      (size : ℕ) × (p.content_length bucket key ≡ ok size)
      × (size ≤ s.ingest_bytes_cap)
      × (p.read_parquet bucket key ≡ ok table)

  sized :
      (bucket : Text) (key : Option Text) (x : Unit {0}) (table : p.Table)
      → check_ingest_size p s bucket key ≡ ok x
      → read_parquet_table p s bucket key ≡ ok table
      → (b k : Text) × (split bucket key ≡ ok (b, k)) × ReadWithin b k table
  unfolding check_ingest_size read_parquet_table
  sized bucket key x table h r =
      let ((b, k), at, h₁) = >>=-eq-ok (split bucket key) _ h in
      let (size, length_ok, h₂) = >>=-eq-ok (p.content_length b k) _ h₁ in
      let ((b', k'), at', read) = >>=-eq-ok (split bucket key) _ r in
      let same : ◌≡◌ {A = Text × Text} (b', k') (b, k) =
        ok-injective (b', k') (b, k) (sym at' ∙ at) in
      (
        b,
        k,
        at,
        (
          size,
          length_ok,
          ground arith,
          subst (λ (at : Text × Text). p.read_parquet at.0 at.1 ≡ ok table) same read,
        ),
      )

  -- An s3_parquet ingest that succeeds read, within the size cap, the object of a URI that, for an
  -- allowed prefix of the settings without its slashes at the end, equals it or goes on behind it
  -- with a slash.
  pub table_from_source-allowed :
      (tenant uri : Text) (table : p.Table) (kind : SourceKind) (ref : Option Text)
      → table_from_source p s tenant (s3_parquet (some uri)) ≡ ok (table, kind, ref)
      → ((allowed : Text) × (contains s.allowed_s3_ingest_prefixes allowed ≡ true)
          × LiesUnder uri allowed)
        × (bucket key : Text) × (split uri none ≡ ok (bucket, key))
        × ReadWithin bucket key table
  unfolding table_from_source from_s3 check_s3_ingest_allowed
  table_from_source-allowed tenant uri table kind ref h =
      let (x, e, h₁) = >>=-eq-ok (check_s3_ingest_allowed s uri) _ h in
      let (y, f, h₂) = >>=-eq-ok (check_ingest_size p s uri none) _ h₁ in
      let (t, r, last) = >>=-eq-ok (read_parquet_table p s uri none) _ h₂ in
      let got : t ≡ table = cc in
      let (b, k, at, read) = sized uri none y table f (r ∙ ap ok got) in
      let (allowed, listed, holds) =
        any-found (within uri) s.allowed_s3_ingest_prefixes (ground arith) in
      ((allowed, listed, within-LiesUnder uri allowed holds), b, k, at, read)

  -- An upload_handle ingest that succeeds read, within the size cap, an object of the staging
  -- bucket whose key lies under the uploads of the calling tenant.
  pub table_from_source-own_upload :
      (tenant handle : Text) (table : p.Table) (kind : SourceKind) (ref : Option Text)
      → table_from_source p s tenant (upload_handle (some handle)) ≡ ok (table, kind, ref)
      → (starts_with handle ((uploads p s tenant).1 ++ codes "/") ≡ true)
        × ReadWithin (uploads p s tenant).0 handle table
  unfolding table_from_source from_upload split
  table_from_source-own_upload tenant handle table kind ref h =
      let (x, e, h₁) =
        >>=-eq-ok (guard (starts_with handle ((uploads p s tenant).1 ++ codes "/")) ingest_error) _
          h in
      let (y, f, h₂) =
        >>=-eq-ok (check_ingest_size p s (uploads p s tenant).0 (some handle)) _ h₁ in
      let (t, r, last) =
        >>=-eq-ok (read_parquet_table p s (uploads p s tenant).0 (some handle)) _ h₂ in
      let got : t ≡ table = cc in
      let (b, k, at, read) = sized (uploads p s tenant).0 (some handle) y table f (r ∙ ap ok got) in
      let same : ◌≡◌ {A = Text × Text} ((uploads p s tenant).0, handle) (b, k) =
        ok-injective ((uploads p s tenant).0, handle) (b, k) at in
      (
        guard-ok (starts_with handle ((uploads p s tenant).1 ++ codes "/")) ingest_error x e,
        subst (λ (at : Text × Text). ReadWithin at.0 at.1 table) (sym same) read,
      )
