-- ===== src/Ingest/Handles.antt =====
-- A handle that request_upload gives is one that an ingest of the tenant takes.
use memcove.Common.{
  ◌≡◌, refl, sym, ap, ◌∙◌, true, List, [], ◌∷◌, ◌++◌, map, filter, Text, codes, starts_with,
  starts_with-append, is_nonempty, append_assoc, arith, inl, inr,
}
use memcove.Common.Result.{ok, Result-cases}
use memcove.Unicode.{Unicode, strip_by}
use memcove.Config.{Settings}
use memcove.Naming.{validate_label}
use memcove.Models.{UploadTicket}
use memcove.Ingest.{Ports, join, resolve, uploads, is_slash}
use memcove.Ingest.Object.{request_upload}

join-snoc :
    (xs : List Text) (y : Text)
    → is_nonempty xs ≡ true
    → join (xs ++ y ∷ []) ≡ (join xs ++ codes "/") ++ y
unfolding join
join-snoc [] y h = absurd (cc)
join-snoc (x ∷ []) y h = refl
join-snoc (x ∷ z ∷ xs) y h =
    ap (λ q. (x ++ codes "/") ++ q) (join-snoc (z ∷ xs) y refl)
    ∙ sym (append_assoc (x ++ codes "/") (join (z ∷ xs) ++ codes "/") y)
    ∙ ap (λ q. q ++ y) (sym (append_assoc (x ++ codes "/") (join (z ∷ xs)) (codes "/")))

nonempty-append :
    {A : Type 0} (xs ys : List A) → is_nonempty ys ≡ true → is_nonempty (xs ++ ys) ≡ true
nonempty-append [] ys h = h
nonempty-append (x ∷ xs) ys h = refl

nonempty-map :
    {A B : Type 0} (f : A → B) (xs : List A) → is_nonempty xs ≡ true → is_nonempty (map f xs) ≡ true
nonempty-map f [] h = absurd (cc)
nonempty-map f (x ∷ xs) h = refl

named_file : (label hex : Text) → is_nonempty (label ++ codes "-" ++ hex ++ codes ".parquet") ≡ true
named_file [] hex = refl
named_file (x ∷ label) hex = refl

parts_snoc :
    (a b file : Text)
    → is_nonempty file ≡ true
    → filter is_nonempty (a ∷ b ∷ file ∷ []) ≡ filter is_nonempty (a ∷ b ∷ []) ++ file ∷ []
unfolding filter
parts_snoc a b file h = ground arith

kept : (a b : Text) → is_nonempty a ≡ true → is_nonempty (filter is_nonempty (a ∷ b ∷ [])) ≡ true
unfolding filter
kept a b h = ground arith

map-append : {A B : Type 0} (f : A → B) (xs ys : List A) → map f (xs ++ ys) ≡ map f xs ++ map f ys
map-append f [] ys = refl
map-append f (x ∷ xs) ys = ap (λ q. f x ∷ q) (map-append f xs ys)

join-under :
    (front : List Text) (f : Text → Text) (whole parts : List Text) (file : Text)
    → whole ≡ parts ++ file ∷ []
    → is_nonempty parts ≡ true
    → join (front ++ map f whole) ≡ (join (front ++ map f parts) ++ codes "/") ++ f file
join-under front f whole parts file e h =
    ap (λ q. join (front ++ map f q)) e
    ∙ ap (λ q. join (front ++ q)) (map-append f parts (file ∷ []))
    ∙ ap join (sym (append_assoc front (map f parts) (f file ∷ [])))
    ∙ join-snoc (front ++ map f parts) (f file)
        (nonempty-append front (map f parts) (nonempty-map f parts h))

-- a place with one part more lies in the place
resolve-under :
    (location a b file : Text)
    → is_nonempty a ≡ true
    → is_nonempty file ≡ true
    → ((resolve location (a ∷ b ∷ file ∷ [])).0 ≡ (resolve location (a ∷ b ∷ [])).0)
      × ((resolve location (a ∷ b ∷ file ∷ [])).1
          ≡ ((resolve location (a ∷ b ∷ [])).1 ++ codes "/") ++ strip_by is_slash file)
unfolding resolve
resolve-under location a b file ha hf = (
  refl,
  join-under _ (strip_by is_slash) (filter is_nonempty (a ∷ b ∷ file ∷ []))
      (filter is_nonempty (a ∷ b ∷ [])) file (parts_snoc a b file hf) (kept a b ha),
)

-- the place of a new upload
abbrev slot : Settings → Text → Text → Text → Text × Text
slot s tenant label hex =
    resolve s.staging_bucket
      (codes "uploads" ∷ tenant ∷ (label ++ codes "-" ++ hex ++ codes ".parquet") ∷ [])

request_upload-slot :
    (u : Unicode) (s : Settings) (presign_put : Text → Text → Text) (hex tenant raw label : Text)
    (t : UploadTicket)
    → request_upload u s presign_put hex tenant raw ≡ ok t
    → validate_label u raw ≡ ok label
    → (t.upload_handle ≡ (slot s tenant label hex).1)
      × (t.presigned_url ≡ presign_put (slot s tenant label hex).0 (slot s tenant label hex).1)
unfolding request_upload
request_upload-slot u s presign_put hex tenant raw label t h good = ground arith

-- What request_upload hands out is accepted when it comes back: the handle lies, in the staging
-- bucket, behind a slash under the uploads of the tenant that asked, which is the very test that
-- the ingest of an upload handle makes.
pub request_upload-own :
    (p : Ports) (u : Unicode) (s : Settings) (presign_put : Text → Text → Text)
    (hex tenant raw : Text) (t : UploadTicket)
    → request_upload u s presign_put hex tenant raw ≡ ok t
    → (starts_with t.upload_handle ((uploads p s tenant).1 ++ codes "/") ≡ true)
      × (t.presigned_url ≡ presign_put (uploads p s tenant).0 t.upload_handle)
unfolding request_upload
request_upload-own p u s presign_put hex tenant raw t h =
    elim (Result-cases (validate_label u raw)) [
      | inr (e, bad) ↦ absurd (ground arith)
      | inl (label, good) ↦
          let file = label ++ codes "-" ++ hex ++ codes ".parquet" in
          let (bucket, under) =
            resolve-under s.staging_bucket (codes "uploads") tenant file refl
              (named_file label hex) in
          let at = request_upload-slot u s presign_put hex tenant raw label t h good in
          let place = uploads p s tenant in
          let handle : t.upload_handle ≡ (place.1 ++ codes "/") ++ strip_by is_slash file =
            at.0 ∙ under in
          (rw handle (starts_with-append (place.1 ++ codes "/") (strip_by is_slash file)), cc)
    ]
