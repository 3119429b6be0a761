-- ===== src/Registry/Tags.antt =====
-- Without faults the tags of an object are replaced, where the collation tells them apart.
use memcove.Common.{
  ℕ, ◌≡◌, refl, sym, subst, any, text_eq_iff, text_eq_refl, Bool, true, false, not, List, [], ◌∷◌,
  ◌++◌, Text, contains, filter, arith, inl, inr, Bool-cases,
}
use memcove.Common.Result.{Result, ok}
use memcove.Common.Exec.{Exec, ◌>>=◌, for_each}
use memcove.Registry.{
  Tables, Store, TagRow, at_key, tags_of, delete_tags, insert_tag, execute, dedupe_from, dedupe,
  replace_tags,
}
use memcove.Registry.Transactions.{execute-no_faults}
use memcove.Registry.Recording.{insert_tag-tags, tags-delete}

-- the action returns, in a state that again has no faults ahead
pub record Succeeds {A : Type 0} (m : Exec Store A) (a : A) (s s' : Store) : Type 0 where
  pub returns : m s ≡ (ok a, s')
  pub calm : s'.faults ≡ []

pub bind-Succeeds :
    {A B : Type 0} (m : Exec Store A) (f : A → Exec Store B) (a : A) (b : B) (s mid s' : Store)
    → Succeeds m a s mid
    → Succeeds (f a) b mid s'
    → Succeeds (m >>= f) b s s'
bind-Succeeds m f a b s mid s' h k = record {
  returns = ground (arith, h.returns, k.returns);
  calm = k.calm;
}

pub execute-Succeeds :
    (f : ℕ → Tables → Result Tables) (s : Store) (t : Tables)
    → s.faults ≡ []
    → f s.clock s.tables ≡ ok t
    → Succeeds (execute f) tt s (record s { tables = t })
execute-Succeeds f s t calm e = record { returns = execute-no_faults f s t calm e; calm = calm }

-- the collation of the tables tells these tags apart
abbrev pub Apart : List Text → Tables → Type 0
Apart tags t =
    (x y : Text) → contains tags x ≡ true → contains tags y ≡ true → t.same_tag x y ≡ true → x ≡ y

pub none_apart : (t : Tables) → Apart [] t
unfolding contains
none_apart t x y h = absurd (cc h)

any-none :
    (f : Text → Bool) (xs : List Text)
    → ((a : Text) → contains xs a ≡ true → f a ≡ false)
    → any f xs ≡ false
unfolding any contains
any-none f [] h = refl
any-none f (x ∷ xs) h =
    let here : f x ≡ false = h x (ground (arith, text_eq_refl x)) in
    let later : any f xs ≡ false = any-none f xs (λ a there. h a (ground (arith, there))) in
    ground arith

-- a fresh tag equals no earlier one to the collation
unmet :
    (tags seen : List Text) (t : Tables) (x a : Text)
    → Apart tags t
    → contains seen x ≡ false
    → contains tags x ≡ true
    → contains tags a ≡ true
    → contains seen a ≡ true
    → t.same_tag x a ≡ false
unmet tags seen t x a apart fresh x_given a_given a_seen = elim (Bool-cases (t.same_tag x a)) [
  | inl met ↦
      let same = apart x a x_given a_given met in
      let x_seen = subst (λ b. contains seen b ≡ true) (sym same) a_seen in absurd (cc x_seen)
  | inr other ↦ other
]

insert_fresh :
    (t l x : Text) (before : Tables)
    → any (before.same_tag x) (tags_of t l before.tags) ≡ false
    → insert_tag t l x before
      ≡ ok (record before { tags = before.tags ++ record { tenant = t; label = l; tag = x } ∷ [] })
unfolding insert_tag
insert_fresh t l x before h = rw h

known_after :
    (t l x : Text) (seen : List Text) (before after : Tables) (a : Text)
    → insert_tag t l x before ≡ ok after
    → (contains (tags_of t l before.tags) a ≡ true → contains seen a ≡ true)
    → contains (tags_of t l after.tags) a ≡ true
    → contains (x ∷ seen) a ≡ true
unfolding contains
known_after t l x seen before after a h known =
    ground (arith, insert_tag-tags t l x before after a h)

-- the tags of the key are among those seen, and all of them among those given
tags_loop-Succeeds :
    (t l : Text) (tags seen xs : List Text) (s : Store)
    → s.faults ≡ []
    → Apart tags s.tables
    → ((a : Text) → contains xs a ≡ true → contains tags a ≡ true)
    → ((a : Text) → contains seen a ≡ true → contains tags a ≡ true)
    → ((a : Text) → contains (tags_of t l s.tables.tags) a ≡ true → contains seen a ≡ true)
    → (s' : Store) × Succeeds
        (for_each (λ tag. execute (λ now. insert_tag t l tag)) (dedupe_from seen xs))
        tt
        s
        s'
unfolding for_each dedupe_from contains
tags_loop-Succeeds t l tags seen [] s calm apart given old known =
    (s, record { returns = refl; calm = calm })
tags_loop-Succeeds t l tags seen (x ∷ xs) s calm apart given old known =
    let later = λ (a : Text) (h : contains xs a ≡ true). given a (ground (arith, h)) in
    elim (Bool-cases (contains seen x)) [
      | inl twice ↦ rw twice (tags_loop-Succeeds t l tags seen xs s calm apart later old known)
      | inr fresh ↦
          let row : TagRow = record { tenant = t; label = l; tag = x } in
          let next = record (s.tables) { tags = s.tables.tags ++ row ∷ [] } in
          let x_given = given x (ground (arith, text_eq_refl x)) in
          let fits = insert_fresh t l x s.tables (
            any-none (s.tables.same_tag x) (tags_of t l s.tables.tags) (λ a there.
              unmet tags seen s.tables x a apart fresh x_given (old a (known a there))
                (known a there))) in
          let step = execute-Succeeds (λ now. insert_tag t l x) s next calm fits in
          let (s', rest) =
            tags_loop-Succeeds t l tags (x ∷ seen) xs (record s { tables = next }) calm apart later
              (λ a h. ground (arith, text_eq_iff x a, old a, x_given, h))
              (λ a h. known_after t l x seen s.tables next a fits (known a) h) in
          rw fresh (
            s',
            bind-Succeeds (execute (λ now. insert_tag t l x))
                (λ _.
                  for_each (λ tag. execute (λ now. insert_tag t l tag)) (dedupe_from (x ∷ seen) xs))
                tt tt s (record s { tables = next }) s' step rest,
          )
    ]

pub replace_tags-Succeeds :
    (t l : Text) (tags : List Text) (s : Store)
    → s.faults ≡ []
    → Apart tags s.tables
    → (s' : Store) × Succeeds (replace_tags t l tags) tt s s'
unfolding replace_tags dedupe delete_tags contains
replace_tags-Succeeds t l tags s calm apart =
    let cleared = record (s.tables) {
      tags = filter (λ r. not (at_key t l r.tenant r.label)) s.tables.tags;
    } in
    let step = execute-Succeeds (λ now. delete_tags t l) s cleared calm refl in
    let (s', rest) =
      tags_loop-Succeeds t l tags [] tags (record s { tables = cleared }) calm apart (λ a h. h)
        (λ a h. absurd (cc h)) (λ a h. rw (tags-delete t l s.tables.tags) at h) in
    (
      s',
      bind-Succeeds (execute (λ now. delete_tags t l))
          (λ _. for_each (λ tag. execute (λ now. insert_tag t l tag)) (dedupe tags)) tt tt s
          (record s { tables = cleared }) s' step rest,
    )
