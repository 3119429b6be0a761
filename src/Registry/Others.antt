-- ===== src/Registry/Others.antt =====
-- A write of one object leaves what is seen of every other object as it was.
use memcove.Common.{
  ℕ, ◌≡◌, refl, sym, ◌∙◌, ap, false, not, some, List, [], ◌∷◌, ◌++◌, Text, text_eq, text_eq_iff,
  filter, arith,
}
use memcove.Common.Result.{Result, ok}
use memcove.Common.Exec.{Exec, ◌>>=◌, for_each, >>=-returns}
use memcove.Registry.{
  Tables, Store, ObjectRow, ObjectValues, TagRow, LineageRow, at_key, find_object, tags_of,
  parents_of, upsert_row, upsert_object_sql, delete_tags, insert_tag, delete_lineage,
  insert_lineage, execute, dedupe, replace_tags, upsert_object, set_lineage_rows, lineage_part,
}
use memcove.Registry.Guarded.{execute-returns}
use memcove.Registry.Frames.{at_key_unique, tags-delete_other, parents-delete_other}

-- what is seen of one object is the same in both, and so are the tombstones
pub record SameAt (t l : Text) (a b : Tables) : Type 0 where
  pub object : find_object t l b.objects ≡ find_object t l a.objects
  pub tags : tags_of t l b.tags ≡ tags_of t l a.tags
  pub parents : parents_of t l b.lineage ≡ parents_of t l a.lineage
  pub tombstones : b.tombstones ≡ a.tombstones

SameAt-trans : (t l : Text) (a b c : Tables) → SameAt t l a b → SameAt t l b c → SameAt t l a c
SameAt-trans t l a b c h k = record {
  object = k.object ∙ h.object;
  tags = k.tags ∙ h.tags;
  parents = k.parents ∙ h.parents;
  tombstones = k.tombstones ∙ h.tombstones;
}

-- an action that returns leaves the object as it is seen
pub record Spares (t l : Text) {A : Type 0} (m : Exec Store A) : Type 0 where
  pub at : (s s' : Store) (a : A) → m s ≡ (ok a, s') → SameAt t l s.tables s'.tables

bind-Spares :
    (t l : Text) {A B : Type 0} (m : Exec Store A) (f : A → Exec Store B)
    → Spares t l m
    → ((a : A) → Spares t l (f a))
    → Spares t l (m >>= f)
bind-Spares t l m f hm hf = record {
  at = λ s s' b h.
      let (a, mid, one, rest) = >>=-returns m f s s' b h in
      SameAt-trans t l s.tables mid.tables s'.tables (hm.at s mid a one) ((hf a).at mid s' b rest);
}

execute-Spares :
    (t l : Text) (f : ℕ → Tables → Result Tables)
    → ((now : ℕ) (a b : Tables) → f now a ≡ ok b → SameAt t l a b)
    → Spares t l (execute f)
execute-Spares t l f h = record {
  at = λ s s' x e. h s.clock s.tables s'.tables (execute-returns f s s' x e).0;
}

loop-Spares :
    (t l : Text) {X : Type 0} (g : X → Exec Store (Unit {0})) (xs : List X)
    → ((x : X) → Spares t l (g x))
    → Spares t l (for_each g xs)
unfolding for_each
loop-Spares t l g [] h = record {
  at = λ s s' x e. record {
    object = ap (λ q. find_object t l q.1.tables.objects) (sym e);
    tags = ap (λ q. tags_of t l q.1.tables.tags) (sym e);
    parents = ap (λ q. parents_of t l q.1.tables.lineage) (sym e);
    tombstones = ap (λ q. q.1.tables.tombstones) (sym e);
  };
}
loop-Spares t l g (x ∷ xs) h =
    bind-Spares t l (g x) (λ _. for_each g xs) (h x) (λ _. loop-Spares t l g xs h)

pub at_key_sym : (t l t' l' : Text) → at_key t l t' l' ≡ false → at_key t' l' t l ≡ false
unfolding at_key
at_key_sym t l t' l' h =
    ground (arith, text_eq_iff t t', text_eq_iff t' t, text_eq_iff l l', text_eq_iff l' l)

find-upsert_other :
    (now : ℕ) (v : ObjectValues) (t l : Text) (rows : List ObjectRow)
    → at_key v.tenant v.label t l ≡ false
    → find_object t l (upsert_row now v rows) ≡ find_object t l rows
unfolding find_object upsert_row
find-upsert_other now v t l [] other = rw (at_key_sym v.tenant v.label t l other) refl
find-upsert_other now v t l (r ∷ rs) other = ground (
  arith,
  find-upsert_other now v t l rs other,
  at_key_unique v.tenant v.label t l r.tenant r.label other,
)

module _ (t l t' l' : Text) (other : at_key t l t' l' ≡ false) where
  tags-append_other :
      (rows : List TagRow) (tag : Text)
      → tags_of t' l' (rows ++ record { tenant = t; label = l; tag = tag } ∷ [])
        ≡ tags_of t' l' rows
  unfolding tags_of filter
  tags-append_other [] tag = rw (at_key_sym t l t' l' other) refl
  tags-append_other (r ∷ rows) tag = ground (arith, tags-append_other rows tag)

  parents-append_other :
      (rows : List LineageRow) (p : Text)
      → parents_of t' l'
          (rows ++ record { child_tenant = t; child_label = l; parent_label = p } ∷ [])
        ≡ parents_of t' l' rows
  unfolding parents_of filter
  parents-append_other [] p = rw (at_key_sym t l t' l' other) refl
  parents-append_other (r ∷ rows) p = ground (arith, parents-append_other rows p)

  delete_tags-SameAt : (a b : Tables) → delete_tags t l a ≡ ok b → SameAt t' l' a b
  unfolding delete_tags
  delete_tags-SameAt a b h = record {
    object = ground arith;
    tags = ground (arith, tags-delete_other t l t' l' other a.tags);
    parents = ground arith;
    tombstones = ground arith;
  }

  delete_lineage-SameAt : (a b : Tables) → delete_lineage t l a ≡ ok b → SameAt t' l' a b
  unfolding delete_lineage
  delete_lineage-SameAt a b h = record {
    object = ground arith;
    tags = ground arith;
    parents = ground (arith, parents-delete_other t l t' l' other a.lineage);
    tombstones = ground arith;
  }

  insert_tag-SameAt : (tag : Text) (a b : Tables) → insert_tag t l tag a ≡ ok b → SameAt t' l' a b
  unfolding insert_tag
  insert_tag-SameAt tag a b h = record {
    object = ground arith;
    tags = ground (arith, tags-append_other a.tags tag);
    parents = ground arith;
    tombstones = ground arith;
  }

  insert_lineage-SameAt :
      (p : Text) (a b : Tables) → insert_lineage t l p a ≡ ok b → SameAt t' l' a b
  unfolding insert_lineage
  insert_lineage-SameAt p a b h = record {
    object = ground arith;
    tags = ground arith;
    parents = ground (arith, parents-append_other a.lineage p);
    tombstones = ground arith;
  }

  replace_tags-Spares : (tags : List Text) → Spares t' l' (replace_tags t l tags)
  unfolding replace_tags
  replace_tags-Spares tags =
      bind-Spares t' l' (execute (λ now. delete_tags t l)) _
        (execute-Spares t' l' (λ now. delete_tags t l) (λ now. delete_tags-SameAt))
        (λ _.
          loop-Spares t' l' (λ tag. execute (λ now. insert_tag t l tag)) (dedupe tags)
            (λ tag.
              execute-Spares t' l' (λ now. insert_tag t l tag) (λ now. insert_tag-SameAt tag)))

  set_lineage_rows-Spares : (parents : List Text) → Spares t' l' (set_lineage_rows t l parents)
  unfolding set_lineage_rows
  set_lineage_rows-Spares parents =
      bind-Spares t' l' (execute (λ now. delete_lineage t l)) _
        (execute-Spares t' l' (λ now. delete_lineage t l) (λ now. delete_lineage-SameAt))
        (λ _.
          loop-Spares t' l' (λ p. execute (λ now. insert_lineage t l p))
            (filter (λ p. not (text_eq p l)) (dedupe parents))
            (λ p.
              execute-Spares t' l' (λ now. insert_lineage t l p) (λ now. insert_lineage-SameAt p)))

upsert_sql-SameAt :
    (now : ℕ) (v : ObjectValues) (t l : Text) (a b : Tables)
    → at_key v.tenant v.label t l ≡ false
    → upsert_object_sql now v a ≡ ok b
    → SameAt t l a b
unfolding upsert_object_sql
upsert_sql-SameAt now v t l a b other h = record {
  object = ground (arith, find-upsert_other now v t l a.objects other);
  tags = ground arith;
  parents = ground arith;
  tombstones = ground arith;
}

-- the body of an unguarded write
pub upsert_object-Spares :
    (v : ObjectValues) (tags : List Text) (t l : Text)
    → at_key v.tenant v.label t l ≡ false
    → Spares t l (upsert_object v tags)
unfolding upsert_object
upsert_object-Spares v tags t l other =
    bind-Spares t l (execute (λ now. upsert_object_sql now v)) _
      (execute-Spares t l (λ now. upsert_object_sql now v)
        (λ now a b. upsert_sql-SameAt now v t l a b other))
      (λ _. replace_tags-Spares v.tenant v.label t l other tags)

-- the body of a guarded write with parents
pub write-Spares :
    (v : ObjectValues) (tags parents : List Text) (t l : Text)
    → at_key v.tenant v.label t l ≡ false
    → Spares t l (upsert_object v tags >>= λ _. lineage_part v.tenant v.label (some parents))
unfolding lineage_part
write-Spares v tags parents t l other =
    bind-Spares t l (upsert_object v tags) _ (upsert_object-Spares v tags t l other)
      (λ _. set_lineage_rows-Spares v.tenant v.label t l other parents)
