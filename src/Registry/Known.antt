-- ===== src/Registry/Known.antt =====
-- The registry as a map from objects to what is known of them, which forgets the order of rows,
-- tags and parents, and the times.
use mathlib.Core.Path.{fun_ext}
use memcove.Common.{
  ℕ, ◌≡◌, ap, ◌∙◌, Bool, true, false, not, ◌&&◌, Option, none, some, List, Text, text_eq,
  text_eq_iff, contains, arith, inl, inr, Bool-cases, if◌then◌else◌,
}
use memcove.Common.Result.{Result, ok, err}
use memcove.Common.Exec.{◌>>=◌}
use memcove.Registry.{
  Tables, Store, ObjectRow, ObjectValues, at_key, find_object, tags_of, parents_of,
  record_object_guarded, delete_object,
}
use memcove.Registry.Recording.{upserted}
use memcove.Registry.Guarded.{IsRecorded, HasParents}
use memcove.Registry.Others.{SameAt}

-- what is known of an object; its tags and its parents are sets
pub record Entry : Type 0 where
  pub table_ident : Text
  pub source : Text
  pub source_ref : Option Text
  pub producing_sql : Option Text
  pub tags : Text → Bool
  pub parents : Text → Bool

abbrev pub Known : Type 0
Known = Text → Text → Option Entry

-- one write, or one deletion
pub data Command : Type 0 where
  record_it : ObjectValues → List Text → List Text → Command
  forget : Text → Text → Command

abbrev pub entry_of : ObjectRow → List Text → List Text → Entry
entry_of r tags parents = record {
  table_ident = r.table_ident;
  source = r.source;
  source_ref = r.source_ref;
  producing_sql = r.producing_sql;
  tags = contains tags;
  parents = contains parents;
}

abbrev pub shown : Option ObjectRow → List Text → List Text → Option Entry
shown none tags parents = none
shown (some r) tags parents = some (entry_of r tags parents)

-- the map that the tables stand for
abbrev pub known : Tables → Known
known b t l = shown (find_object t l b.objects) (tags_of t l b.tags) (parents_of t l b.lineage)

abbrev pub written : ObjectValues → List Text → List Text → Entry
written v tags parents = record {
  table_ident = v.table_ident;
  source = v.source;
  source_ref = v.source_ref;
  producing_sql = v.producing_sql;
  tags = contains tags;
  parents = λ a. contains parents a && not (text_eq a v.label);
}

-- what a command means: one entry is set, or one is taken away
abbrev pub meant : Command → Known → Known
meant (record_it v tags parents) m t l =
    if at_key v.tenant v.label t l then some (written v tags parents) else m t l
meant (forget tenant label) m t l = if at_key tenant label t l then none else m t l

-- the command on the tables: true if it was carried out
abbrev pub perform : Command → Store → Result Bool × Store
perform (record_it v tags parents) s = record_object_guarded v tags (some parents) s
perform (forget tenant label) s = (delete_object tenant label >>= λ _ after. (ok true, after)) s

-- what the outcome of a command makes of the map
abbrev pub replay : Command → Result Bool → Known → Known
replay c (ok true) m = meant c m
replay c (ok false) m = m
replay c (err e) m = m

shown-upserted :
    (now : ℕ) (v : ObjectValues) (old : Option ObjectRow) (tags parents : List Text)
    (wanted wanted_parents : List Text)
    → ((a : Text) → contains tags a ≡ contains wanted a)
    → ((a : Text) → contains parents a ≡ contains wanted_parents a && not (text_eq a v.label))
    → shown (some (upserted now v old)) tags parents ≡ some (written v wanted wanted_parents)
shown-upserted now v none tags parents wanted wp ht hp =
    let f : contains tags ≡ contains wanted = fun_ext ht in
    let g : contains parents ≡ (λ a. contains wp a && not (text_eq a v.label)) = fun_ext hp in cc
shown-upserted now v (some r) tags parents wanted wp ht hp =
    let f : contains tags ≡ contains wanted = fun_ext ht in
    let g : contains parents ≡ (λ a. contains wp a && not (text_eq a v.label)) = fun_ext hp in cc

-- the entry of a key that is the command's own, and of one that is not
pub own_key : (t l n m : Text) → at_key t l n m ≡ true → (n ≡ t) × (m ≡ l)
unfolding at_key
own_key t l n m h = ground (arith, text_eq_iff n t, text_eq_iff m l)

pub same_known : (t l : Text) (a b : Tables) → SameAt t l a b → known b t l ≡ known a t l
same_known t l a b h = cc (h.object, h.tags, h.parents)

record_it-own :
    (now : ℕ) (v : ObjectValues) (tags parents : List Text) (a b : Tables)
    → IsRecorded now v tags a b
    → HasParents v (some parents) a b
    → known b v.tenant v.label ≡ some (written v tags parents)
record_it-own now v tags parents a b done lin =
    ap (λ o. shown o (tags_of v.tenant v.label b.tags) (parents_of v.tenant v.label b.lineage))
      done.object
    ∙ shown-upserted now v (find_object v.tenant v.label a.objects)
        (tags_of v.tenant v.label b.tags) (parents_of v.tenant v.label b.lineage) tags parents
        done.tagged lin

pub record_it-meant :
    (now : ℕ) (v : ObjectValues) (tags parents : List Text) (a b : Tables)
    → IsRecorded now v tags a b
    → HasParents v (some parents) a b
    → ((t l : Text) → at_key v.tenant v.label t l ≡ false → SameAt t l a b)
    → known b ≡ meant (record_it v tags parents) (known a)
record_it-meant now v tags parents a b done lin others = fun_ext λ t. fun_ext λ l.
    elim (Bool-cases (at_key v.tenant v.label t l)) [
      | inl own ↦
          let (x, y) = own_key v.tenant v.label t l own in
          let here = record_it-own now v tags parents a b done lin in rw own (rw (x, y) here)
      | inr other ↦ rw other (same_known t l a b (others t l other))
    ]
