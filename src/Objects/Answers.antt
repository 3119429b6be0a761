-- ===== src/Objects/Answers.antt =====
-- What an object that was just recorded shows of the write.
use memcove.Common.{
  ℕ, ◌≡◌, refl, ap, ◌∙◌, sym, ◌||◌, Option, some, List, [], ◌∷◌, Text, text_eq, contains, arith,
}
use memcove.Common.Result.{Result}
use memcove.Unicode.{Unicode}
use memcove.Config.{Settings}
use memcove.Catalog.{LakeTable, Iceberg}
use memcove.Registry.{
  Store, Tables, ObjectRow, ObjectValues, find_object, tags_of, insert_sorted, sorted,
}
use memcove.Registry.Recording.{upserted}
use memcove.Registry.Guarded.{IsRecorded}
use memcove.Trino.{Engine}
use memcove.Models.{SourceKind, MemoryObject}
use memcove.World.{World}
use memcove.Objects.Healing.{Describes}

contains-insert_sorted :
    (b : Text) (xs : List Text) (a : Text)
    → contains (insert_sorted b xs) a ≡ text_eq b a || contains xs a
unfolding insert_sorted contains
contains-insert_sorted b [] a = refl
contains-insert_sorted b (x ∷ xs) a = ground (arith, contains-insert_sorted b xs a)

pub contains-sorted : (xs : List Text) (a : Text) → contains (sorted xs) a ≡ contains xs a
unfolding sorted contains
contains-sorted [] a = refl
contains-sorted (x ∷ xs) a =
    contains-insert_sorted x (sorted xs) a ∙ ap (λ b. text_eq x a || b) (contains-sorted xs a)

-- the object names the source and the statement that were written, and has exactly these tags
pub record Shows (v : ObjectValues) (tags : List Text) (object : MemoryObject) : Type 0 where
  pub ident : object.table_ident ≡ v.table_ident
  pub ref : object.source_ref ≡ v.source_ref
  pub sql : object.lineage.producing_sql ≡ v.producing_sql
  pub tagged : (a : Text) → contains object.tags a ≡ contains tags a

upserted-values :
    (now : ℕ) (v : ObjectValues) (old : Option ObjectRow)
    → ((upserted now v old).source_ref ≡ v.source_ref)
      × ((upserted now v old).producing_sql ≡ v.producing_sql)
upserted-values now v Option.none = (refl, refl)
upserted-values now v (some r) = (refl, refl)

some_row : (a b : ObjectRow) → some a ≡ some b → a ≡ b
some_row a b h = cc

module _ (Row : Type 0) (ice : Iceberg Row) (e : Engine ice.Lake) (u : Unicode) (s : Settings) where
  -- what is described from a registry with the written row shows what was written
  pub recorded-Shows :
      (v : ObjectValues) (tags : List Text) (now : ℕ) (before : Tables) (after : Store)
      (t : LakeTable Row) (k : SourceKind) (answer : Result MemoryObject × World ice.Lake)
      → memcove.Objects.table_ident_of s v.tenant v.label ≡ v.table_ident
      → IsRecorded now v tags before after.tables
      → (d : Describes Row ice e u s v.tenant v.label t k after answer) → Shows v tags d.object
  recorded-Shows v tags now before after t k answer named done d =
      let old = find_object v.tenant v.label before.objects in
      let same : d.entry ≡ upserted now v old =
        some_row d.entry (upserted now v old) (sym d.entry_there ∙ done.object) in
      record {
        ident = d.ident ∙ named;
        ref = d.ref ∙ ap (λ r. r.source_ref) same ∙ (upserted-values now v old).0;
        sql = d.sql ∙ ap (λ r. r.producing_sql) same ∙ (upserted-values now v old).1;
        tagged = λ a.
            ap (λ q. contains q a) d.tagged
            ∙ contains-sorted (tags_of v.tenant v.label after.tables.tags) a
            ∙ done.tagged a;
      }
