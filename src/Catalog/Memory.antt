-- ===== src/Catalog/Memory.antt =====
-- A catalog in memory that meets the laws of `Iceberg`: its state is the lookup itself.
use memcove.Common.{ℕ, ◌≡◌, refl, sym, ap, Option, none, some, [], ◌++◌, ◌∙◌, Text}
use memcove.Common.Result.{Error, ok, err, object_not_found}
use memcove.Common.Exec.{Exec}
use memcove.Catalog.{LakeTable, Iceberg}
use memcove.Catalog.Lakehouse.{found_at}

abbrev pub Memory : Type 0
Memory = Text → Text → Option (LakeTable ℕ)

abbrev pub put : Text → Text → LakeTable ℕ → Memory → Memory
put ns l t w n m = found_at ns l (some t) (w n m) n m

abbrev change :
    Text → Text → (LakeTable ℕ → LakeTable ℕ) → Option (LakeTable ℕ) → Exec Memory (Unit {0})
change ns l f none w = (err object_not_found, w)
change ns l f (some t) w = (ok tt, put ns l (f t) w)

pub change-effect :
    (ns l : Text) (f : LakeTable ℕ → LakeTable ℕ) (found : Option (LakeTable ℕ)) (w w' : Memory)
    (x : Unit {0}) (t : LakeTable ℕ)
    → change ns l f found w ≡ (ok x, w')
    → found ≡ some t
    → (n m : Text) → w' n m ≡ found_at ns l (some (f t)) (w n m) n m
change-effect ns l f none w w' x t h e n m = absurd (cc)
change-effect ns l f (some s) w w' x t h e n m =
    ap (λ q. q.1 n m) (sym h) ∙ ap (λ o. found_at ns l (some (f o)) (w n m) n m) (cc)

pub change-fails :
    (ns l : Text) (f : LakeTable ℕ → LakeTable ℕ) (found : Option (LakeTable ℕ)) (w w' : Memory)
    (e : Error)
    → change ns l f found w ≡ (err e, w')
    → (n m : Text) → w' n m ≡ w n m
change-fails ns l f none w w' e h n m = ap (λ q. q.1 n m) (sym h)
change-fails ns l f (some s) w w' e h n m = absurd (cc)

abbrev pub memory : Iceberg ℕ
memory = record {
  Lake = Memory;
  stored = λ s. s;
  find = λ w. w;
  create_namespace = λ ns w. (ok tt, w);
  create_table = λ ns l s w. (ok tt, put ns l (record { schema = s; rows = [] }) w);
  append = λ ns l rows w. change ns l (λ t. record t { rows = t.rows ++ rows }) (w ns l) w;
  overwrite = λ ns l rows w. change ns l (λ t. record t { rows = rows }) (w ns l) w;
  drop = λ ns l w. (ok tt, λ n m. found_at ns l none (w n m) n m);
  namespace_keeps = λ ns w n m. refl;
  create_effect = λ ns l s w w' x h n m. ap (λ q. q.1 n m) (sym h);
  create_fails = λ ns l s w w' e h n m. absurd (cc);
  append_effect = λ ns l rows w w' x t h e.
      change-effect ns l (λ t. record t { rows = t.rows ++ rows }) (w ns l) w w' x t h e;
  append_fails = λ ns l rows w w' e h.
      change-fails ns l (λ t. record t { rows = t.rows ++ rows }) (w ns l) w w' e h;
  overwrite_effect = λ ns l rows w w' x t h e.
      change-effect ns l (λ t. record t { rows = rows }) (w ns l) w w' x t h e;
  overwrite_fails =
      λ ns l rows w w' e h. change-fails ns l (λ t. record t { rows = rows }) (w ns l) w w' e h;
  drop_effect = λ ns l w w' x h n m. ap (λ q. q.1 n m) (sym h);
  drop_fails = λ ns l w w' e h n m. absurd (cc);
}
