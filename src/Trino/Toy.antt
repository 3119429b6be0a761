-- ===== src/Trino/Toy.antt =====
-- An engine that answers every statement with the same rows and changes nothing.
use memcove.Common.{ℕ, none, some, List, [], ◌∷◌, codes}
use memcove.Common.Result.{ok}
use memcove.Trino.{Engine, Cell}

abbrev pub fixed : (L : Type 0) → List (List (Cell ℕ)) → Engine L
fixed L rows = record {
  Other = ℕ;
  run = λ user sql w. (ok (codes "n" ∷ [], rows), w);
  int_of_text = λ t. none;
  int_of = λ n. some n;
}
