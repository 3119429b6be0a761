-- ===== src/Reconciler/Preserve.antt =====
-- What every step of a sweep preserves, the sweep preserves, whether its actions return or raise.
use memcove.Common.{ℕ, ◌≡◌, refl, ◌∙◌, List, [], ◌∷◌, inl, inr}
use memcove.Common.Result.{Result, ok, err, Result-cases}
use memcove.Common.Exec.{Exec, ◌>>=◌, for_each, continue}
use memcove.Registry.{Tables, Store, execute, query, touch, connection}
use memcove.Registry.Transactions.{
  touch-tables, execute-ok, query-tables, connection-rollback, connection-commit,
}
use memcove.Reconciler.{Sweep, in_store}

-- a relation that holds of equal tables, and along a chain
pub record Frame (R : Tables → Tables → Type 0) : Type 0 where
  pub same : (a b : Tables) → b ≡ a → R a b
  pub chain : (a b c : Tables) → R a b → R b c → R a c

-- the tables before an action and after it are related
pub record Preserves (R : Tables → Tables → Type 0) {A : Type 0} (m : Exec Sweep A) : Type 0 where
  pub at : (s : Sweep) → R s.store.tables (m s).1.store.tables

module _ {R : Tables → Tables → Type 0} (f : Frame R) where
  pub bind-Preserves :
      {A B : Type 0} (m : Exec Sweep A) (k : A → Exec Sweep B)
      → Preserves R m
      → ((a : A) → Preserves R (k a))
      → Preserves R (m >>= k)
  bind-Preserves m k hm hk = record { at = λ s. go (m s).0 (m s).1 s (hm.at s) }
    where
      go :
          (r : Result _) (mid s : Sweep)
          → R s.store.tables mid.store.tables
          → R s.store.tables (continue r k mid).1.store.tables
      go (ok a) mid s h =
          f.chain s.store.tables mid.store.tables (k a mid).1.store.tables h ((hk a).at mid)
      go (err e) mid s h = h

  -- an action that leaves the tables as they were
  pub still-Preserves :
      {A : Type 0} (m : Exec Sweep A)
      → ((s : Sweep) → (m s).1.store.tables ≡ s.store.tables)
      → Preserves R m
  still-Preserves m h = record { at = λ s. f.same s.store.tables (m s).1.store.tables (h s) }

  pub for_each-Preserves :
      {X : Type 0} (g : X → Exec Sweep (Unit {0})) (xs : List X)
      → ((x : X) → Preserves R (g x))
      → Preserves R (for_each g xs)
  unfolding for_each
  for_each-Preserves g [] h = record { at = λ s. f.same s.store.tables s.store.tables refl }
  for_each-Preserves g (x ∷ xs) h =
      bind-Preserves (g x) (λ _. for_each g xs) (h x) (λ _. for_each-Preserves g xs h)

  -- a transaction, by what it does where it returns
  pub connection-Preserves :
      {A : Type 0} (body : Exec Store A)
      → ((s : Store) (x : A)
          → (connection body s).0 ≡ ok x
          → R s.tables (connection body s).1.tables)
      → Preserves R (in_store (connection body))
  unfolding in_store
  connection-Preserves body h = record {
    at = λ s. elim (Result-cases (connection body s.store).0) [
      | inl (x, done) ↦ h s.store x done
      | inr (e, failed) ↦
          f.same s.store.tables (connection body s.store).1.tables
            (connection-rollback body s.store e failed)
    ];
  }

  pub query-Preserves :
      {A : Type 0} (g : Tables → A) → Preserves R (in_store (connection (query g)))
  query-Preserves g = connection-Preserves (query g) λ s x done.
      f.same s.tables (connection (query g) s).1.tables (
        (connection-commit (query g) s x done).1
        ∙ (query-tables g (touch s).1).0
        ∙ (touch-tables s).0)

  -- a transaction of one statement, by the effect of the statement
  pub execute-Preserves :
      (g : ℕ → Tables → Result Tables)
      → ((now : ℕ) (a b : Tables) → g now a ≡ ok b → R a b)
      → Preserves R (in_store (connection (execute g)))
  execute-Preserves g effect = connection-Preserves (execute g) λ s x done.
      let (ran, kept) = connection-commit (execute g) s x done in
      let opened = (touch s).1 in
      let after = (execute g opened).1 in
      let worked = effect opened.clock opened.tables after.tables (execute-ok g opened x ran).0 in
      f.chain s.tables opened.tables (connection (execute g) s).1.tables
        (f.same s.tables opened.tables (touch-tables s).0)
        (f.chain opened.tables after.tables (connection (execute g) s).1.tables worked
          (f.same after.tables (connection (execute g) s).1.tables kept))
