-- ===== src/Common/Exec.antt =====
-- Code that changes a store and may raise. What was written before a raise stays written, so the
-- store comes back beside the error too.
use mathlib.Core.List.{List, [], ◌∷◌}
use mathlib.Core.Path.{◌≡◌}
use mathlib.Core.Logic.{◌⊎◌, inl, inr}
use native.Mathlib.Omega.{arith}
use memcove.Common.Result.{Error, Result, ok, err, Result-cases}

abbrev pub Exec : Type 0 → Type 0 → Type 0
Exec S A = S → Result A × S

module _ {S A : Type 0} where
  abbrev pub pure : A → Exec S A
  pure a s = (ok a, s)

  abbrev pub raise : Error → Exec S A
  raise e s = (err e, s)

  abbrev pub lift : Result A → Exec S A
  lift r s = (r, s)

  -- a part of the state
  abbrev pub gets : (S → A) → Exec S A
  gets view now = (ok (view now), now)

abbrev pub modify : {S : Type 0} → (S → S) → Exec S (Unit {0})
modify change now = (ok tt, change now)

module _ {S A B : Type 0} where
  -- go on from a result at a state
  abbrev pub continue : Result A → (A → Exec S B) → Exec S B
  continue (err raised) rest now = (err raised, now)
  continue (ok value) rest now = rest value now

  infixl 10 ◌>>=◌ ◌>>◌
  abbrev pub ◌>>=◌ : Exec S A → (A → Exec S B) → Exec S B
  ◌>>=◌ first rest start = let (result, now) = first start in continue result rest now

  abbrev pub ◌>>◌ : Exec S A → Exec S B → Exec S B
  first >> second = first >>= λ _. second

-- `for x in xs: f(x)`
unfoldable pub for_each : {S A : Type 0} → (A → Exec S (Unit {0})) → List A → Exec S (Unit {0})
for_each f [] = pure tt
for_each f (x ∷ xs) = do f x; for_each f xs

-- inversion of a block that returned
pub >>=-returns :
    {S A B : Type 0} (m : Exec S A) (f : A → Exec S B) (s s' : S) (b : B)
    → (m >>= f) s ≡ (ok b, s')
    → (a : A) × (mid : S) × (m s ≡ (ok a, mid)) × (f a mid ≡ (ok b, s'))
>>=-returns m f s s' b h = elim (Result-cases (m s).0) [
  | inl (a, e) ↦ (a, (m s).1, ground arith, ground arith)
  | inr (e', e) ↦ absurd (ground arith)
]

-- inversion of a block that raised
pub >>=-raises :
    {S A B : Type 0} (m : Exec S A) (f : A → Exec S B) (s s' : S) (e : Error)
    → (m >>= f) s ≡ (err e, s')
    → (m s ≡ (err e, s')) ⊎ ((a : A) × (mid : S) × (m s ≡ (ok a, mid)) × (f a mid ≡ (err e, s')))
>>=-raises m f s s' e h = elim (Result-cases (m s).0) [
  | inl (a, q) ↦ inr (a, (m s).1, ground arith, ground arith)
  | inr (e', q) ↦ inl (ground arith)
]
