-- ===== src/Unicode/Strip.antt =====
-- `strip`, `rstrip`, `split` and `partition`.
use memcove.Common.{
  ℕ, ◌≡◌, refl, Bool, true, not, List, [], ◌∷◌, Text, ◌==◌, arith, all, is_nonempty, if◌then◌else◌,
}

-- the characters at the start, at the end, at both ends that pass the test go
unfoldable pub lstrip_by : (ℕ → Bool) → Text → Text
lstrip_by p [] = []
lstrip_by p (c ∷ s) = let rest = lstrip_by p s in if p c then rest else c ∷ s

unfoldable pub rstrip_by : (ℕ → Bool) → Text → Text
rstrip_by p [] = []
rstrip_by p (c ∷ s) =
    let rest = rstrip_by p s in if is_nonempty rest then c ∷ rest else if p c then [] else c ∷ []

unfoldable pub strip_by : (ℕ → Bool) → Text → Text
strip_by p s = rstrip_by p (lstrip_by p s)

-- `s.split(sep)` at a one-character separator
unfoldable pub split_on : ℕ → Text → List Text
split_on sep [] = [] ∷ []
split_on sep (c ∷ s) = elim (split_on sep s) [
  | [] ↦ []
  | first ∷ rest ↦ if c == sep then [] ∷ first ∷ rest else (c ∷ first) ∷ rest
]

-- `s.partition(sep)`: the text before the first separator and the text behind it
unfoldable pub partition : ℕ → Text → Text × Text
partition sep [] = ([], [])
partition sep (c ∷ s) =
    let (before, behind) = partition sep s in if c == sep then ([], s) else (c ∷ before, behind)

module _ (p : ℕ → Bool) where
  rstrip_by_none : (s : Text) → all (λ c. not (p c)) s ≡ true → rstrip_by p s ≡ s
  unfolding rstrip_by all
  rstrip_by_none [] h = refl
  rstrip_by_none (c ∷ s) h = ground (arith, rstrip_by_none s)

  lstrip_by_none : (s : Text) → all (λ c. not (p c)) s ≡ true → lstrip_by p s ≡ s
  unfolding lstrip_by all
  lstrip_by_none [] h = refl
  lstrip_by_none (c ∷ s) h = ground arith

  pub strip_by_none : (s : Text) → all (λ c. not (p c)) s ≡ true → strip_by p s ≡ s
  unfolding strip_by
  strip_by_none s h = ground (arith, lstrip_by_none s h, rstrip_by_none s h)
