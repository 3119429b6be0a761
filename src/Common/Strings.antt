-- ===== src/Common/Strings.antt =====
-- Python's `str` as a list of code points: equality, membership and the order of `sorted`.
use Prim.Native.Char.{code}
use Prim.Native.String.{String}
use Prim.Native.Nat.{ℕ, zero, suc, ◌+◌, ◌/◌, ◌%◌}
use mathlib.Core.Path.{◌≡◌, refl}
use mathlib.Core.Logic.{◌↔◌}
use mathlib.Core.Bool.{Bool, true, false, ◌&&◌, ◌||◌}
use mathlib.Core.List.{List, [], ◌∷◌, ◌++◌}
use native.Mathlib.Omega.{arith}
use memcove.Common.Tests.{ltb, ◌==◌}
use memcove.Common.Lists.{filter}

abbrev pub Text : Type 0
Text = List ℕ

abbrev pub codes : String → Text
codes String.[] = []
codes (String.◌∷◌ c s) = code c ∷ codes s

unfoldable pub text_eq : Text → Text → Bool
text_eq [] [] = true
text_eq (a ∷ s) (b ∷ t) = (a == b) && text_eq s t
text_eq _ _ = false

text_eq_sound : (s t : Text) → text_eq s t ≡ true → s ≡ t
unfolding text_eq
text_eq_sound [] [] h = refl
text_eq_sound (a ∷ s) (b ∷ t) h = ground (arith, text_eq_sound s t)
text_eq_sound [] (b ∷ t) h = cc
text_eq_sound (a ∷ s) [] h = cc

pub text_eq_refl : (s : Text) → text_eq s s ≡ true
unfolding text_eq
text_eq_refl [] = refl
text_eq_refl (a ∷ s) = ground (arith, text_eq_refl s)

pub text_eq_iff : (s t : Text) → (text_eq s t ≡ true) ↔ (s ≡ t)
text_eq_iff s t = (text_eq_sound s t, λ e. rw e (text_eq_refl t))

-- `a in xs` for a list, a set or the keys of a dict
unfoldable pub contains : List Text → Text → Bool
contains [] a = false
contains (x ∷ xs) a = text_eq x a || contains xs a

pub contains-append :
    (xs ys : List Text) (a : Text) → contains (xs ++ ys) a ≡ contains xs a || contains ys a
unfolding contains
contains-append [] ys a = refl
contains-append (x ∷ xs) ys a = ground (arith, contains-append xs ys a)

-- the order of `sorted` on strings: by code points, a prefix first
unfoldable pub text_lt : Text → Text → Bool
text_lt s [] = false
text_lt [] (b ∷ t) = true
text_lt (a ∷ s) (b ∷ t) = ltb a b || ((a == b) && text_lt s t)

-- a text without its first n characters, `t[n:]`
unfoldable pub drop : ℕ → Text → Text
drop ℕ.zero s = s
drop (ℕ.suc n) [] = []
drop (ℕ.suc n) (c ∷ s) = drop n s

pub contains-filter :
    (p : Text → Bool) (xs : List Text) (a : Text) → contains (filter p xs) a ≡ contains xs a && p a
unfolding filter contains
contains-filter p [] a = refl
contains-filter p (x ∷ xs) a = ground (arith, contains-filter p xs a, text_eq_iff x a)

-- `t.startswith(s)`
unfoldable pub starts_with : Text → Text → Bool
starts_with t [] = true
starts_with [] (b ∷ s) = false
starts_with (a ∷ t) (b ∷ s) = (a == b) && starts_with t s

pub starts_with-append : (s t : Text) → starts_with (s ++ t) s ≡ true
unfolding starts_with
starts_with-append [] t = refl
starts_with-append (a ∷ s) t = ground (arith, starts_with-append s t)

-- `str(n)`: the digits of a number, the fuel being more than their count
digits : ℕ → ℕ → Text
digits zero n = []
digits (suc fuel) n = elim (ltb n 10) [
  | true ↦ (48 + n) ∷ []
  | false ↦ digits fuel (n / 10) ++ (48 + n % 10) ∷ []
]

unfoldable pub str : ℕ → Text
unfolding digits
str n = digits (n + 1) n

str_runs : str 1001 ≡ codes "1001"
unfolding str
str_runs = refl
