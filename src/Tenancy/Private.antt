-- ===== src/Tenancy/Private.antt =====
-- Private mode: one namespace to each digest prefix.
use memcove.Common.{
  ℕ, zero, suc, ◌≡◌, refl, ap, ◌∙◌, ◌↔◌, Bool, true, [], ◌∷◌, ◌++◌, Text, codes, all, any, take,
  length, length-take, starts_with, arith,
}
use memcove.Common.Result.{ok}
use memcove.Unicode.{Unicode, is_word}
use memcove.Config.{Settings}
use memcove.Tenancy.{Sha256, has_alnum, tenant_matches, with_prefix, private_tenant}
use memcove.Tenancy.Namespace.{normalize_tenant-words}

all-take : (p : ℕ → Bool) (n : ℕ) (s : Text) → all p s ≡ true → all p (take n s) ≡ true
unfolding all
all-take p zero s h = refl
all-take p (suc n) [] h = refl
all-take p (suc n) (c ∷ s) h = ground (arith, all-take p n s)

digest_prefix : Sha256 → Text → Text
digest_prefix sha identity = take 16 (sha.hexdigest identity)

digest_prefix-words : (sha : Sha256) (i : Text) → all is_word (digest_prefix sha i) ≡ true
unfolding digest_prefix
digest_prefix-words sha i = all-take is_word 16 (sha.hexdigest i) (sha.hexdigest_words i)

length-digest_prefix : (sha : Sha256) (i : Text) → length (digest_prefix sha i) ≡ 16
unfolding digest_prefix
length-digest_prefix sha i = omega (arith, length-take 16 (sha.hexdigest i), sha.hexdigest_length i)

u_words : (t : Text) → all is_word t ≡ true → all is_word (codes "u" ++ t) ≡ true
unfolding all is_word
u_words t h = ground arith

u_alnum : (t : Text) → has_alnum (codes "u" ++ t) ≡ true
unfolding has_alnum any
u_alnum t = refl

u_prefix : (t : Text) → with_prefix (codes "u" ++ t) ≡ codes "t_u" ++ t
unfolding with_prefix starts_with
u_prefix t = refl

u_matches :
    (t : Text) → all is_word t ≡ true → length t ≡ 16 → tenant_matches (codes "t_u" ++ t) ≡ true
unfolding tenant_matches all is_word
u_matches t w l = ground arith

-- The namespace of an identity is t_u and the first 16 digits of its SHA-256 digest: the call
-- never fails, and the settings do not change it.
pub private_tenant_lem :
    (u : Unicode) (sha : Sha256) (s : Settings) (i : Text)
    → private_tenant u sha s i ≡ ok (codes "t_u" ++ take 16 (sha.hexdigest i))
unfolding private_tenant digest_prefix
private_tenant_lem u sha s i =
    let w = digest_prefix-words sha i in
    let p = u_prefix (digest_prefix sha i) in
    normalize_tenant-words u s (codes "u" ++ digest_prefix sha i) (u_words (digest_prefix sha i) w)
      refl (u_alnum (digest_prefix sha i))
      (rw p (u_matches (digest_prefix sha i) w (length-digest_prefix sha i)))
    ∙ ap ok p

ok_injective : (a b : Text) → ok a ≡ ok b → a ≡ b
ok_injective a b h = cc

u_cancel : (a b : Text) → codes "t_u" ++ a ≡ codes "t_u" ++ b → a ≡ b
u_cancel a b h = cc

-- Two identities share a namespace exactly when the first 16 digits of their digests agree, so
-- isolation rests on those 64 bits.
pub private_tenant-injective_iff :
    (u : Unicode) (sha : Sha256) (s : Settings) (i j : Text)
    → (private_tenant u sha s i ≡ private_tenant u sha s j)
      ↔ (take 16 (sha.hexdigest i) ≡ take 16 (sha.hexdigest j))
private_tenant-injective_iff u sha s i j = (
  λ e. u_cancel (take 16 (sha.hexdigest i)) (take 16 (sha.hexdigest j)) (
      ok_injective (codes "t_u" ++ take 16 (sha.hexdigest i))
        (codes "t_u" ++ take 16 (sha.hexdigest j))
        (cc (private_tenant_lem u sha s i, private_tenant_lem u sha s j))),
  λ e. rw (private_tenant_lem u sha s i, private_tenant_lem u sha s j, e),
)
