-- ===== src/Diskcache/Keys.antt =====
-- When the text that is hashed tells entries apart.
use debugsymd.Base.{
  Bool, true, not, ◌&&◌, ◌==◌, ==_iff, arith, ℕ, ◌≡◌, ◌≢◌, refl, sym, [], ◌∷◌, ◌++◌, Bytes, All,
}
use mathlib.Core.Path.{ap₂}
use debugsymd.Diskcache.{key_text}

abbrev pub HasNo : ℕ → Bytes → Type 0
HasNo b = All (λ c. c ≢ b)

-- The test of it.
unfoldable pub has_no : ℕ → Bytes → Bool
has_no b [] = true
has_no b (c ∷ s) = not (c == b) && has_no b s

pub has_no-HasNo : (b : ℕ) (s : Bytes) → has_no b s ≡ true → HasNo b s
unfolding has_no
has_no-HasNo b [] h = tt
has_no-HasNo b (c ∷ s) h =
    (λ e. absurd (ground (arith, ==_iff c b)), has_no-HasNo b s (ground arith))

abbrev pub HasNoColon : Bytes → Type 0
HasNoColon = HasNo b':'

-- The first `b` is where the two texts agree to have it.
pub split_first :
    (b : ℕ) (s s' : Bytes) {t t' : Bytes}
    → HasNo b s
    → HasNo b s'
    → s ++ (b ∷ t) ≡ s' ++ (b ∷ t')
    → (s ≡ s') × (t ≡ t')
split_first b [] [] h h' e = (refl, cc)
split_first b [] (y ∷ s') h (hy, _) e = absurd (let same : b ≡ y = cc in hy (sym same))
split_first b (x ∷ s) [] (hx, _) h' e = absurd (let same : x ≡ b = cc in hx same)
split_first b (x ∷ s) (y ∷ s') (_, h) (_, h') e =
    let heads : x ≡ y = cc in
    let (tails, rest) = split_first b s s' h h' (cc) in (ap₂ ◌∷◌ heads tails, rest)

-- Two entries with the same hashed text have the same identifier, role and inner name, if neither
-- identifier and neither role has a colon in it.
pub key_text-injective :
    (role role' id id' inner inner' : Bytes)
    → HasNoColon role
    → HasNoColon role'
    → HasNoColon id
    → HasNoColon id'
    → key_text role id inner ≡ key_text role' id' inner'
    → (role ≡ role') × (id ≡ id') × (inner ≡ inner')
unfolding key_text
key_text-injective role role' id id' inner inner' r r' i i' e =
    let (ids, rest) = split_first b':' id id' i i' e in
    let (roles, inners) = split_first b':' role role' r r' rest in (roles, ids, inners)
