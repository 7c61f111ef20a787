-- ===== src/Diskcache/Places.antt =====
-- Where entries and staging files stand: in the directories of their roles.
use debugsymd.Base.{◌≡◌, ◌≢◌, refl, sym, ◌∙◌, [], ◌∷◌, ◌++◌, Bytes, append_assoc}
use debugsymd.World.{World}
use debugsymd.Diskcache.{path}
use debugsymd.Diskcache.Entries.{Cache, Platform, entry_path, staging_name, tmp_subdir}
use debugsymd.Diskcache.Keys.{HasNo, split_first, has_no, has_no-HasNo}

cancel_left : (s : Bytes) {t u : Bytes} → s ++ t ≡ s ++ u → t ≡ u
cancel_left [] e = e
cancel_left (c ∷ s) e = cancel_left s (cc)

-- A place below the directory of a role.
below : Bytes → Bytes → Bytes → Bytes
below root role rest = root ++ (b'/' ∷ (role ++ (b'/' ∷ rest)))

below-role :
    (root role role' rest rest' : Bytes)
    → HasNo b'/' role
    → HasNo b'/' role'
    → below root role rest ≡ below root role' rest'
    → role ≡ role'
unfolding below
below-role root role role' rest rest' h h' e =
    let cut : b'/' ∷ (role ++ (b'/' ∷ rest)) ≡ b'/' ∷ (role' ++ (b'/' ∷ rest')) =
      cancel_left root e in
    let tails : role ++ (b'/' ∷ rest) ≡ role' ++ (b'/' ∷ rest') = cc in
    (split_first b'/' role role' h h' tails).0

entry_path-below :
    (os : Platform) (c : Cache) (role id inner : Bytes)
    → (rest : Bytes) × (entry_path os c role id inner ≡ below c.root role rest)
unfolding path below
entry_path-below os c role id inner = (_, refl)

staging_name-below :
    (os : Platform) (c : Cache) (w : World)
    → (rest : Bytes) × (staging_name os c w ≡ below c.root tmp_subdir rest)
unfolding below
staging_name-below os c w = (_, append_assoc c.root (b'/' ∷ tmp_subdir) _)

-- Entries with the same place have the same role, if no role has a slash in it.
pub entry_path-role :
    (os : Platform) (c : Cache) (role role' id id' inner inner' : Bytes)
    → HasNo b'/' role
    → HasNo b'/' role'
    → entry_path os c role id inner ≡ entry_path os c role' id' inner'
    → role ≡ role'
entry_path-role os c role role' id id' inner inner' h h' e = below-role c.root role role' _ _ h h' (
    sym ((entry_path-below os c role id inner).1)
    ∙ (e ∙ (entry_path-below os c role' id' inner').1))

-- No entry of a role but that of the staging files stands in a staging file's place.
pub entry_path-staging_name :
    (os : Platform) (c : Cache) (w : World) (role id inner : Bytes)
    → HasNo b'/' role
    → role ≢ tmp_subdir
    → entry_path os c role id inner ≢ staging_name os c w
unfolding has_no
entry_path-staging_name os c w role id inner h other e = other (
    below-role c.root role tmp_subdir _ _ h (has_no-HasNo b'/' tmp_subdir refl)
      (sym ((entry_path-below os c role id inner).1) ∙ (e ∙ (staging_name-below os c w).1)))
