-- ===== src/Httpapi/Form.antt =====
-- httpapi/path.go: the metric label of a request.
pub mod Bounded
use debugsymd.Base.{
  ℕ, ◌+◌, Bool, true, false, ◌||◌, some, none, List, [], ◌∷◌, if◌then◌else◌, Bytes, codes, drop,
}
use debugsymd.GoStrings.{Unicode, to_lower, last_index_byte, bytes_eq}

abbrev pub form_other : Bytes
form_other = codes "other"

-- the keys of the map
abbrev pub known_forms : List Bytes
known_forms =
    codes "pdb"
    ∷ codes "pd_"
    ∷ codes "dll"
    ∷ codes "dl_"
    ∷ codes "exe"
    ∷ codes "ex_"
    ∷ codes "zip"
    ∷ []

unfoldable pub has_key : Bytes → List Bytes → Bool
has_key s [] = false
has_key s (k ∷ keys) = bytes_eq s k || has_key s keys

module _ ⦃u : Unicode⦄ where
  unfoldable pub form : Bytes → Bytes
  unfolding has_key
  form leaf = elim (last_index_byte leaf b'.') [
    | none ↦ form_other
    | some dot ↦
        (let ext = to_lower (drop (dot + 1) leaf) in
          if has_key ext known_forms then ext else form_other)
  ]
