-- ===== src/GoStrings.antt =====
-- What the program uses of Go's `strings`, over byte lists, as that package computes it.
-- The Unicode tables are a parameter: they are read only for text with a byte from 0x80 on.
use debugsymd.Base.{
  ℕ, suc, ◌+◌, ◌-◌, ◌≡◌, Bool, true, false, ◌&&◌, ◌||◌, Option, none, some, [], ◌∷◌, map, ltb, leb,
  ◌==◌, if◌then◌else◌, Bytes, length, drop, All,
}

abbrev pub is_upper : ℕ → Bool
is_upper c = leb b'A' c && leb c b'Z'

abbrev pub is_lower : ℕ → Bool
is_lower c = leb b'a' c && leb c b'z'

-- `strings.ToLower` on text with a byte from 0x80 on, and what `strings.EqualFold` does from the
-- first such byte on. Lower-casing leaves no ASCII capital, and equal texts fold alike.
pub record Unicode : Type 0 where
  pub lower : Bytes → Bytes
  pub fold : Bytes → Bytes → Bool
  pub lower_no_upper : (s : Bytes) → All (λ c. is_upper c ≡ false) (lower s)
  pub fold_refl : (s : Bytes) → fold s s ≡ true
  pub fold_sym : (s t : Bytes) → fold s t ≡ fold t s

unfoldable pub is_ascii : Bytes → Bool
is_ascii [] = true
is_ascii (c ∷ s) = ltb c 0x80 && is_ascii s

unfoldable pub lower_byte : ℕ → ℕ
lower_byte c = if is_upper c then c + 32 else c

unfoldable pub has_prefix : Bytes → Bytes → Bool
has_prefix s [] = true
has_prefix [] (p ∷ ps) = false
has_prefix (c ∷ s) (p ∷ ps) = c == p && has_prefix s ps

unfoldable pub bytes_eq : Bytes → Bytes → Bool
bytes_eq [] [] = true
bytes_eq [] (y ∷ t) = false
bytes_eq (x ∷ s) [] = false
bytes_eq (x ∷ s) (y ∷ t) = x == y && bytes_eq s t

unfoldable pub has_suffix : Bytes → Bytes → Bool
unfolding bytes_eq
has_suffix s e = leb (length e) (length s) && bytes_eq (drop (length s - length e) s) e

-- `strings.LastIndexByte`; `none` is -1.
unfoldable pub last_index_byte : Bytes → ℕ → Option ℕ
last_index_byte [] b = none
last_index_byte (c ∷ s) b = elim (last_index_byte s b) [
  | some i ↦ some (suc i)
  | none ↦ if c == b then some 0 else none
]

-- `strings.TrimLeft` and `strings.TrimRight` by a cutset of one ASCII byte.
unfoldable pub trim_left : Bytes → ℕ → Bytes
trim_left [] b = []
trim_left (c ∷ s) b = if c == b then trim_left s b else c ∷ s

unfoldable pub trim_right : Bytes → ℕ → Bytes
trim_right [] b = []
trim_right (c ∷ s) b = elim (trim_right s b) [
  | [] ↦ if c == b then [] else c ∷ []
  | d ∷ t ↦ c ∷ d ∷ t
]

-- `strings.ReplaceAll(s, b, "")` for one byte.
unfoldable pub remove_all : Bytes → ℕ → Bytes
remove_all [] b = []
remove_all (c ∷ s) b = let rest = remove_all s b in if c == b then rest else c ∷ rest

module _ ⦃u : Unicode⦄ where
  unfoldable pub to_lower : Bytes → Bytes
  unfolding is_ascii lower_byte
  to_lower s = if is_ascii s then map lower_byte s else u.lower s

  unfoldable pub equal_fold : Bytes → Bytes → Bool
  unfolding lower_byte
  equal_fold [] [] = true
  equal_fold [] (y ∷ t) = false
  equal_fold (x ∷ s) [] = false
  equal_fold (x ∷ s) (y ∷ t) =
      if leb 0x80 x || leb 0x80 y
      then u.fold (x ∷ s) (y ∷ t)
      else lower_byte x == lower_byte y && equal_fold s t
