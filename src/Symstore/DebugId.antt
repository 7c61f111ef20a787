-- ===== src/Symstore/DebugId.antt =====
-- symstore/debugid.go: identifiers in the form that the symbol store uses. A result `(text, ok)`
-- is an `Option`. `hex_decode` and `hex_encode` are `encoding/hex`'s, without its error texts.
pub mod Hex
pub mod Dashes
pub mod Pdb
pub mod Uuid
pub mod Elf
use debugsymd.Base.{
  ℕ, suc, ◌+◌, ◌-◌, ◌*◌, ◌/◌, ◌%◌, Bool, true, false, not, ◌&&◌, ◌||◌, Option, none, some, List, [],
  ◌∷◌, ◌++◌, ltb, leb, ◌==◌, if◌then◌else◌, ◌>>=◌, Bytes, length, take, drop,
}
use debugsymd.GoStrings.{Unicode, to_lower, trim_left, remove_all}
use debugsymd.Symstore.Constants.{uuid_hex_len, uuid_byte_len}

-- the test in the loop of `isHex`, which refuses the byte
unfoldable pub not_hex : ℕ → Bool
not_hex c = (ltb c b'0' || ltb b'9' c) && (ltb c b'a' || ltb b'f' c) && (ltb c b'A' || ltb b'F' c)

unfoldable pub all_hex : Bytes → Bool
unfolding not_hex
all_hex [] = true
all_hex (c ∷ s) = if not_hex c then false else all_hex s

unfoldable pub is_hex : Bytes → Bool
unfolding all_hex
is_hex [] = false
is_hex (c ∷ s) = all_hex (c ∷ s)

-- the value of a hexadecimal digit
unfoldable pub unhex : ℕ → ℕ
unhex c = if leb c b'9' then c - b'0' else if leb b'a' c then c - b'a' + 10 else c - b'A' + 10

unfoldable pub hex_decode : Bytes → Option Bytes
hex_decode [] = some []
hex_decode (c ∷ []) = none
hex_decode (c ∷ d ∷ s) =
    if not_hex c || not_hex d
    then none
    else hex_decode s >>= λ rest. some ((unhex c * 16 + unhex d) ∷ rest)

unfoldable pub hex_digit : ℕ → ℕ
hex_digit n = if ltb n 10 then b'0' + n else b'a' + (n - 10)

unfoldable pub hex_encode : Bytes → Bytes
hex_encode [] = []
hex_encode (b ∷ s) = hex_digit (b / 16) ∷ hex_digit (b % 16) ∷ hex_encode s

-- `s[from:to]`
abbrev pub slice : ℕ → ℕ → Bytes → Bytes
slice from to s = take (to - from) (drop from s)

-- `s[i]`; every use is within bounds
abbrev pub byte_at : Bytes → ℕ → ℕ
byte_at [] i = 0
byte_at (c ∷ s) ℕ.zero = c
byte_at (c ∷ s) (suc i) = byte_at s i

unfoldable pub swap_fields : Bytes → Bytes
swap_fields b =
    byte_at b 3
    ∷ byte_at b 2
    ∷ byte_at b 1
    ∷ byte_at b 0
    ∷ byte_at b 5
    ∷ byte_at b 4
    ∷ byte_at b 7
    ∷ byte_at b 6
    ∷ byte_at b 8
    ∷ byte_at b 9
    ∷ byte_at b 10
    ∷ byte_at b 11
    ∷ byte_at b 12
    ∷ byte_at b 13
    ∷ byte_at b 14
    ∷ byte_at b 15
    ∷ []

-- what the `strings.Builder` of `dashUUID` holds at the end
unfoldable pub insert_dashes : Bytes → Bytes
insert_dashes h =
    slice 0 8 h
    ++ (b'-' ∷ slice 8 12 h
        ++ (b'-' ∷ slice 12 16 h ++ (b'-' ∷ slice 16 20 h ++ (b'-' ∷ drop 20 h))))

module _ ⦃u : Unicode⦄ where
  unfoldable pub dash_uuid : Bytes → Option Bytes
  dash_uuid h =
      if not (length h == uuid_hex_len) || not (is_hex h)
      then none
      else some (insert_dashes (to_lower h))

  -- the tail of `normalizePDB`, on the age in lower case
  unfoldable pub add_age : Bytes → Bytes → Option Bytes
  add_age uuid age =
      if not (length age == 0) && not (is_hex age)
      then none
      else (let trimmed = trim_left age b'0' in
          if length trimmed == 0 then some uuid else some (uuid ++ (b'-' ∷ trimmed)))

  unfoldable pub normalize_pdb : Bytes → Option Bytes
  normalize_pdb sig =
      if ltb (length sig) uuid_hex_len
      then none
      else (dash_uuid (take uuid_hex_len sig) >>= λ uuid.
          add_age uuid (to_lower (drop uuid_hex_len sig)))

  unfoldable pub elf_debug_id : Bytes → Option Bytes
  elf_debug_id build_id = hex_decode build_id >>= λ b.
      if ltb (length b) uuid_byte_len then none else dash_uuid (hex_encode (swap_fields b))

  -- the simple and the dashed form
  unfoldable pub normalize_uuid : Bytes → Option (Bytes × Bytes)
  normalize_uuid s =
      let simple = to_lower (remove_all s b'-') in
      if not (length simple == uuid_hex_len) || not (is_hex simple)
      then none
      else some (simple, (elim (dash_uuid simple) [ some dashed ↦ dashed | none ↦ [] ]))
