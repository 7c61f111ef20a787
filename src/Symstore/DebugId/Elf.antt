-- ===== src/Symstore/DebugId/Elf.antt =====
-- The debug ID of a GNU build-id is its first sixteen bytes as a GUID that is stored little-endian.
use debugsymd.Base.{
  ℕ, zero, suc, ◌+◌, ◌*◌, ◌/◌, ◌%◌, ◌≤◌, ◌<◌, ◌≡◌, refl, true, false, none, some, [], ◌∷◌, arith,
  Bytes, length, take, drop, ltb, Option-cases, inl, inr, All,
}
use mathlib.Core.Path.{ap₂}
use debugsymd.GoStrings.{Unicode, lower_byte, remove_all}
use debugsymd.Symstore.DebugId.{
  not_hex, all_hex, insert_dashes, hex_digit, hex_encode, hex_decode, unhex, byte_at, swap_fields,
  elf_debug_id,
}
use debugsymd.Symstore.DebugId.Hex.{IsLower}
use debugsymd.Symstore.DebugId.Dashes.{remove_all-insert_dashes}
use debugsymd.Symstore.DebugId.Pdb.{dash_uuid-some}

abbrev pub IsByte : ℕ → Type 0
IsByte b = b < 256

hex_digit_lem :
    (n : ℕ)
    → n < 16
    → (not_hex (hex_digit n) ≡ false)
      × (unhex (hex_digit n) ≡ n)
      × (lower_byte (hex_digit n) ≡ hex_digit n)
unfolding not_hex hex_digit unhex lower_byte
hex_digit_lem n h = ground arith

hex_encode_lem :
    (b : Bytes)
    → All IsByte b
    → (hex_decode (hex_encode b) ≡ some b)
      × (all_hex (hex_encode b) ≡ true)
      × IsLower (hex_encode b)
      × (length (hex_encode b) ≡ 2 * length b)
unfolding hex_decode hex_encode all_hex
hex_encode_lem [] h = (refl, refl, refl, refl)
hex_encode_lem (b ∷ s) (hb, hs) =
    let (h₁, u₁, l₁) = hex_digit_lem (b / 16) (omega arith) in
    let (h₂, u₂, l₂) = hex_digit_lem (b % 16) (omega arith) in
    let (rest, hex, low, size) = hex_encode_lem s hs in
    let value : b / 16 * 16 + b % 16 ≡ b = omega arith in
    (rw (h₁, h₂, rest, u₁, u₂, value), rw (h₁, h₂) hex, ap₂ ◌∷◌ l₁ (ap₂ ◌∷◌ l₂ low), omega arith)

-- What is decoded are bytes.
digits-IsByte : (c d : ℕ) → not_hex c ≡ false → not_hex d ≡ false → unhex c * 16 + unhex d < 256
unfolding not_hex unhex
digits-IsByte c d h k = ground arith

hex_decode-IsByte : (s : Bytes) {b : Bytes} → hex_decode s ≡ some b → All IsByte b
hex_decode-IsByte [] {b} h = let e : [] ≡ b = unfold hex_decode in cc in rw (← e) tt
hex_decode-IsByte (c ∷ []) h = absurd (unfold hex_decode in cc)
hex_decode-IsByte (c ∷ d ∷ s) {b} h = elim (Option-cases (hex_decode s)) [
  | inl n ↦ absurd (refused c d s n h)
  | inr (rest, e) ↦
      let (hc, hd, whole) = decoded c d s e h in
      rw whole (digits-IsByte c d hc hd, hex_decode-IsByte s e)
]
  where
    refused :
        (c d : ℕ) (s : Bytes) {b : Bytes}
        → hex_decode s ≡ none
        → hex_decode (c ∷ d ∷ s) ≡ some b
        → ⊥
    refused c d s n h = unfold hex_decode in ground arith

    decoded :
        (c d : ℕ) (s : Bytes) {rest b : Bytes}
        → hex_decode s ≡ some rest
        → hex_decode (c ∷ d ∷ s) ≡ some b
        → (not_hex c ≡ false) × (not_hex d ≡ false) × (b ≡ (unhex c * 16 + unhex d) ∷ rest)
    decoded c d s e h = unfold hex_decode in ground arith

byte_at-IsByte : (b : Bytes) (i : ℕ) → All IsByte b → byte_at b i < 256
byte_at-IsByte [] i h = omega arith
byte_at-IsByte (c ∷ s) zero h = h.0
byte_at-IsByte (c ∷ s) (suc i) h = byte_at-IsByte s i h.1

take-byte_at :
    (s : Bytes) (n k : ℕ)
    → n < length s
    → take (suc k) (drop n s) ≡ byte_at s n ∷ take k (drop (suc n) s)
unfolding take drop
take-byte_at [] n k h = absurd (omega arith)
take-byte_at (c ∷ s) zero k h = refl
take-byte_at (c ∷ s) (suc n) k h = take-byte_at s n k (omega arith)

take_none : (s : Bytes) → take 0 s ≡ []
unfolding take
take_none s = refl

-- The last eight bytes stay as they are.
swap_fields_tail : (b : Bytes) → 16 ≤ length b → drop 8 (swap_fields b) ≡ take 8 (drop 8 b)
unfolding swap_fields drop
swap_fields_tail b l = rw (
  take-byte_at b 8 7 (omega arith),
  take-byte_at b 9 6 (omega arith),
  take-byte_at b 10 5 (omega arith),
  take-byte_at b 11 4 (omega arith),
  take-byte_at b 12 3 (omega arith),
  take-byte_at b 13 2 (omega arith),
  take-byte_at b 14 1 (omega arith),
  take-byte_at b 15 0 (omega arith),
  take_none,
)

swap_fields-IsByte : (b : Bytes) → All IsByte b → All IsByte (swap_fields b)
unfolding swap_fields
swap_fields-IsByte b h =
    let at = λ (i : ℕ). byte_at-IsByte b i h in
    (
      at 3,
      (
        at 2,
        (
          at 1,
          (
            at 0,
            (
              at 5,
              (
                at 4,
                (
                  at 7,
                  (at 6, (at 8, (at 9, (at 10, (at 11, (at 12, (at 13, (at 14, (at 15, tt))))))))),
                ),
              ),
            ),
          ),
        ),
      ),
    )

-- A GUID's first three fields, by the order of their bytes.
pub record Fields : Type 0 where
  pub first : ℕ
  pub second : ℕ
  pub third : ℕ

abbrev pub big_endian : Bytes → Fields
big_endian b = record {
  first = ((byte_at b 0 * 256 + byte_at b 1) * 256 + byte_at b 2) * 256 + byte_at b 3;
  second = byte_at b 4 * 256 + byte_at b 5;
  third = byte_at b 6 * 256 + byte_at b 7;
}

abbrev pub little_endian : Bytes → Fields
little_endian b = record {
  first = byte_at b 0 + 256 * (byte_at b 1 + 256 * (byte_at b 2 + 256 * byte_at b 3));
  second = byte_at b 4 + 256 * byte_at b 5;
  third = byte_at b 6 + 256 * byte_at b 7;
}

swap_fields_ends : (b : Bytes) → big_endian (swap_fields b) ≡ little_endian b
unfolding swap_fields
swap_fields_ends b = ground arith

-- A build-id of sixteen bytes or more has a debug ID. Its digits, without the dashes, spell sixteen
-- bytes whose first three fields, read from the high end, are those of the build-id read from the low
-- end, and whose last eight bytes are the build-id's.
pub elf_debug_id_fields :
    ⦃u : Unicode⦄ (build_id : Bytes) {b : Bytes}
    → hex_decode build_id ≡ some b
    → 16 ≤ length b
    → (id : Bytes) × (raw : Bytes) × (elf_debug_id build_id ≡ some id)
      × (hex_decode (remove_all id b'-') ≡ some raw)
      × (length raw ≡ 16)
      × (big_endian raw ≡ little_endian b)
      × (drop 8 raw ≡ take 8 (drop 8 b))
unfolding elf_debug_id
elf_debug_id_fields build_id {b} h l =
    let raw = swap_fields b in
    let (back, hex, low, size) =
      hex_encode_lem raw (swap_fields-IsByte b (hex_decode-IsByte build_id h)) in
    let long : ltb (length b) 16 ≡ false = ground arith in
    let guid = dash_uuid-some (hex_encode raw) (unfold swap_fields in size, hex) in
    let undashed = remove_all-insert_dashes (hex_encode raw) hex in
    (
      insert_dashes (hex_encode raw),
      raw,
      rw (h, long, guid, low),
      rw undashed back,
      unfold swap_fields in refl,
      swap_fields_ends b,
      swap_fields_tail b l,
    )
