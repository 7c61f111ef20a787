-- ===== src/Symstore/DebugId/Hex.antt =====
-- Hexadecimal text: its letters in either case, and the number that it spells.
use Prim.Native.Nat.{◌^◌}
use debugsymd.Base.{
  length-map, ℕ, suc, ◌+◌, ◌*◌, ◌≤◌, ◌<◌, ◌≡◌, ◌≢◌, refl, ap, true, false, [], ◌∷◌, map, arith,
  Bytes, length, ◌==◌, Bool-cases, inl, inr,
}
use native.Mathlib.Nat.{pow-le-pow_right}
use native.Mathlib.Decide.{dec_lt}
use mathlib.Core.Path.{ap₂}
use debugsymd.GoStrings.{Unicode, is_ascii, lower_byte, to_lower, trim_left}
use debugsymd.Symstore.DebugId.{not_hex, all_hex, is_hex, unhex}

pub lower_byte-hex :
    (c : ℕ)
    → not_hex c ≡ false
    → (not_hex (lower_byte c) ≡ false) × (unhex (lower_byte c) ≡ unhex c)
unfolding not_hex lower_byte unhex
lower_byte-hex c h = ground arith

pub all_hex-lower : (s : Bytes) → all_hex s ≡ true → all_hex (map lower_byte s) ≡ true
unfolding all_hex
all_hex-lower [] h = refl
all_hex-lower (c ∷ s) h = ground (arith, lower_byte-hex c, all_hex-lower s)

hex-ascii : (c : ℕ) → not_hex c ≡ false → c < 0x80
unfolding not_hex
hex-ascii c h = ground arith

all_hex-ascii : (s : Bytes) → all_hex s ≡ true → is_ascii s ≡ true
unfolding all_hex is_ascii
all_hex-ascii [] h = refl
all_hex-ascii (c ∷ s) h = ground (arith, hex-ascii c, all_hex-ascii s)

pub all_hex_cons :
    (c : ℕ) (s : Bytes) → all_hex (c ∷ s) ≡ true → (not_hex c ≡ false) × (all_hex s ≡ true)
unfolding all_hex
all_hex_cons c s h = ground arith

-- Text in hexadecimal has no byte from 0x80 on, so the tables are not read.
pub to_lower-hex : ⦃u : Unicode⦄ (s : Bytes) → all_hex s ≡ true → to_lower s ≡ map lower_byte s
unfolding to_lower
to_lower-hex s h = rw (all_hex-ascii s h)

pub is_hex-all_hex : (s : Bytes) → is_hex s ≡ true → all_hex s ≡ true
unfolding is_hex
is_hex-all_hex [] h = absurd (cc)
is_hex-all_hex (c ∷ s) h = h

pub all_hex-is_hex : (s : Bytes) → 0 < length s → all_hex s ≡ true → is_hex s ≡ true
unfolding is_hex
all_hex-is_hex [] l h = absurd (omega arith)
all_hex-is_hex (c ∷ s) l h = h

-- The number that the digits spell.
unfoldable pub hex_value : Bytes → ℕ
hex_value [] = 0
hex_value (c ∷ s) = unhex c * 16 ^ length s + hex_value s

unhex-lt : (c : ℕ) → not_hex c ≡ false → unhex c < 16
unfolding not_hex unhex
unhex-lt c h = ground arith

pow-suc_16 : (n : ℕ) → 16 ^ suc n ≡ 16 * 16 ^ n
pow-suc_16 n = omega arith

hex_value-lt : (s : Bytes) → all_hex s ≡ true → hex_value s < 16 ^ length s
unfolding hex_value
hex_value-lt [] h = omega arith
hex_value-lt (c ∷ s) h =
    let (d, ds) = all_hex_cons c s h in
    grind (arith, pow-suc_16 (length s), unhex-lt c d, hex_value-lt s ds)

-- In lower case a digit is known by its value.
unhex-injective :
    (c d : ℕ)
    → not_hex c ≡ false
    → not_hex d ≡ false
    → lower_byte c ≡ c
    → lower_byte d ≡ d
    → unhex c ≡ unhex d
    → c ≡ d
unfolding not_hex unhex lower_byte
unhex-injective c d hc hd lc ld e = ground arith

-- The first digit and the rest are known from the value.
digits_split : (a b v w p : ℕ) → v < p → w < p → a * p + v ≡ b * p + w → (a ≡ b) × (v ≡ w)
digits_split a b v w p hv hw e = elim (dec_lt a b) [
  | yes h ↦ absurd (grind arith)
  | no h ↦ elim (dec_lt b a) [
    | yes k ↦ absurd (grind arith)
    | no k ↦ let same : a ≡ b = omega arith in (same, omega (arith, ap (λ (x : ℕ). x * p) same))
  ]
]

abbrev pub IsLower : Bytes → Type 0
IsLower s = map lower_byte s ≡ s

hex_value-injective_same :
    (s t : Bytes)
    → all_hex s ≡ true
    → all_hex t ≡ true
    → IsLower s
    → IsLower t
    → length s ≡ length t
    → hex_value s ≡ hex_value t
    → s ≡ t
unfolding hex_value
hex_value-injective_same [] [] hs ht ls lt l e = refl
hex_value-injective_same [] (d ∷ t) hs ht ls lt l e = absurd (omega arith)
hex_value-injective_same (c ∷ s) [] hs ht ls lt l e = absurd (omega arith)
hex_value-injective_same (c ∷ s) (d ∷ t) hs ht ls lt l e =
    let (hc, hs') = all_hex_cons c s hs in
    let (hd, ht') = all_hex_cons d t ht in
    let l' : length s ≡ length t = omega arith in
    let e' : unhex c * 16 ^ length t + hex_value s ≡ unhex d * 16 ^ length t + hex_value t =
      rw l' at e in
    let (first, rest) =
      digits_split (unhex c) (unhex d) (hex_value s) (hex_value t) (16 ^ length t)
        (rw l' at (hex_value-lt s hs')) (hex_value-lt t ht') e' in
    let tail = hex_value-injective_same s t hs' ht' (cc) (cc) l' rest in
    ap₂ ◌∷◌ (unhex-injective c d hc hd (cc) (cc) first) tail

-- With no leading zero a longer text spells a larger number.
pow_le_value : (c : ℕ) (s : Bytes) → unhex c ≢ 0 → 16 ^ length s ≤ hex_value (c ∷ s)
unfolding hex_value
pow_le_value c s h = grind arith

shorter-lt :
    (s : Bytes) (d : ℕ) (t : Bytes)
    → all_hex s ≡ true
    → unhex d ≢ 0
    → length s < length (d ∷ t)
    → hex_value s < hex_value (d ∷ t)
shorter-lt s d t hs hd h = omega (
  arith,
  hex_value-lt s hs,
  pow_le_value d t hd,
  pow-le-pow_right {n = 16} (omega arith) {i = length s} {j = length t} (omega arith),
)

-- the first digit of a text that has one
abbrev pub first_value : Bytes → ℕ
first_value [] = 1
first_value (c ∷ s) = unhex c

pub hex_value-injective :
    (s t : Bytes)
    → all_hex s ≡ true
    → all_hex t ≡ true
    → IsLower s
    → IsLower t
    → first_value s ≢ 0
    → first_value t ≢ 0
    → hex_value s ≡ hex_value t
    → s ≡ t
hex_value-injective [] [] hs ht ls lt zs zt e = refl
hex_value-injective [] (d ∷ t) hs ht ls lt zs zt e =
    absurd (omega (arith, shorter-lt [] d t hs zt (omega arith)))
hex_value-injective (c ∷ s) [] hs ht ls lt zs zt e =
    absurd (omega (arith, shorter-lt [] c s ht zs (omega arith)))
hex_value-injective (c ∷ s) (d ∷ t) hs ht ls lt zs zt e =
    elim (dec_lt (length (c ∷ s)) (length (d ∷ t))) [
      | yes h ↦ absurd (omega (arith, shorter-lt (c ∷ s) d t hs zt h))
      | no h ↦ elim (dec_lt (length (d ∷ t)) (length (c ∷ s))) [
        | yes k ↦ absurd (omega (arith, shorter-lt (d ∷ t) c s ht zs k))
        | no k ↦ hex_value-injective_same (c ∷ s) (d ∷ t) hs ht ls lt (omega arith) e
      ]
    ]

-- Leading zeros are cut off, and nothing else.
not_zero : (c : ℕ) → not_hex c ≡ false → c ≢ b'0' → unhex c ≢ 0
unfolding not_hex unhex
not_zero c h k = λ e. ground arith

pub trim_left-first_value : (s : Bytes) → all_hex s ≡ true → first_value (trim_left s b'0') ≢ 0
unfolding trim_left
trim_left-first_value [] h = λ e. omega arith
trim_left-first_value (c ∷ s) h =
    let (hc, hs) = all_hex_cons c s h in
    elim (Bool-cases (c == b'0')) [
      | inl z ↦ rw z (trim_left-first_value s hs)
      | inr n ↦ rw n (not_zero c hc (ground arith))
    ]

pub hex_value-trim_left : (s : Bytes) → hex_value (trim_left s b'0') ≡ hex_value s
unfolding trim_left hex_value unhex
hex_value-trim_left [] = refl
hex_value-trim_left (c ∷ s) = ground (arith, hex_value-trim_left s)

pub all_hex-trim_left : (s : Bytes) → all_hex s ≡ true → all_hex (trim_left s b'0') ≡ true
unfolding trim_left all_hex
all_hex-trim_left [] h = refl
all_hex-trim_left (c ∷ s) h = ground (arith, all_hex-trim_left s)

pub IsLower-trim_left : (s : Bytes) → IsLower s → IsLower (trim_left s b'0')
unfolding trim_left
IsLower-trim_left [] h = refl
IsLower-trim_left (c ∷ s) h = elim (Bool-cases (c == b'0')) [
  | inl z ↦ rw z (IsLower-trim_left s (cc))
  | inr n ↦ rw n h
]

lower_byte_idem : (c : ℕ) → lower_byte (lower_byte c) ≡ lower_byte c
unfolding lower_byte
lower_byte_idem c = ground arith

pub map-lower_byte_idem : (s : Bytes) → IsLower (map lower_byte s)
map-lower_byte_idem [] = refl
map-lower_byte_idem (c ∷ s) = ap₂ ◌∷◌ (lower_byte_idem c) (map-lower_byte_idem s)

pub hex_value-lower : (s : Bytes) → all_hex s ≡ true → hex_value (map lower_byte s) ≡ hex_value s
unfolding hex_value
hex_value-lower [] h = refl
hex_value-lower (c ∷ s) h =
    let (hc, hs) = all_hex_cons c s h in
    rw ((lower_byte-hex c hc).1, length-map lower_byte s, hex_value-lower s hs)
