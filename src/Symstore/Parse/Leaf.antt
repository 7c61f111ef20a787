-- ===== src/Symstore/Parse/Leaf.antt =====
-- The compressed leaf names, and what they are the compressed form of.
use debugsymd.Base.{
  drop-drop, ℕ, ◌+◌, ◌-◌, ◌%◌, ◌<◌, ◌≡◌, ◌≢◌, refl, sym, ap, ◌∙◌, Bool, true, false, not, ◌||◌,
  none, some, [], ◌∷◌, ◌++◌, append_assoc, arith, Bytes, length, take, drop, ◌==◌, if◌then◌else◌,
  All, ==_iff, length-append, take-append, drop-append,
}
use debugsymd.GoStrings.{Unicode, lower_byte, is_lower, equal_fold, last_index_byte, trim_right}
use debugsymd.Symstore.Constants.{compressed_extensions}
use debugsymd.Symstore.Parse.{no_lower, all_upper, find_extension, replace_last, uncompress_leaf}

-- The last dot is the one behind which there is none.
last_index-none : (s : Bytes) (b : ℕ) → All (λ c. c ≢ b) s → last_index_byte s b ≡ none
unfolding last_index_byte
last_index-none [] b h = refl
last_index-none (c ∷ s) b (hc, hs) =
    let no_hit : (c == b) ≡ false = ground arith in rw (last_index-none s b hs, no_hit)

pub last_index-some :
    (stem ext : Bytes) (b : ℕ)
    → All (λ c. c ≢ b) ext
    → last_index_byte (stem ++ (b ∷ ext)) b ≡ some (length stem)
unfolding last_index_byte
last_index-some [] ext b h = rw (last_index-none ext b h, (==_iff b b).1 refl)
last_index-some (c ∷ stem) ext b h = rw (last_index-some stem ext b h)

-- The three forms, by the two letters in front of the `_` and the byte that replaces it.
pub data Compressed : ℕ → ℕ → ℕ → Type 0 where
  pd : {x y r : ℕ} → lower_byte x ≡ b'p' → lower_byte y ≡ b'd' → r ≡ b'b' → Compressed x y r
  dl : {x y r : ℕ} → lower_byte x ≡ b'd' → lower_byte y ≡ b'l' → r ≡ b'l' → Compressed x y r
  ex : {x y r : ℕ} → lower_byte x ≡ b'e' → lower_byte y ≡ b'x' → r ≡ b'e' → Compressed x y r

letters-ascii :
    {x y r : ℕ}
    → Compressed x y r
    → (x < 0x80) × (y < 0x80) × (x ≢ b'.') × (y ≢ b'.') × (x ≢ b'_') × (y ≢ b'_')
unfolding lower_byte
letters-ascii (pd h k e) = ground arith
letters-ascii (dl h k e) = ground arith
letters-ascii (ex h k e) = ground arith

take_init : (s : Bytes) (d : ℕ) → take (length (s ++ (d ∷ [])) - 1) (s ++ (d ∷ [])) ≡ s
take_init s d =
    let l : length (s ++ (d ∷ [])) - 1 ≡ length s = omega (arith, length-append s (d ∷ [])) in
    rw (l, take-append s (d ∷ []))

if-not : (b : Bool) (p q : ℕ) → (if not b then p else q) ≡ (if b then q else p)
if-not true p q = refl
if-not false p q = refl

drop_one : (c : ℕ) (s : Bytes) → drop 1 (c ∷ s) ≡ s
unfolding drop
drop_one c s = refl

module _ ⦃u : Unicode⦄ where
  find_extension-Compressed :
      (x y r : ℕ)
      → Compressed x y r
      → find_extension (x ∷ y ∷ b'_' ∷ []) compressed_extensions ≡ some r
  unfolding find_extension equal_fold lower_byte
  find_extension-Compressed x y r (pd h k e) = ground arith
  find_extension-Compressed x y r (dl h k e) = ground arith
  find_extension-Compressed x y r (ex h k e) = ground arith

  trim_right-letters :
      (x y : ℕ) → x ≢ b'_' → y ≢ b'_' → trim_right (x ∷ y ∷ b'_' ∷ []) b'_' ≡ x ∷ y ∷ []
  unfolding trim_right
  trim_right-letters x y hx hy = ground arith

  -- the byte that takes the place of the `_`
  abbrev pub restored : ℕ → ℕ → ℕ → ℕ
  restored x y r = if is_lower x || is_lower y then r else (r + 256 - 32) % 256

  no_lower-letters : (x y : ℕ) → all_upper (x ∷ y ∷ []) ≡ not (is_lower x || is_lower y)
  unfolding all_upper no_lower
  no_lower-letters x y = ground arith

  replace_last-letters :
      (stem : Bytes) (x y r : ℕ)
      → x ≢ b'_'
      → y ≢ b'_'
      → replace_last (stem ++ (b'.' ∷ x ∷ y ∷ b'_' ∷ [])) (x ∷ y ∷ b'_' ∷ []) r
        ≡ stem ++ (b'.' ∷ x ∷ y ∷ restored x y r ∷ [])
  unfolding replace_last
  replace_last-letters stem x y r hx hy =
      let split : stem ++ (b'.' ∷ x ∷ y ∷ b'_' ∷ [])
          ≡ (stem ++ (b'.' ∷ x ∷ y ∷ [])) ++ (b'_' ∷ []) =
        sym (append_assoc stem (b'.' ∷ x ∷ y ∷ []) (b'_' ∷ [])) in
      let front = take_init (stem ++ (b'.' ∷ x ∷ y ∷ [])) b'_' in
      let joined = append_assoc stem (b'.' ∷ x ∷ y ∷ []) (restored x y r ∷ []) in
      rw
        (
          split,
          front,
          trim_right-letters x y hx hy,
          no_lower-letters x y,
          if-not (is_lower x || is_lower y) ((r + 256 - 32) % 256) r,
          joined,
        )
        refl

  -- A name that ends in a compressed extension, in letters of either case, is recognised whatever
  -- stands in front of the dot. Its uncompressed form differs in the last byte only, which is the
  -- extension's replacement: in lower case, if one of the two letters is.
  pub uncompress_leaf-Compressed :
      (stem : Bytes) (x y r : ℕ)
      → Compressed x y r
      → uncompress_leaf (stem ++ (b'.' ∷ x ∷ y ∷ b'_' ∷ []))
        ≡ some (stem ++ (b'.' ∷ x ∷ y ∷ restored x y r ∷ []))
  unfolding uncompress_leaf
  uncompress_leaf-Compressed stem x y r form =
      let (ax, ay, dx, dy, ux, uy) = letters-ascii form in
      let ext : Bytes = x ∷ y ∷ b'_' ∷ [] in
      let found = last_index-some stem ext b'.' (dx, (dy, (omega arith, tt))) in
      let tail : drop (length stem + 1) (stem ++ (b'.' ∷ ext)) ≡ ext =
        sym (drop-drop (length stem) 1 (stem ++ (b'.' ∷ ext)))
        ∙ ap (drop 1) (drop-append stem (b'.' ∷ ext))
        ∙ drop_one b'.' ext in
      rw (found, tail, find_extension-Compressed x y r form, replace_last-letters stem x y r ux uy)
