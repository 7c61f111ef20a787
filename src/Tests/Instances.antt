-- ===== src/Tests/Instances.antt =====
-- Tables for text from 0x80 on: only the ASCII letters of such text change.
use debugsymd.Base.{ℕ, ◌≡◌, refl, true, false, [], ◌∷◌, map, arith, All, Bytes}
use debugsymd.GoStrings.{Unicode, is_upper, lower_byte, bytes_eq}

lower_byte_not_upper : (c : ℕ) → is_upper (lower_byte c) ≡ false
unfolding lower_byte
lower_byte_not_upper c = ground arith

pub lower-All : (s : Bytes) → All (λ c. is_upper c ≡ false) (map lower_byte s)
lower-All [] = tt
lower-All (c ∷ s) = (lower_byte_not_upper c, lower-All s)

pub eq_all_refl : (s : Bytes) → bytes_eq s s ≡ true
unfolding bytes_eq
eq_all_refl [] = refl
eq_all_refl (c ∷ s) = ground (arith, eq_all_refl s)

pub eq_all_sym : (s t : Bytes) → bytes_eq s t ≡ bytes_eq t s
unfolding bytes_eq
eq_all_sym [] [] = refl
eq_all_sym [] (y ∷ t) = refl
eq_all_sym (x ∷ s) [] = refl
eq_all_sym (x ∷ s) (y ∷ t) = ground (arith, eq_all_sym s t)

instance abbrev pub ascii_tables : Unicode
ascii_tables = record {
  lower = map lower_byte;
  fold = λ s t. bytes_eq (map lower_byte s) (map lower_byte t);
  lower_no_upper = lower-All;
  fold_refl = λ s. eq_all_refl (map lower_byte s);
  fold_sym = λ s t. eq_all_sym (map lower_byte s) (map lower_byte t);
}
