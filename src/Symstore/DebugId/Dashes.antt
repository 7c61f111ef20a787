-- ===== src/Symstore/DebugId/Dashes.antt =====
-- The dashes of a canonical UUID come off again.
use debugsymd.Base.{
  ℕ, zero, suc, ◌+◌, ◌-◌, ◌≡◌, refl, ap, ◌∙◌, true, [], ◌∷◌, ◌++◌, arith, Bytes, length, take, drop,
  take-append-drop, drop-drop, length-append, length-take, length-drop,
}
use debugsymd.GoStrings.{remove_all}
use debugsymd.Symstore.DebugId.{not_hex, all_hex, slice, insert_dashes}

pub remove_all-append :
    (s t : Bytes) (b : ℕ) → remove_all (s ++ t) b ≡ remove_all s b ++ remove_all t b
unfolding remove_all
remove_all-append [] t b = refl
remove_all-append (c ∷ s) t b = ground (arith, remove_all-append s t b)

pub remove_all-hex : (s : Bytes) → all_hex s ≡ true → remove_all s b'-' ≡ s
unfolding remove_all all_hex not_hex
remove_all-hex [] h = refl
remove_all-hex (c ∷ s) h = ground (arith, remove_all-hex s)

all_hex-take : (n : ℕ) (s : Bytes) → all_hex s ≡ true → all_hex (take n s) ≡ true
unfolding take all_hex
all_hex-take zero s h = refl
all_hex-take (suc n) [] h = refl
all_hex-take (suc n) (c ∷ s) h = ground (arith, all_hex-take n s)

all_hex-drop : (n : ℕ) (s : Bytes) → all_hex s ≡ true → all_hex (drop n s) ≡ true
unfolding drop all_hex
all_hex-drop zero s h = h
all_hex-drop (suc n) [] h = refl
all_hex-drop (suc n) (c ∷ s) h = all_hex-drop n s (ground arith)

remove_slice :
    (n m : ℕ) (s : Bytes) → all_hex s ≡ true → remove_all (slice n m s) b'-' ≡ slice n m s
remove_slice n m s h = remove_all-hex _ (all_hex-take (m - n) (drop n s) (all_hex-drop n s h))

next_group : (n k : ℕ) (h : Bytes) → take k (drop n h) ++ drop (n + k) h ≡ drop n h
next_group n k h = rw (← drop-drop n k h) (take-append-drop k (drop n h))

-- The five groups spell the text.
groups :
    (h : Bytes)
    → slice 0 8 h ++ (slice 8 12 h ++ (slice 12 16 h ++ (slice 16 20 h ++ drop 20 h))) ≡ h
unfolding drop
groups h =
    ap (λ (x : Bytes). slice 0 8 h ++ (slice 8 12 h ++ (slice 12 16 h ++ x))) (next_group 16 4 h)
    ∙ ap (λ (x : Bytes). slice 0 8 h ++ (slice 8 12 h ++ x)) (next_group 12 4 h)
    ∙ ap (λ (x : Bytes). slice 0 8 h ++ x) (next_group 8 4 h)
    ∙ take-append-drop 8 h

dash_removed : (s : Bytes) → remove_all (b'-' ∷ s) b'-' ≡ remove_all s b'-'
unfolding remove_all
dash_removed s = refl

-- Without its dashes a canonical UUID is the text that the dashes were put into.
pub remove_all-insert_dashes :
    (h : Bytes) → all_hex h ≡ true → remove_all (insert_dashes h) b'-' ≡ h
unfolding insert_dashes
remove_all-insert_dashes h p =
    simp (remove_all-append, dash_removed)
      (rw
        (
          remove_slice 0 8 h p,
          remove_slice 8 12 h p,
          remove_slice 12 16 h p,
          remove_slice 16 20 h p,
          remove_all-hex (drop 20 h) (all_hex-drop 20 h p),
        )
        (groups h))

pub length-insert_dashes : (h : Bytes) → length h ≡ 32 → length (insert_dashes h) ≡ 36
unfolding insert_dashes
length-insert_dashes h l = omega (
  arith,
  ap length (groups h),
  length-append (slice 0 8 h) (
      b'-' ∷ slice 8 12 h
      ++ (b'-' ∷ slice 12 16 h ++ (b'-' ∷ slice 16 20 h ++ (b'-' ∷ drop 20 h)))),
  length-append (slice 8 12 h)
      (b'-' ∷ slice 12 16 h ++ (b'-' ∷ slice 16 20 h ++ (b'-' ∷ drop 20 h))),
  length-append (slice 12 16 h) (b'-' ∷ slice 16 20 h ++ (b'-' ∷ drop 20 h)),
  length-append (slice 16 20 h) (b'-' ∷ drop 20 h),
  length-take 8 (drop 0 h),
  length-take 4 (drop 8 h),
  length-take 4 (drop 12 h),
  length-take 4 (drop 16 h),
  length-drop 0 h,
  length-drop 8 h,
  length-drop 12 h,
  length-drop 16 h,
  length-drop 20 h,
)
