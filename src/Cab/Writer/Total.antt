-- ===== src/Cab/Writer/Total.antt =====
-- `Write` comes to an end, and it succeeds where nothing outside it fails.
use debugsymd.Base.{
  leb→le, Option-cases, ℕ, zero, suc, ◌+◌, ◌*◌, ◌/◌, ◌%◌, ◌≤◌, ◌<◌, ◌≡◌, refl, ap, ◌∙◌, true, false,
  ◌||◌, Option, some, [], ◌∷◌, ◌++◌, arith, Bytes, length, take, drop, length-take, length-drop,
  ◌==◌, ltb, leb, pos, Bool-cases, inl, inr,
}
use debugsymd.Cab.Constants.{
  le16, le32, max_blocks, max_block_uncompressed, max_folder_uncompressed,
}
use debugsymd.Cab.Out.{overwrite, Out, done, Reader, write_as, seek_as}
use debugsymd.Cab.Mszip.{block}
use debugsymd.Cab.Writer.{
  ew_write, encode_name, printable, write_header, write_folder, write_cf_file, check_writes,
  read_chunk, compress, write_block, emit_chunk, data_header, stream_loop, stream_body, seek_to,
  write_out, seek_end, patch, too_large, size_of, write_sized, write_cab,
}

-- Nothing has failed and nothing will.
pub record IsClean (s : Out) : Type 0 where
  pub no_faults : s.faults ≡ []
  pub no_error : s.failed ≡ false

-- A compressor that never fails.
abbrev pub Compresses : (Bytes → Option Bytes) → Type 0
Compresses deflate = (text : Bytes) → (c : Bytes) × (deflate text ≡ some c)

ew_write-IsClean : (p : Bytes) (s : Out) → IsClean s → IsClean (ew_write p s)
unfolding ew_write write_as
ew_write-IsClean p s h = rw (h.no_faults, h.no_error) (record { no_faults = refl; no_error = refl })

read_chunk-full :
    (r : Reader) (s : Out)
    → leb max_block_uncompressed (length r.left) ≡ true
    → read_chunk r s
      ≡ done
          (
            take max_block_uncompressed r.left,
            false,
            record r { left = drop max_block_uncompressed r.left },
          )
          s
unfolding read_chunk
read_chunk-full r s h = rw h

read_chunk-last :
    (r : Reader) (s : Out)
    → leb max_block_uncompressed (length r.left) ≡ false
    → r.broken ≡ false
    → read_chunk r s ≡ done (r.left, true, record r { left = [] }) s
unfolding read_chunk
read_chunk-last r s h whole = simp (h, whole)

module _ (deflate : Bytes → Option Bytes) (works : Compresses deflate) where
  block-some : (chunk : Bytes) → (payload : Bytes) × (block deflate chunk ≡ some payload)
  unfolding block
  block-some chunk =
      let (c, e) = works chunk in
      elim (Option-cases (block deflate chunk)) [ inl n ↦ absurd (ground arith) | inr p ↦ p ]

  write_block-ok :
      (chunk : Bytes) (blocks total : ℕ) (s : Out)
      → IsClean s
      → blocks < max_blocks
      → (n : ℕ) × (t : Out) × (write_block deflate chunk blocks total s ≡ done (blocks + 1, n) t)
        × IsClean t
  unfolding write_block compress check_writes
  write_block-ok chunk blocks total s clean room =
      let (payload, e) = block-some chunk in
      let t = ew_write payload (ew_write (data_header (length payload) (length chunk)) s) in
      let clean' =
        ew_write-IsClean payload _
          (ew_write-IsClean (data_header (length payload) (length chunk)) s clean) in
      let not_full : (blocks == max_blocks) ≡ false = ground arith in
      let no_wrap : (blocks + 1) % 65536 ≡ blocks + 1 = omega arith in
      let good : t.failed ≡ false = clean'.no_error in
      (total + (8 + length payload), t, ground arith, clean')

  -- Room for the chunks of `left` bytes more.
  abbrev HasRoom : ℕ → ℕ → Type 0
  HasRoom blocks left = blocks * max_block_uncompressed + left ≤ max_folder_uncompressed

  emit_chunk-ok :
      (chunk : Bytes) (blocks total : ℕ) (s : Out)
      → IsClean s
      → HasRoom blocks (length chunk)
      → (b : ℕ) × (n : ℕ) × (t : Out) × (emit_chunk deflate chunk blocks total s ≡ done (b, n) t)
        × IsClean t
        × (b ≤ blocks + 1)
  unfolding emit_chunk
  emit_chunk-ok chunk blocks total s clean room =
      elim (Bool-cases (ltb 0 (length chunk) || blocks == 0)) [
        | inl some_text ↦
            let room' : blocks < max_blocks = ground arith in
            let (n, t, e, clean') = write_block-ok chunk blocks total s clean room' in
            (blocks + 1, n, t, rw some_text e, clean', omega arith)
        | inr no_text ↦ (blocks, total, s, rw no_text, clean, omega arith)
      ]

  stream_loop-ok :
      (fuel : ℕ) (r : Reader) (blocks total seen : ℕ) (s : Out)
      → IsClean s
      → r.broken ≡ false
      → HasRoom blocks (length r.left)
      → length r.left / max_block_uncompressed < fuel
      → (b : ℕ) × (n : ℕ) × (t : Out) × (stream_loop deflate fuel r blocks total seen s
          ≡ done (b, n, seen + length r.left) t)
        × IsClean t
  unfolding stream_loop
  stream_loop-ok zero r blocks total seen s clean whole room enough = absurd (omega arith)
  stream_loop-ok (suc fuel) r blocks total seen s clean whole room enough =
      elim (Bool-cases (leb max_block_uncompressed (length r.left))) [
        | inl full ↦
            let chunk = take max_block_uncompressed r.left in
            let r' : Reader = record r { left = drop max_block_uncompressed r.left } in
            let full' = leb→le _ _ full in
            let size = length-take max_block_uncompressed r.left in
            let size' = length-drop max_block_uncompressed r.left in
            let (b, n, t, e, clean', grows) =
              emit_chunk-ok chunk blocks total s clean (omega arith) in
            let (b', n', t', e', clean'') =
              stream_loop-ok fuel r' b n (seen + length chunk) t clean' whole (omega arith)
                (omega arith) in
            let all : seen + length chunk + length r'.left ≡ seen + length r.left = omega arith in
            (
              b',
              n',
              t',
              rw (read_chunk-full r s full, e) (e' ∙ ap (λ (m : ℕ). done (b', n', m) t') all),
              clean'',
            )
        | inr short ↦
            let (b, n, t, e, clean', _) = emit_chunk-ok r.left blocks total s clean room in
            (b, n, t, rw (read_chunk-last r s short whole, e), clean')
      ]

  stream_body-ok :
      (r : Reader) (offset : ℕ) (s : Out)
      → IsClean s
      → r.broken ≡ false
      → length r.left ≤ max_folder_uncompressed
      → (b : ℕ) × (n : ℕ) × (t : Out) × (stream_body deflate r offset (length r.left) s
          ≡ done (b, n) t)
        × IsClean t
  unfolding stream_body
  stream_body-ok r offset s clean whole small =
      let (b, n, t, e, clean') =
        stream_loop-ok (length r.left / 32768 + 1) r 0 offset 0 s clean whole (omega arith)
          (omega arith) in
      let same : (0 + length r.left == length r.left) ≡ true = ground arith in
      (b, n, t, rw (e, same), clean')

seek_to-ok : (at : ℕ) (s : Out) → IsClean s → (t : Out) × (seek_to at s ≡ done tt t) × IsClean t
unfolding seek_to seek_as
seek_to-ok at s clean = (
  record s { position = at; faults = [] },
  simp clean.no_faults,
  record { no_faults = refl; no_error = clean.no_error },
)

write_out-ok :
    (p : Bytes) (s : Out) → IsClean s → (t : Out) × (write_out p s ≡ done tt t) × IsClean t
unfolding write_out write_as
write_out-ok p s clean = (
  record s {
    contents = overwrite s.position p s.contents;
    position = s.position + length p;
    faults = [];
  },
  simp clean.no_faults,
  record { no_faults = refl; no_error = clean.no_error },
)

patch-ok : (total blocks : ℕ) (s : Out) → IsClean s → (t : Out) × (patch total blocks s ≡ done tt t)
unfolding patch seek_end
patch-ok total blocks s clean =
    let (s₁, e₁, c₁) = seek_to-ok 8 s clean in
    let (s₂, e₂, c₂) = write_out-ok (le32 total) s₁ c₁ in
    let (s₃, e₃, c₃) = seek_to-ok 40 s₂ c₂ in
    let (s₄, e₄, c₄) = write_out-ok (le16 blocks) s₃ c₃ in
    let (s₅, e₅, c₅) = seek_to-ok (length s₄.contents) s₄ c₄ in (s₅, rw (e₁, e₂, e₃, e₄) e₅)

check_writes-ok : (s : Out) → IsClean s → check_writes s ≡ done tt s
unfolding check_writes
check_writes-ok s clean = simp clean.no_error

fixed-IsClean :
    (offset size : ℕ) (name : Bytes) (s : Out)
    → IsClean s
    → IsClean (write_cf_file size name (write_folder offset (write_header 44 s)))
unfolding write_header write_folder write_cf_file
fixed-IsClean offset size name s clean =
    ew_write-IsClean _ _ (ew_write-IsClean _ _ (ew_write-IsClean _ _ clean))

-- `Write` to an empty file succeeds, if no operation on the file, the reader or the compressor fails,
-- the name is not empty and printable ASCII, and the declared size is the number of bytes that the
-- reader yields and at most that of a folder.
pub write_cab-succeeds :
    (deflate : Bytes → Option Bytes) (name : Bytes) (r : Reader) (s : Out)
    → Compresses deflate
    → IsClean s
    → r.broken ≡ false
    → 0 < length name
    → printable name ≡ true
    → length r.left ≤ max_folder_uncompressed
    → (t : Out) × (write_cab deflate name (pos (length r.left)) r s ≡ done tt t)
unfolding write_cab write_sized too_large size_of encode_name
write_cab-succeeds deflate name r s works clean whole named printed small =
    let encoded = name ++ (0 ∷ []) in
    let offset = 44 + (16 + length encoded) in
    let t = write_cf_file (length r.left) encoded (write_folder offset (write_header 44 s)) in
    let clean' = fixed-IsClean offset (length r.left) encoded s clean in
    let (b, n, t', e, clean'') = stream_body-ok deflate works r offset t clean' whole small in
    let (t'', e') = patch-ok n b t' clean'' in
    let fits : ltb max_folder_uncompressed (length r.left) ≡ false = ground arith in
    let some_bytes : (length name == 0) ≡ false = ground arith in
    (t'', rw (fits, some_bytes, printed, check_writes-ok t clean', e) e')
