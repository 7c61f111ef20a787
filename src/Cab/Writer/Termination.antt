-- ===== src/Cab/Writer/Termination.antt =====
-- No call of `Write` runs out of fuel, whatever fails on the way.
use debugsymd.Base.{
  ℕ, zero, suc, ◌+◌, ◌-◌, ◌/◌, ◌≤◌, ◌<◌, ◌≡◌, ◌≢◌, refl, Bool, true, false, not, Option, arith,
  Bytes, length, length-drop, ◌==◌, if◌then◌else◌, ℤ, Bool-cases, inl, inr,
}
use debugsymd.Cab.Constants.{max_block_uncompressed}
use debugsymd.Cab.Out.{
  size_mismatch, fail, pure, Out, Outcome, done, failed_with, out_of_fuel, Cab, and_then, Reader,
}
use debugsymd.Cab.Writer.{
  Totals, size_of, too_large, encode_name, check_writes, read_chunk, compress, write_block,
  emit_chunk, stream_loop, stream_body, seek_to, write_out, seek_end, patch, write_sized, write_cab,
}

abbrev Ends : {A : Type 0} → Outcome A → Type 0
Ends o = o ≢ out_of_fuel

-- A chain of actions that end, ends.
and_then-Ends :
    {A B : Type 0} (o : Outcome A) (f : A → Cab B)
    → Ends o
    → ((a : A) (t : Out) → o ≡ done a t → Ends (f a t))
    → Ends (and_then o f)
and_then-Ends (done a t) f h k = k a t refl
and_then-Ends (failed_with e t) f h k = λ p. cc
and_then-Ends out_of_fuel f h k = absurd (h refl)

encode_name-Ends : (name : Bytes) (s : Out) → Ends (encode_name name s)
unfolding encode_name
encode_name-Ends name s = λ p. ground arith

check_writes-Ends : (s : Out) → Ends (check_writes s)
unfolding check_writes
check_writes-Ends s = λ p. ground arith

seek_to-Ends : (at : ℕ) (s : Out) → Ends (seek_to at s)
unfolding seek_to
seek_to-Ends at s = λ p. ground arith

write_out-Ends : (p : Bytes) (s : Out) → Ends (write_out p s)
unfolding write_out
write_out-Ends p s = λ q. ground arith

patch-Ends : (total blocks : ℕ) (s : Out) → Ends (patch total blocks s)
unfolding patch seek_end
patch-Ends total blocks s = and_then-Ends _ _ (seek_to-Ends 8 s) λ _ s₁ _.
    and_then-Ends _ _ (write_out-Ends _ s₁) λ _ s₂ _.
      and_then-Ends _ _ (seek_to-Ends 40 s₂)
        λ _ s₃ _. and_then-Ends _ _ (write_out-Ends _ s₃) λ _ s₄ _. seek_to-Ends _ s₄

read_chunk-Ends : (r : Reader) (s : Out) → Ends (read_chunk r s)
unfolding read_chunk
read_chunk-Ends r s = λ p. ground arith

-- A reader that goes on has given a full chunk.
read_chunk_shrinks :
    (r : Reader) (s : Out) {chunk : Bytes} {r' : Reader} {t : Out}
    → read_chunk r s ≡ done (chunk, false, r') t
    → (max_block_uncompressed ≤ length r.left)
      × (length r'.left ≡ length r.left - max_block_uncompressed)
unfolding read_chunk
read_chunk_shrinks r s h = ground (arith, length-drop max_block_uncompressed r.left)

module _ (deflate : Bytes → Option Bytes) where
  emit_chunk-Ends :
      (chunk : Bytes) (blocks total : ℕ) (s : Out) → Ends (emit_chunk deflate chunk blocks total s)
  unfolding emit_chunk write_block compress check_writes
  emit_chunk-Ends chunk blocks total s = λ p. ground arith

  stream_loop-Ends :
      (fuel : ℕ) (r : Reader) (blocks total seen : ℕ) (s : Out)
      → length r.left / max_block_uncompressed < fuel
      → Ends (stream_loop deflate fuel r blocks total seen s)
  unfolding stream_loop
  stream_loop-Ends zero r blocks total seen s enough = absurd (omega arith)
  stream_loop-Ends (suc fuel) r blocks total seen s enough =
      and_then-Ends _ _ (read_chunk-Ends r s) λ x t e.
        and_then-Ends _ _ (emit_chunk-Ends x.0 blocks total t) λ y v _.
          round x.1 x.2 y.0 y.1 (seen + length x.0) v (λ more.
            let (full, left) = read_chunk_shrinks r s (rw more at e) in
            stream_loop-Ends fuel x.2 y.0 y.1 (seen + length x.0) v (omega arith))
    where
      round :
          (eof : Bool) (r' : Reader) (b n m : ℕ) (v : Out)
          → (eof ≡ false → Ends (stream_loop deflate fuel r' b n m v))
          → Ends (
              (if eof then pure {A = ℕ × ℕ × ℕ} (b, n, m) else stream_loop deflate fuel r' b n m) v)
      round true r' b n m v h = λ p. cc
      round false r' b n m v h = h refl

  stream_body-Ends :
      (r : Reader) (offset size : ℕ) (s : Out) → Ends (stream_body deflate r offset size s)
  unfolding stream_body
  stream_body-Ends r offset size s =
      and_then-Ends _ _ (stream_loop-Ends _ r 0 offset 0 s (omega arith))
        λ x t _. last x.0 x.1 x.2 t
    where
      last :
          (b n m : ℕ) (t : Out)
          → Ends ((if not (m == size) then fail size_mismatch else pure {A = Totals} (b, n)) t)
      last b n m t = λ p. ground arith

  write_sized-Ends :
      (name : Bytes) (size : ℕ) (r : Reader) (s : Out) → Ends (write_sized deflate name size r s)
  unfolding write_sized
  write_sized-Ends name size r s = and_then-Ends _ _ (encode_name-Ends name s) λ encoded s₁ _.
      and_then-Ends _ _ (check_writes-Ends _)
        λ _ s₂ _. and_then-Ends _ _ (stream_body-Ends r _ size s₂) λ x s₃ _. patch-Ends x.1 x.0 s₃

  -- `Write` returns, with a result or an error, for every name, declared size, reader and file, and
  -- whichever operations on them fail: the rounds that the model allows its loop are enough.
  pub write_cab-Ends :
      (name : Bytes) (size : ℤ) (r : Reader) (s : Out)
      → write_cab deflate name size r s ≢ out_of_fuel
  unfolding write_cab
  write_cab-Ends name size r s = elim (Bool-cases (too_large size)) [
    | inl large ↦ rw large (λ p. cc)
    | inr fits ↦ rw fits (write_sized-Ends name (size_of size) r s)
  ]
