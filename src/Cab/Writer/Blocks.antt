-- ===== src/Cab/Writer/Blocks.antt =====
-- What a successful write of the fixed parts and of one block adds to the file.
use mathlib.Core.Path.{subst}
use debugsymd.Base.{
  List, ℕ, ◌+◌, ◌%◌, ◌≡◌, ◌≢◌, sym, ap, ◌∙◌, Bool, true, false, not, Option, some, [], ◌∷◌, ◌++◌,
  arith, Bytes, length, length-append, Option-cases, inl, inr,
}
use debugsymd.Cab.Constants.{max_blocks}
use debugsymd.Cab.Out.{overwrite, Fault, fine, fails, Out, done, write_as}
use debugsymd.Cab.Out.Append.{AtEnd, Appends, Appends-trans, overwrite_end}
use debugsymd.Cab.Mszip.{block}
use debugsymd.Cab.Layout.{data_block, length-data_block}
use debugsymd.Cab.Writer.{ew_write, check_writes, compress, write_block, data_header}

not-eq-false : {b : Bool} → not b ≡ false → b ≡ true
not-eq-false {b} h = ground arith

overwritten :
    (p : Bytes) (s : Out)
    → AtEnd s
    → (overwrite s.position p s.contents ≡ s.contents ++ p)
      × (s.position + length p ≡ length (overwrite s.position p s.contents))
overwritten p s h =
    let e : overwrite s.position p s.contents ≡ s.contents ++ p =
      rw h (overwrite_end p s.contents) in
    (e, omega (arith, h, length-append s.contents p, ap length e))

write_as-Appends :
    (fs : List Fault) (p : Bytes) (s : Out)
    → AtEnd s
    → (write_as fs p s).0 ≡ true
    → ((write_as fs p s).1.contents ≡ s.contents ++ p) × AtEnd (write_as fs p s).1
unfolding write_as
write_as-Appends [] p s h e = overwritten p s h
write_as-Appends (fine ∷ fs) p s h e = overwritten p s h
write_as-Appends (fails n ∷ fs) p s h e = absurd (cc)

-- `errWriter` remembers a failure.
pub ew_write_clean : (p : Bytes) (s : Out) → (ew_write p s).failed ≡ false → s.failed ≡ false
unfolding ew_write
ew_write_clean p s e = ground arith

-- It appends what it writes, if it does not fail.
pub ew_write-Appends :
    (p : Bytes) (s : Out) → AtEnd s → (ew_write p s).failed ≡ false → Appends s p (ew_write p s)
unfolding ew_write
ew_write-Appends p s h e = ground (arith, write_as-Appends s.faults p s h)

-- Two writes behind one check.
pub ew_write_twice :
    (p q : Bytes) (s : Out)
    → AtEnd s
    → (ew_write q (ew_write p s)).failed ≡ false
    → Appends s (p ++ q) (ew_write q (ew_write p s))
ew_write_twice p q s h e =
    let first = ew_write-Appends p s h (ew_write_clean q (ew_write p s) e) in
    Appends-trans first (ew_write-Appends q (ew_write p s) first.at_end e)

write_block-eq-done :
    (deflate : Bytes → Option Bytes) (chunk : Bytes) (blocks total : ℕ) (s : Out)
    {blocks' total' : ℕ} {s' : Out}
    → write_block deflate chunk blocks total s ≡ done (blocks', total') s'
    → (payload : Bytes) × (block deflate chunk ≡ some payload)
      × (blocks ≢ max_blocks)
      × (blocks' ≡ (blocks + 1) % 65536)
      × (total' ≡ total + (8 + length payload))
      × (s' ≡ ew_write payload (ew_write (data_header (length payload) (length chunk)) s))
      × (s'.failed ≡ false)
unfolding write_block compress check_writes
write_block-eq-done deflate chunk blocks total s h = elim (Option-cases (block deflate chunk)) [
  | inl n ↦ absurd (ground arith)
  | inr (payload, e) ↦
      (payload, e, ground arith, ground arith, ground arith, ground arith, ground arith)
]

-- A block that is written stands at the end of the file, and the totals count it.
pub write_block-Appends :
    (deflate : Bytes → Option Bytes) (chunk : Bytes) (blocks total : ℕ) (s : Out)
    {blocks' total' : ℕ} {s' : Out}
    → AtEnd s
    → write_block deflate chunk blocks total s ≡ done (blocks', total') s'
    → (payload : Bytes) × (block deflate chunk ≡ some payload)
      × (blocks ≢ max_blocks)
      × (blocks' ≡ (blocks + 1) % 65536)
      × (total' ≡ total + length (data_block chunk payload))
      × Appends s (data_block chunk payload) s'
unfolding data_block data_header
write_block-Appends deflate chunk blocks total s at_end h =
    let (payload, e, room, b, t, same, good) = write_block-eq-done deflate chunk blocks total s h in
    let hdr = data_header (length payload) (length chunk) in
    (
      payload,
      e,
      room,
      b,
      omega (arith, t, length-data_block chunk payload),
      subst (λ (v : Out). Appends s (data_block chunk payload) v) (sym same)
          (ew_write_twice hdr payload s at_end (ap (λ (v : Out). v.failed) (sym same) ∙ good)),
    )
