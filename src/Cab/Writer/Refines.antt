-- ===== src/Cab/Writer/Refines.antt =====
-- `Write` produces the cabinet of `Cab.Layout`.
use debugsymd.Base.{
  inl, inr, ltb, not, ℕ, ◌+◌, ◌/◌, ◌≤◌, ◌<◌, ◌≡◌, refl, sym, ap, ◌∙◌, Bool, true, false, Option,
  some, [], ◌∷◌, ◌++◌, append_assoc, arith, Bytes, length, length-append, ◌==◌, if◌then◌else◌, ℤ,
  pos, negsuc, Bool-cases,
}
use debugsymd.Cab.Constants.{max_blocks, max_folder_uncompressed}
use debugsymd.Cab.Out.{
  write_failed, and_then, ◌>>=◌, ◌>>◌, Cab, Outcome, pure, size_mismatch, fail, Out, done,
  failed_with, Reader,
}
use debugsymd.Cab.Out.Append.{AtEnd, Appends, Appends-trans, >>=-eq-done}
use debugsymd.Cab.Layout.{header, folder, file, body, chunks, cabinet}
use debugsymd.Cab.Writer.{
  Totals, encode_name, printable, write_header, write_folder, write_cf_file, check_writes,
  stream_loop, stream_body, too_large, size_of, write_sized, write_cab,
}
use debugsymd.Cab.Writer.Blocks.{ew_write-Appends, ew_write_clean}
use debugsymd.Cab.Writer.Stream.{finish, stream_loop-Streamed}
use debugsymd.Cab.Writer.Pieces.{Streamed}
use debugsymd.Cab.Writer.Fixed.{
  header_bytes-eq-header, folder_bytes-eq-folder, file_bytes-eq-file, patch-eq-cabinet,
}

encode_name_then :
    {B : Type 0} (name : Bytes) (f : Bytes → Cab B) (s : Out) {b : B} {s' : Out}
    → (encode_name name >>= f) s ≡ done b s'
    → (0 < length name) × (printable name ≡ true) × (f (name ++ (0 ∷ [])) s ≡ done b s')
unfolding encode_name
encode_name_then name f s {b} {s'} h = elim (Bool-cases (length name == 0)) [
  | inl empty ↦ absurd (ground arith)
  | inr some_bytes ↦ elim (Bool-cases (printable name)) [
    | inl good ↦ (ground arith, good, rw (some_bytes, good) at h)
    | inr bad ↦ absurd (ground arith)
  ]
]

check_writes_then :
    {B : Type 0} (k : Cab B) (s : Out) {b : B} {s' : Out}
    → (check_writes >> k) s ≡ done b s'
    → (s.failed ≡ false) × (k s ≡ done b s')
unfolding check_writes
check_writes_then k s {b} {s'} h = go s.failed h
  where
    go :
        (f : Bool)
        → and_then (if f then failed_with write_failed s else done tt s) (λ _. k) ≡ done b s'
        → (f ≡ false) × (k s ≡ done b s')
    go true h = absurd (cc)
    go false h = (refl, h)

abbrev fixed_parts : ℕ → ℕ → Bytes → Out → Out
fixed_parts offset size name s =
    write_cf_file size (name ++ (0 ∷ [])) (write_folder offset (write_header 44 s))

fixed_parts-Appends :
    (offset size : ℕ) (name : Bytes) (s : Out)
    → AtEnd s
    → (fixed_parts offset size name s).failed ≡ false
    → Appends s (header 0 ++ (folder offset 0 ++ file size name)) (fixed_parts offset size name s)
unfolding write_header write_folder write_cf_file
fixed_parts-Appends offset size name s h e =
    let e₂ = ew_write_clean _ (write_folder offset (write_header 44 s)) e in
    let e₁ = ew_write_clean _ (write_header 44 s) e₂ in
    let a₁ = ew_write-Appends _ s h e₁ in
    let a₂ = ew_write-Appends _ (write_header 44 s) a₁.at_end e₂ in
    let a₃ = ew_write-Appends _ (write_folder offset (write_header 44 s)) a₂.at_end e in
    rw (← header_bytes-eq-header, ← folder_bytes-eq-folder offset, ← file_bytes-eq-file size name)
      (Appends-trans a₁ (Appends-trans a₂ a₃))

size_checked :
    (b n seen size : ℕ) (t : Out) {blocks total : ℕ} {s' : Out}
    → (if not (seen == size) then fail size_mismatch else pure {A = Totals} (b, n)) t
      ≡ done (blocks, total) s'
    → (seen ≡ size)
      × ◌≡◌ {A = Outcome (ℕ × ℕ × ℕ)} (done (b, n, seen) t) (done (blocks, total, seen) s')
size_checked b n seen size t h = ground arith

-- The body that `streamBody` writes is that of the reader's chunks.
stream_body-eq-done :
    (deflate : Bytes → Option Bytes) (r : Reader) (offset size : ℕ) (s : Out) {blocks total : ℕ}
    {s' : Out}
    → AtEnd s
    → s.failed ≡ false
    → stream_body deflate r offset size s ≡ done (blocks, total) s'
    → Streamed deflate (chunks r.left) s 0 offset s' blocks total
      × (length r.left ≡ size)
      × (r.broken ≡ false)
unfolding stream_body chunks
stream_body-eq-done deflate r offset size s {blocks} {total} {s'} at_end good h =
    let ((b, n, seen), t, h₁, h₂) =
      >>=-eq-done (stream_loop deflate (length r.left / 32768 + 1) r 0 offset 0) _ s h in
    let (wrote, all, whole) =
      stream_loop-Streamed deflate _ r 0 offset 0 (length r.left) s at_end good (omega arith)
        (omega arith) h₁ in
    let (agrees, same) = size_checked b n seen size t h₂ in
    (
      (finish deflate b blocks n total seen seen t s' same wrote).0,
      omega (arith, all, agrees),
      whole,
    )

-- What `Write` leaves in the file, and what it has checked, if it returns no error.
pub record Wrote (deflate : Bytes → Option Bytes) (name : Bytes) (size : ℤ) (r : Reader) (s' : Out)
    : Type 0 where
  pub named : 0 < length name
  pub printed : printable name ≡ true
  pub sized : size ≡ pos (length r.left)
  pub small : length r.left ≤ max_folder_uncompressed
  pub whole : r.broken ≡ false
  pub blocks : Bytes
  pub encodes : body deflate (chunks r.left) ≡ some blocks
  pub contents : s'.contents ≡ cabinet name r.left (length (chunks r.left)) blocks
  pub count_fits : length (chunks r.left) ≤ max_blocks
  pub at_end : s'.position ≡ length s'.contents

-- A file that nothing has been written to.
pub record IsEmpty (s : Out) : Type 0 where
  pub no_bytes : s.contents ≡ []
  pub at_start : s.position ≡ 0
  pub no_error : s.failed ≡ false

-- The file before the patch.
unpatched :
    (offset size : ℕ) (name bytes : Bytes) {s t v : Out}
    → s.contents ≡ []
    → Appends s (header 0 ++ (folder offset 0 ++ file size name)) t
    → Appends t bytes v
    → v.contents ≡ header 0 ++ (folder offset 0 ++ (file size name ++ bytes))
unpatched offset size name bytes e a b =
    b.contents
    ∙ rw (a.contents, e)
        (append_assoc (header 0) (folder offset 0 ++ file size name) bytes
          ∙ ap (λ (x : Bytes). header 0 ++ x)
              (append_assoc (folder offset 0) (file size name) bytes))

to_cabinet :
    (name text bytes contents : Bytes) (offset size blocks count total : ℕ)
    → contents ≡ header total ++ (folder offset blocks ++ (file size name ++ bytes))
    → blocks ≡ count
    → offset ≡ 61 + length name
    → size ≡ length text
    → total ≡ offset + length bytes
    → contents ≡ cabinet name text count bytes
unfolding cabinet
to_cabinet name text bytes contents offset size blocks count total h b o z n = h ∙ rw (n, b, o, z)

write_sized-Wrote :
    (deflate : Bytes → Option Bytes) (name : Bytes) (size : ℕ) (r : Reader) (s : Out) {s' : Out}
    → IsEmpty s
    → size ≤ max_folder_uncompressed
    → write_sized deflate name size r s ≡ done tt s'
    → Wrote deflate name (pos size) r s'
unfolding write_sized
write_sized-Wrote deflate name size r s {s'} empty small h =
    let (named, printed, k₁) = encode_name_then name _ s h in
    let offset = 44 + (16 + length (name ++ (0 ∷ []))) in
    let s₁ = fixed_parts offset size name s in
    let (good, k₂) = check_writes_then _ s₁ k₁ in
    let ((blocks, total), s₂, h₂, h₃) = >>=-eq-done (stream_body deflate r offset size) _ s₁ k₂ in
    let fixed = fixed_parts-Appends offset size name s (rw empty.no_bytes empty.at_start) good in
    let (wrote, sized, whole) = stream_body-eq-done deflate r offset size s₁ fixed.at_end good h₂ in
    let (contents, at_end, _) =
      patch-eq-cabinet total blocks offset (file size name ++ wrote.bytes) s₂
        (unpatched offset size name wrote.bytes empty.no_bytes fixed wrote.appends) h₃ in
    record {
      named = named;
      printed = printed;
      sized = ap pos (sym sized);
      small = omega arith;
      whole = whole;
      blocks = wrote.bytes;
      encodes = wrote.encodes;
      contents =
          to_cabinet name r.left wrote.bytes _ offset size blocks _ total contents
            (omega (arith, wrote.counts)) (omega (arith, length-append name (0 ∷ []))) (sym sized)
            wrote.sums;
      count_fits = omega (arith, wrote.counts, wrote.bounded);
      at_end = at_end;
    }

-- If `Write` to an empty file returns no error, then the name is not empty and printable ASCII, the
-- declared size is the number of bytes that the reader yields and at most that of a folder, and the
-- file holds exactly the cabinet of the format's description with one data block for each chunk.
pub write_cab-cabinet :
    (deflate : Bytes → Option Bytes) (name : Bytes) (size : ℤ) (r : Reader) (s : Out) {s' : Out}
    → IsEmpty s
    → write_cab deflate name size r s ≡ done tt s'
    → Wrote deflate name size r s'
unfolding write_cab too_large size_of
write_cab-cabinet deflate name (negsuc n) r s empty h = absurd (cc)
write_cab-cabinet deflate name (pos n) r s empty h =
    elim (Bool-cases (ltb max_folder_uncompressed n)) [
      | inl large ↦ absurd (ground arith)
      | inr fits ↦ write_sized-Wrote deflate name n r s empty (ground arith) (rw fits at h)
    ]
