-- ===== src/Cab/Writer/Fixed.antt =====
-- The parts of fixed layout, and the patch of the two fields that are known last.
use debugsymd.Base.{
  List, ℕ, zero, suc, ◌+◌, ◌≡◌, refl, sym, ap, ◌∙◌, [], ◌∷◌, ◌++◌, append-nil, arith, Bytes, length,
  take, drop, replicate, length-append, take-append, drop_short, if◌then◌else◌,
}
use debugsymd.Cab.Constants.{le16, le32}
use debugsymd.Cab.Out.{
  seek_failed, write_failed, Fault, fine, fails, Out, done, failed_with, write_as, seek_as,
  overwrite,
}
use debugsymd.Cab.Out.Append.{>>=-eq-done, overwrite_inside}
use debugsymd.Cab.Layout.{header, folder, file}
use debugsymd.Cab.Writer.{
  put, header_bytes, folder_bytes, file_bytes, seek_to, write_out, seek_end, patch,
}

pub header_bytes-eq-header : header_bytes 44 ≡ header 0
unfolding header_bytes header take drop
header_bytes-eq-header = refl

pub folder_bytes-eq-folder : (offset : ℕ) → folder_bytes offset ≡ folder offset 0
unfolding folder_bytes folder take drop
folder_bytes-eq-folder offset = refl

replicate-length : (n : ℕ) → length (replicate {A = ℕ} n 0) ≡ n
unfolding replicate
replicate-length zero = refl
replicate-length (suc n) = ap suc (replicate-length n)

-- `copy` into the rest of a buffer of the right length.
put_rest :
    (front back name : Bytes)
    → length back ≡ length name
    → put (length front) name (front ++ back) ≡ front ++ name
unfolding put
put_rest front back name e = rw (
  take-append,
  drop_short (length front + length name) (front ++ back) (omega (arith, length-append front back)),
  append-nil,
)

sixteen :
    (n : ℕ)
    → replicate {A = ℕ} (16 + n) 0
      ≡ 0 ∷ 0 ∷ 0 ∷ 0 ∷ 0 ∷ 0 ∷ 0 ∷ 0 ∷ 0 ∷ 0 ∷ 0 ∷ 0 ∷ 0 ∷ 0 ∷ 0 ∷ 0 ∷ replicate n 0
unfolding replicate
sixteen n =
    let e : 16 + n
        ≡ suc (
            suc (
              suc
                (suc (suc (suc (suc (suc (suc (suc (suc (suc (suc (suc (suc (suc n))))))))))))))) =
      omega arith in
    rw e

pub file_bytes-eq-file :
    (size : ℕ) (name : Bytes) → file_bytes size (name ++ (0 ∷ [])) ≡ file size name
unfolding file_bytes put file take drop
file_bytes-eq-file size name = rw sixteen (
    put_rest (le32 size ++ (le32 0 ++ (le16 0 ++ (le16 0x21 ++ (le16 0 ++ le16 0x20)))))
      (replicate (length (name ++ (0 ∷ []))) 0) (name ++ (0 ∷ [])) (replicate-length _))

seek_to-eq-done :
    (at : ℕ) (s : Out) {s' : Out}
    → seek_to at s ≡ done tt s'
    → (s'.contents ≡ s.contents) × (s'.position ≡ at) × (s'.failed ≡ s.failed)
unfolding seek_to
seek_to-eq-done at s {s'} h = go s.faults s' h
  where
    go :
        (fs : List Fault) (s' : Out)
        → (let (ok, t) = seek_as fs at s in if ok then done tt t else failed_with seek_failed t)
          ≡ done tt s'
        → (s'.contents ≡ s.contents) × (s'.position ≡ at) × (s'.failed ≡ s.failed)
    go [] s' h = unfold seek_as in ground arith
    go (fine ∷ fs) s' h = unfold seek_as in ground arith
    go (fails n ∷ fs) s' h = unfold seek_as in ground arith

write_out-eq-done :
    (p : Bytes) (s : Out) {s' : Out}
    → write_out p s ≡ done tt s'
    → (s'.contents ≡ overwrite s.position p s.contents) × (s'.failed ≡ s.failed)
unfolding write_out
write_out-eq-done p s {s'} h = go s.faults s' h
  where
    go :
        (fs : List Fault) (s' : Out)
        → (let (ok, t) = write_as fs p s in if ok then done tt t else failed_with write_failed t)
          ≡ done tt s'
        → (s'.contents ≡ overwrite s.position p s.contents) × (s'.failed ≡ s.failed)
    go [] s' h = unfold write_as in ground arith
    go (fine ∷ fs) s' h = unfold write_as in ground arith
    go (fails n ∷ fs) s' h = unfold write_as in ground arith

-- A patch that is done has put the two fields over what was there.
patch-eq-done :
    (total blocks : ℕ) (s : Out) {s' : Out}
    → patch total blocks s ≡ done tt s'
    → (s'.contents ≡ overwrite 40 (le16 blocks) (overwrite 8 (le32 total) s.contents))
      × (s'.position ≡ length s'.contents)
      × (s'.failed ≡ s.failed)
unfolding patch seek_end
patch-eq-done total blocks s h =
    let (_, s₁, h₁, k₁) = >>=-eq-done (seek_to 8) _ s h in
    let (_, s₂, h₂, k₂) = >>=-eq-done (write_out (le32 total)) _ s₁ k₁ in
    let (_, s₃, h₃, k₃) = >>=-eq-done (seek_to 40) _ s₂ k₂ in
    let (_, s₄, h₄, h₅) = >>=-eq-done (write_out (le16 blocks)) _ s₃ k₃ in
    let (c₁, p₁, f₁) = seek_to-eq-done 8 s h₁ in
    let (c₂, f₂) = write_out-eq-done (le32 total) s₁ h₂ in
    let (c₃, p₃, f₃) = seek_to-eq-done 40 s₂ h₃ in
    let (c₄, f₄) = write_out-eq-done (le16 blocks) s₃ h₄ in
    let (c₅, p₅, f₅) = seek_to-eq-done (length s₄.contents) s₄ h₅ in
    (c₅ ∙ (c₄ ∙ rw (p₃, c₃, c₂, p₁, c₁)), p₅ ∙ ap length (sym c₅), f₅ ∙ (f₄ ∙ (f₃ ∙ (f₂ ∙ f₁))))

patched_total :
    (total : ℕ) (rest : Bytes) → overwrite 8 (le32 total) (header 0 ++ rest) ≡ header total ++ rest
unfolding header take drop
patched_total total rest = overwrite_inside 8 (le32 total) (header 0 ++ rest) (omega arith)

patched_count :
    (offset blocks total : ℕ) (rest : Bytes)
    → overwrite 40 (le16 blocks) (header total ++ (folder offset 0 ++ rest))
      ≡ header total ++ (folder offset blocks ++ rest)
unfolding header folder take drop
patched_count offset blocks total rest =
    overwrite_inside 40 (le16 blocks) (header total ++ (folder offset 0 ++ rest)) (omega arith)

pub patch-eq-cabinet :
    (total blocks offset : ℕ) (rest : Bytes) (s : Out) {s' : Out}
    → s.contents ≡ header 0 ++ (folder offset 0 ++ rest)
    → patch total blocks s ≡ done tt s'
    → (s'.contents ≡ header total ++ (folder offset blocks ++ rest))
      × (s'.position ≡ length s'.contents)
      × (s'.failed ≡ s.failed)
patch-eq-cabinet total blocks offset rest s e h =
    let (c, p, f) = patch-eq-done total blocks s h in
    (c ∙ rw (e, patched_total) (patched_count offset blocks total rest), p, f)
