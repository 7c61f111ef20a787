-- ===== src/Cab/RoundTrip.antt =====
-- A cabinet that `Write` produced is read back as the name and the bytes that it was given.
use debugsymd.Base.{
  ℕ, ◌+◌, ◌*◌, ◌/◌, ◌%◌, ◌<◌, ◌≡◌, refl, sym, ap, ◌∙◌, true, Option, some, [], ◌∷◌, ◌++◌,
  append_assoc, arith, Bytes, length, take, drop, length-append, drop-append, ℤ, ==_iff,
}
use debugsymd.Cab.Out.{Out, done, Reader}
use debugsymd.Cab.Layout.{header, folder, file, chunks, cabinet}
use debugsymd.Cab.Extract.{
  read_folder, read_header, read_file, nul_terminated, require, data_texts, extract,
}
use debugsymd.Cab.Extract.Blocks.{Inflates, data_texts-body, chunks_lem}
use debugsymd.Cab.Writer.{printable, write_cab}
use debugsymd.Cab.Writer.Refines.{IsEmpty, write_cab-cabinet}
use debugsymd.GoStrings.{bytes_eq}

nul_terminated-append :
    (name rest : Bytes)
    → printable name ≡ true
    → nul_terminated (name ++ (0 ∷ rest)) ≡ some (name, rest)
unfolding nul_terminated printable
nul_terminated-append [] rest h = refl
nul_terminated-append (c ∷ name) rest h = ground (arith, nul_terminated-append name rest)

length-cabinet_parts :
    (total offset blocks size : ℕ) (name : Bytes)
    → length (header total ++ (folder offset blocks ++ file size name)) ≡ 61 + length name
unfolding header folder file
length-cabinet_parts total offset blocks size name = omega (arith, length-append name (0 ∷ []))

-- What stands at each offset that the reader follows.
at_data :
    (total blocks size : ℕ) (name bytes : Bytes)
    → drop
        (61 + length name)
        (header total ++ (folder (61 + length name) blocks ++ (file size name ++ bytes)))
      ≡ bytes
at_data total blocks size name bytes =
    let offset = 61 + length name in
    let front = header total ++ (folder offset blocks ++ file size name) in
    let whole : header total ++ (folder offset blocks ++ (file size name ++ bytes))
        ≡ front ++ bytes =
      rw (append_assoc, append_assoc) in
    ap (λ (x : Bytes). drop (61 + length name) x) whole
    ∙ (ap (λ (n : ℕ). drop n (front ++ bytes))
          (sym (length-cabinet_parts total offset blocks size name))
        ∙ drop-append front bytes)

-- The words of a header and of the other parts, as the reader puts them together again.
word32_value :
    (v : ℕ)
    → v < 4294967296
    → v % 256 + 256 * (v / 256 % 256) + 65536 * (v / 65536 % 256) + 16777216 * (v / 16777216 % 256)
      ≡ v
word32_value v h = omega arith

word16_value : (v : ℕ) → v < 65536 → v % 256 + 256 * (v / 256 % 256) ≡ v
word16_value v h = omega arith

read_header-header :
    (total : ℕ) (rest : Bytes)
    → total ≡ 36 + length rest
    → total < 4294967296
    → read_header (header total ++ rest) ≡ some 44
unfolding read_header header bytes_eq take drop
read_header-header total rest e h = rw (word32_value total h) (ground arith)

read_folder-folder :
    (offset blocks : ℕ) (rest : Bytes)
    → offset < 4294967296
    → blocks < 65536
    → read_folder (folder offset blocks ++ rest) ≡ some (offset, blocks)
unfolding read_folder folder
read_folder-folder offset blocks rest h k = rw (word32_value offset h, word16_value blocks k)

read_file-file :
    (size : ℕ) (name rest : Bytes)
    → size < 4294967296
    → printable name ≡ true
    → read_file (file size name ++ rest) ≡ some (size, name)
unfolding read_file file drop
read_file-file size name rest h p =
    rw (word32_value size h, append_assoc name (0 ∷ []) rest, nul_terminated-append name rest p)

-- What stands at the offsets that do not depend on the name.
at_folder : (total : ℕ) (rest : Bytes) → drop 36 (header total ++ rest) ≡ rest
unfolding header drop
at_folder total rest = refl

at_file :
    (total offset blocks : ℕ) (rest : Bytes)
    → drop 44 (header total ++ (folder offset blocks ++ rest)) ≡ rest
unfolding header folder drop
at_file total offset blocks rest = refl

extract-cabinet :
    (inflate : Bytes → Option Bytes) (name text bytes : Bytes) (blocks : ℕ)
    → printable name ≡ true
    → 61 + length name + length bytes < 4294967296
    → length text < 4294967296
    → blocks < 65536
    → data_texts inflate blocks bytes ≡ some text
    → extract inflate (cabinet name text blocks bytes) ≡ some (name, text)
unfolding extract cabinet require
extract-cabinet inflate name text bytes blocks p small size_small few h =
    let offset = 61 + length name in
    let total = offset + length bytes in
    let rest = file (length text) name ++ bytes in
    rw (
      read_header-header total (folder offset blocks ++ rest) size (omega arith),
      at_folder total (folder offset blocks ++ rest),
      read_folder-folder offset blocks rest (omega arith) few,
      at_file total offset blocks rest,
      read_file-file (length text) name bytes (omega arith) p,
      at_data total blocks (length text) name bytes,
      h,
      (==_iff (length text) (length text)).1 refl,
    )
  where
    size :
        61 + length name + length bytes
        ≡ 36 + length (folder (61 + length name) blocks ++ (file (length text) name ++ bytes))
    size =
        unfold folder file in
        omega (arith, length-append (name ++ (0 ∷ [])) bytes, length-append name (0 ∷ []))

-- If `Write` to an empty file returns no error, then a reader of the format gets from the file the
-- name and the bytes that `Write` was given, for every compressor that the decoder undoes and every
-- name below 2 ^ 30 bytes: no field was cut off.
pub extract-write_cab :
    (deflate inflate : Bytes → Option Bytes) (name : Bytes) (size : ℤ) (r : Reader) (s : Out)
    {s' : Out}
    → Inflates deflate inflate
    → IsEmpty s
    → length name < 1073741824
    → write_cab deflate name size r s ≡ done tt s'
    → extract inflate s'.contents ≡ some (name, r.left)
extract-write_cab deflate inflate name size r s {s'} laws empty short h =
    let w = write_cab-cabinet deflate name size r s empty h in
    let (joined, fits) = chunks_lem r.left in
    let (texts, bound) =
      data_texts-body deflate inflate laws (chunks r.left) w.blocks fits w.encodes in
    rw w.contents (
      extract-cabinet inflate name r.left w.blocks (length (chunks r.left)) w.printed
        (omega (arith, ap length joined, w.small, w.count_fits)) (omega (arith, w.small))
        (omega (arith, w.count_fits)) (texts ∙ ap some joined))
