-- ===== src/Cab/Extract.antt =====
-- A reader of cabinets, after the format's description: no part of the program, and independent of
-- the writer. It checks each field that a decoder relies on.
pub mod Blocks
use debugsymd.Base.{
  ℕ, zero, suc, ◌+◌, ◌-◌, ◌*◌, ◌≡◌, Bool, true, false, not, ◌&&◌, ◌||◌, Option, none, some, List,
  [], ◌∷◌, ◌++◌, ◌==◌, if◌then◌else◌, ◌>>=◌, leb, Bytes, codes, length, take, drop,
}
use debugsymd.GoStrings.{bytes_eq}

-- Little-endian words at the front, with what follows.
unfoldable pub word16 : Bytes → Option (ℕ × Bytes)
word16 (a ∷ b ∷ rest) = some (a + 256 * b, rest)
word16 _ = none

unfoldable pub word32 : Bytes → Option (ℕ × Bytes)
word32 (a ∷ b ∷ c ∷ d ∷ rest) = some (a + 256 * b + 65536 * c + 16777216 * d, rest)
word32 _ = none

-- A text up to its NUL.
unfoldable pub nul_terminated : Bytes → Option (Bytes × Bytes)
nul_terminated [] = none
nul_terminated (c ∷ s) =
    let rest = nul_terminated s >>= λ p. some (c ∷ p.0, p.1) in
    if c == 0 then some ([], s) else rest

-- `n` bytes, if there are as many.
unfoldable pub split_at : ℕ → Bytes → Option (Bytes × Bytes)
split_at n s = if leb n (length s) then some (take n s, drop n s) else none

unfoldable pub require : Bool → Option (Unit {0})
require true = some tt
require false = none

-- CFHEADER: the signature, the size of the whole, and where the CFFILE stands.
unfoldable pub read_header : Bytes → Option ℕ
unfolding word16 word32 require
read_header s = do
  ok ← require (bytes_eq (take 4 s) (codes "MSCF"))
  (reserved, s₁) ← word32 (drop 4 s)
  (total, s₂) ← word32 s₁
  ok ← require (total == length s)
  (reserved, s₃) ← word32 s₂
  (files_at, s₄) ← word32 s₃
  (reserved, s₅) ← word32 s₄
  (version, s₆) ← word16 s₅
  ok ← require (version == 0x0103)
  (folders, s₇) ← word16 s₆
  (files, s₈) ← word16 s₇
  ok ← require (folders == 1 && files == 1)
  (flags, s₉) ← word16 s₈
  ok ← require (flags == 0)
  some files_at

-- CFFOLDER: where the data stands, and the number of blocks.
unfoldable pub read_folder : Bytes → Option (ℕ × ℕ)
unfolding word16 word32 require
read_folder s = do
  (data_at, s₁) ← word32 s
  (blocks, s₂) ← word16 s₁
  (method, s₃) ← word16 s₂
  ok ← require (method == 1)
  some (data_at, blocks)

-- CFFILE: the size and the name.
unfoldable pub read_file : Bytes → Option (ℕ × Bytes)
unfolding word16 word32 require
read_file s = do
  (size, s₁) ← word32 s
  (start, s₂) ← word32 s₁
  ok ← require (start == 0)
  (folder, s₃) ← word16 s₂
  ok ← require (folder == 0)
  (name, rest) ← nul_terminated (drop 6 s₃)
  some (size, name)

module _ (inflate : Bytes → Option Bytes) where
  -- One CFDATA: the size of the payload, the size of the text, "CK" and a stream.
  unfoldable pub data_text : Bytes → Option (Bytes × Bytes)
  data_text s = do
    (checksum, s₁) ← word32 s
    (stored, s₂) ← word16 s₁
    (size, s₃) ← word16 s₂
    (payload, rest) ← split_at stored s₃
    ok ← require (bytes_eq (take 2 payload) (codes "CK"))
    text ← inflate (drop 2 payload)
    ok ← require (length text == size)
    some (text, rest)

  unfoldable pub data_texts : ℕ → Bytes → Option Bytes
  data_texts zero s = some []
  data_texts (suc n) s = do
    (text, rest) ← data_text s
    texts ← data_texts n rest
    some (text ++ texts)

  -- The name and the text of the one file of the cabinet.
  unfoldable pub extract : Bytes → Option (Bytes × Bytes)
  extract s = do
    files_at ← read_header s
    (data_at, blocks) ← read_folder (drop 36 s)
    (size, name) ← read_file (drop files_at s)
    text ← data_texts blocks (drop data_at s)
    ok ← require (length text == size)
    some (name, text)
