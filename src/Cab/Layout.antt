-- ===== src/Cab/Layout.antt =====
-- A cabinet as the file format describes it, field by field, with the sizes known beforehand. Nothing
-- here is taken from the writer but the payload of a block.
use debugsymd.Base.{
  ◌≡◌, arith, ℕ, zero, suc, ◌+◌, Option, some, List, [], ◌∷◌, ◌++◌, ◌==◌, if◌then◌else◌, ◌>>=◌,
  Bytes, codes, length, take, drop,
}
use debugsymd.Cab.Constants.{max_block_uncompressed, le16, le32}
use debugsymd.Cab.Mszip.{block}

-- CFHEADER
unfoldable pub header : ℕ → Bytes
unfolding le16 le32
header total =
    codes "MSCF"
    ++ (le32 0
        ++ (le32 total
            ++ (le32 0
                ++ (le32 44
                    ++ (le32 0
                        ++ (3 ∷ 1 ∷ (le16 1 ++ (le16 1 ++ (le16 0 ++ (le16 0 ++ le16 0))))))))))

-- CFFOLDER
unfoldable pub folder : ℕ → ℕ → Bytes
unfolding le16 le32
folder offset blocks = le32 offset ++ (le16 blocks ++ le16 1)

-- CFFILE; the name ends in a NUL
unfoldable pub file : ℕ → Bytes → Bytes
unfolding le16 le32
file size name =
    le32 size
    ++ (le32 0 ++ (le16 0 ++ (le16 0x21 ++ (le16 0 ++ (le16 0x20 ++ (name ++ (0 ∷ [])))))))

-- CFDATA
unfoldable pub data_block : Bytes → Bytes → Bytes
unfolding le16 le32
data_block chunk payload = le32 0 ++ (le16 (length payload) ++ (le16 (length chunk) ++ payload))

pub length-data_block :
    (chunk payload : Bytes) → length (data_block chunk payload) ≡ 8 + length payload
unfolding data_block
length-data_block chunk payload = omega arith

-- The text in chunks of 32 KiB, the last of them shorter.
unfoldable pub cut : ℕ → Bytes → List Bytes
cut zero text = []
cut (suc k) text =
    if length text == 0
    then []
    else take max_block_uncompressed text ∷ cut k (drop max_block_uncompressed text)

-- The empty text has one empty chunk.
unfoldable pub chunks : Bytes → List Bytes
unfolding cut
chunks text = if length text == 0 then [] ∷ [] else cut (length text) text

module _ (deflate : Bytes → Option Bytes) where
  -- the folder's blocks, if none of them fails to compress
  unfoldable pub body : List Bytes → Option Bytes
  body [] = some []
  body (chunk ∷ rest) = block deflate chunk >>= λ payload.
      body rest >>= λ blocks. some (data_block chunk payload ++ blocks)

unfoldable pub cabinet : Bytes → Bytes → ℕ → Bytes → Bytes
cabinet name text blocks body =
    let offset = 61 + length name in
    header (offset + length body) ++ (folder offset blocks ++ (file (length text) name ++ body))
