-- ===== src/Cab/Extract/Blocks.antt =====
-- The reader takes apart what one block, and a row of blocks, were made of.
use debugsymd.Base.{
  nil_of_length, ==_iff, ℕ, zero, suc, ◌+◌, ◌-◌, ◌*◌, ◌%◌, ◌≤◌, ◌<◌, ◌≡◌, refl, sym, ap, true,
  false, Option, some, List, [], ◌∷◌, ◌++◌, arith, ltb, ◌==◌, Bytes, codes, length, take, drop, All,
  length-append, length-drop, length-take, take-append, drop-append, take-append-drop, Bool-cases,
  Option-cases, inl, inr,
}
use mathlib.Core.List.{flatten}
use debugsymd.Cab.Constants.{max_block_uncompressed, le16, le32}
use debugsymd.Cab.Mszip.{stored, block}
use debugsymd.Cab.Layout.{data_block, length-data_block, cut, chunks, body}
use debugsymd.Cab.Extract.{word16, word32, split_at, require, data_text, data_texts}
use debugsymd.GoStrings.{bytes_eq}

-- What the decoder of deflate streams is documented to do: it undoes the encoder, and a final stored
-- block (RFC 1951, 3.2.4) stands for the bytes that it carries.
pub record Inflates (deflate inflate : Bytes → Option Bytes) : Type 0 where
  pub of_deflate : (text c : Bytes) → deflate text ≡ some c → inflate c ≡ some text
  pub of_stored :
      (text : Bytes)
      → length text < 65536
      → inflate (1 ∷ (le16 (length text) ++ (le16 (65535 - length text) ++ text))) ≡ some text

pub word16-le16 : (v : ℕ) (rest : Bytes) → v < 65536 → word16 (le16 v ++ rest) ≡ some (v, rest)
unfolding word16 le16
word16-le16 v rest h = ground arith

pub word32-le32 : (v : ℕ) (rest : Bytes) → v < 4294967296 → word32 (le32 v ++ rest) ≡ some (v, rest)
unfolding word32 le32
word32-le32 v rest h = ground arith

split_at-append : (xs ys : Bytes) → split_at (length xs) (xs ++ ys) ≡ some (xs, ys)
unfolding split_at
split_at-append xs ys = ground (arith, length-append xs ys, take-append xs ys, drop-append xs ys)

module _ (deflate inflate : Bytes → Option Bytes) (laws : Inflates deflate inflate) where
  inflate-stored : (text : Bytes) → length text < 65536 → inflate (stored text) ≡ some text
  unfolding stored
  inflate-stored text h =
      let small : length text % 65536 ≡ length text = omega arith in
      rw small (laws.of_stored text h)

  length-stored : (text : Bytes) → length (stored text) ≡ length text + 5
  unfolding stored
  length-stored text = omega arith

  signed :
      (chunk stream payload : Bytes)
      → payload ≡ b'C' ∷ b'K' ∷ stream
      → inflate stream ≡ some chunk
      → length stream ≤ length chunk + 5
      → (bytes_eq (take 2 payload) (codes "CK") ≡ true)
        × (inflate (drop 2 payload) ≡ some chunk)
        × (length payload ≤ length chunk + 7)
  unfolding bytes_eq take drop
  signed chunk stream payload e h fits = rw e (refl, h, omega arith)

  -- The payload of a block: its signature, a stream for the chunk, and at most seven bytes more.
  pub block-payload :
      (chunk payload : Bytes)
      → length chunk ≤ max_block_uncompressed
      → block deflate chunk ≡ some payload
      → (bytes_eq (take 2 payload) (codes "CK") ≡ true)
        × (inflate (drop 2 payload) ≡ some chunk)
        × (length payload ≤ length chunk + 7)
  unfolding block
  block-payload chunk payload h e = elim (Option-cases (deflate chunk)) [
    | inl n ↦ absurd (ground arith)
    | inr (c, d) ↦ elim (Bool-cases (ltb (5 + length chunk) (length c))) [
      | inl long ↦
          signed chunk (stored chunk) payload (ground arith) (inflate-stored chunk (omega arith))
            (omega (arith, length-stored chunk))
      | inr short ↦ signed chunk c payload (ground arith) (laws.of_deflate chunk c d) (ground arith)
    ]
  ]

  data_block-append :
      (chunk payload rest : Bytes)
      → data_block chunk payload ++ rest
        ≡ le32 0 ++ (le16 (length payload) ++ (le16 (length chunk) ++ (payload ++ rest)))
  unfolding data_block
  data_block-append chunk payload rest = refl

  -- One block is read back, whatever follows it.
  data_text-data_block :
      (chunk payload rest : Bytes)
      → length chunk ≤ max_block_uncompressed
      → block deflate chunk ≡ some payload
      → data_text inflate (data_block chunk payload ++ rest) ≡ some (chunk, rest)
  unfolding data_text require
  data_text-data_block chunk payload rest h e =
      let (sign, text, fits) = block-payload chunk payload h e in
      rw (
        data_block-append,
        word32-le32 0 (le16 (length payload) ++ (le16 (length chunk) ++ (payload ++ rest)))
            (omega arith),
        word16-le16 (length payload) (le16 (length chunk) ++ (payload ++ rest)) (omega arith),
        word16-le16 (length chunk) (payload ++ rest) (omega arith),
        split_at-append payload rest,
        sign,
        text,
        (==_iff (length chunk) (length chunk)).1 refl,
      )

  -- The chunks of a body are read back in order.
  pub data_texts-body :
      (pieces : List Bytes) (bytes : Bytes)
      → All (λ c. length c ≤ max_block_uncompressed) pieces
      → body deflate pieces ≡ some bytes
      → (data_texts inflate (length pieces) bytes ≡ some (flatten pieces))
        × (length bytes ≤ length (flatten pieces) + 15 * length pieces)
  unfolding data_texts body flatten
  data_texts-body [] bytes fits h = (refl, ground arith)
  data_texts-body (c ∷ cs) bytes (fit, fits) h = elim (Option-cases (block deflate c)) [
    | inl n ↦ absurd (ground arith)
    | inr (payload, e) ↦ elim (Option-cases (body deflate cs)) [
      | inl n ↦ absurd (ground arith)
      | inr (more, e') ↦
          let (rest, size) = data_texts-body cs more fits e' in
          let whole : bytes ≡ data_block c payload ++ more = ground arith in
          (
            rw (whole, data_text-data_block c payload more fit e, rest),
            omega (
              arith,
              length-data_block c payload,
              ap length whole,
              length-append (data_block c payload) more,
              (block-payload c payload fit e).2,
              size,
              length-append c (flatten cs),
            ),
          )
    ]
  ]

-- The chunks of a text are its bytes in order, and none is longer than 32 KiB.
cut_lem :
    (k : ℕ) (text : Bytes)
    → length text ≤ k
    → (flatten (cut k text) ≡ text) × All (λ c. length c ≤ max_block_uncompressed) (cut k text)
unfolding cut flatten
cut_lem zero text h = (sym (nil_of_length text (omega arith)), tt)
cut_lem (suc k) text h = elim (Bool-cases (length text == 0)) [
  | inl none_left ↦ rw none_left (sym (nil_of_length text (ground arith)), tt)
  | inr some_left ↦
      let some_left' : 0 < length text = ground arith in
      let (joined, fits) =
        cut_lem k (drop max_block_uncompressed text)
          (omega (arith, length-drop max_block_uncompressed text)) in
      rw some_left (
        rw joined (take-append-drop max_block_uncompressed text),
        (omega (arith, length-take max_block_uncompressed text), fits),
      )
]

some_left : (c : ℕ) (text : Bytes) → (length (c ∷ text) == 0) ≡ false
some_left c text = ground arith

pub chunks_lem :
    (text : Bytes)
    → (flatten (chunks text) ≡ text) × All (λ c. length c ≤ max_block_uncompressed) (chunks text)
unfolding chunks flatten
chunks_lem [] = (refl, (omega arith, tt))
chunks_lem (c ∷ text) =
    rw (some_left c text)
      (rw (some_left c text) at (cut_lem (suc (length text)) (c ∷ text) (omega arith)))
