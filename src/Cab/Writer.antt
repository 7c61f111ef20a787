-- ===== src/Cab/Writer.antt =====
-- cab/writer.go.
pub mod Termination
pub mod Total
pub mod Blocks
pub mod Refines
pub mod Fixed
pub mod Stream
pub mod Pieces
use debugsymd.Base.{
  ℕ, zero, suc, ◌+◌, ◌-◌, ◌*◌, ◌/◌, ◌%◌, ◌^◌, Bool, true, false, not, ◌&&◌, ◌||◌, Option, none,
  some, [], ◌∷◌, ◌++◌, ltb, leb, ◌==◌, if◌then◌else◌, Bytes, codes, length, take, drop, replicate,
  ℤ, pos, negsuc,
}
use debugsymd.Cab.Constants.{
  header_signature, version_major, version_minor, compression_mszip, attrib_archive, cf_header_size,
  cf_folder_size, cf_file_fixed_size, cf_data_header_len, off_cb_cabinet, off_c_cf_data,
  max_block_uncompressed, max_blocks, max_folder_uncompressed, dos_date, dos_time, le16, le32,
}
use debugsymd.Cab.Out.{
  Out, CabError, file_too_large, size_mismatch, empty_name, bad_name, deflate_failed, read_failed,
  write_failed, seek_failed, Outcome, done, failed_with, out_of_fuel, Cab, ◌>>=◌, ◌>>◌, pure, fail,
  write_file, seek_file, Reader,
}
use debugsymd.Cab.Mszip.{block}

-- the loop of `encodeName`
unfoldable pub printable : Bytes → Bool
printable [] = true
printable (c ∷ s) = if ltb c 0x20 || ltb 0x7e c then false else printable s

unfoldable pub encode_name : Bytes → Cab Bytes
unfolding printable
encode_name name =
    if length name == 0
    then fail empty_name
    else if not (printable name)
    then fail bad_name
    else pure (name ++ (0 ∷ []))

-- `copy(buffer[at:], p)` and `PutUint…(buffer[at:], …)`, within bounds
unfoldable pub put : ℕ → Bytes → Bytes → Bytes
put at p buffer = take at buffer ++ (p ++ drop (at + length p) buffer)

-- `errWriter.write`
unfoldable pub ew_write : Bytes → Out → Out
ew_write p s =
    if s.failed then s else (let (wrote, s') = write_file p s in record s' { failed = not wrote })

unfoldable pub header_bytes : ℕ → Bytes
unfolding put le16 le32 replicate
header_bytes coff_files = put 28 (le16 1) (
    put 26 (le16 1) (
      put 25 (version_major ∷ []) (
        put 24 (version_minor ∷ [])
          (put 16 (le32 coff_files) (put 0 header_signature (replicate cf_header_size 0))))))

unfoldable pub folder_bytes : ℕ → Bytes
unfolding put le16 le32 replicate
folder_bytes first_data_offset =
    put 6 (le16 compression_mszip) (put 0 (le32 first_data_offset) (replicate cf_folder_size 0))

unfoldable pub file_bytes : ℕ → Bytes → Bytes
unfolding put le16 le32 replicate
file_bytes size name = put 16 name (
    put 14 (le16 attrib_archive) (
      put 12 (le16 dos_time) (
        put 10 (le16 dos_date)
          (put 0 (le32 size) (replicate (cf_file_fixed_size + length name) 0)))))

unfoldable pub write_header : ℕ → Out → Out
write_header coff_files s = ew_write (header_bytes coff_files) s

unfoldable pub write_folder : ℕ → Out → Out
write_folder first_data_offset s = ew_write (folder_bytes first_data_offset) s

unfoldable pub write_cf_file : ℕ → Bytes → Out → Out
write_cf_file size name s = ew_write (file_bytes size name) s

-- A chunk, whether the input ended, and the reader behind it.
unfoldable pub read_chunk : Reader → Cab (Bytes × Bool × Reader)
read_chunk r =
    if leb max_block_uncompressed (length r.left)
    then pure (
      take max_block_uncompressed r.left,
      false,
      record r { left = drop max_block_uncompressed r.left },
    )
    else if r.broken
    then fail read_failed
    else pure (r.left, true, record r { left = [] })

-- a check of `w.err`
unfoldable pub check_writes : Cab Unit
check_writes s = if s.failed then failed_with write_failed s else done tt s

abbrev pub through : (Out → Out) → Cab Unit
through f s = done tt (f s)

unfoldable pub data_header : ℕ → ℕ → Bytes
unfolding le16 le32
data_header cb_data cb_uncomp = le32 0 ++ (le16 cb_data ++ le16 cb_uncomp)

-- `blocks` is a uint16
abbrev pub Totals : Type 0
Totals = ℕ × ℕ

module _ (deflate : Bytes → Option Bytes) where
  unfoldable pub compress : Bytes → Cab Bytes
  compress chunk s = elim (block deflate chunk) [
    | some payload ↦ done payload s
    | none ↦ failed_with deflate_failed s
  ]

  -- the body of `if n > 0 || blocks == 0`
  unfoldable pub write_block : Bytes → ℕ → ℕ → Cab Totals
  write_block chunk blocks total = do
    payload ← compress chunk
    if blocks == max_blocks then fail file_too_large else do
      through (ew_write (data_header (length payload) (length chunk)))
      through (ew_write payload)
      check_writes
      pure ((blocks + 1) % 2 ^ 16, total + (cf_data_header_len + length payload))

  unfoldable pub emit_chunk : Bytes → ℕ → ℕ → Cab Totals
  emit_chunk chunk blocks total =
      if ltb 0 (length chunk) || blocks == 0
      then write_block chunk blocks total
      else pure (blocks, total)

  -- the loop of `streamBody`: the block count, the total and the bytes seen
  unfoldable pub stream_loop : ℕ → Reader → ℕ → ℕ → ℕ → Cab (ℕ × ℕ × ℕ)
  stream_loop zero r blocks total seen s = out_of_fuel
  stream_loop (suc fuel) r blocks total seen s =
      (do
        (chunk, eof, r') ← read_chunk r
        (blocks', total') ← emit_chunk chunk blocks total
        let rest = stream_loop fuel r' blocks' total' (seen + length chunk)
        if eof then pure (blocks', total', seen + length chunk) else rest)
        s

  -- `seen` starts at 0. Each round but the last takes a full chunk, so this fuel is enough.
  unfoldable pub stream_body : Reader → ℕ → ℕ → Cab Totals
  stream_body r first_data_offset size = do
    (blocks, total, seen) ←
        stream_loop (length r.left / max_block_uncompressed + 1) r 0 first_data_offset 0
    if not (seen == size) then fail size_mismatch else pure (blocks, total)

unfoldable pub seek_to : ℕ → Cab Unit
seek_to at s =
    let (ok, s') = seek_file at s in if ok then done tt s' else failed_with seek_failed s'

unfoldable pub write_out : Bytes → Cab Unit
write_out p s =
    let (ok, s') = write_file p s in if ok then done tt s' else failed_with write_failed s'

-- `Seek(0, io.SeekEnd)`
unfoldable pub seek_end : Cab Unit
unfolding seek_to
seek_end s = seek_to (length s.contents) s

unfoldable pub patch : ℕ → ℕ → Cab Unit
patch total blocks = do
  seek_to off_cb_cabinet
  write_out (le32 total)
  seek_to off_c_cf_data
  write_out (le16 blocks)
  seek_end

-- the guard at the entry of `Write`
unfoldable pub too_large : ℤ → Bool
too_large (negsuc n) = true
too_large (pos n) = ltb max_folder_uncompressed n

-- the size behind that guard
unfoldable pub size_of : ℤ → ℕ
size_of (negsuc n) = 0
size_of (pos n) = n

module _ (deflate : Bytes → Option Bytes) where
  unfoldable pub write_sized : Bytes → ℕ → Reader → Cab Unit
  write_sized inner_filename size r = do
    name ← encode_name inner_filename
    let coff_files : ℕ = cf_header_size + cf_folder_size
    let first_data_offset = coff_files + (cf_file_fixed_size + length name)
    through (write_header coff_files)
    through (write_folder first_data_offset)
    through (write_cf_file size name)
    check_writes
    (blocks, total) ← stream_body deflate r first_data_offset size
    patch total blocks

  -- `Write`
  unfoldable pub write_cab : Bytes → ℤ → Reader → Cab Unit
  write_cab inner_filename size r =
      if too_large size then fail file_too_large else write_sized inner_filename (size_of size) r
