-- ===== src/Tests/CabRuns.antt =====
-- A small cabinet, byte by byte, and the theorems on `Write` at it.
use debugsymd.Base.{
  zero, suc, ◌≡◌, ◌≢◌, refl, true, false, Option, none, some, [], ◌∷◌, ◌++◌, ltb, if◌then◌else◌,
  arith, Bool-cases, inl, inr, Bytes, codes, length, pos, take, drop, replicate,
}
use debugsymd.Cab.Constants.{le16, le32}
use debugsymd.Cab.Out.{Out, done, out_of_fuel, Reader, write_as, seek_as, overwrite}
use debugsymd.Cab.Mszip.{stored, block}
use debugsymd.Cab.Writer.{
  printable, write_cab, too_large, size_of, write_sized, encode_name, write_header, write_folder,
  write_cf_file, header_bytes, folder_bytes, file_bytes, put, ew_write, check_writes, stream_body,
  stream_loop, read_chunk, emit_chunk, write_block, compress, data_header, patch, seek_to,
  write_out, seek_end,
}
use debugsymd.Cab.Writer.Refines.{Wrote, IsEmpty, write_cab-cabinet}
use debugsymd.Cab.Writer.Total.{Compresses, write_cab-succeeds}
use debugsymd.Cab.Writer.Termination.{write_cab-Ends}
use debugsymd.Cab.Extract.{extract}
use debugsymd.Cab.Extract.Blocks.{Inflates}
use debugsymd.Cab.RoundTrip.{extract-write_cab}

-- A compressor that stores, and the decoder of stored blocks.
abbrev pub store : Bytes → Option Bytes
store text = if ltb (length text) 65536 then some (stored text) else none

abbrev pub unstore : Bytes → Option Bytes
unstore (suc zero ∷ a ∷ b ∷ c ∷ d ∷ text) = some text
unstore _ = none

unstore-stored : (text : Bytes) → unstore (stored text) ≡ some text
unfolding stored le16
unstore-stored text = refl

unstore-store : (text c : Bytes) → store text ≡ some c → unstore c ≡ some text
unstore-store text c h = elim (Bool-cases (ltb (length text) 65536)) [
  | inl short ↦ let same : stored text ≡ c = ground arith in rw (← same) (unstore-stored text)
  | inr long ↦ absurd (ground arith)
]

pub store-Inflates : Inflates store unstore
unfolding le16
store-Inflates = record { of_deflate = unstore-store; of_stored = λ text h. refl }

abbrev name : Bytes
name = codes "a.dll"

abbrev source : Reader
source = record { left = codes "MZ"; broken = false }

abbrev empty : Out
empty = record { contents = []; position = 0; faults = []; failed = false }

abbrev cabinet_bytes : Bytes
cabinet_bytes =
    codes "MSCF"
    ++ (0 ∷ 0 ∷ 0 ∷ 0 ∷ 83 ∷ 0 ∷ 0 ∷ 0 ∷ 0 ∷ 0 ∷ 0 ∷ 0 ∷ 44 ∷ 0 ∷ 0 ∷ 0 ∷ 0 ∷ 0 ∷ 0 ∷ 0 ∷ 3 ∷ 1 ∷ 1
        ∷ 0 ∷ 1 ∷ 0 ∷ 0 ∷ 0 ∷ 0 ∷ 0 ∷ 0 ∷ 0 ∷ [])
    ++ (66 ∷ 0 ∷ 0 ∷ 0 ∷ 1 ∷ 0 ∷ 1 ∷ 0 ∷ [])
    ++ (2 ∷ 0 ∷ 0 ∷ 0 ∷ 0 ∷ 0 ∷ 0 ∷ 0 ∷ 0 ∷ 0 ∷ 33 ∷ 0 ∷ 0 ∷ 0 ∷ 32 ∷ 0 ∷ [])
    ++ (codes "a.dll" ++ (0 ∷ []))
    ++ (0 ∷ 0 ∷ 0 ∷ 0 ∷ 9 ∷ 0 ∷ 2 ∷ 0 ∷ [])
    ++ (codes "CK" ++ (1 ∷ 2 ∷ 0 ∷ 253 ∷ 255 ∷ []))
    ++ codes "MZ"

abbrev full : Out
full = record { contents = cabinet_bytes; position = 83; faults = []; failed = false }

writes : write_cab store name (pos 2) source empty ≡ done tt full
unfolding write_cab too_large size_of write_sized encode_name printable write_header write_folder
    write_cf_file header_bytes folder_bytes file_bytes put ew_write check_writes stream_body
    stream_loop read_chunk emit_chunk write_block compress block data_header stored patch seek_to
    write_out seek_end write_as seek_as overwrite le16 le32 take drop replicate
writes = refl

empty-IsEmpty : IsEmpty empty
empty-IsEmpty = record { no_bytes = refl; at_start = refl; no_error = refl }

abbrev blind : Bytes → Option Bytes
blind text = some (stored text)

blind-Compresses : Compresses blind
blind-Compresses text = (stored text, refl)

write_cab-cabinet_example : Wrote store name (pos 2) source full
write_cab-cabinet_example =
    write_cab-cabinet store name (pos 2) source empty {s' = full} empty-IsEmpty writes

extract-write_cab_example : extract unstore cabinet_bytes ≡ some (name, codes "MZ")
extract-write_cab_example =
    extract-write_cab store unstore name (pos 2) source empty {s' = full} store-Inflates
      empty-IsEmpty (omega arith) writes

write_cab-succeeds_example : (t : Out) × (write_cab blind name (pos 2) source empty ≡ done tt t)
write_cab-succeeds_example =
    write_cab-succeeds blind name source empty blind-Compresses
      (record { no_faults = refl; no_error = refl }) refl (omega arith) name_printable (omega arith)
  where
    name_printable : printable name ≡ true
    name_printable = unfold printable in refl

write_cab-Ends_example : write_cab store name (pos 3) source empty ≢ out_of_fuel
write_cab-Ends_example = write_cab-Ends store name (pos 3) source empty
