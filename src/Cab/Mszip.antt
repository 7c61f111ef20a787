-- ===== src/Cab/Mszip.antt =====
-- cab/mszip.go: one block of the folder. `deflate` is `flate.Writer` from an empty history on, as
-- the calls of `Reset`, `Write` and `Close` use it; `none` is an error of `Write` or of `Close`.
use debugsymd.Base.{
  ◌+◌, ◌-◌, ◌%◌, Option, some, ◌∷◌, ◌++◌, ltb, if◌then◌else◌, ◌>>=◌, Bytes, length,
}
use debugsymd.Cab.Constants.{stored_header_len, deflate_stored_final_byte, mszip_signature, le16}

-- `writeStored`; `^uint16(n)` is 65535 - n
unfoldable pub stored : Bytes → Bytes
unfolding le16
stored bytes =
    deflate_stored_final_byte
    ∷ (le16 (length bytes % 65536) ++ (le16 (65535 - length bytes % 65536) ++ bytes))

module _ (deflate : Bytes → Option Bytes) where
  unfoldable pub block : Bytes → Option Bytes
  unfolding stored
  block bytes = deflate bytes >>= λ deflated. some (
      mszip_signature
      ++ (if ltb (stored_header_len + length bytes) (length deflated)
          then stored bytes
          else deflated))
