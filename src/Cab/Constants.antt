-- ===== src/Cab/Constants.antt =====
-- cab/constants.go, and `encoding/binary`'s little-endian words.
use debugsymd.Base.{ℕ, ◌*◌, ◌/◌, ◌%◌, [], ◌∷◌, Bytes, codes}

abbrev pub header_signature : Bytes
header_signature = codes "MSCF"

abbrev pub version_major : ℕ
version_major = 1

abbrev pub version_minor : ℕ
version_minor = 3

abbrev pub compression_mszip : ℕ
compression_mszip = 1

abbrev pub attrib_archive : ℕ
attrib_archive = 0x20

abbrev pub cf_header_size : ℕ
cf_header_size = 36

abbrev pub cf_folder_size : ℕ
cf_folder_size = 8

abbrev pub cf_file_fixed_size : ℕ
cf_file_fixed_size = 16

abbrev pub cf_data_header_len : ℕ
cf_data_header_len = 8

abbrev pub stored_header_len : ℕ
stored_header_len = 5

abbrev pub deflate_stored_final_byte : ℕ
deflate_stored_final_byte = 1

abbrev pub off_cb_cabinet : ℕ
off_cb_cabinet = 8

abbrev pub off_c_cf_data : ℕ
off_c_cf_data = 40

abbrev pub max_block_uncompressed : ℕ
max_block_uncompressed = 32768

abbrev pub max_blocks : ℕ
max_blocks = 0xffff

abbrev pub max_folder_uncompressed : ℕ
max_folder_uncompressed = max_blocks * max_block_uncompressed

abbrev pub dos_date : ℕ
dos_date = 0x21

abbrev pub dos_time : ℕ
dos_time = 0

abbrev pub mszip_signature : Bytes
mszip_signature = codes "CK"

-- `PutUint16` and `PutUint32` of a conversion to that width: what is above it is cut off.
unfoldable pub le16 : ℕ → Bytes
le16 v = v % 256 ∷ v / 256 % 256 ∷ []

unfoldable pub le32 : ℕ → Bytes
le32 v = v % 256 ∷ v / 256 % 256 ∷ v / 65536 % 256 ∷ v / 16777216 % 256 ∷ []
