-- ===== src/Symstore/Constants.antt =====
-- symstore/constants.go.
use debugsymd.Base.{ℕ, List, [], ◌∷◌, Bytes, codes}

abbrev pub octet_stream : Bytes
octet_stream = codes "application/octet-stream"

abbrev pub cab_content_type : Bytes
cab_content_type = codes "application/vnd.ms-cab-compressed"

abbrev pub zip_content_type : Bytes
zip_content_type = codes "application/zip"

abbrev pub prefix_elf_debug : Bytes
prefix_elf_debug = codes "elf-buildid-sym-"

abbrev pub prefix_elf_code : Bytes
prefix_elf_code = codes "elf-buildid-"

abbrev pub prefix_mach_debug : Bytes
prefix_mach_debug = codes "mach-uuid-sym-"

abbrev pub prefix_mach_code : Bytes
prefix_mach_code = codes "mach-uuid-"

abbrev pub ext_pdb : Bytes
ext_pdb = codes ".pdb"

abbrev pub suffix_source_bundle : Bytes
suffix_source_bundle = codes ".src.zip"

abbrev pub uuid_hex_len : ℕ
uuid_hex_len = 32

abbrev pub uuid_byte_len : ℕ
uuid_byte_len = 16

abbrev pub compressed_extensions : List (Bytes × ℕ)
compressed_extensions = (codes "pd_", b'b') ∷ (codes "dl_", b'l') ∷ (codes "ex_", b'e') ∷ []
