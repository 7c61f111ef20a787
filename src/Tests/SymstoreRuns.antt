-- ===== src/Tests/SymstoreRuns.antt =====
-- The inputs of symstore/parse_test.go and symstore/debugid_test.go.
use debugsymd.Base.{◌≡◌, refl, true, false, some, [], ◌++◌, codes, Bytes, take, drop}
use debugsymd.GoStrings.{
  has_prefix, has_suffix, to_lower, equal_fold, last_index_byte, trim_left, trim_right,
}
use debugsymd.Resolver.{FileType}
use debugsymd.Symstore.Constants.{cab_content_type, zip_content_type}
use debugsymd.Symstore.DebugId.{
  hex_digit, unhex, not_hex, add_age, is_hex, hex_decode, hex_encode, insert_dashes, dash_uuid,
  normalize_pdb, swap_fields, elf_debug_id,
}
use debugsymd.Symstore.Parse.{
  parse, uncompress_leaf, elf_request, pe_request, base_identity, is_source_bundle,
}
use debugsymd.Tests.Instances.{ascii_tables}

abbrev build_id : Bytes
build_id = codes "0102030405060708090a0b0c0d0e0f10aabbccdd"

elf_id : elf_debug_id build_id ≡ some (codes "04030201-0605-0807-090a-0b0c0d0e0f10")
unfolding hex_digit unhex not_hex elf_debug_id hex_decode hex_encode swap_fields dash_uuid is_hex
    insert_dashes to_lower take drop
elf_id = refl

pdb_id :
    normalize_pdb (codes "0C1033F78632492E91C6C314B72E192000000001")
    ≡ some (codes "0c1033f7-8632-492e-91c6-c314b72e1920-1")
unfolding add_age normalize_pdb dash_uuid is_hex insert_dashes to_lower trim_left take drop
pdb_id = refl

cab_leaf : uncompress_leaf (codes "Cmd.Ex_") ≡ some (codes "Cmd.Exe")
unfolding uncompress_leaf last_index_byte equal_fold trim_right take drop
cab_leaf = refl

parse_cab :
    parse (codes "a.dl_") (codes "5E9C4F2A12000") (codes "a.dl_")
    ≡ some (
      record {
        debug_id = [];
        code_id = codes "5E9C4F2A12000";
        filename = codes "a.dll";
        file_type = FileType.pe;
      },
      record { content_type = cab_content_type; cab = true },
    )
unfolding parse uncompress_leaf base_identity pe_request last_index_byte equal_fold trim_right
    has_prefix has_suffix to_lower take drop
parse_cab = refl

parse_bundle_elf :
    parse (codes "libc.src.zip") (codes "elf-buildid-" ++ build_id) (codes "libc.src.zip")
    ≡ some (
      record {
        debug_id = codes "04030201-0605-0807-090a-0b0c0d0e0f10";
        code_id = build_id;
        filename = codes "libc.src.zip";
        file_type = FileType.source_bundle;
      },
      record { content_type = zip_content_type; cab = false },
    )
unfolding hex_digit unhex not_hex parse uncompress_leaf base_identity elf_request last_index_byte
    equal_fold trim_right has_prefix has_suffix to_lower is_source_bundle is_hex elf_debug_id
    hex_decode hex_encode swap_fields dash_uuid insert_dashes take drop
parse_bundle_elf = refl
