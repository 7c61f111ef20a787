-- ===== src/Tests/SymstoreExamples.antt =====
-- The theorems on signatures, leaf names and routes at concrete inputs.
use debugsymd.Base.{
  ◌+◌, ℕ, ◌≡◌, ◌↔◌, refl, true, some, [], ◌∷◌, ◌++◌, map, arith, Bytes, codes, length, take, drop,
}
use debugsymd.Base.Result.{ok, err}
use debugsymd.GoStrings.{
  lower_byte, has_prefix, has_suffix, to_lower, equal_fold, last_index_byte, trim_right, remove_all,
}
use debugsymd.Resolver.{FileType, Request}
use debugsymd.Symstore.Constants.{cab_content_type}
use debugsymd.Symstore.DebugId.{
  not_hex, all_hex, is_hex, unhex, hex_decode, elf_debug_id, normalize_pdb, normalize_uuid,
  insert_dashes, dash_uuid,
}
use debugsymd.Symstore.DebugId.Hex.{hex_value}
use debugsymd.Symstore.DebugId.Pdb.{normalize_pdb_canonical}
use debugsymd.Symstore.DebugId.Uuid.{normalize_uuid_idem}
use debugsymd.Symstore.DebugId.Elf.{big_endian, little_endian, elf_debug_id_fields}
use debugsymd.Symstore.Parse.{
  Serve, parse, is_source_bundle, uncompress_leaf, base_identity, pe_request,
}
use debugsymd.Symstore.Parse.Leaf.{Compressed, restored, uncompress_leaf-Compressed}
use debugsymd.Symstore.Parse.Named.{Decided, parse-Decided}
use debugsymd.Httpapi.Form.{form_other, known_forms, form}
use debugsymd.Httpapi.Form.Bounded.{form-bounded}
use debugsymd.Httpapi.Handler.{FetchError, Objects, Answer, symstore_route}
use debugsymd.Httpapi.Handler.Served.{chosen, symstore_route-Decided, symstore_route-unavailable}
use mathlib.Core.List.{Mem}
use mathlib.Core.Logic.{◌⊎◌}
use debugsymd.Tests.Instances.{ascii_tables}

abbrev guid : Bytes
guid = codes "0C1033F78632492E91C6C314B72E1920"

abbrev low_guid : Bytes
low_guid = codes "0c1033f78632492e91c6c314b72e1920"

normalize_pdb_canonical_example :
    ((id : Bytes) × (normalize_pdb (guid ++ codes "0000000A") ≡ some id))
    × ((normalize_pdb (guid ++ codes "0000000A") ≡ normalize_pdb (low_guid ++ codes "a"))
        ↔ (map lower_byte guid ≡ map lower_byte low_guid)
          × (hex_value (codes "0000000A") ≡ hex_value (codes "a")))
unfolding all_hex
normalize_pdb_canonical_example =
    normalize_pdb_canonical guid low_guid (codes "0000000A") (codes "a") (refl, refl) (refl, refl)
      refl refl

abbrev uuid : Bytes
uuid = codes "0C1033F7-8632-492E-91C6-C314B72E1920"

abbrev dashed_uuid : Bytes
dashed_uuid = codes "0c1033f7-8632-492e-91c6-c314b72e1920"

uuid_accepted : normalize_uuid uuid ≡ some (low_guid, dashed_uuid)
unfolding normalize_uuid remove_all to_lower is_hex dash_uuid insert_dashes take drop
uuid_accepted = refl

normalize_uuid_idem_example :
    (length low_guid ≡ 32)
    × (remove_all dashed_uuid b'-' ≡ low_guid)
    × (normalize_uuid low_guid ≡ some (low_guid, dashed_uuid))
    × (normalize_uuid dashed_uuid ≡ some (low_guid, dashed_uuid))
normalize_uuid_idem_example =
    normalize_uuid_idem uuid {simple = low_guid} {dashed = dashed_uuid} uuid_accepted

abbrev build_id : Bytes
build_id = codes "0102030405060708090a0b0c0d0e0f10aabbccdd"

abbrev build_bytes : Bytes
build_bytes =
    1 ∷ 2 ∷ 3 ∷ 4 ∷ 5 ∷ 6 ∷ 7 ∷ 8 ∷ 9 ∷ 10 ∷ 11 ∷ 12 ∷ 13 ∷ 14 ∷ 15 ∷ 16 ∷ 0xaa ∷ 0xbb ∷ 0xcc ∷ 0xdd
    ∷ []

build_id_bytes : hex_decode build_id ≡ some build_bytes
unfolding hex_decode unhex not_hex
build_id_bytes = refl

elf_debug_id_fields_example :
    (id : Bytes) × (raw : Bytes) × (elf_debug_id build_id ≡ some id)
    × (hex_decode (remove_all id b'-') ≡ some raw)
    × (length raw ≡ 16)
    × (big_endian raw ≡ little_endian build_bytes)
    × (drop 8 raw ≡ take 8 (drop 8 build_bytes))
elf_debug_id_fields_example =
    elf_debug_id_fields build_id {b = build_bytes} build_id_bytes (omega arith)

uncompress_leaf-Compressed_example :
    uncompress_leaf (codes "App.Ex_")
    ≡ some (codes "App." ++ (b'E' ∷ b'x' ∷ restored b'E' b'x' b'e' ∷ []))
unfolding lower_byte
uncompress_leaf-Compressed_example =
    uncompress_leaf-Compressed (codes "App") b'E' b'x' b'e' (Compressed.ex refl refl refl)

abbrev wanted : Request
wanted = record {
  debug_id = [];
  code_id = codes "5E9C4F2A12000";
  filename = codes "a.dll";
  file_type = FileType.pe;
}

abbrev as_cab : Serve
as_cab = record { content_type = cab_content_type; cab = true }

parsed : parse (codes "a.dl_") (codes "5E9C4F2A12000") (codes "a.dl_") ≡ some (wanted, as_cab)
unfolding parse uncompress_leaf base_identity pe_request last_index_byte equal_fold trim_right
    has_prefix has_suffix to_lower take drop
parsed = refl

parse-Decided_example : Decided (codes "a.dl_") wanted as_cab
parse-Decided_example =
    parse-Decided (codes "a.dl_") (codes "5E9C4F2A12000") (codes "a.dl_") {req = wanted}
      {serve = as_cab} parsed

form-bounded_example :
    Mem (form (codes "A.PDB")) (form_other ∷ known_forms)
    × ((form (codes "A.PDB") ≡ form_other)
        ⊎ ((dot : ℕ) × (last_index_byte (codes "A.PDB") b'.' ≡ some dot)
            × (form (codes "A.PDB") ≡ to_lower (drop (dot + 1) (codes "A.PDB")))))
form-bounded_example = form-bounded (codes "A.PDB")

-- A service whose cabinets are there and whose other files cannot be fetched; a file is a number.
abbrev service : Objects ℕ
service = record {
  fetch = λ req. err FetchError.failed;
  fetch_compressed = λ req. ok (some 7);
  source_file = λ req path. some (err FetchError.missing);
}

routed :
    symstore_route service (codes "a.dl_") (codes "5E9C4F2A12000") (codes "A.dl_")
    ≡ Answer.served cab_content_type (codes "A.dll") 7
unfolding symstore_route parse uncompress_leaf base_identity pe_request last_index_byte equal_fold
    trim_right has_prefix has_suffix to_lower take drop
routed = refl

symstore_route-Decided_example :
    (equal_fold (codes "a.dl_") (codes "A.dl_") ≡ true)
    × ((req : Request) × (serve : Serve) × Decided (codes "A.dl_") req serve
        × (chosen service serve.cab req ≡ ok (some 7))
        × (cab_content_type ≡ serve.content_type)
        × (codes "A.dll" ≡ req.filename))
symstore_route-Decided_example =
    symstore_route-Decided service (codes "a.dl_") (codes "5E9C4F2A12000") (codes "A.dl_")
      {content_type = cab_content_type} {name = codes "A.dll"} {file = 7} routed

turned_away :
    symstore_route service (codes "a.dll") (codes "5E9C4F2A12000") (codes "a.dll")
    ≡ Answer.unavailable (codes "5")
unfolding is_source_bundle symstore_route parse uncompress_leaf base_identity pe_request
    last_index_byte equal_fold trim_right has_prefix has_suffix to_lower take drop
turned_away = refl

symstore_route-unavailable_example :
    (equal_fold (codes "a.dll") (codes "a.dll") ≡ true)
    × ((req : Request) × (serve : Serve) × (parse
            (codes "a.dll")
            (codes "5E9C4F2A12000")
            (codes "a.dll")
          ≡ some (req, serve))
        × (chosen service serve.cab req ≡ err FetchError.failed))
symstore_route-unavailable_example =
    symstore_route-unavailable service (codes "a.dll") (codes "5E9C4F2A12000") (codes "a.dll")
      {after = codes "5"} turned_away
