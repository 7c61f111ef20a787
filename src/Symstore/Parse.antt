-- ===== src/Symstore/Parse.antt =====
-- symstore/parse.go: from the three segments of a path to a request and a serving decision. A
-- result `(value, ok)` is an `Option`.
pub mod Leaf
pub mod Named
use debugsymd.Base.{
  ℕ, ◌+◌, ◌-◌, ◌%◌, Bool, true, false, not, ◌||◌, Option, none, some, List, [], ◌∷◌, ◌++◌, ◌==◌,
  if◌then◌else◌, ◌>>=◌, Bytes, length, take, drop,
}
use debugsymd.GoStrings.{
  Unicode, is_lower, has_prefix, has_suffix, to_lower, equal_fold, last_index_byte, trim_right,
}
use debugsymd.Resolver.{FileType, Request}
use debugsymd.Symstore.Constants.{
  octet_stream, cab_content_type, zip_content_type, prefix_elf_debug, prefix_elf_code,
  prefix_mach_debug, prefix_mach_code, ext_pdb, suffix_source_bundle, compressed_extensions,
}
use debugsymd.Symstore.DebugId.{is_hex, normalize_pdb, elf_debug_id, normalize_uuid}

pub record Serve : Type 0 where
  pub content_type : Bytes
  pub cab : Bool

-- the loop of `allUpper`
unfoldable pub no_lower : Bytes → Bool
no_lower [] = true
no_lower (c ∷ s) = if is_lower c then false else no_lower s

unfoldable pub all_upper : Bytes → Bool
unfolding no_lower
all_upper [] = false
all_upper (c ∷ s) = no_lower (c ∷ s)

module _ ⦃u : Unicode⦄ where
  -- the loop over `compressedExtensions`, up to its `break`
  unfoldable pub find_extension : Bytes → List (Bytes × ℕ) → Option ℕ
  find_extension ext [] = none
  find_extension ext ((suffix, replacement) ∷ table) =
      if equal_fold ext suffix then some replacement else find_extension ext table

  -- `replacement -= 'a' - 'A'` on a byte, and the text with its last byte replaced
  unfoldable pub replace_last : Bytes → Bytes → ℕ → Bytes
  unfolding all_upper
  replace_last leaf ext replacement =
      let last =
        if all_upper (trim_right ext b'_') then (replacement + 256 - 32) % 256 else replacement in
      take (length leaf - 1) leaf ++ (last ∷ [])

  unfoldable pub uncompress_leaf : Bytes → Option Bytes
  unfolding find_extension replace_last
  uncompress_leaf leaf = last_index_byte leaf b'.' >>= λ dot.
      let ext = drop (dot + 1) leaf in
      find_extension ext compressed_extensions >>= λ replacement.
      some (replace_last leaf ext replacement)

  unfoldable pub is_source_bundle : Bytes → Bool
  is_source_bundle name = has_suffix (to_lower name) suffix_source_bundle

  unfoldable pub elf_request : Bytes → Bytes → FileType → Option Request
  elf_request build_id filename ft =
      if not (is_hex build_id)
      then none
      else some (record {
        debug_id = elim (elf_debug_id build_id) [ some id ↦ id | none ↦ [] ];
        code_id = to_lower build_id;
        filename = filename;
        file_type = ft;
      })

  unfoldable pub mach_request : Bytes → Bytes → FileType → Option Request
  mach_request uuid filename ft = normalize_uuid uuid >>= λ p.
      some (record { debug_id = p.1; code_id = p.0; filename = filename; file_type = ft })

  -- `case pdbHint`
  unfoldable pub pdb_request : Bytes → Bytes → Option Request
  pdb_request signature filename = normalize_pdb signature >>= λ id.
      some (record { debug_id = id; code_id = []; filename = filename; file_type = FileType.pdb })

  -- `default`
  unfoldable pub pe_request : Bytes → Bytes → Option Request
  pe_request signature filename =
      if length signature == 0
      then none
      else some (record {
        debug_id = [];
        code_id = signature;
        filename = filename;
        file_type = FileType.pe;
      })

  unfoldable pub base_identity : Bytes → Bytes → Bool → Option Request
  base_identity signature filename pdb_hint =
      if has_prefix signature prefix_elf_debug
      then elf_request (drop (length prefix_elf_debug) signature) filename FileType.elf_debug
      else if has_prefix signature prefix_elf_code
      then elf_request (drop (length prefix_elf_code) signature) filename FileType.elf_code
      else if has_prefix signature prefix_mach_debug
      then mach_request (drop (length prefix_mach_debug) signature) filename FileType.mach_debug
      else if has_prefix signature prefix_mach_code
      then mach_request (drop (length prefix_mach_code) signature) filename FileType.mach_code
      else if pdb_hint
      then pdb_request signature filename
      else pe_request signature filename

  unfoldable pub parse_compressed : Bytes → Bytes → Option (Request × Serve)
  parse_compressed signature inner =
      base_identity signature inner (has_suffix (to_lower inner) ext_pdb) >>= λ req.
      some (req, record { content_type = cab_content_type; cab = true })

  unfoldable pub parse_bundle : Bytes → Bytes → Option (Request × Serve)
  parse_bundle signature trailing = base_identity signature trailing true >>= λ req. some (
    record req { file_type = FileType.source_bundle },
    record { content_type = zip_content_type; cab = false },
  )

  unfoldable pub parse_plain : Bytes → Bytes → Bytes → Option (Request × Serve)
  parse_plain leading signature trailing =
      base_identity signature trailing (has_suffix (to_lower leading) ext_pdb) >>= λ req.
      some (req, record { content_type = octet_stream; cab = false })

  unfoldable pub parse : Bytes → Bytes → Bytes → Option (Request × Serve)
  unfolding parse_compressed parse_bundle parse_plain
  parse leading signature trailing = elim (uncompress_leaf trailing) [
    | some inner ↦ parse_compressed signature inner
    | none ↦
        if is_source_bundle trailing
        then parse_bundle signature trailing
        else parse_plain leading signature trailing
  ]

  -- `ELFRequest`
  unfoldable pub elf_request_raw : Bytes → Bytes → FileType → Option Request
  elf_request_raw build_id filename ft = elf_request build_id filename ft
