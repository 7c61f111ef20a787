-- ===== src/Httpapi/Debuginfod/Agrees.antt =====
-- The two protocols give the same answers.
use debugsymd.Base.{◌≡◌, refl, false, ◌++◌, drop, Bytes, codes, inl, inr, Option-cases}
use debugsymd.GoStrings.{
  Unicode, has_prefix, has_suffix, bytes_eq, to_lower, is_ascii, equal_fold, lower_byte,
  last_index_byte,
}
use debugsymd.Resolver.{FileType}
use debugsymd.Symstore.Constants.{prefix_elf_debug, prefix_elf_code}
use debugsymd.Symstore.Parse.{
  parse, parse_plain, uncompress_leaf, find_extension, is_source_bundle, base_identity, elf_request,
  elf_request_raw,
}
use debugsymd.Httpapi.Handler.{Objects, deliver, symstore_route}
use debugsymd.Httpapi.Debuginfod.{
  placeholder_debug, placeholder_executable, serve_elf, debuginfod_debug, debuginfod_executable,
}

module _ {File : Type 0} ⦃u : Unicode⦄ (objects : Objects File) where
  -- The debuginfod route for the debug file of a build-id gives, for every text in the build-id's place,
  -- the answer of the symstore route for the placeholder name and the prefixed build-id.
  pub debuginfod_debug-symstore_route :
      (build_id : Bytes)
      → debuginfod_debug objects build_id
        ≡ symstore_route objects placeholder_debug (prefix_elf_debug ++ build_id) placeholder_debug
  unfolding debuginfod_debug serve_elf symstore_route deliver parse parse_plain uncompress_leaf
      find_extension is_source_bundle base_identity elf_request_raw has_prefix has_suffix bytes_eq
      to_lower is_ascii equal_fold lower_byte last_index_byte drop
  debuginfod_debug-symstore_route build_id =
      elim (Option-cases (elf_request build_id placeholder_debug FileType.elf_debug)) [
        | inl n ↦ rw (debuginfod_debug, serve_elf, elf_request_raw, n) refl
        | inr (req, e) ↦ rw (debuginfod_debug, serve_elf, elf_request_raw, e) refl
      ]

  -- The debuginfod route for the executable gives the answer of the symstore route for the placeholder
  -- name and the prefixed build-id, if the text in the build-id's place does not begin with the rest of
  -- the longer prefix.
  pub debuginfod_executable-symstore_route :
      (build_id : Bytes)
      → has_prefix build_id (codes "sym-") ≡ false
      → debuginfod_executable objects build_id
        ≡ symstore_route objects placeholder_executable
            (prefix_elf_code ++ build_id)
            placeholder_executable
  unfolding debuginfod_executable serve_elf symstore_route deliver parse parse_plain uncompress_leaf
      find_extension is_source_bundle base_identity elf_request_raw has_prefix has_suffix bytes_eq
      to_lower is_ascii equal_fold lower_byte last_index_byte drop
  debuginfod_executable-symstore_route build_id no_sym =
      elim (Option-cases (elf_request build_id placeholder_executable FileType.elf_code)) [
        | inl n ↦ rw (debuginfod_executable, serve_elf, elf_request_raw, no_sym, n) refl
        | inr (req, e) ↦ rw (debuginfod_executable, serve_elf, elf_request_raw, no_sym, e) refl
      ]
