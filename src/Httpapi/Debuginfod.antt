-- ===== src/Httpapi/Debuginfod.antt =====
-- httpapi/debuginfod.go: the routes that are keyed by a GNU build-id.
pub mod Agrees
use debugsymd.Base.{Option, none, some, Bytes, codes, if◌then◌else◌, ◌==◌, length}
use debugsymd.Base.Result.{Result, ok, err}
use debugsymd.GoStrings.{Unicode}
use debugsymd.Resolver.{FileType}
use debugsymd.Symstore.Constants.{octet_stream}
use debugsymd.Symstore.Parse.{elf_request_raw}
use debugsymd.Httpapi.Handler.{FetchError, Objects, Answer, fail}

abbrev pub placeholder_debug : Bytes
placeholder_debug = codes "_.debug"

abbrev pub placeholder_executable : Bytes
placeholder_executable = codes "_"

abbrev pub placeholder_bundle : Bytes
placeholder_bundle = codes "_.src.zip"

module _ {File : Type 0} ⦃u : Unicode⦄ where
  unfoldable pub serve_elf : Objects File → Bytes → FileType → Bytes → Answer File
  serve_elf objects build_id ft placeholder = elim (elf_request_raw build_id placeholder ft) [
    | none ↦ Answer.not_found
    | some req ↦ elim (objects.fetch req) [
      | err e ↦ fail e
      | ok none ↦ fail FetchError.missing
      | ok (some file) ↦ Answer.served octet_stream req.filename file
    ]
  ]

  unfoldable pub debuginfod_debug : Objects File → Bytes → Answer File
  debuginfod_debug objects build_id =
      serve_elf objects build_id FileType.elf_debug placeholder_debug

  unfoldable pub debuginfod_executable : Objects File → Bytes → Answer File
  debuginfod_executable objects build_id =
      serve_elf objects build_id FileType.elf_code placeholder_executable

  unfoldable pub debuginfod_source : Objects File → Bytes → Bytes → Answer File
  debuginfod_source objects build_id src_path =
      if length src_path == 0
      then Answer.not_found
      else elim (elf_request_raw build_id placeholder_bundle FileType.source_bundle) [
        | none ↦ Answer.not_found
        | some req ↦ elim (objects.source_file req src_path) [
          | none ↦ Answer.panicked
          | some (err e) ↦ fail e
          | some (ok text) ↦ Answer.written octet_stream text
        ]
      ]
