-- ===== src/Resolver.antt =====
-- resolver/resolver.go: the request for a debug file, and where the file's bytes are stored.
pub mod Sentry
use debugsymd.Base.{ℤ, Bytes, codes}

pub data FileType : Type 0 where
  pdb pe elf_code elf_debug mach_code mach_debug source_bundle : FileType

-- The Go value of each constant.
unfoldable pub file_type_name : FileType → Bytes
file_type_name FileType.pdb = codes "pdb"
file_type_name FileType.pe = codes "pe"
file_type_name FileType.elf_code = codes "elf_code"
file_type_name FileType.elf_debug = codes "elf_debug"
file_type_name FileType.mach_code = codes "mach_code"
file_type_name FileType.mach_debug = codes "mach_debug"
file_type_name FileType.source_bundle = codes "sourcebundle"

-- An identifier that is not set is the empty text.
pub record Request : Type 0 where
  pub debug_id : Bytes
  pub code_id : Bytes
  pub filename : Bytes
  pub file_type : FileType

pub record Location : Type 0 where
  pub bucket : Bytes
  pub key : Bytes
  pub size : ℤ
