-- ===== src/Objects/Payload.antt =====
-- What the client of a compressed symbol form finds in the file that `FetchCompressed` gives it.
use mathlib.Core.Path.{subst}
use debugsymd.Base.{◌≡◌, refl, sym, ap, ◌∙◌, Option, some, Bytes, codes, length, take, pos, ◌<◌}
use debugsymd.Base.Result.{ok}
use debugsymd.World.{World, File}
use debugsymd.Resolver.{FileType, Request, file_type_name}
use debugsymd.Cab.Writer.Refines.{IsEmpty}
use debugsymd.Cab.Extract.{extract}
use debugsymd.Cab.Extract.Blocks.{Inflates}
use debugsymd.Cab.RoundTrip.{extract-write_cab}
use debugsymd.Diskcache.Entries.{Platform, Cache}
use debugsymd.Diskcache.Keys.{HasNo, has_no, has_no-HasNo, split_first}
use debugsymd.Objects.{Remote, Group, cab_magic, cache_key}
use debugsymd.Objects.Synth.{Host, reader, empty_out, fetch_compressed}
use debugsymd.Objects.Served.{Source}
use debugsymd.Objects.Compressed.{mirrored, wrapped}
use debugsymd.Objects.Roles.{Cached}
use debugsymd.Objects.Envelope.{CabFlight, Content, fetch_compressed-Content}

file_type_name-HasNo : (t : FileType) → HasNo b'/' (file_type_name t)
unfolding file_type_name has_no
file_type_name-HasNo FileType.pdb = has_no-HasNo b'/' (codes "pdb") refl
file_type_name-HasNo FileType.pe = has_no-HasNo b'/' (codes "pe") refl
file_type_name-HasNo FileType.elf_code = has_no-HasNo b'/' (codes "elf_code") refl
file_type_name-HasNo FileType.elf_debug = has_no-HasNo b'/' (codes "elf_debug") refl
file_type_name-HasNo FileType.mach_code = has_no-HasNo b'/' (codes "mach_code") refl
file_type_name-HasNo FileType.mach_debug = has_no-HasNo b'/' (codes "mach_debug") refl
file_type_name-HasNo FileType.source_bundle = has_no-HasNo b'/' (codes "sourcebundle") refl

-- Requests with the same key are for the same file name.
cache_key-filename : (r s : Request) → cache_key r ≡ cache_key s → r.filename ≡ s.filename
unfolding cache_key
cache_key-filename r s e =
    (split_first b'/' (file_type_name r.file_type) (file_type_name s.file_type)
      (file_type_name-HasNo r.file_type) (file_type_name-HasNo s.file_type)
      (ap (λ (k : Bytes × Bytes). k.1) e)).1

module _ (os : Platform) (c : Cache) (host : Host) (remote : Remote) (group : Group) where
  -- What the file is: one that was in the cache; an object that is a cabinet itself, byte for byte; or
  -- a cabinet from which a reader of the format gets the requested name and the object's bytes.
  pub data Payload (inflate : Bytes → Option Bytes) (req : Request) (f : File) (w : World)
      : Type 0 where
    cached : {role : Bytes} → Cached os c req w f role → Payload inflate req f w
    upstream :
        (asked : Request) (alike : cache_key asked ≡ cache_key req) (object : File)
        (source : Source os c remote group asked object w)
        (magic : take (length cab_magic) object.contents ≡ cab_magic)
        (same : f.contents ≡ object.contents)
        → Payload inflate req f w
    cabinet :
        (asked : Request) (alike : cache_key asked ≡ cache_key req) (object : File)
        (source : Source os c remote group asked object w)
        (extracted : extract inflate f.contents ≡ some (req.filename, object.contents))
        → Payload inflate req f w

  of_Content :
      (inflate : Bytes → Option Bytes) (req : Request) (f : File) (w : World)
      → Inflates host.deflate inflate
      → length req.filename < 1073741824
      → Content os c host remote group req f w
      → Payload inflate req f w
  of_Content inflate req f w laws short (Content.cached {role} found) = Payload.cached found
  of_Content inflate req f w laws short
        (Content.made asked alike object source (mirrored magic) same) =
      Payload.upstream asked alike object source magic same
  of_Content inflate req f w laws short
        (Content.made asked alike object source (wrapped s written) same) =
      let named = cache_key-filename asked req alike in
      let empty : IsEmpty (empty_out host) = record {
        no_bytes = refl;
        at_start = refl;
        no_error = refl;
      } in
      Payload.cabinet asked alike object source (
        ap (extract inflate) same
        ∙ (extract-write_cab host.deflate inflate asked.filename (pos (length object.contents))
              (reader host object) (empty_out host) laws empty
              (subst (λ (n : Bytes). length n < 1073741824) (sym named) short) written
            ∙ ap (λ (n : Bytes). some (n, object.contents)) named))

  pub fetch_compressed-Payload :
      (inflate : Bytes → Option Bytes) (req : Request) (w : World) (x : Option File) {w' : World}
      → Inflates host.deflate inflate
      → length req.filename < 1073741824
      → CabFlight os c host remote group req
      → fetch_compressed os c host remote group req w ≡ (ok x, w')
      → (f : File) × (x ≡ some f) × Payload inflate req f w
  fetch_compressed-Payload inflate req w x laws short flight h =
      let (f, is_some, content) =
        fetch_compressed-Content os c host remote group req w x flight h in
      (f, is_some, of_Content inflate req f w laws short content)
