-- ===== src/Tests/SourceExamples.antt =====
-- The theorems on the service's backend and on source bundles at one request.
use debugsymd.Base.{
  ℕ, ◌≡◌, ◌≢◌, refl, ap, true, false, Bool, Option, none, some, List, [], ◌∷◌, ◌++◌, Bytes, codes,
  pos, arith, take, inl, inr,
}
use debugsymd.Base.Result.{Result, ok}
use debugsymd.Dict.{get, put, delete}
use debugsymd.GoStrings.{bytes_eq, last_index_byte, has_prefix}
use debugsymd.World.{File, World, dir_of, prefixes, make_dirs, rename, shift, touch}
use debugsymd.Cab.Out.{Reader}
use debugsymd.Resolver.{FileType, Request, file_type_name}
use debugsymd.Diskcache.Entries.{
  Cache, Platform, new_temp, commit, commit_at, commit_sized, record_commit, lookup_at,
}
use debugsymd.Diskcache.{path, key, key_text}
use debugsymd.Objects.{
  Remote, fetch, object, object_found, object_missed, produce_once, run_or_wait, download, receive,
  clean_up, cache_key, first_set, flight_key,
}
use debugsymd.Objects.Served.{Served}
use debugsymd.Objects.Calm.{fetch-succeeds}
use debugsymd.Objects.SourceBundle.{
  ZipFile, Manifest, source_file, source_of, bundle_entry, read_manifest, by_name, find_entry,
  read_entry, read_limited, normalize_source_path, rooted, clean, joined, join_stack, resolve_dots,
  segments_from,
}
use debugsymd.Objects.SourceBundle.Paths.{IsNormalized, normalize_source_path-IsNormalized}
use debugsymd.Objects.SourceBundle.Entry.{Source}
use debugsymd.Objects.SourceBundle.Served.{source_file-Source}
use debugsymd.Storage.{GetError, backend, s3_fetch, resolved_as, copy_body, Origin, fetch-Origin}
use debugsymd.Tests.ObjectExamples.{os, cache, nobody, empty}
use debugsymd.Tests.SentryExamples.{answering, server, for_pdb, blob, looks_up}
use debugsymd.Tests.Sorts.{insertion_sort, insertion_sort-IsSort}
use debugsymd.Tests.Instances.{ascii_tables}

-- a bucket with the one object
abbrev get_object : Bytes → Bytes → Result GetError Reader
get_object bucket key = ok (record { left = codes "sym"; broken = false })

abbrev service : Remote
service = backend insertion_sort answering server get_object

resolves : service.resolve for_pdb ≡ ok blob
unfolding backend resolved_as
resolves = ap resolved_as looks_up

writes : service.fetch blob.bucket blob.key ≡ (codes "sym", ok 3)
unfolding backend s3_fetch copy_body
writes = refl

fetched :
    (f : File) × (w' : World) × (fetch os cache service nobody for_pdb empty ≡ (ok (some f), w'))
unfolding get bytes_eq
fetched =
    let (f, w', e, _) =
      fetch-succeeds os cache for_pdb service blob (codes "sym") 3 nobody empty refl refl refl
        resolves writes in
    (f, w', e)

fetch-Origin_example :
    (f : File) × (some fetched.0 ≡ some f)
    × Origin insertion_sort answering server get_object os cache for_pdb f empty
fetch-Origin_example =
    fetch-Origin insertion_sort answering server get_object os cache nobody for_pdb empty
      (some fetched.0) insertion_sort-IsSort (inl refl) fetched.2

normalize_source_path-IsNormalized_example : IsNormalized (codes "src/./x/../a.c")
normalize_source_path-IsNormalized_example =
    normalize_source_path-IsNormalized (codes "src/./x/../a.c")

-- an archive with a manifest and one source file
abbrev archive : List ZipFile
archive =
    (record { name = codes "manifest.json"; opened = some (record { left = []; broken = false }) })
    ∷ (record {
      name = codes "files/1";
      opened = some (record { left = codes "int"; broken = false });
    })
    ∷ []

abbrev unzip : Bytes → Option (List ZipFile)
unzip bytes = some archive

abbrev decode : Reader → Option Manifest
decode r = some ((codes "files/1", codes "/src/a.c") ∷ [])

abbrev bundle : Request
bundle = record {
  debug_id = codes "abcd";
  code_id = [];
  filename = codes "s";
  file_type = FileType.source_bundle;
}

abbrev store : Remote
store = record { resolve = λ req. ok blob; fetch = λ bucket key. (codes "zip", ok 3) }

reads : source_file decode unzip os cache store nobody bundle (codes "src/x/../a.c") empty ≡ (
  ok (codes "int"),
  (source_file decode unzip os cache store nobody bundle (codes "src/x/../a.c") empty).1,
)
unfolding source_file source_of bundle_entry read_manifest by_name find_entry read_entry
    read_limited normalize_source_path rooted clean joined join_stack resolve_dots segments_from
    object object_found object_missed produce_once run_or_wait download receive clean_up cache_key
    first_set flight_key debugsymd.Diskcache.Entries.lookup lookup_at new_temp commit commit_at
    commit_sized record_commit path key key_text debugsymd.Symstore.DebugId.hex_encode
    debugsymd.Symstore.DebugId.hex_digit touch make_dirs rename dir_of prefixes shift get put delete
    bytes_eq last_index_byte has_prefix file_type_name take debugsymd.Base.drop
reads = refl

source_file-Source_example :
    (f : File) × (zip : List ZipFile) × Served os cache store nobody bundle f empty
      (source_file decode unzip os cache store nobody bundle (codes "src/x/../a.c") empty).1
    × (unzip f.contents ≡ some zip)
    × Source decode zip (codes "src/x/../a.c") (codes "int")
source_file-Source_example =
    source_file-Source decode unzip os cache store nobody bundle (codes "src/x/../a.c")
      (codes "int") empty (inl refl) reads
