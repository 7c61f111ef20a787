-- ===== src/Objects/SourceBundle.antt =====
-- objects/sourcebundle.go: a source file out of a bundle. The reader of zip archives and the decoder of
-- the manifest's JSON are parameters. A bundle's manifest is a Go map, so its order stands for any.
pub mod Paths
pub mod Entry
pub mod Served
use debugsymd.Base.{
  ℕ, ◌+◌, ◌≡◌, Bool, true, false, Option, none, some, List, [], ◌∷◌, ◌++◌, map, Bytes, codes,
  length, take, ltb, leb, ◌==◌, ◌||◌, if◌then◌else◌,
}
use debugsymd.Base.Result.{Result, ok, err}
use debugsymd.GoStrings.{bytes_eq, has_prefix}
use debugsymd.Dict.{get, put}
use debugsymd.World.{File, World, Run, and_then, wrap, ◌>>=◌, pure, fail}
use debugsymd.Resolver.{Request}
use debugsymd.Cab.Out.{Reader}
use debugsymd.Diskcache.Entries.{Cache, Platform}
use debugsymd.Objects.{ObjectError, Remote, Group, max_source_file_size, object}

-- The segments between slashes, the first one with what stands in front of it.
unfoldable pub segments_from : Bytes → Bytes → List Bytes
segments_from front [] = front ∷ []
segments_from front (c ∷ p) =
    let ended = segments_from [] p in
    let longer = segments_from (front ++ (c ∷ [])) p in if c == b'/' then front ∷ ended else longer

abbrev pub segments : Bytes → List Bytes
segments p = segments_from [] p

-- the stack without its last segment, if it has one
abbrev pub popped : List Bytes → List Bytes
popped [] = []
popped (s ∷ stack) = stack

-- Behind the segments on the stack, the last one first: an empty one and a dot are left out, and two
-- dots take one off.
unfoldable pub resolve_dots : List Bytes → List Bytes → List Bytes
resolve_dots stack [] = stack
resolve_dots stack (s ∷ rest) =
    let skipped = resolve_dots stack rest in
    let shorter = resolve_dots (popped stack) rest in
    let pushed = resolve_dots (s ∷ stack) rest in
    if bytes_eq s [] || bytes_eq s (codes ".")
    then skipped
    else if bytes_eq s (codes "..")
    then shorter
    else pushed

-- the text of a stack, with a slash in front of each segment
unfoldable pub join_stack : List Bytes → Bytes
join_stack [] = []
join_stack (s ∷ stack) = join_stack stack ++ (b'/' ∷ s)

-- the path of a stack
unfoldable pub joined : List Bytes → Bytes
unfolding join_stack
joined [] = codes "/"
joined (s ∷ stack) = join_stack (s ∷ stack)

-- `path.Clean` of a rooted path
unfoldable pub clean : Bytes → Bytes
unfolding segments_from resolve_dots joined
clean p = joined (resolve_dots [] (segments p))

-- `strings.ReplaceAll(p, "\\", "/")`
abbrev pub to_slash : ℕ → ℕ
to_slash c = if c == 0x5c then b'/' else c

unfoldable pub rooted : Bytes → Bytes
rooted p = if has_prefix p (codes "/") then p else b'/' ∷ p

unfoldable pub normalize_source_path : Bytes → Bytes
unfolding rooted clean
normalize_source_path p = clean (rooted (map to_slash p))

abbrev pub bundle_manifest_name : Bytes
bundle_manifest_name = codes "manifest.json"

-- `zip.File`: its name, and what opening it gives.
pub record ZipFile : Type 0 where
  pub name : Bytes
  pub opened : Option Reader

-- Paths by the names of their entries.
abbrev pub Manifest : Type 0
Manifest = List (Bytes × Bytes)

-- How `SourceFile` ends without a text: `panicked` is no error that it returns.
pub data SourceError : Type 0 where
  fetching : ObjectError → SourceError
  panicked opening_bundle opening_manifest decoding_manifest : SourceError
  not_found opening_entry reading_entry too_large : SourceError

-- `byName`: of files with one name, the last one
unfoldable pub by_name : List ZipFile → List (Bytes × ZipFile) → List (Bytes × ZipFile)
by_name [] files = files
by_name (f ∷ fs) files = by_name fs (put f.name f files)

-- the loop over the manifest; `manifestFile` is `byName` at the manifest's name
unfoldable pub find_entry : Bytes → List (Bytes × ZipFile) → Manifest → Option ZipFile
find_entry want files [] = none
find_entry want files ((name, path) ∷ entries) =
    let rest = find_entry want files entries in
    if bytes_eq (normalize_source_path path) want
    then elim (get name files) [ some f ↦ some f | none ↦ rest ]
    else rest

-- `io.ReadAll` of an `io.LimitReader`
unfoldable pub read_limited : ℕ → Reader → Result SourceError Bytes
read_limited limit r =
    if leb limit (length r.left)
    then ok (take limit r.left)
    else if r.broken
    then err SourceError.reading_entry
    else ok r.left

-- the reading of the entry, and the test of its size
unfoldable pub read_entry : ZipFile → Result SourceError Bytes
unfolding read_limited
read_entry f = elim f.opened [
  | none ↦ err SourceError.opening_entry
  | some r ↦ elim (read_limited (max_source_file_size + 1) r) [
    | err e ↦ err e
    | ok text ↦
        if ltb max_source_file_size (length text) then err SourceError.too_large else ok text
  ]
]

module _ (decode : Reader → Option Manifest) where
  unfoldable pub read_manifest : ZipFile → Result SourceError Manifest
  read_manifest f = elim f.opened [
    | none ↦ err SourceError.opening_manifest
    | some r ↦ elim (decode r) [
      | none ↦ err SourceError.decoding_manifest
      | some manifest ↦ ok manifest
    ]
  ]

  unfoldable pub bundle_entry : List ZipFile → Bytes → Result SourceError ZipFile
  unfolding by_name find_entry read_manifest
  bundle_entry zip source_path = elim (get bundle_manifest_name (by_name zip [])) [
    | none ↦ err SourceError.not_found
    | some f ↦ elim (read_manifest f) [
      | err e ↦ err e
      | ok manifest ↦
          elim (find_entry (normalize_source_path source_path) (by_name zip []) manifest) [
            | none ↦ err SourceError.not_found
            | some entry ↦ ok entry
          ]
    ]
  ]

  module _ (unzip : Bytes → Option (List ZipFile)) where
    -- `SourceFile` behind the object; `info.Size()` of a nil file is a panic
    unfoldable pub source_of : Option File → Bytes → Result SourceError Bytes
    unfolding bundle_entry read_entry
    source_of none source_path = err SourceError.panicked
    source_of (some file) source_path = elim (unzip file.contents) [
      | none ↦ err SourceError.opening_bundle
      | some zip ↦ elim (bundle_entry zip source_path) [
        | err e ↦ err e
        | ok entry ↦ read_entry entry
      ]
    ]

    -- `SourceFile`
    unfoldable pub source_file :
        Platform → Cache → Remote → Group → Request → Bytes → Run SourceError Bytes
    unfolding source_of
    source_file os c remote group req source_path w =
        and_then (wrap SourceError.fetching (object os c remote group req w))
          λ file w'. (source_of file source_path, w')
