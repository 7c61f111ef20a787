-- ===== src/Objects.antt =====
-- objects/constants.go and objects/service.go: the service that answers from the cache and fills it.
-- The resolver, the store and the group of calls in flight are parameters.
pub mod Synth
pub mod Stored
pub mod Download
pub mod Served
pub mod Fetch
pub mod Calm
pub mod SourceBundle
pub mod Compressed
pub mod Roles
pub mod Envelope
pub mod Payload
use debugsymd.Base.{
  ℕ, ◌≡◌, Bool, true, false, Option, none, some, List, [], ◌∷◌, ◌++◌, Bytes, codes, length,
  if◌then◌else◌, ◌==◌,
}
use debugsymd.Base.Result.{Result, ok, err}
use debugsymd.World.{
  File, Found, Resolved, Metric, World, Run, ◌>>=◌, ◌>>◌, and_then, wrap, pure, fail, count,
  counting, write_file, discard,
}
use debugsymd.Resolver.{Request, Location, file_type_name}
use debugsymd.Diskcache.Entries.{Cache, CacheError, Platform, lookup, new_temp, commit}

abbrev pub role_objects : Bytes
role_objects = codes "objects"

abbrev pub role_raw_compressed : Bytes
role_raw_compressed = codes "raw_compressed"

abbrev pub role_cab_synth : Bytes
role_cab_synth = codes "cab_synth"

abbrev pub label_compressed : Bytes
label_compressed = codes "compressed"

abbrev pub cab_magic : Bytes
cab_magic = codes "MSCF"

-- 64 << 20
abbrev pub max_source_file_size : ℕ
max_source_file_size = 67108864

-- `missing` is `ErrNotFound`, wrapped or not.
pub data ObjectError : Type 0 where
  missing resolving fetching reading_magic rewinding mirroring synthesizing : ObjectError
  looking_up staging committing : CacheError → ObjectError

pub data RemoteError : Type 0 where
  absent broken : RemoteError

-- `resolver.Resolver` and `storage.Fetcher`: a fetch has written some bytes, and then returns their
-- number or an error.
pub record Remote : Type 0 where
  pub resolve : Request → Result RemoteError Location
  pub fetch : Bytes → Bytes → Bytes × Result RemoteError ℕ

-- `singleflight.Group`: under a key, the call in flight whose end and whose result the caller waits
-- for, if there is one.
abbrev pub Group : Type 0
Group = Bytes → Option (Run ObjectError (Unit {0}))

-- `cmp.Or`
unfoldable pub first_set : Bytes → Bytes → Bytes
first_set [] t = t
first_set (c ∷ s) t = c ∷ s

unfoldable pub cache_key : Request → Bytes × Bytes
unfolding first_set file_type_name
cache_key req = (
  first_set req.debug_id req.code_id,
  file_type_name req.file_type ++ (codes "/" ++ req.filename),
)

unfoldable pub flight_key : Bytes → Bytes → Bytes → Bytes
flight_key role id inner = role ++ (codes "|" ++ (id ++ (codes "|" ++ inner)))

-- `group.Do`, and the count of a caller whose own closure did not run
unfoldable pub run_or_wait :
    Option (Run ObjectError (Unit {0})) → Run ObjectError (Unit {0}) → Run ObjectError (Unit {0})
run_or_wait none produce = produce
run_or_wait (some other) produce = do other; counting Metric.coalesced

unfoldable pub produce_once :
    Group → Bytes → Run ObjectError (Unit {0}) → Run ObjectError (Unit {0})
unfolding run_or_wait
produce_once group key produce = run_or_wait (group key) produce

-- The writes of a whole text to the staging file.
abbrev pub fill : Bytes → Bytes → World → World
fill tmp bytes w = write_file tmp (record { contents = bytes; modified = w.now }) w

abbrev pub filling : Bytes → Bytes → Run ObjectError (Unit {0})
filling tmp bytes w = (ok tt, fill tmp bytes w)

-- the deferred removal of the staging file
unfoldable pub clean_up :
    Bytes → Result ObjectError (Unit {0}) × World → Result ObjectError (Unit {0}) × World
clean_up tmp (ok tt, w) = (ok tt, w)
clean_up tmp (err e, w) = (err e, discard tmp w)

module _ (os : Platform) (c : Cache) where
  -- `Lookup` and `Commit` under the key of a request
  abbrev pub lookup_role : Bytes → Request → Run ObjectError (Option File)
  lookup_role role req w =
      wrap ObjectError.looking_up (lookup os c role (cache_key req).0 (cache_key req).1 w)

  abbrev pub commit_role : Bytes → Bytes → Request → Run ObjectError (Unit {0})
  commit_role tmp role req w =
      wrap ObjectError.committing (commit os c tmp role (cache_key req).0 (cache_key req).1 w)

  abbrev pub stage : Run ObjectError Bytes
  stage w = wrap ObjectError.staging (new_temp os c w)

  -- `download` behind the fetch
  unfoldable pub receive :
      Request → Bytes → Bytes × Result RemoteError ℕ → Run ObjectError (Unit {0})
  receive req tmp (bytes, err RemoteError.absent) = do filling tmp bytes; fail ObjectError.missing
  receive req tmp (bytes, err RemoteError.broken) = do
    filling tmp bytes
    counting Metric.storage_error
    fail ObjectError.fetching
  receive req tmp (bytes, ok n) = do
    filling tmp bytes
    counting (Metric.storage_bytes n)
    commit_role tmp role_objects req

  module _ (remote : Remote) where
    -- `download` behind the resolver's answer
    abbrev pub download_resolved :
        Request → Result RemoteError Location → Run ObjectError (Unit {0})
    download_resolved req (err RemoteError.absent) = do
      counting (Metric.resolver_request Resolved.not_found)
      fail ObjectError.missing
    download_resolved req (err RemoteError.broken) = do
      counting (Metric.resolver_request Resolved.failed)
      fail ObjectError.resolving
    download_resolved req (ok loc) = do
      counting (Metric.resolver_request Resolved.found)
      tmp ← stage
      λ w. clean_up tmp (receive req tmp (remote.fetch loc.bucket loc.key) w)

    unfoldable pub download : Request → Run ObjectError (Unit {0})
    unfolding receive clean_up
    download req = download_resolved req (remote.resolve req)

    module _ (group : Group) where
      -- `object` behind a lookup that missed
      unfoldable pub object_missed : Request → Run ObjectError (Option File)
      unfolding produce_once flight_key
      object_missed req = do
        counting (Metric.cache_lookup role_objects Found.miss)
        produce_once group (flight_key role_objects (cache_key req).0 (cache_key req).1)
            (download req)
        lookup_role role_objects req

      -- behind the first lookup
      unfoldable pub object_found : Option File → Request → Run ObjectError (Option File)
      unfolding object_missed
      object_found (some file) req = do
        counting (Metric.cache_lookup role_objects Found.hit)
        pure (some file)
      object_found none req = object_missed req

      unfoldable pub object : Request → Run ObjectError (Option File)
      unfolding object_found
      object req = do found ← lookup_role role_objects req; object_found found req

      -- `Fetch`
      unfoldable pub fetch : Request → Run ObjectError (Option File)
      fetch req = object req
