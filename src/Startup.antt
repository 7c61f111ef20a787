-- ===== src/Startup.antt =====
-- main.go, and ReadBuild of metrics/metrics.go: the start of the daemon. The gauges are seeded next to the
-- set-up of the storage; the two do not touch the same state, and the server waits for both. The sweeper
-- that is started as well first acts an hour later, and is not in `run`.
use debugsymd.Base.{
  ◌≡◌, refl, Bool, true, false, Option, none, some, List, [], ◌∷◌, Bytes, codes, if◌then◌else◌,
}
use debugsymd.Base.Result.{Result, ok, err}
use debugsymd.Dict.{IsUnique}
use debugsymd.GoStrings.{Unicode, to_lower, bytes_eq}
use debugsymd.World.{World}
use debugsymd.Config.{Config, ConfigError, is_empty}
use debugsymd.Diskcache.Entries.{Cache, CacheError, new_cache}
use debugsymd.Diskcache.Sweep.{seed_metrics}
use debugsymd.Diskcache.Gauges.{IsAccurate}
use debugsymd.Diskcache.Gauges.Seed.{seed_metrics-IsAccurate}

pub data Level : Type 0 where
  debug info warn error : Level

module _ ⦃u : Unicode⦄ where
  -- `setupLogging`
  unfoldable pub log_level : Bytes → Level
  log_level level =
      let lower = to_lower level in
      if bytes_eq lower (codes "debug")
      then Level.debug
      else if bytes_eq lower (codes "warn")
      then Level.warn
      else if bytes_eq lower (codes "error")
      then Level.error
      else Level.info

-- What `debug.ReadBuildInfo` gives.
pub record BuildInfo : Type 0 where
  pub version : Bytes
  pub settings : List (Bytes × Bytes)

pub record BuildMetadata : Type 0 where
  pub version : Bytes
  pub revision : Bytes
  pub go_version : Bytes

abbrev pub unknown : Bytes
unknown = codes "unknown"

-- the loop over the settings: the last one counts
unfoldable pub revision_of : Bytes → List (Bytes × Bytes) → Bytes
revision_of revision [] = revision
revision_of revision ((k, v) ∷ settings) =
    revision_of (if bytes_eq k (codes "vcs.revision") then v else revision) settings

unfoldable pub read_build : Bytes → Option BuildInfo → BuildMetadata
unfolding revision_of
read_build go_version none = record {
  version = unknown;
  revision = unknown;
  go_version = go_version;
}
read_build go_version (some build) = record {
  version = if is_empty build.version then unknown else build.version;
  revision = revision_of unknown build.settings;
  go_version = go_version;
}

pub data StartError : Type 0 where
  loading : ConfigError → StartError
  initializing_cache : CacheError → StartError
  initializing_storage running : StartError

-- Whether `storage.NewS3` succeeds, and what the server does with the cache until it ends, and whether
-- without an error.
pub record Outside : Type 0 where
  pub storage_ready : Bool
  pub serve : Config → Cache → World → Bool × World

abbrev pub served : Bool × World → Option StartError × World
served (true, w) = (none, w)
served (false, w) = (some StartError.running, w)

-- `run` behind the cache
abbrev pub run_cached :
    Outside → Config → Result CacheError Cache × World → Option StartError × World
run_cached out cfg (err e, w) = (some (StartError.initializing_cache e), w)
run_cached out cfg (ok c, w) =
    if out.storage_ready
    then served (out.serve cfg c (seed_metrics c w))
    else (some StartError.initializing_storage, seed_metrics c w)

unfoldable pub run : Outside → Result ConfigError Config → World → Option StartError × World
run out (err e) w = (some (StartError.loading e), w)
run out (ok cfg) w = run_cached out cfg (new_cache cfg.cache_dir w)

-- The server starts with gauges that count the entries that are there, if no file can stand under one name
-- twice and nothing fails before that.
run-IsAccurate :
    (out : Outside) (cfg : Config) (c : Cache) (w v : World)
    → out.storage_ready ≡ true
    → new_cache cfg.cache_dir w ≡ (ok c, v)
    → IsUnique v.files
    → v.luck ≡ []
    → (u : World) × IsAccurate c u × (run out (ok cfg) w ≡ served (out.serve cfg c u))
unfolding run
run-IsAccurate out cfg c w v ready opened unique calm =
    (seed_metrics c v, seed_metrics-IsAccurate c v unique calm, rw (opened, ready) refl)
