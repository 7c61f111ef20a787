-- ===== src/Tests/CacheExamples.antt =====
-- The theorems on the disk cache at a cache with one entry.
use debugsymd.Base.{none, ◌≡◌, refl, false, some, [], ◌∷◌, Bytes, codes, pos, arith, ◌⊎◌, take}
use debugsymd.Base.Result.{ok, err}
use debugsymd.Dict.{get, put}
use debugsymd.Dict.Sums.{sum}
use debugsymd.GoStrings.{bytes_eq, has_prefix, last_index_byte}
use debugsymd.World.{File, World, dir_of, prefixes, make_dirs, rename, touch}
use debugsymd.Diskcache.Entries.{Cache, CacheError, commit_at, commit_sized, lookup_at}
use debugsymd.Diskcache.Entries.Commit.{Committed, Untouched, commit_at-atomic}
use debugsymd.Diskcache.Sweep.{evict, is_below, seed_metrics}
use debugsymd.Diskcache.Sweep.Removes.{evict-young, lookup_at-evict}
use debugsymd.Diskcache.Sweep.Expired.{evict-expired}
use debugsymd.Diskcache.Gauges.{IsAccurate, is_entry}
use debugsymd.Diskcache.Gauges.Evict.{SweptGauges, evict-SweptGauges}
use debugsymd.Diskcache.Gauges.Keeps.{commit_at-IsAccurate}
use debugsymd.Diskcache.Gauges.Seed.{seed_metrics-IsAccurate}

abbrev cache : Cache
cache = record { root = codes "/c" }

abbrev staged : Bytes
staged = codes "/c/tmp/staging-1"

abbrev entry : Bytes
entry = codes "/c/objects/0a/0b/0a0b"

abbrev text : File
text = record { contents = codes "sym"; modified = 5 }

-- a staging file, an entry, and gauges that are right
abbrev world : World
world = record {
  files = (staged, text) ∷ (entry, text) ∷ [];
  dirs = (codes "/c/tmp", tt) ∷ [];
  luck = [];
  now = 7;
  size_bytes = pos 3;
  entries = pos 1;
  log = [];
}

world-IsAccurate : IsAccurate cache world
unfolding sum is_entry is_below has_prefix dir_of last_index_byte bytes_eq get take
world-IsAccurate = record { unique = (refl, (refl, tt)); bytes = refl; number = refl }

commit_at-atomic_example :
    ((w' : World) × (commit_at staged entry world ≡ (ok tt, w')) × Committed staged entry world w')
    ⊎ ((e : CacheError) × (w' : World) × (commit_at staged entry world ≡ (err e, w'))
        × Untouched world w')
commit_at-atomic_example = commit_at-atomic staged entry world

evict-SweptGauges_example :
    SweptGauges cache (λ order paths. paths) world (evict (λ order paths. paths) cache 1 world)
evict-SweptGauges_example = evict-SweptGauges cache (λ order paths. paths) 1 world world-IsAccurate

committed : commit_at staged entry world ≡ (ok tt, (commit_at staged entry world).1)
unfolding commit_at commit_sized make_dirs rename get put dir_of last_index_byte bytes_eq prefixes
    take
committed = refl

commit_at-IsAccurate_example : IsAccurate cache (commit_at staged entry world).1
unfolding is_entry is_below has_prefix dir_of last_index_byte bytes_eq take
commit_at-IsAccurate_example =
    commit_at-IsAccurate cache staged entry world world-IsAccurate refl refl refl committed

seed_metrics-IsAccurate_example : IsAccurate cache (seed_metrics cache world)
seed_metrics-IsAccurate_example = seed_metrics-IsAccurate cache world world-IsAccurate.unique refl

evict-young_example : get entry (evict (λ order paths. paths) cache 3 world).1.files ≡ some text
unfolding get bytes_eq
evict-young_example = evict-young (λ order paths. paths) cache 3 entry world refl (omega arith)

served : lookup_at entry world ≡ (ok (some text), (lookup_at entry world).1)
unfolding lookup_at get bytes_eq touch
served = refl

lookup_at-evict_example :
    get entry
      (evict
        (λ order paths. paths)
        cache
        3
        (record ((lookup_at entry world).1) { now = 9; luck = false ∷ [] })).1.files
    ≡ some (record text { modified = 7 })
lookup_at-evict_example =
    lookup_at-evict (λ order paths. paths) cache 3 9 (false ∷ []) entry world served refl
      (omega arith)

-- the entry is two units old
evict-expired_example : get entry (evict (λ order paths. paths) cache 1 world).1.files ≡ none
unfolding get is_below has_prefix bytes_eq take
evict-expired_example = evict-expired (λ order paths. paths) cache 1 entry world refl
