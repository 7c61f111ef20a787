-- ===== src/Diskcache/Entries.antt =====
-- diskcache/cache.go: the entries. The identifier of an entry is its role, the debug ID and the inner
-- name; SHA-256 and the random part of a staging file's name are parameters.
pub mod Commit
use debugsymd.Base.{
  ℕ, ◌≡◌, Bool, true, false, Option, none, some, List, [], ◌∷◌, ◌++◌, Bytes, codes, length,
  if◌then◌else◌, pos, ◌&&◌,
}
use debugsymd.Base.Result.{Result, ok, err}
use debugsymd.Dict.{get, put}
use debugsymd.Diskcache.{path}
use debugsymd.World.{
  File, World, Run, ◌>>=◌, ◌>>◌, and_then, pure, fail, lucky, later, advance, try, chance,
  best_effort, dir_of, is_dir, make_dirs, write_file, discard, remove, touch, rename, shift,
}

-- diskcache/constants.go
abbrev pub tmp_subdir : Bytes
tmp_subdir = codes "tmp"

abbrev pub tmp_pattern : Bytes
tmp_pattern = codes "staging-"

-- `filepath.Join(c.root, tmpSubdir)`, for a clean root
abbrev pub tmp_dir : Bytes → Bytes
tmp_dir root = root ++ (codes "/" ++ tmp_subdir)

pub record Cache : Type 0 where
  pub root : Bytes

pub data CacheError : Type 0 where
  making_staging_dir opening_entry stat_entry creating_staging : CacheError
  closing_probe removing_probe : CacheError
  syncing stat_staging closing making_shard_dir renaming walking : CacheError

pub record Platform : Type 0 where
  pub sum256 : Bytes → Bytes
  pub random : List (Bytes × File) → Bytes

unfoldable pub new_cache : Bytes → Run CacheError Cache
new_cache root = do
  make_dirs CacheError.making_staging_dir (tmp_dir root)
  pure (record { root = root })

-- behind the computation of the path; `none` is the nil file
unfoldable pub lookup_at : Bytes → Run CacheError (Option File)
unfolding touch
lookup_at p w = elim (get p w.files) [
  | none ↦ if lucky w.luck then (ok none, advance w) else (err CacheError.opening_entry, advance w)
  | some f ↦
      (do
        chance CacheError.opening_entry
        chance CacheError.stat_entry
        λ w'. (ok (some f), touch p f w'))
        w
]

-- the size of the entry that is replaced, if `os.Stat` finds one
abbrev pub replaced : Bytes → World → Option ℕ
replaced final w = elim (get final w.files) [
  | none ↦ none
  | some f ↦ if lucky w.luck then some (length f.contents) else none
]

-- the two gauges behind the rename
unfoldable pub record_commit : ℕ → Option ℕ → World → World
unfolding shift
record_commit size none w = record w {
  size_bytes = shift w.size_bytes size 0;
  entries = shift w.entries 1 0;
}
record_commit size (some old) w = record w { size_bytes = shift w.size_bytes size old }

-- `Commit` from the staging file's size on
unfoldable pub commit_sized : Bytes → Bytes → ℕ → Run CacheError (Unit {0})
unfolding record_commit make_dirs rename
commit_sized tmp final size = do
  chance CacheError.closing
  make_dirs CacheError.making_shard_dir (dir_of final)
  old ← λ w. (ok (replaced final w), advance w)
  rename CacheError.renaming tmp final
  λ w. (ok tt, record_commit size old w)

unfoldable pub commit_at : Bytes → Bytes → Run CacheError (Unit {0})
commit_at tmp final = do
  chance CacheError.syncing
  chance CacheError.stat_staging
  λ w. elim (get tmp w.files) [
    | none ↦ (err CacheError.stat_staging, w)
    | some f ↦ commit_sized tmp final (length f.contents) w
  ]

module _ (os : Platform) where
  abbrev pub entry_path : Cache → Bytes → Bytes → Bytes → Bytes
  entry_path c role debug_id inner = path os.sum256 c.root role debug_id inner

  unfoldable pub lookup : Cache → Bytes → Bytes → Bytes → Run CacheError (Option File)
  lookup c role debug_id inner = lookup_at (entry_path c role debug_id inner)

  abbrev pub staging_name : Cache → World → Bytes
  staging_name c w = tmp_dir c.root ++ (codes "/" ++ (tmp_pattern ++ os.random w.files))

  -- the name of the staging file
  unfoldable pub new_temp : Cache → Run CacheError Bytes
  new_temp c w =
      if lucky w.luck && is_dir (tmp_dir c.root) w
      then (let name = staging_name c w in
          (ok name, write_file name (record { contents = []; modified = w.now }) (advance w)))
      else (err CacheError.creating_staging, advance w)

  unfoldable pub probe : Cache → Run CacheError (Unit {0})
  unfolding new_temp discard remove
  probe c = do
    name ← new_temp c
    λ w.
        if lucky w.luck
        then (let (removed, w') = remove name (advance w) in
            (if removed then ok tt else err CacheError.removing_probe, w'))
        else (err CacheError.closing_probe, discard name (advance w))

  unfoldable pub commit : Cache → Bytes → Bytes → Bytes → Bytes → Run CacheError (Unit {0})
  unfolding commit_at
  commit c tmp role debug_id inner = commit_at tmp (entry_path c role debug_id inner)
