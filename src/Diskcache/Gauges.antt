-- ===== src/Diskcache/Gauges.antt =====
-- The two gauges against the entries that they stand for.
pub mod Sweeping
pub mod Seed
pub mod Keeps
pub mod Evict
use debugsymd.Base.{
  ℕ, ◌+◌, ◌-◌, ◌≡◌, ◌≤◌, refl, sym, ap, ◌∙◌, Bool, true, false, not, ◌&&◌, Option, none, some, List,
  [], ◌∷◌, ◌++◌, arith, Bytes, length, if◌then◌else◌, ℤ, pos, negsuc, leb, ◌⊎◌, inl, inr,
  Bool-cases, Option-cases,
}
use mathlib.Core.Path.{subst}
use debugsymd.Base.Result.{Result, ok, err}
use debugsymd.GoStrings.{bytes_eq}
use debugsymd.Dict.{
  get, put, delete, IsUnique, put-IsUnique, delete-IsUnique, get-put, get-delete, bytes_eq_refl,
}
use debugsymd.Dict.Sums.{sum, weight_of, sum-put, sum-delete}
use debugsymd.World.{
  File, World, Metric, lucky, later, advance, dir_of, remove, shift, count, rename, make_dirs,
  write_file, drop_file, chance, try, and_then, ◌>>=◌, ◌>>◌,
}
use debugsymd.Diskcache.Entries.{
  Cache, CacheError, tmp_dir, commit_at, commit_sized, record_commit, replaced,
}
use debugsymd.Diskcache.Entries.Commit.{Untouched, commit_at-err}
use debugsymd.Diskcache.Sweep.{
  Visit, Walked, walk, visit_file, visit_dir, Sizes, is_below, is_old, Swept, tally, sweep_file,
  sweep_dir, nothing_swept, visits, walk_files, SortPaths, prune_empty_dirs, remove_dirs,
  remove_dir, finish_sweep, evict,
}

-- A file below the root that is not a staging file.
unfoldable pub is_entry : Cache → Bytes → Bool
is_entry c p = is_below c.root p && not (bytes_eq (dir_of p) (tmp_dir c.root))

abbrev pub size_weight : Cache → Bytes → File → ℕ
size_weight c p f = if is_entry c p then length f.contents else 0

abbrev pub entry_weight : Cache → Bytes → File → ℕ
entry_weight c p f = if is_entry c p then 1 else 0

-- The bytes and the number of the entries.
abbrev pub total_bytes : Cache → World → ℕ
total_bytes c w = sum (size_weight c) w.files

abbrev pub total_entries : Cache → World → ℕ
total_entries c w = sum (entry_weight c) w.files

-- The gauges show what is on the disk.
pub record IsAccurate (c : Cache) (w : World) : Type 0 where
  pub unique : IsUnique w.files
  pub bytes : w.size_bytes ≡ pos (total_bytes c w)
  pub number : w.entries ≡ pos (total_entries c w)

pub shift_pos : (n a b : ℕ) → b ≤ n + a → shift (pos n) a b ≡ pos (n + a - b)
unfolding shift
shift_pos n a b h = ground arith
