-- ===== src/Diskcache/Sweep.antt =====
-- diskcache/walk.go, size.go and eviction.go: the walk over the cache, the sums that seed the gauges, and
-- the sweep of what was not used. The walk visits the directories and then the files in the order in
-- which they are listed, which stands for any order; it goes by the names that are there at its start.
pub mod Removes
pub mod Expired
use debugsymd.Base.{
  codes, ℕ, ◌+◌, ◌≡◌, Bool, true, false, not, ◌&&◌, ◌||◌, Option, none, some, List, [], ◌∷◌, ◌++◌,
  map, Bytes, length, if◌then◌else◌, ltb, pos,
}
use Prim.Native.Nat.{Ordering, compare}
use debugsymd.Base.Result.{Result, ok, err}
use debugsymd.GoStrings.{bytes_eq, has_prefix}
use debugsymd.Dict.{get, put, delete}
use debugsymd.World.{
  File, World, Run, and_then, ◌>>=◌, ◌>>◌, pure, lucky, later, advance, dir_of, is_dir, remove,
  shift, count, Metric,
}
use debugsymd.Diskcache.Entries.{Cache, CacheError, tmp_dir}

pub data Visit : Type 0 where
  directory : Bytes → Visit
  entry : Bytes → Visit

-- The path is that of something in the directory, at any depth.
unfoldable pub is_below : Bytes → Bytes → Bool
is_below root p = has_prefix p (root ++ codes "/")

abbrev pub names_below {ℓ} : {V : Type ℓ} → Bytes → List (Bytes × V) → List Bytes
names_below root [] = []
names_below root ((k, v) ∷ m) =
    let rest = names_below root m in if is_below root k then k ∷ rest else rest

abbrev pub visits : Cache → World → List Visit
visits c w =
    Visit.directory c.root
    ∷ (map Visit.directory (names_below c.root w.dirs)
        ++ map Visit.entry (names_below c.root w.files))

-- The variables that the two callbacks of a walk share, and the error that ended it.
abbrev pub Walked : Type 0 → Type 0
Walked S = Bool × S × World

module _ {S : Type 0} (c : Cache) (on_file : Bytes → File → Bool → S → World → S × World) where
  -- `d.Info`, and the call of `fileFn`; a file that is gone is skipped
  unfoldable pub visit_file : Bytes → S → World → S × World
  visit_file p s w = elim (get p w.files) [
    | none ↦ (s, advance w)
    | some f ↦
        if lucky w.luck
        then on_file p f (bytes_eq (dir_of p) (tmp_dir c.root)) s (advance w)
        else (s, advance w)
  ]

module _ {S : Type 0} (c : Cache) (on_dir : Bytes → S → S) where
  unfoldable pub visit_dir : Bytes → S → S
  visit_dir p s = if bytes_eq p c.root || bytes_eq p (tmp_dir c.root) then s else on_dir p s

module _ {S : Type 0} (c : Cache) (on_file : Bytes → File → Bool → S → World → S × World)
    (on_dir : Bytes → S → S) where
  -- An entry that cannot be read ends the walk.
  unfoldable pub walk : List Visit → S → World → Walked S
  walk [] s w = (true, s, w)
  walk (Visit.directory p ∷ vs) s w =
      let rest = walk vs (visit_dir c on_dir p s) (advance w) in
      if lucky w.luck then rest else (false, s, advance w)
  walk (Visit.entry p ∷ vs) s w =
      let (s', w') = visit_file c on_file p s (advance w) in
      let rest = walk vs s' w' in if lucky w.luck then rest else (false, s, advance w)

-- `walkFiles`
abbrev pub walk_files :
    {S : Type 0}
    → Cache
    → (Bytes → File → Bool → S → World → S × World)
    → (Bytes → S → S)
    → S
    → World
    → Walked S
walk_files c on_file on_dir s w = walk c on_file on_dir (visits c w) s w

-- bytes and entries
abbrev pub Sizes : Type 0
Sizes = ℕ × ℕ

unfoldable pub add_size : Bytes → File → Bool → Sizes → World → Sizes × World
add_size p f in_tmp (bytes, entries) w =
    if in_tmp then ((bytes, entries), w) else ((bytes + length f.contents, entries + 1), w)

unfoldable pub compute_size : Cache → World → Walked Sizes
unfolding add_size
compute_size c w = walk_files c add_size (λ p s. s) (0, 0) w

-- the test of the error, and the gauges' `Set`
abbrev pub seed : Walked Sizes → World
seed (true, (bytes, entries), w) = record w { size_bytes = pos bytes; entries = pos entries }
seed (false, sizes, w) = w

unfoldable pub seed_metrics : Cache → World → World
unfolding compute_size
seed_metrics c w = seed (compute_size c w)

-- The variables of `Evict`.
pub record Swept : Type 0 where
  pub removed : ℕ
  pub removed_entries : ℕ
  pub removed_bytes : ℕ
  pub empty_dirs : List Bytes

abbrev pub nothing_swept : Swept
nothing_swept = record { removed = 0; removed_entries = 0; removed_bytes = 0; empty_dirs = [] }

-- `!info.ModTime().Before(cutoff)` fails, with the cutoff moved to the other side
abbrev pub is_old : (max_unused now : ℕ) → File → Bool
is_old max_unused now f = ltb (f.modified + max_unused) now

-- the counting of a removed file
abbrev pub tally : File → Bool → Swept → Swept
tally f true acc = record acc { removed = acc.removed + 1 }
tally f false acc = record acc {
  removed = acc.removed + 1;
  removed_entries = acc.removed_entries + 1;
  removed_bytes = acc.removed_bytes + length f.contents;
}

unfoldable pub sweep_file :
    (max_unused start : ℕ) → Bytes → File → Bool → Swept → World → Swept × World
unfolding remove
sweep_file max_unused start p f in_tmp acc w =
    if not (is_old max_unused start f)
    then (acc, w)
    else (let (gone, w') = remove p w in if gone then (tally f in_tmp acc, w') else (acc, w'))

unfoldable pub sweep_dir : Bytes → Swept → Swept
sweep_dir p acc = record acc { empty_dirs = acc.empty_dirs ++ (p ∷ []) }

-- Something stands directly in the directory.
abbrev pub any {ℓ} : {V : Type ℓ} → (Bytes → Bool) → List (Bytes × V) → Bool
any test [] = false
any test ((k, v) ∷ m) = test k || any test m

abbrev pub is_empty_dir : Bytes → World → Bool
is_empty_dir d w =
    not (any (λ p. bytes_eq (dir_of p) d) w.files || any (λ p. bytes_eq (dir_of p) d) w.dirs)

-- `os.Remove` of a directory, with the error ignored
unfoldable pub remove_dir : Bytes → World → World
remove_dir d w =
    if lucky w.luck && is_empty_dir d w
    then record (advance w) { dirs = delete d w.dirs }
    else advance w

unfoldable pub remove_dirs : List Bytes → World → World
unfolding remove_dir
remove_dirs [] w = w
remove_dirs (d ∷ ds) w = remove_dirs ds (remove_dir d w)

-- `slices.SortFunc` on paths
abbrev pub SortPaths : Type 0
SortPaths = (Bytes → Bytes → Ordering) → List Bytes → List Bytes

abbrev pub deeper : Bytes → Bytes → Ordering
deeper a b = compare (length b) (length a)

-- The channels of `RunEviction`: a tick, after what else happened to the world, or the end.
pub data Signal : Type 0 where
  tick : (World → World) → Signal
  cancelled : Signal

module _ (sort : SortPaths) where
  unfoldable pub prune_empty_dirs : List Bytes → World → World
  prune_empty_dirs dirs w = remove_dirs (sort deeper dirs) w

  -- `Evict` behind the walk
  unfoldable pub finish_sweep : Walked Swept → Result CacheError ℕ × World
  unfolding prune_empty_dirs shift
  finish_sweep (false, acc, w) = (err CacheError.walking, w)
  finish_sweep (true, acc, w) =
      let w' = prune_empty_dirs acc.empty_dirs w in
      (
        ok acc.removed,
        count (Metric.evicted acc.removed_entries) (record w' {
          size_bytes = shift w'.size_bytes 0 acc.removed_bytes;
          entries = shift w'.entries 0 acc.removed_entries;
        }),
      )

  unfoldable pub evict : Cache → ℕ → Run CacheError ℕ
  unfolding finish_sweep
  evict c max_unused w =
      finish_sweep (walk_files c (sweep_file max_unused w.now) sweep_dir nothing_swept w)

  unfoldable pub run_eviction : Cache → ℕ → List Signal → World → World
  run_eviction c max_unused [] w = w
  run_eviction c max_unused (Signal.cancelled ∷ rest) w = w
  run_eviction c max_unused (Signal.tick other ∷ rest) w =
      run_eviction c max_unused rest (evict c max_unused (other w)).1
