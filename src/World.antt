-- ===== src/World.antt =====
-- What diskcache/ and objects/ change: the file system under the cache, the clock, and the collectors of
-- metrics/metrics.go that they write to (all but the durations).
pub mod Steps
use Prim.Native.Nat.{Ordering}
use debugsymd.Base.{
  ℕ, ◌+◌, ◌-◌, ◌≡◌, Bool, true, false, not, ◌&&◌, ◌||◌, Option, none, some, List, [], ◌∷◌, ◌++◌,
  Bytes, codes, length, take, if◌then◌else◌, ◌==◌, leb, ℤ, pos, negsuc,
}
use debugsymd.Base.Result.{Result, ok, err}
use debugsymd.GoStrings.{bytes_eq, last_index_byte}
use debugsymd.Dict.{get, put, delete}

pub record File : Type 0 where
  pub contents : Bytes
  pub modified : ℕ

pub data Found : Type 0 where
  hit miss : Found

pub data Resolved : Type 0 where
  found not_found failed : Resolved

-- An increment of a counter: its labels, or what is added.
pub data Metric : Type 0 where
  cache_lookup : (role : Bytes) → Found → Metric
  coalesced : Metric
  resolver_request : Resolved → Metric
  storage_error : Metric
  storage_bytes : ℕ → Metric
  cab_bytes : ℕ → Metric
  evicted : ℕ → Metric

-- `luck` says how the operations to come end, `false` for an error; with none left every operation
-- succeeds. `dirs` is a set. `size_bytes` and `entries` are the two gauges.
pub record World : Type 0 where
  pub files : List (Bytes × File)
  pub dirs : List (Bytes × Unit {0})
  pub luck : List Bool
  pub now : ℕ
  pub size_bytes : ℤ
  pub entries : ℤ
  pub log : List Metric

-- An operation with an error: the world is in both results.
abbrev pub Run : Type 0 → Type 0 → Type 0
Run E A = World → Result E A × World

abbrev pub and_then : {E A B : Type 0} → Result E A × World → (A → Run E B) → Result E B × World
and_then (ok a, w) f = f a w
and_then (err e, w) f = (err e, w)

infixl 5 ◌>>=◌ ◌>>◌
abbrev pub ◌>>=◌ : {E A B : Type 0} → Run E A → (A → Run E B) → Run E B
◌>>=◌ m f w = and_then (m w) f

abbrev pub ◌>>◌ : {E B : Type 0} → Run E (Unit {0}) → Run E B → Run E B
m >> k = m >>= λ _. k

-- `fmt.Errorf` around an error.
abbrev pub wrap : {E F A : Type 0} → (E → F) → Result E A × World → Result F A × World
wrap g (ok a, w) = (ok a, w)
wrap g (err e, w) = (err (g e), w)

abbrev pub pure : {E A : Type 0} → A → Run E A
pure a w = (ok a, w)

abbrev pub fail : {E A : Type 0} → E → Run E A
fail e w = (err e, w)

abbrev pub lucky : List Bool → Bool
lucky [] = true
lucky (b ∷ luck) = b

abbrev pub later : List Bool → List Bool
later [] = []
later (b ∷ luck) = luck

abbrev pub advance : World → World
advance w = record w { luck = later w.luck }

-- A call of the operating system that may fail with the error, and changes nothing then.
abbrev pub try : {E : Type 0} → E → (World → World) → Run E (Unit {0})
try e act w = if lucky w.luck then (ok tt, act (advance w)) else (err e, advance w)

abbrev pub chance : {E : Type 0} → E → Run E (Unit {0})
chance e = try e (λ w. w)

-- A call whose error the code ignores.
abbrev pub best_effort : (World → World) → World → World
best_effort act w = if lucky w.luck then act (advance w) else advance w

abbrev pub count : Metric → World → World
count m w = record w { log = m ∷ w.log }

abbrev pub counting : {E : Type 0} → Metric → Run E (Unit {0})
counting m w = (ok tt, count m w)

-- `filepath.Dir` of a clean path
unfoldable pub dir_of : Bytes → Bytes
dir_of p = elim (last_index_byte p b'/') [ none ↦ codes "." | some i ↦ take i p ]

abbrev pub is_dir : Bytes → World → Bool
is_dir d w = elim (get d w.dirs) [ none ↦ false | some _ ↦ true ]

-- The path's prefixes in front of a slash, the empty one left out.
unfoldable pub prefixes : Bytes → Bytes → List Bytes
prefixes front [] = []
prefixes front (c ∷ s) =
    let rest = prefixes (front ++ (c ∷ [])) s in
    if c == b'/' && not (length front == 0) then front ∷ rest else rest

abbrev pub add_dirs : List Bytes → List (Bytes × Unit {0}) → List (Bytes × Unit {0})
add_dirs [] dirs = dirs
add_dirs (d ∷ ds) dirs = add_dirs ds (put d tt dirs)

-- `os.MkdirAll`
unfoldable pub make_dirs : {E : Type 0} → E → Bytes → Run E (Unit {0})
unfolding prefixes
make_dirs e d = try e λ w. record w { dirs = put d tt (add_dirs (prefixes [] d) w.dirs) }

abbrev pub write_file : Bytes → File → World → World
write_file p f w = record w { files = put p f w.files }

abbrev pub drop_file : Bytes → World → World
drop_file p w = record w { files = delete p w.files }

-- `os.Remove` of a file, and whether it returned no error
unfoldable pub remove : Bytes → World → Bool × World
remove p w = elim (get p w.files) [
  | none ↦ (false, advance w)
  | some _ ↦ if lucky w.luck then (true, drop_file p (advance w)) else (false, advance w)
]

-- `os.Remove` of a file, with the error ignored
unfoldable pub discard : Bytes → World → World
unfolding remove
discard p w = (remove p w).1

-- `os.Chtimes` to the present, with the error ignored
unfoldable pub touch : Bytes → File → World → World
touch p f = best_effort λ w. write_file p (record f { modified = w.now }) w

-- `os.Rename` of a file onto a place whose directory is there
unfoldable pub rename : {E : Type 0} → E → Bytes → Bytes → Run E (Unit {0})
unfolding dir_of
rename e from to w = elim (get from w.files) [
  | none ↦ (err e, advance w)
  | some f ↦
      if lucky w.luck && is_dir (dir_of to) w
      then (ok tt, write_file to f (drop_file from (advance w)))
      else (err e, advance w)
]

-- the sum of a gauge, what is added and what is taken off
unfoldable pub shift : ℤ → ℕ → ℕ → ℤ
shift (pos n) a b = if leb b (n + a) then pos (n + a - b) else negsuc (b - (n + a) - 1)
shift (negsuc n) a b = if leb (n + 1 + b) a then pos (a - (n + 1 + b)) else negsuc (n + b - a)
