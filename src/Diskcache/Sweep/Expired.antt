-- ===== src/Diskcache/Sweep/Expired.antt =====
-- A sweep in which nothing fails.
use debugsymd.Base.{
  ℕ, ◌≡◌, refl, ap, ◌∙◌, Bool, true, false, ◌&&◌, ◌||◌, Option, none, some, List, [], ◌∷◌, ◌++◌,
  map, arith, Bytes, inl, inr, Bool-cases, Option-cases, if◌then◌else◌,
}
use debugsymd.GoStrings.{bytes_eq}
use debugsymd.Dict.{get, get-delete, bytes_eq_iff}
use debugsymd.World.{File, World, lucky, later, advance, remove}
use debugsymd.Diskcache.Entries.{Cache}
use debugsymd.Diskcache.Sweep.{
  Visit, walk, visit_file, visit_dir, visits, is_below, is_old, names_below, Swept, sweep_file,
  sweep_dir, nothing_swept, SortPaths, evict,
}
use debugsymd.Diskcache.Sweep.Removes.{finish_sweep-files}

-- What is left of a file that may be there.
abbrev pub expired : (max_unused now : ℕ) → Option File → Option File
expired max_unused now none = none
expired max_unused now (some f) = if is_old max_unused now f then none else some f

abbrev contains : Bytes → List Bytes → Bool
contains p [] = false
contains p (q ∷ qs) = bytes_eq q p || contains p qs

abbrev is_there : Option File → Bool
is_there none = false
is_there (some f) = true

module _ (max_unused start : ℕ) where
  expired_twice :
      (x : Option File)
      → expired max_unused start (expired max_unused start x) ≡ expired max_unused start x
  expired_twice none = refl
  expired_twice (some f) = ground arith

  expired_again :
      (a b : Bool) (x y : Option File)
      → y ≡ (if a then expired max_unused start x else x)
      → (if b then expired max_unused start y else y)
        ≡ (if a || b then expired max_unused start x else x)
  expired_again true true x y h = ap (expired max_unused start) h ∙ expired_twice x
  expired_again true false x y h = h
  expired_again false true x y h = ap (expired max_unused start) h
  expired_again false false x y h = h

  -- Without a file it makes no difference.
  expired_where :
      (a b : Bool) (x : Option File)
      → a ≡ (b && is_there x)
      → (if a then expired max_unused start x else x)
        ≡ (if b then expired max_unused start x else x)
  expired_where a b none h = ground arith
  expired_where a b (some f) h = ground arith

module _ (c : Cache) (max_unused start : ℕ) where
  abbrev sweep_visit : Bytes → Swept → World → Swept × World
  sweep_visit = visit_file c (sweep_file max_unused start)

  visit-expired :
      (p q : Bytes) (acc : Swept) (w : World)
      → w.luck ≡ []
      → (get p (sweep_visit q acc w).1.files
          ≡ (if bytes_eq q p then expired max_unused start (get p w.files) else get p w.files))
        × ((sweep_visit q acc w).1.luck ≡ [])
  unfolding visit_file sweep_file remove
  visit-expired p q acc w calm = elim (Option-cases (get q w.files)) [
    | inl n ↦ (ground (arith, bytes_eq_iff q p), ground arith)
    | inr (f, e) ↦ elim (Bool-cases (is_old max_unused start f)) [
      | inr young ↦ (ground (arith, bytes_eq_iff q p), ground arith)
      | inl old ↦ (ground (arith, bytes_eq_iff q p, get-delete p q w.files), ground arith)
    ]
  ]

  -- The entries of a walk, one after the other.
  walk-expired :
      (p : Bytes) (qs : List Bytes) (acc : Swept) (w : World)
      → w.luck ≡ []
      → get p (walk c (sweep_file max_unused start) sweep_dir (map Visit.entry qs) acc w).2.files
        ≡ (if contains p qs then expired max_unused start (get p w.files) else get p w.files)
  unfolding walk
  walk-expired p [] acc w calm = refl
  walk-expired p (q ∷ qs) acc w calm =
      let (here, calm') = visit-expired p q acc (advance w) (ap later calm) in
      let (acc', w') = sweep_visit q acc (advance w) in
      let rest = walk-expired p qs acc' w' calm' in
      rw (ap lucky calm) (
        rest
        ∙ expired_again max_unused start (bytes_eq q p) (contains p qs) (get p w.files)
            (get p w'.files) here)

  walk-directories :
      (p : Bytes) (ds qs : List Bytes) (acc : Swept) (w : World)
      → w.luck ≡ []
      → get p
          (walk c
            (sweep_file max_unused start)
            sweep_dir
            (map Visit.directory ds ++ map Visit.entry qs)
            acc
            w).2.files
        ≡ (if contains p qs then expired max_unused start (get p w.files) else get p w.files)
  unfolding walk
  walk-directories p [] qs acc w calm = walk-expired p qs acc w calm
  walk-directories p (d ∷ ds) qs acc w calm =
      rw (ap lucky calm)
        (walk-directories p ds qs (visit_dir c sweep_dir d acc) (advance w) (ap later calm))

-- A walk comes to every file below the root.
contains-names_below :
    (root p : Bytes) (m : List (Bytes × File))
    → contains p (names_below root m) ≡ (is_below root p && is_there (get p m))
unfolding get
contains-names_below root p [] = ground arith
contains-names_below root p ((k, f) ∷ m) =
    let rest = contains-names_below root p m in ground (arith, bytes_eq_iff k p)

module _ (sort : SortPaths) where
  -- A sweep in which nothing fails removes just the files below the cache's root, staging files as well,
  -- that are older than they are to be kept, and leaves every other file as it is.
  pub evict-expired :
      (c : Cache) (max_unused : ℕ) (p : Bytes) (w : World)
      → w.luck ≡ []
      → get p (evict sort c max_unused w).1.files
        ≡ (if is_below c.root p then expired max_unused w.now (get p w.files) else get p w.files)
  unfolding evict
  evict-expired c max_unused p w calm =
      let (walked, acc, v) =
        walk c (sweep_file max_unused w.now) sweep_dir (visits c w) nothing_swept w in
      let there = contains-names_below c.root p w.files in
      let swept =
        walk-directories c max_unused w.now p (c.root ∷ names_below c.root w.dirs)
          (names_below c.root w.files) nothing_swept w calm in
      ap (get p) (finish_sweep-files sort walked acc v)
      ∙ swept
      ∙ expired_where max_unused w.now (contains p (names_below c.root w.files)) (is_below c.root p)
          (get p w.files) there
