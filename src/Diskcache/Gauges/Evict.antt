-- ===== src/Diskcache/Gauges/Evict.antt =====
-- What a sweep does to the gauges.
use debugsymd.Base.{
  Option-cases, ℕ, ◌+◌, ◌≡◌, refl, ap, ◌∙◌, Bool, true, false, List, [], ◌∷◌, ◌++◌, map, arith,
  Bytes, ℤ, pos, inl, inr, Bool-cases,
}
use debugsymd.Base.Result.{Result, ok, err}
use debugsymd.Dict.{get}
use debugsymd.Dict.Sums.{sum}
use debugsymd.World.{remove, File, World, lucky, advance, shift}
use debugsymd.Diskcache.Entries.{Cache, CacheError}
use debugsymd.Diskcache.Sweep.{
  Visit, visit_file, visit_dir, visits, names_below, is_below, walk, sweep_file, sweep_dir,
  nothing_swept, Swept, SortPaths, prune_empty_dirs, remove_dirs, remove_dir, finish_sweep, evict,
  deeper,
}
use debugsymd.Diskcache.Gauges.{
  size_weight, entry_weight, IsAccurate, total_bytes, total_entries, shift_pos,
}
use debugsymd.Diskcache.Gauges.Sweeping.{Balance, AllBelow, walk-Balance}

module _ (c : Cache) where
  entries-AllBelow : (m : List (Bytes × File)) → AllBelow c (map Visit.entry (names_below c.root m))
  entries-AllBelow [] = tt
  entries-AllBelow ((k, f) ∷ m) = elim (Bool-cases (is_below c.root k)) [
    | inl below ↦ rw below (below, entries-AllBelow m)
    | inr other ↦ rw other (entries-AllBelow m)
  ]

  directories-AllBelow :
      (ds : List Bytes) (vs : List Visit)
      → AllBelow c vs
      → AllBelow c (map Visit.directory ds ++ vs)
  directories-AllBelow [] vs h = h
  directories-AllBelow (d ∷ ds) vs h = directories-AllBelow ds vs h

  visits-AllBelow : (w : World) → AllBelow c (visits c w)
  visits-AllBelow w =
      directories-AllBelow (names_below c.root w.dirs)
        (map Visit.entry (names_below c.root w.files)) (entries-AllBelow w.files)

pub remove_dirs-files :
    (ds : List Bytes) (w : World)
    → ((remove_dirs ds w).files ≡ w.files)
      × ((remove_dirs ds w).size_bytes ≡ w.size_bytes)
      × ((remove_dirs ds w).entries ≡ w.entries)
unfolding remove_dirs
remove_dirs-files [] w = (refl, refl, refl)
remove_dirs-files (d ∷ ds) w =
    let (f, s, e) = remove_dirs-files ds (remove_dir d w) in
    let (f', s', e') = one d w in (f ∙ f', s ∙ s', e ∙ e')
  where
    one :
        (d : Bytes) (w : World)
        → ((remove_dir d w).files ≡ w.files)
          × ((remove_dir d w).size_bytes ≡ w.size_bytes)
          × ((remove_dir d w).entries ≡ w.entries)
    one d w = unfold remove_dir in ground arith

-- The walk itself writes to neither gauge.
abbrev SameGauges : World → World → Type 0
SameGauges w w' = (w'.size_bytes ≡ w.size_bytes) × (w'.entries ≡ w.entries)

module _ (c : Cache) (max_unused start : ℕ) where
  visit_file-SameGauges :
      (p : Bytes) (acc : Swept) (w : World)
      → SameGauges w (visit_file c (sweep_file max_unused start) p acc w).1
  unfolding visit_file sweep_file remove
  visit_file-SameGauges p acc w = elim (Option-cases (get p w.files)) [
    | inl gone ↦ (ground arith, ground arith)
    | inr (f, e) ↦ (ground arith, ground arith)
  ]

  walk-SameGauges :
      (vs : List Visit) (acc : Swept) (w : World)
      → SameGauges w (walk c (sweep_file max_unused start) sweep_dir vs acc w).2
  unfolding walk
  walk-SameGauges [] acc w = (refl, refl)
  walk-SameGauges (Visit.directory p ∷ vs) acc w = elim (Bool-cases (lucky w.luck)) [
    | inr unread ↦ rw unread (refl, refl)
    | inl read ↦ rw read (walk-SameGauges vs (visit_dir c sweep_dir p acc) (advance w))
  ]
  walk-SameGauges (Visit.entry p ∷ vs) acc w = elim (Bool-cases (lucky w.luck)) [
    | inr unread ↦ rw unread (refl, refl)
    | inl read ↦
        let (acc', w') = visit_file c (sweep_file max_unused start) p acc (advance w) in
        let (s, e) = walk-SameGauges vs acc' w' in
        let (s', e') = visit_file-SameGauges p acc (advance w) in rw read (s ∙ s', e ∙ e')
  ]

module _ (c : Cache) (sort : SortPaths) where
  -- The gauges are right behind the sweep, or still count what was there before it.
  pub data SweptGauges (w : World) : Result CacheError ℕ × World → Type 0 where
    adjusted : {n : ℕ} {w' : World} → IsAccurate c w' → SweptGauges w (ok n, w')
    drifted :
        {e : CacheError} {w' : World} (bytes number : ℕ)
        → total_bytes c w' + bytes ≡ total_bytes c w
        → total_entries c w' + number ≡ total_entries c w
        → w'.size_bytes ≡ pos (total_bytes c w)
        → w'.entries ≡ pos (total_entries c w)
        → SweptGauges w (err e, w')

  finish_sweep-SweptGauges :
      (w : World) (walked : Bool) (acc : Swept) (v : World)
      → Balance c (total_bytes c w) (total_entries c w) acc v
      → v.size_bytes ≡ pos (total_bytes c w)
      → v.entries ≡ pos (total_entries c w)
      → SweptGauges w (finish_sweep sort (walked, acc, v))
  unfolding finish_sweep prune_empty_dirs
  finish_sweep-SweptGauges w false acc v b s e =
      SweptGauges.drifted acc.removed_bytes acc.removed_entries b.bytes_agree b.number_agrees s e
  finish_sweep-SweptGauges w true acc v b s e =
      let (files, size, number) = remove_dirs-files (sort deeper acc.empty_dirs) v in
      let less = shift_pos (total_bytes c w) 0 acc.removed_bytes (omega (arith, b.bytes_agree)) in
      let fewer =
        shift_pos (total_entries c w) 0 acc.removed_entries (omega (arith, b.number_agrees)) in
      SweptGauges.adjusted (record {
        unique = rw files b.unique;
        bytes =
            ap (λ (z : ℤ). shift z 0 acc.removed_bytes) (size ∙ s)
            ∙ less
            ∙ ap pos (omega (arith, b.bytes_agree, ap (sum (size_weight c)) files));
        number =
            ap (λ (z : ℤ). shift z 0 acc.removed_entries) (number ∙ e)
            ∙ fewer
            ∙ ap pos (omega (arith, b.number_agrees, ap (sum (entry_weight c)) files));
      })

  -- A sweep of a cache whose gauges are right leaves them right, if it returns no error, whatever of its
  -- removals failed. If its walk fails, the gauges still count exactly
  -- the entries that were there before the sweep, also those that it removed.
  pub evict-SweptGauges :
      (max_unused : ℕ) (w : World) → IsAccurate c w → SweptGauges w (evict sort c max_unused w)
  unfolding evict
  evict-SweptGauges max_unused w a =
      let (walked, acc, v) =
        walk c (sweep_file max_unused w.now) sweep_dir (visits c w) nothing_swept w in
      let start : Balance c (total_bytes c w) (total_entries c w) nothing_swept w = record {
        unique = a.unique;
        bytes_agree = omega arith;
        number_agrees = omega arith;
      } in
      let b =
        walk-Balance c max_unused w.now (total_bytes c w) (total_entries c w) (visits c w)
          nothing_swept w (visits-AllBelow c w) start in
      let (s, e) = walk-SameGauges c max_unused w.now (visits c w) nothing_swept w in
      finish_sweep-SweptGauges w walked acc v b (s ∙ a.bytes) (e ∙ a.number)
