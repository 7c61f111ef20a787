-- ===== src/Diskcache/Gauges/Sweeping.antt =====
-- A walk that sweeps keeps the balance of what is there and what it has taken off.
use debugsymd.Base.{
  ◌||◌, ℕ, ◌+◌, ◌≡◌, refl, true, ◌&&◌, some, List, [], ◌∷◌, arith, Bytes, inl, inr, Bool-cases,
  Option-cases,
}
use debugsymd.GoStrings.{bytes_eq}
use debugsymd.Dict.{get, IsUnique, delete-IsUnique}
use debugsymd.Dict.Sums.{sum-delete}
use debugsymd.World.{File, World, lucky, advance, dir_of, remove, drop_file}
use debugsymd.Diskcache.Entries.{Cache, tmp_dir}
use debugsymd.Diskcache.Sweep.{
  Visit, walk, visit_file, visit_dir, is_below, is_old, Swept, tally, sweep_file, sweep_dir,
}
use debugsymd.Diskcache.Gauges.{is_entry, size_weight, entry_weight, total_bytes, total_entries}

module _ (c : Cache) where
  -- What a sweep has taken off so far, against what was there at its start.
  pub record Balance (bytes number : ℕ) (acc : Swept) (w : World) : Type 0 where
    pub unique : IsUnique w.files
    pub bytes_agree : total_bytes c w + acc.removed_bytes ≡ bytes
    pub number_agrees : total_entries c w + acc.removed_entries ≡ number

  pub remove-Balance :
      (bytes number : ℕ) (p : Bytes) (f : File) (acc : Swept) (w : World)
      → is_below c.root p ≡ true
      → get p w.files ≡ some f
      → Balance bytes number acc w
      → Balance bytes number
          (tally f (bytes_eq (dir_of p) (tmp_dir c.root)) acc)
          (drop_file p (advance w))
  unfolding is_entry
  remove-Balance bytes number p f acc w below e b =
      let lost = sum-delete (size_weight c) p w.files b.unique in
      let fewer = sum-delete (entry_weight c) p w.files b.unique in
      let unique = delete-IsUnique p w.files b.unique in
      elim (Bool-cases (bytes_eq (dir_of p) (tmp_dir c.root))) [
        | inl staging ↦ rw staging (record {
          unique = unique;
          bytes_agree = ground (arith, lost, b.bytes_agree);
          number_agrees = ground (arith, fewer, b.number_agrees);
        })
        | inr entry ↦ rw entry (record {
          unique = unique;
          bytes_agree = ground (arith, lost, b.bytes_agree);
          number_agrees = ground (arith, fewer, b.number_agrees);
        })
      ]

  sweep_file-Balance :
      (max_unused start bytes number : ℕ) (p : Bytes) (f : File) (acc : Swept) (w : World)
      {acc' : Swept} {w' : World}
      → is_below c.root p ≡ true
      → get p w.files ≡ some f
      → Balance bytes number acc w
      → sweep_file max_unused start p f (bytes_eq (dir_of p) (tmp_dir c.root)) acc w ≡ (acc', w')
      → Balance bytes number acc' w'
  unfolding sweep_file remove
  sweep_file-Balance max_unused start bytes number p f acc w {acc'} {w'} below e b h =
      elim (Bool-cases (is_old max_unused start f && lucky w.luck)) [
        | inl gone ↦
            let done = remove-Balance bytes number p f acc w below e b in
            let same_acc : tally f (bytes_eq (dir_of p) (tmp_dir c.root)) acc ≡ acc' =
              ground arith in
            let same : drop_file p (advance w) ≡ w' = ground arith in rw (← same_acc, ← same) done
        | inr kept ↦
            let same_acc : acc ≡ acc' = ground arith in
            let same_files : w'.files ≡ w.files = ground arith in
            record {
              unique = rw same_files b.unique;
              bytes_agree = rw (same_files, ← same_acc) b.bytes_agree;
              number_agrees = rw (same_files, ← same_acc) b.number_agrees;
            }
      ]

  -- The files that a walk visits are below the root.
  abbrev pub AllBelow : List Visit → Type 0
  AllBelow [] = Unit {0}
  AllBelow (Visit.directory p ∷ vs) = AllBelow vs
  AllBelow (Visit.entry p ∷ vs) = (is_below c.root p ≡ true) × AllBelow vs

  visit_file-Balance :
      (max_unused start bytes number : ℕ) (p : Bytes) (acc : Swept) (w : World) {acc' : Swept}
      {w' : World}
      → is_below c.root p ≡ true
      → Balance bytes number acc w
      → visit_file c (sweep_file max_unused start) p acc w ≡ (acc', w')
      → Balance bytes number acc' w'
  unfolding visit_file
  visit_file-Balance max_unused start bytes number p acc w {acc'} {w'} below b h =
      let kept : (acc ≡ acc') → (w'.files ≡ w.files) → Balance bytes number acc' w' =
        λ same_acc same_files. record {
          unique = rw same_files b.unique;
          bytes_agree = rw (same_files, ← same_acc) b.bytes_agree;
          number_agrees = rw (same_files, ← same_acc) b.number_agrees;
        } in
      elim (Option-cases (get p w.files)) [
        | inl gone ↦ kept (ground arith) (ground arith)
        | inr (f, e) ↦ elim (Bool-cases (lucky w.luck)) [
          | inr unread ↦ kept (ground arith) (ground arith)
          | inl read ↦
              let there : Balance bytes number acc (advance w) = record {
                unique = b.unique;
                bytes_agree = b.bytes_agree;
                number_agrees = b.number_agrees;
              } in
              sweep_file-Balance max_unused start bytes number p f acc (advance w) below e there
                (ground arith)
        ]
      ]

  later-Balance :
      (bytes number : ℕ) (acc : Swept) (w : World)
      → Balance bytes number acc w
      → Balance bytes number acc (advance w)
  later-Balance bytes number acc w b = record {
    unique = b.unique;
    bytes_agree = b.bytes_agree;
    number_agrees = b.number_agrees;
  }

  visit_dir-Balance :
      (bytes number : ℕ) (p : Bytes) (acc : Swept) (w : World)
      → Balance bytes number acc w
      → Balance bytes number (visit_dir c sweep_dir p acc) w
  unfolding visit_dir sweep_dir
  visit_dir-Balance bytes number p acc w b =
      elim (Bool-cases (bytes_eq p c.root || bytes_eq p (tmp_dir c.root))) [
        | inl skipped ↦ rw skipped b
        | inr kept ↦ rw kept (record {
          unique = b.unique;
          bytes_agree = b.bytes_agree;
          number_agrees = b.number_agrees;
        })
      ]

  pub walk-Balance :
      (max_unused start bytes number : ℕ) (vs : List Visit) (acc : Swept) (w : World)
      → AllBelow vs
      → Balance bytes number acc w
      → Balance bytes number
          (walk c (sweep_file max_unused start) sweep_dir vs acc w).1
          (walk c (sweep_file max_unused start) sweep_dir vs acc w).2
  unfolding walk
  walk-Balance max_unused start bytes number [] acc w below b = b
  walk-Balance max_unused start bytes number (Visit.directory p ∷ vs) acc w below b =
      let next = later-Balance bytes number acc w b in
      elim (Bool-cases (lucky w.luck)) [
        | inr unread ↦ rw unread next
        | inl read ↦ rw read (
            walk-Balance max_unused start bytes number vs (visit_dir c sweep_dir p acc) (advance w)
              below (visit_dir-Balance bytes number p acc (advance w) next))
      ]
  walk-Balance max_unused start bytes number (Visit.entry p ∷ vs) acc w (here, below) b =
      let next = later-Balance bytes number acc w b in
      let (acc', w') = visit_file c (sweep_file max_unused start) p acc (advance w) in
      elim (Bool-cases (lucky w.luck)) [
        | inr unread ↦ rw unread next
        | inl read ↦ rw read (
            walk-Balance max_unused start bytes number vs acc' w' below
              (visit_file-Balance max_unused start bytes number p acc (advance w) here next refl))
      ]
