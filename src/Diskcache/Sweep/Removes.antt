-- ===== src/Diskcache/Sweep/Removes.antt =====
-- Which files a sweep removes.
use debugsymd.Base.{
  ℕ, ◌+◌, ◌≡◌, ◌≤◌, refl, sym, ap, ◌∙◌, Bool, true, false, ◌&&◌, none, some, List, [], ◌∷◌, arith,
  Bytes, inl, inr, Bool-cases, Option-cases, if◌then◌else◌,
}
use debugsymd.Base.Result.{ok}
use debugsymd.GoStrings.{bytes_eq}
use debugsymd.Dict.{get, put, get-put, get-delete, bytes_eq_iff, bytes_eq_refl}
use debugsymd.World.{File, World, lucky, later, advance, remove, touch}
use debugsymd.Diskcache.Entries.{Cache, lookup_at}
use debugsymd.Diskcache.Sweep.{
  Visit, walk, visit_file, visit_dir, visits, is_old, Swept, sweep_file, sweep_dir, nothing_swept,
  SortPaths, finish_sweep, prune_empty_dirs, deeper, evict,
}
use debugsymd.Diskcache.Gauges.Evict.{remove_dirs-files}

module _ (c : Cache) (max_unused start : ℕ) where
  abbrev sweep_visit : Bytes → Swept → World → Swept × World
  sweep_visit = visit_file c (sweep_file max_unused start)

  -- A visit leaves the files as they are, or removes an old one.
  data Visited (q : Bytes) (w : World) (w' : World) : Type 0 where
    kept : w'.files ≡ w.files → Visited q w w'
    gone :
        (f : File)
        → get q w.files ≡ some f
        → is_old max_unused start f ≡ true
        → ((p : Bytes) → get p w'.files ≡ (if bytes_eq q p then none else get p w.files))
        → Visited q w w'

  visit-Visited : (q : Bytes) (acc : Swept) (w : World) → Visited q w (sweep_visit q acc w).1
  unfolding visit_file sweep_file remove
  visit-Visited q acc w = elim (Option-cases (get q w.files)) [
    | inl n ↦ Visited.kept (ground arith)
    | inr (f, e) ↦ elim (Bool-cases (is_old max_unused start f)) [
      | inr young ↦ Visited.kept (ground arith)
      | inl old ↦ elim (Bool-cases (lucky w.luck && lucky (later w.luck))) [
        | inr failed ↦ Visited.kept (ground arith)
        | inl fine ↦ Visited.gone f e old (λ p. ground (arith, get-delete p q w.files))
      ]
    ]
  ]

  visit-young :
      (p q : Bytes) (acc : Swept) (w : World) {f : File}
      → get p w.files ≡ some f
      → is_old max_unused start f ≡ false
      → get p (sweep_visit q acc w).1.files ≡ some f
  visit-young p q acc w {f} e young = elim (visit-Visited q acc w) [
    | Visited.kept same ↦ ap (get p) same ∙ e
    | Visited.gone g there old removes ↦ ground (arith, removes p, bytes_eq_iff q p)
  ]

  walk-young :
      (p : Bytes) (vs : List Visit) (acc : Swept) (w : World) {f : File}
      → get p w.files ≡ some f
      → is_old max_unused start f ≡ false
      → get p (walk c (sweep_file max_unused start) sweep_dir vs acc w).2.files ≡ some f
  unfolding walk
  walk-young p [] acc w e young = e
  walk-young p (Visit.directory d ∷ vs) acc w e young = elim (Bool-cases (lucky w.luck)) [
    | inr unread ↦ rw unread e
    | inl read ↦ rw read (walk-young p vs (visit_dir c sweep_dir d acc) (advance w) e young)
  ]
  walk-young p (Visit.entry q ∷ vs) acc w e young = elim (Bool-cases (lucky w.luck)) [
    | inr unread ↦ rw unread e
    | inl read ↦
        let (acc', w') = sweep_visit q acc (advance w) in
        rw read (walk-young p vs acc' w' (visit-young p q acc (advance w) e young) young)
  ]

module _ (sort : SortPaths) where
  pub finish_sweep-files :
      (walked : Bool) (acc : Swept) (v : World)
      → (finish_sweep sort (walked, acc, v)).1.files ≡ v.files
  unfolding finish_sweep prune_empty_dirs
  finish_sweep-files false acc v = refl
  finish_sweep-files true acc v = (remove_dirs-files (sort deeper acc.empty_dirs) v).0

  -- No sweep removes a file that was modified within the time that it is to be kept, whatever fails in it.
  pub evict-young :
      (c : Cache) (max_unused : ℕ) (p : Bytes) (w : World) {f : File}
      → get p w.files ≡ some f
      → w.now ≤ f.modified + max_unused
      → get p (evict sort c max_unused w).1.files ≡ some f
  unfolding evict
  evict-young c max_unused p w {f} e young =
      let (walked, acc, v) =
        walk c (sweep_file max_unused w.now) sweep_dir (visits c w) nothing_swept w in
      let kept = walk-young c max_unused w.now p (visits c w) nothing_swept w e (ground arith) in
      ap (get p) (finish_sweep-files walked acc v) ∙ kept

  -- An entry that `Lookup` has served, its timestamp set, is not removed by a sweep that starts within the
  -- time that it is to be kept.
  pub lookup_at-evict :
      (c : Cache) (max_unused sweep_at : ℕ) (luck : List Bool) (p : Bytes) (w : World) {f : File}
      {w' : World}
      → lookup_at p w ≡ (ok (some f), w')
      → lucky (later (later w.luck)) ≡ true
      → sweep_at ≤ w.now + max_unused
      → get p (evict sort c max_unused (record w' { now = sweep_at; luck = luck })).1.files
        ≡ some (record f { modified = w.now })
  lookup_at-evict c max_unused sweep_at luck p w {f} {w'} h touched soon =
      evict-young c max_unused p (record w' { now = sweep_at; luck = luck }) (served p w h touched)
        soon
    where
      served :
          (p : Bytes) (w : World) {f : File} {w' : World}
          → lookup_at p w ≡ (ok (some f), w')
          → lucky (later (later w.luck)) ≡ true
          → get p w'.files ≡ some (record f { modified = w.now })
      served p w {f} {w'} h touched = elim (Option-cases (get p w.files)) [
        | inl n ↦ absurd (unfold lookup_at touch in ground arith)
        | inr (g, e) ↦
            let new = record g { modified = w.now } in
            let stored : put p new w.files ≡ w'.files = unfold lookup_at touch in ground arith in
            let same : g ≡ f = unfold lookup_at touch in ground arith in
            ap (get p) (sym stored)
            ∙ get-put p p new w.files
            ∙ rw (bytes_eq_refl p) (ap (λ (x : File). some (record x { modified = w.now })) same)
      ]
