-- ===== src/Diskcache/Gauges/Seed.antt =====
-- The gauges behind `SeedMetrics`.
use debugsymd.Base.{
  ℕ, ◌+◌, ◌≡◌, refl, sym, ap, ◌∙◌, Bool, true, false, ◌||◌, none, some, List, [], ◌∷◌, ◌++◌, map,
  arith, Bytes, inl, inr, Bool-cases,
}
use mathlib.Core.Path.{subst}
use debugsymd.GoStrings.{bytes_eq}
use debugsymd.Dict.{get, IsUnique, bytes_eq_iff, bytes_eq_refl}
use debugsymd.Dict.Sums.{sum}
use debugsymd.World.{File, World, lucky, later, advance}
use debugsymd.Diskcache.Entries.{Cache, tmp_dir}
use debugsymd.Diskcache.Sweep.{
  Visit, Walked, walk, visit_file, visit_dir, names_below, is_below, Sizes, add_size, compute_size,
  seed, seed_metrics,
}
use debugsymd.Diskcache.Gauges.{
  is_entry, size_weight, entry_weight, IsAccurate, total_bytes, total_entries,
}

-- Each of these is what the dictionary has under its key.
abbrev Held : List (Bytes × File) → List (Bytes × File) → Type 0
Held [] m = Unit {0}
Held ((k, f) ∷ part) m = (get k m ≡ some f) × Held part m

Held-cons :
    (part : List (Bytes × File)) (j : Bytes) (v : File) (m : List (Bytes × File))
    → get j m ≡ none
    → Held part m
    → Held part ((j, v) ∷ m)
unfolding get
Held-cons [] j v m n h = tt
Held-cons ((k, f) ∷ part) j v m n (e, h) =
    (ground (arith, bytes_eq_iff j k), Held-cons part j v m n h)

IsUnique-Held : (m : List (Bytes × File)) → IsUnique m → Held m m
unfolding get
IsUnique-Held [] u = tt
IsUnique-Held ((k, f) ∷ m) (n, u) =
    (rw (bytes_eq_refl k) refl, Held-cons m k f m n (IsUnique-Held m u))

advance_idle : (w : World) → w.luck ≡ [] → advance w ≡ w
advance_idle w l = ap (λ (luck : List Bool). record w { luck = luck }) (ap later l ∙ sym l)

module _ (c : Cache) where
  abbrev idle : Bytes → Sizes → Sizes
  idle p s = s

  visit_file-add_size :
      (p : Bytes) (f : File) (bytes number : ℕ) (w : World)
      → w.luck ≡ []
      → is_below c.root p ≡ true
      → get p w.files ≡ some f
      → visit_file c add_size p (bytes, number) w
        ≡ ((bytes + size_weight c p f, number + entry_weight c p f), advance w)
  unfolding visit_file add_size is_entry
  visit_file-add_size p f bytes number w l below e = ground arith

  walk-entry :
      (p : Bytes) (vs : List Visit) (s : Sizes) (w : World)
      → lucky w.luck ≡ true
      → walk c add_size idle (Visit.entry p ∷ vs) s w
        ≡ walk c add_size idle vs
            (visit_file c add_size p s (advance w)).0
            (visit_file c add_size p s (advance w)).1
  unfolding walk
  walk-entry p vs s w h = rw h refl

  walk-directory :
      (p : Bytes) (vs : List Visit) (s : Sizes) (w : World)
      → lucky w.luck ≡ true
      → walk c add_size idle (Visit.directory p ∷ vs) s w ≡ walk c add_size idle vs s (advance w)
  unfolding walk visit_dir
  walk-directory p vs s w h = elim (Bool-cases (bytes_eq p c.root || bytes_eq p (tmp_dir c.root))) [
    | inl skipped ↦ rw (h, skipped) refl
    | inr kept ↦ rw (h, kept) refl
  ]

  walk-entries :
      (part : List (Bytes × File)) (bytes number : ℕ) (w : World)
      → w.luck ≡ []
      → Held part w.files
      → walk c add_size idle (map Visit.entry (names_below c.root part)) (bytes, number) w
        ≡ (true, (bytes + sum (size_weight c) part, number + sum (entry_weight c) part), w)
  unfolding sum
  walk-entries [] bytes number w l h = unfold walk in ground arith
  walk-entries ((k, f) ∷ part) bytes number w l (e, h) = elim (Bool-cases (is_below c.root k)) [
    | inr other ↦
        let none_here : is_entry c k ≡ false = unfold is_entry in rw other refl in
        rw (other, none_here) (walk-entries part bytes number w l h ∙ ground arith)
    | inl below ↦
        let still = advance_idle w l in
        let b = bytes + size_weight c k f in
        let n = number + entry_weight c k f in
        let seen : visit_file c add_size k (bytes, number) (advance w) ≡ ((b, n), w) =
          ap (visit_file c add_size k (bytes, number)) still
          ∙ visit_file-add_size k f bytes number w l below e
          ∙ ap (λ (v : World). ((b, n), v)) still in
        let vs = map Visit.entry (names_below c.root part) in
        let first = walk-entry k vs (bytes, number) w (ap lucky l) in
        let rest = walk-entries part b n w l h in
        rw below (
          first
          ∙ ap (λ (r : Sizes × World). walk c add_size idle vs r.0 r.1) seen
          ∙ rest
          ∙ ground arith)
  ]

  walk-directories :
      (ds : List Bytes) (vs : List Visit) (s : Sizes) (w : World)
      → w.luck ≡ []
      → walk c add_size idle (map Visit.directory ds ++ vs) s w ≡ walk c add_size idle vs s w
  walk-directories [] vs s w l = refl
  walk-directories (d ∷ ds) vs s w l =
      walk-directory d (map Visit.directory ds ++ vs) s w (ap lucky l)
      ∙ ap (walk c add_size idle (map Visit.directory ds ++ vs) s) (advance_idle w l)
      ∙ walk-directories ds vs s w l

  -- The gauges are right behind `SeedMetrics`, whatever they were, if no file can stand under one name twice
  -- and nothing on the walk fails.
  pub seed_metrics-IsAccurate :
      (w : World) → IsUnique w.files → w.luck ≡ [] → IsAccurate c (seed_metrics c w)
  unfolding seed_metrics compute_size
  seed_metrics-IsAccurate w u l =
      let walked : compute_size c w ≡ (true, (total_bytes c w, total_entries c w), w) =
        walk-directories (c.root ∷ names_below c.root w.dirs)
          (map Visit.entry (names_below c.root w.files)) (0, 0) w l
        ∙ walk-entries w.files 0 0 w l (IsUnique-Held w.files u)
        ∙ ground arith in
      subst (λ (x : Walked Sizes). IsAccurate c (seed x)) (sym walked)
        (record { unique = u; bytes = refl; number = refl })
