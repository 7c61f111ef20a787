-- ===== src/Diskcache/Gauges/Keeps.antt =====
-- The other operations keep the gauges right, and the seeding makes them right.
use debugsymd.Base.{
  ℕ, ◌+◌, ◌≡◌, refl, ap, ◌∙◌, true, false, none, some, List, arith, Bytes, length, ℤ, pos, ◌⊎◌, inl,
  inr, Option-cases,
}
use debugsymd.Base.Result.{ok}
use debugsymd.GoStrings.{bytes_eq}
use debugsymd.Dict.{
  get, put, delete, IsUnique, put-IsUnique, delete-IsUnique, get-delete, bytes_eq_ne,
}
use debugsymd.Dict.Sums.{sum, weight_of, sum-put, sum-delete}
use debugsymd.World.{File, World, lucky, advance, shift, rename, make_dirs}
use debugsymd.Diskcache.Entries.{Cache, commit_at, commit_sized, record_commit}
use debugsymd.Diskcache.Entries.Commit.{commit_at-ok}
use debugsymd.Diskcache.Gauges.{
  is_entry, size_weight, entry_weight, IsAccurate, total_bytes, total_entries, shift_pos,
}

-- The world at the `os.Stat` of the entry that a commit replaces: its fifth call.
abbrev pub at_stat : World → World
at_stat w = advance (advance (advance (advance w)))

commit_at-gauges :
    (tmp final : Bytes) (f : File) (w : World) {w' : World}
    → get tmp w.files ≡ some f
    → lucky (at_stat w).luck ≡ true
    → commit_at tmp final w ≡ (ok tt, w')
    → ((get final w.files ≡ none)
        × (w'.size_bytes ≡ shift w.size_bytes (length f.contents) 0)
        × (w'.entries ≡ shift w.entries 1 0))
      ⊎ ((old : File) × (get final w.files ≡ some old)
          × (w'.size_bytes ≡ shift w.size_bytes (length f.contents) (length old.contents))
          × (w'.entries ≡ w.entries))
unfolding commit_at commit_sized record_commit make_dirs rename
commit_at-gauges tmp final f w {w'} e stat h = elim (Option-cases (get final w.files)) [
  | inl n ↦ inl (n, ground arith, ground arith)
  | inr (old, o) ↦ inr (old, o, ground arith, ground arith)
]

module _ (c : Cache) where
  entry-ne-staging :
      (tmp final : Bytes)
      → is_entry c final ≡ true
      → is_entry c tmp ≡ false
      → bytes_eq tmp final ≡ false
  entry-ne-staging tmp final e s =
      bytes_eq_ne tmp final (λ (same : tmp ≡ final). ground (arith, ap (is_entry c) same))

  -- A sum over the entries after a rename of a staging file.
  sum_commit :
      (weight : Bytes → File → ℕ) (tmp final : Bytes) (f : File) (m : List (Bytes × File))
      → IsUnique m
      → bytes_eq tmp final ≡ false
      → weight_of weight tmp (get tmp m) ≡ 0
      → sum weight (put final f (delete tmp m)) + weight_of weight final (get final m)
        ≡ sum weight m + weight final f
  sum_commit weight tmp final f m u differ light =
      let kept : get final (delete tmp m) ≡ get final m = get-delete final tmp m ∙ rw differ refl in
      omega (
        arith,
        sum-put weight final f (delete tmp m),
        sum-delete weight tmp m u,
        ap (weight_of weight final) kept,
        light,
      )

  -- A commit of a staging file to an entry's path leaves right gauges right, if it returns no error and the
  -- `os.Stat` of the entry that it replaces did not fail.
  pub commit_at-IsAccurate :
      (tmp final : Bytes) (w : World) {w' : World}
      → IsAccurate c w
      → is_entry c final ≡ true
      → is_entry c tmp ≡ false
      → lucky (at_stat w).luck ≡ true
      → commit_at tmp final w ≡ (ok tt, w')
      → IsAccurate c w'
  commit_at-IsAccurate tmp final w {w'} a entry staging stat h =
      let done = commit_at-ok tmp final w h in
      let f = done.staged in
      let differ = entry-ne-staging tmp final entry staging in
      let light : weight_of (size_weight c) tmp (get tmp w.files) ≡ 0 =
        rw done.was_staged (rw staging refl) in
      let light' : weight_of (entry_weight c) tmp (get tmp w.files) ≡ 0 =
        rw done.was_staged (rw staging refl) in
      let bytes = sum_commit (size_weight c) tmp final f w.files a.unique differ light in
      let number = sum_commit (entry_weight c) tmp final f w.files a.unique differ light' in
      let heavy : size_weight c final f ≡ length f.contents = rw entry refl in
      let one : entry_weight c final f ≡ 1 = rw entry refl in
      let b = ap (sum (size_weight c)) done.files in
      let n = ap (sum (entry_weight c)) done.files in
      let unique : IsUnique w'.files =
        rw done.files
          (put-IsUnique final f (delete tmp w.files) (delete-IsUnique tmp w.files a.unique)) in
      elim (commit_at-gauges tmp final f w done.was_staged stat h) [
        | inl (fresh, size, entries) ↦
            let none_there = ap (weight_of (size_weight c) final) fresh in
            let none_there' = ap (weight_of (entry_weight c) final) fresh in
            record {
              unique = unique;
              bytes =
                  size
                  ∙ ap (λ (z : ℤ). shift z (length f.contents) 0) a.bytes
                  ∙ shift_pos (total_bytes c w) (length f.contents) 0 (omega arith)
                  ∙ ap pos (omega (arith, bytes, heavy, b, none_there));
              number =
                  entries
                  ∙ ap (λ (z : ℤ). shift z 1 0) a.number
                  ∙ shift_pos (total_entries c w) 1 0 (omega arith)
                  ∙ ap pos (omega (arith, number, one, n, none_there'));
            }
        | inr (old, there, size, entries) ↦
            let old_size : weight_of (size_weight c) final (get final w.files)
                ≡ length old.contents =
              rw there (rw entry refl) in
            let old_one : weight_of (entry_weight c) final (get final w.files) ≡ 1 =
              rw there (rw entry refl) in
            record {
              unique = unique;
              bytes =
                  size
                  ∙ ap (λ (z : ℤ). shift z (length f.contents) (length old.contents)) a.bytes
                  ∙ shift_pos (total_bytes c w) (length f.contents) (length old.contents)
                      (omega (arith, bytes, heavy, old_size))
                  ∙ ap pos (omega (arith, bytes, heavy, b, old_size));
              number = entries ∙ a.number ∙ ap pos (omega (arith, number, one, n, old_one));
            }
      ]
