-- ===== src/Diskcache/Entries/Commit.antt =====
-- What `Commit` and `Lookup` do to the files, whatever fails on the way.
use debugsymd.Base.{
  ℕ, ◌≡◌, refl, ap, ◌∙◌, none, some, arith, Bytes, length, ◌⊎◌, inl, inr, Bool-cases, Option-cases,
  ◌&&◌,
}
use debugsymd.Base.Result.{Result, ok, err}
use debugsymd.Dict.{get, put, delete}
use debugsymd.World.{File, World, lucky, later, advance, make_dirs, rename, write_file, touch}
use debugsymd.Diskcache.Entries.{CacheError, commit_at, commit_sized, record_commit, lookup_at}

-- The world that a commit leaves, by the staging file.
pub record Committed (tmp final : Bytes) (w : World) (w' : World) : Type 0 where
  pub staged : File
  pub was_staged : get tmp w.files ≡ some staged
  pub files : w'.files ≡ put final staged (delete tmp w.files)
  pub log : w'.log ≡ w.log
  pub now : w'.now ≡ w.now

pub record Untouched (w w' : World) : Type 0 where
  pub files : w'.files ≡ w.files
  pub size_bytes : w'.size_bytes ≡ w.size_bytes
  pub entries : w'.entries ≡ w.entries
  pub log : w'.log ≡ w.log
  pub now : w'.now ≡ w.now

rename-ok :
    {E : Type 0} (e : E) (from to : Bytes) (w : World) {w' : World}
    → rename e from to w ≡ (ok tt, w')
    → (f : File) × (get from w.files ≡ some f)
      × (w' ≡ write_file to f (record w { luck = later w.luck; files = delete from w.files }))
unfolding rename
rename-ok e from to w h = elim (Option-cases (get from w.files)) [
  | inl n ↦ absurd (ground arith)
  | inr (f, g) ↦ (f, g, ground arith)
]

commit_sized-ok :
    (tmp final : Bytes) (size : ℕ) (w : World) {w' : World}
    → commit_sized tmp final size w ≡ (ok tt, w')
    → Committed tmp final w w'
unfolding commit_sized record_commit make_dirs rename
commit_sized-ok tmp final size w {w'} h = elim (Option-cases (get tmp w.files)) [
  | inl n ↦ absurd (ground arith)
  | inr (f, g) ↦ record {
    staged = f;
    was_staged = g;
    files = ground arith;
    log = ground arith;
    now = ground arith;
  }
]

commit_sized-err :
    (tmp final : Bytes) (size : ℕ) (w : World) {e : CacheError} {w' : World}
    → commit_sized tmp final size w ≡ (err e, w')
    → Untouched w w'
unfolding commit_sized make_dirs rename
commit_sized-err tmp final size w {e} {w'} h = record {
  files = ground arith;
  size_bytes = ground arith;
  entries = ground arith;
  log = ground arith;
  now = ground arith;
}

pub commit_at-ok :
    (tmp final : Bytes) (w : World) {w' : World}
    → commit_at tmp final w ≡ (ok tt, w')
    → Committed tmp final w w'
unfolding commit_at
commit_at-ok tmp final w {w'} h = elim (Option-cases (get tmp w.files)) [
  | inl n ↦ absurd (ground arith)
  | inr (f, g) ↦
      let start = advance (advance w) in
      let run : commit_sized tmp final (length f.contents) start ≡ (ok tt, w') = ground arith in
      let done = commit_sized-ok tmp final (length f.contents) start run in
      record {
        staged = done.staged;
        was_staged = done.was_staged;
        files = done.files;
        log = done.log;
        now = done.now;
      }
]

pub commit_at-err :
    (tmp final : Bytes) (w : World) {e : CacheError} {w' : World}
    → commit_at tmp final w ≡ (err e, w')
    → Untouched w w'
unfolding commit_at
commit_at-err tmp final w {e} {w'} h =
    let start = advance (advance w) in
    elim (Option-cases (get tmp w.files)) [
      | inl n ↦ record {
        files = ground arith;
        size_bytes = ground arith;
        entries = ground arith;
        log = ground arith;
        now = ground arith;
      }
      | inr (f, g) ↦ elim (Bool-cases (lucky w.luck && lucky (later w.luck))) [
        | inr bad ↦ record {
          files = ground arith;
          size_bytes = ground arith;
          entries = ground arith;
          log = ground arith;
          now = ground arith;
        }
        | inl good ↦
            let run : commit_sized tmp final (length f.contents) start ≡ (err e, w') =
              ground arith in
            let kept = commit_sized-err tmp final (length f.contents) start run in
            record {
              files = kept.files;
              size_bytes = kept.size_bytes;
              entries = kept.entries;
              log = kept.log;
              now = kept.now;
            }
      ]
    ]

-- `Commit` is atomic, whichever of its calls fail: it returns no error and the staging file, with its
-- contents, stands in the entry's place and no longer in its own, every other file as it was; or it
-- returns an error, and no file and neither gauge has changed.
pub commit_at-atomic :
    (tmp final : Bytes) (w : World)
    → ((w' : World) × (commit_at tmp final w ≡ (ok tt, w')) × Committed tmp final w w')
      ⊎ ((e : CacheError) × (w' : World) × (commit_at tmp final w ≡ (err e, w')) × Untouched w w')
commit_at-atomic tmp final w = go (commit_at tmp final w) refl
  where
    go :
        (r : Result CacheError (Unit {0}) × World)
        → commit_at tmp final w ≡ r
        → ((w' : World) × (commit_at tmp final w ≡ (ok tt, w')) × Committed tmp final w w')
          ⊎ ((e : CacheError) × (w' : World) × (commit_at tmp final w ≡ (err e, w'))
              × Untouched w w')
    go (ok tt, w') e = inl (w', e, commit_at-ok tmp final w e)
    go (err x, w') e = inr (x, w', e, commit_at-err tmp final w e)

-- `Lookup` of a path.
pub lookup_at-some :
    (p : Bytes) (w : World) {f : File} {w' : World}
    → lookup_at p w ≡ (ok (some f), w')
    → (get p w.files ≡ some f)
      × ((w'.files ≡ w.files) ⊎ (w'.files ≡ put p (record f { modified = w.now }) w.files))
      × (w'.size_bytes ≡ w.size_bytes)
      × (w'.entries ≡ w.entries)
unfolding lookup_at touch
lookup_at-some p w {f} {w'} h = elim (Option-cases (get p w.files)) [
  | inl n ↦ absurd (ground arith)
  | inr (g, e) ↦
      let same : g ≡ f = ground arith in
      elim (Bool-cases (lucky (later (later w.luck)))) [
        | inl touched ↦ (e ∙ ap some same, inr (ground arith), ground arith, ground arith)
        | inr old ↦ (e ∙ ap some same, inl (ground arith), ground arith, ground arith)
      ]
]

pub lookup_at-none :
    (p : Bytes) (w : World) {w' : World}
    → lookup_at p w ≡ (ok none, w')
    → (get p w.files ≡ none) × (w' ≡ advance w)
unfolding lookup_at touch
lookup_at-none p w {w'} h = elim (Option-cases (get p w.files)) [
  | inl n ↦ (n, ground arith)
  | inr (g, e) ↦ absurd (ground arith)
]

pub lookup_at-err :
    (p : Bytes) (w : World) {e : CacheError} {w' : World}
    → lookup_at p w ≡ (err e, w')
    → w'.files ≡ w.files
unfolding lookup_at touch
lookup_at-err p w {e} {w'} h = elim (Option-cases (get p w.files)) [
  | inl n ↦ ground arith
  | inr (g, k) ↦ ground arith
]
