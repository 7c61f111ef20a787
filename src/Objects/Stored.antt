-- ===== src/Objects/Stored.antt =====
-- What a staging file that is filled and committed leaves among the files, and what remains of one
-- that is not committed.
use debugsymd.Base.{
  ℕ, ◌≡◌, ◌≢◌, sym, ap, ◌∙◌, none, some, List, [], ◌++◌, arith, Bytes, codes, inl, inr,
  Option-cases,
}
use debugsymd.Base.Result.{Result, ok, err}
use debugsymd.Dict.{get, put, delete, get-put, get-delete, bytes_eq_refl, bytes_eq_ne}
use debugsymd.World.{World, File, discard, remove}
use debugsymd.Diskcache.Entries.{
  Platform, Cache, CacheError, commit_at, new_temp, staging_name, tmp_dir, tmp_pattern,
}
use debugsymd.Diskcache.Entries.Commit.{commit_at-ok, commit_at-err}
use debugsymd.Objects.{ObjectError, fill, clean_up}

-- The entry has the bytes, the staging file is gone, and no other file has changed.
pub record Stored (tmp final bytes : Bytes) (w w' : World) : Type 0 where
  pub at : ℕ
  pub stored : get final w'.files ≡ some (record { contents = bytes; modified = at })
  pub unstaged : get tmp w'.files ≡ none
  pub others : (p : Bytes) → p ≢ final → p ≢ tmp → get p w'.files ≡ get p w.files

-- No file but the staging file has changed.
abbrev pub Kept : Bytes → World → World → Type 0
Kept tmp w w' = (p : Bytes) → p ≢ tmp → get p w'.files ≡ get p w.files

pub get-put_same :
    {V : Type 0} (k : Bytes) (v : V) (m : List (Bytes × V)) → get k (put k v m) ≡ some v
get-put_same k v m = rw (get-put k k v m, bytes_eq_refl k)

pub get-put_other :
    {V : Type 0} (j k : Bytes) (v : V) (m : List (Bytes × V)) → j ≢ k → get j (put k v m) ≡ get j m
get-put_other j k v m h = rw (get-put j k v m, bytes_eq_ne k j (λ e. h (sym e)))

pub get-delete_other :
    {V : Type 0} (j k : Bytes) (m : List (Bytes × V)) → j ≢ k → get j (delete k m) ≡ get j m
get-delete_other j k m h = rw (get-delete j k m, bytes_eq_ne k j (λ e. h (sym e)))

pub get-delete_same : {V : Type 0} (k : Bytes) (m : List (Bytes × V)) → get k (delete k m) ≡ none
get-delete_same k m = rw (get-delete k k m, bytes_eq_refl k)

-- A commit of a file that has just been filled.
pub commit_at-Stored :
    (tmp final bytes : Bytes) (w v : World) {w' : World}
    → tmp ≢ final
    → v.files ≡ (fill tmp bytes w).files
    → commit_at tmp final v ≡ (ok tt, w')
    → Stored tmp final bytes w w'
commit_at-Stored tmp final bytes w v {w'} apart filled h =
    let done = commit_at-ok tmp final v h in
    let new : File = record { contents = bytes; modified = w.now } in
    let found : some new ≡ some done.staged =
      sym (get-put_same tmp new w.files) ∙ (ap (get tmp) (sym filled) ∙ done.was_staged) in
    let staged : done.staged ≡ new = cc in
    record {
      at = w.now;
      stored = rw done.files (get-put_same final done.staged (delete tmp v.files) ∙ ap some staged);
      unstaged = rw done.files (
          get-put_other tmp final done.staged (delete tmp v.files) apart
          ∙ get-delete_same tmp v.files);
      others = λ p f t. rw done.files (
          get-put_other p final done.staged (delete tmp v.files) f
          ∙ (get-delete_other p tmp v.files t
              ∙ (ap (get p) filled ∙ get-put_other p tmp new w.files t)));
    }

pub commit_at-Kept :
    (tmp final bytes : Bytes) (w v : World) {e : CacheError} {w' : World}
    → v.files ≡ (fill tmp bytes w).files
    → commit_at tmp final v ≡ (err e, w')
    → Kept tmp w w'
commit_at-Kept tmp final bytes w v filled h p apart =
    ap (get p) ((commit_at-err tmp final v h).files ∙ filled)
    ∙ get-put_other p tmp (record { contents = bytes; modified = w.now }) w.files apart

pub fill-Kept :
    (tmp bytes : Bytes) (w w' : World) → w'.files ≡ (fill tmp bytes w).files → Kept tmp w w'
fill-Kept tmp bytes w w' e p apart =
    ap (get p) e ∙ get-put_other p tmp (record { contents = bytes; modified = w.now }) w.files apart

pub discard-Kept : (tmp : Bytes) (w : World) → Kept tmp w (discard tmp w)
unfolding discard remove
discard-Kept tmp w p apart = elim (Option-cases (get tmp w.files)) [
  | inl n ↦ ground arith
  | inr (f, g) ↦ ground (arith, get-delete_other p tmp w.files apart)
]

-- The name depends on the files only.
pub staging_name-same :
    (os : Platform) (c : Cache) (v w : World)
    → v.files ≡ w.files
    → staging_name os c v ≡ staging_name os c w
staging_name-same os c v w same =
    ap (λ fs. tmp_dir c.root ++ (codes "/" ++ (tmp_pattern ++ os.random fs))) same

pub new_temp-Kept :
    (os : Platform) (c : Cache) (w : World) {tmp : Bytes} {v : World}
    → new_temp os c w ≡ (ok tmp, v)
    → (tmp ≡ staging_name os c w) × Kept tmp w v
unfolding new_temp
new_temp-Kept os c w {tmp} {v} h = (
  ground arith,
  λ p apart.
      ground
        (arith, get-put_other p tmp (record { contents = []; modified = w.now }) w.files apart),
)

pub new_temp-failed :
    (os : Platform) (c : Cache) (w : World) {e : CacheError} {v : World}
    → new_temp os c w ≡ (err e, v)
    → v.files ≡ w.files
unfolding new_temp
new_temp-failed os c w h = ground arith

pub clean_up-ok :
    (tmp : Bytes) (r : Result ObjectError (Unit {0}) × World) {w' : World}
    → clean_up tmp r ≡ (ok tt, w')
    → r ≡ (ok tt, w')
unfolding clean_up
clean_up-ok tmp (ok tt, v) h = h
clean_up-ok tmp (err e, v) h = cc

pub clean_up-err :
    (tmp : Bytes) (r : Result ObjectError (Unit {0}) × World) {e : ObjectError} {w' : World}
    → clean_up tmp r ≡ (err e, w')
    → (v : World) × (r ≡ (err e, v)) × (w' ≡ discard tmp v)
unfolding clean_up
clean_up-err tmp (ok tt, v) h = cc
clean_up-err tmp (err d, v) h = (v, cc, cc)

pub Kept-trans : (tmp : Bytes) (u v w : World) → Kept tmp u v → Kept tmp v w → Kept tmp u w
Kept-trans tmp u v w h k p apart = k p apart ∙ h p apart

pub Stored-after :
    (tmp final bytes : Bytes) (u v w : World)
    → Kept tmp u v
    → Stored tmp final bytes v w
    → Stored tmp final bytes u w
Stored-after tmp final bytes u v w h s = record {
  at = s.at;
  stored = s.stored;
  unstaged = s.unstaged;
  others = λ p f t. s.others p f t ∙ h p t;
}

-- The removal that follows a failure.
pub clean_up-Kept : (tmp : Bytes) (w v : World) → Kept tmp w v → Kept tmp w (discard tmp v)
clean_up-Kept tmp w v h = Kept-trans tmp w v (discard tmp v) h (discard-Kept tmp v)
