-- ===== src/Objects/Calm.antt =====
-- `Fetch` succeeds where nothing on the machine fails.
use mathlib.Core.Path.{subst}
use debugsymd.Objects.Fetch.{lookup_at-held, fetch-held, outcome}
use debugsymd.Objects.{ObjectError}
use debugsymd.Objects.Download.{download-ok}
use debugsymd.Base.{
  ℕ, ◌≡◌, refl, sym, ap, ◌∙◌, true, none, some, [], arith, Bytes, ◌⊎◌, inl, inr, Option-cases,
  length,
}
use debugsymd.Base.Result.{Result, ok}
use debugsymd.Dict.{get}
use debugsymd.World.{
  prefixes, add_dirs, World, File, Found, Resolved, Metric, count, is_dir, dir_of, make_dirs,
  rename, write_file,
}
use debugsymd.Resolver.{Request, Location}
use debugsymd.Diskcache.Entries.{
  Platform, Cache, commit, commit_at, commit_sized, record_commit, lookup, lookup_at, staging_name,
  new_temp, tmp_dir,
}
use debugsymd.Objects.{
  cache_key, flight_key, download_resolved, Remote, Group, object, object_found, object_missed,
  fetch, role_objects, receive, clean_up, download, run_or_wait, produce_once,
}
use debugsymd.Objects.Stored.{get-put_same}
use debugsymd.Objects.Download.{place}

-- Success, with nothing that will fail from there on.
pub record Calm {E A : Type 0} (r : Result E A × World) (a : A) : Type 0 where
  pub fine : r.0 ≡ ok a
  pub quiet : r.1.luck ≡ []

abbrev quieted : World → World
quieted w = record w { luck = [] }

commit_sized-Calm :
    (tmp final : Bytes) (size : ℕ) (f : File) (w : World)
    → get tmp w.files ≡ some f
    → Calm (commit_sized tmp final size (quieted w)) tt
unfolding commit_sized make_dirs rename record_commit
commit_sized-Calm tmp final size f w there =
    let here = get-put_same (dir_of final) tt (add_dirs (prefixes [] (dir_of final)) w.dirs) in
    elim (Option-cases (get final w.files)) [
      | inl n ↦ record { fine = ground arith; quiet = ground arith }
      | inr (g, e) ↦ record { fine = ground arith; quiet = ground arith }
    ]

commit_at-Calm :
    (tmp final : Bytes) (f : File) (w : World)
    → get tmp w.files ≡ some f
    → Calm (commit_at tmp final (quieted w)) tt
unfolding commit_at
commit_at-Calm tmp final f w there =
    let done = commit_sized-Calm tmp final (length f.contents) f w there in
    record { fine = let x = done.fine in ground arith; quiet = let x = done.quiet in ground arith }

lookup_at-missed :
    (p : Bytes) (w : World) → get p w.files ≡ none → lookup_at p (quieted w) ≡ (ok none, quieted w)
unfolding lookup_at
lookup_at-missed p w missed = ground arith

module _ (os : Platform) (c : Cache) (req : Request) where
  receive-Calm :
      (tmp bytes : Bytes) (n : ℕ) (w : World)
      → Calm (receive os c req tmp (bytes, ok n) (quieted w)) tt
  unfolding receive commit
  receive-Calm tmp bytes n w =
      let f : File = record { contents = bytes; modified = w.now } in
      let there = get-put_same tmp f w.files in
      let v = count (Metric.storage_bytes n) (write_file tmp f w) in
      let done = commit_at-Calm tmp (place os c role_objects req) f v there in
      record {
        fine = let x = done.fine in ground arith;
        quiet = let x = done.quiet in ground arith;
      }

  module _ (remote : Remote) (loc : Location) (bytes : Bytes) (n : ℕ) where
    staged-Calm :
        (w : World)
        → is_dir (tmp_dir c.root) w ≡ true
        → remote.fetch loc.bucket loc.key ≡ (bytes, ok n)
        → Calm (download_resolved os c remote req (ok loc) (quieted w)) tt
    unfolding new_temp clean_up
    staged-Calm w there wrote =
        let tmp = staging_name os c w in
        let v =
          write_file tmp (record { contents = []; modified = w.now })
            (count (Metric.resolver_request Resolved.found) w) in
        let done = receive-Calm tmp bytes n v in
        record {
          fine = rw (there, wrote) (let x = done.fine in ground arith);
          quiet = rw (there, wrote) (let x = done.quiet in ground arith);
        }

    download-Calm :
        (w : World)
        → is_dir (tmp_dir c.root) w ≡ true
        → remote.resolve req ≡ ok loc
        → remote.fetch loc.bucket loc.key ≡ (bytes, ok n)
        → Calm (download os c remote req (quieted w)) tt
    unfolding download
    download-Calm w there resolved wrote =
        subst (λ r. Calm (download_resolved os c remote req r (quieted w)) tt) (sym resolved)
          (staged-Calm w there wrote)

    object_missed-fine :
        (group : Group) (w : World)
        → group (flight_key role_objects (cache_key req).0 (cache_key req).1) ≡ none
        → is_dir (tmp_dir c.root) w ≡ true
        → remote.resolve req ≡ ok loc
        → remote.fetch loc.bucket loc.key ≡ (bytes, ok n)
        → (f : File) × ((object_missed os c remote group req (quieted w)).0 ≡ ok (some f))
          × (f.contents ≡ bytes)
    unfolding object_missed produce_once run_or_wait lookup
    object_missed-fine group w alone there resolved wrote =
        let v = count (Metric.cache_lookup role_objects Found.miss) w in
        let done = download-Calm v there resolved wrote in
        let (u, run) = outcome (download os c remote req (quieted v)) done.fine in
        let d = download-ok os c remote req (quieted v) run in
        let p = place os c role_objects req in
        let f : File = record { contents = d.bytes; modified = d.entry.at } in
        let silent : u.luck ≡ [] =
          ap (λ (r : Result ObjectError (Unit {0}) × World). r.1.luck) (sym run) ∙ done.quiet in
        let found = lookup_at-held p f u silent d.entry.stored in
        let (u', e) = outcome (lookup_at p u) found in
        let same_loc : d.loc ≡ loc = let k = d.resolved in cc in
        let same_bytes : d.bytes ≡ bytes = let k = d.fetched in cc in
        (f, rw (alone, run, e) refl, same_bytes)

    -- Where no call of the operating system fails and the staging directory is there, a `Fetch` whose
    -- key no other call has in flight returns a file, never an error, if the resolver finds a
    -- location and the store writes its bytes: the cached file, or these bytes.
    pub fetch-succeeds :
        (group : Group) (w : World)
        → group (flight_key role_objects (cache_key req).0 (cache_key req).1) ≡ none
        → w.luck ≡ []
        → is_dir (tmp_dir c.root) w ≡ true
        → remote.resolve req ≡ ok loc
        → remote.fetch loc.bucket loc.key ≡ (bytes, ok n)
        → (f : File) × (w' : World) × (fetch os c remote group req w ≡ (ok (some f), w'))
          × ((get (place os c role_objects req) w.files ≡ some f) ⊎ (f.contents ≡ bytes))
    unfolding fetch object object_found lookup
    fetch-succeeds group w alone calm there resolved wrote =
        let p = place os c role_objects req in
        elim (Option-cases (get p w.files)) [
          | inr (f, held) ↦
              let (w', e) =
                outcome (fetch os c remote group req w)
                  (fetch-held os c remote group req f w (lookup_at-held p f w calm held)) in
              (f, w', e, inl held)
          | inl missed ↦
              let still : w ≡ quieted w = ap (λ l. record w { luck = l }) calm in
              let (f, e, same) = object_missed-fine group w alone there resolved wrote in
              let none_there : lookup_at p (quieted w) ≡ (ok none, quieted w) =
                lookup_at-missed p w missed in
              let (w', e') = outcome (fetch os c remote group req w) (rw (still, none_there) e) in
              (f, w', e', inr same)
        ]
