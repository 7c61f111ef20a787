-- ===== src/Objects/Download.antt =====
-- What `download` leaves in the cache.
use debugsymd.Base.{ℕ, ◌≡◌, ◌≢◌, refl, sym, ap, ◌∙◌, arith, Bytes, ◌⊎◌, inl, inr}
use debugsymd.Base.Result.{Result, ok, err}
use debugsymd.Dict.{get}
use debugsymd.World.{World, Metric, Resolved, and_then, count}
use debugsymd.World.Steps.{and_then-ok, and_then-err, wrap-ok, wrap-err}
use debugsymd.Resolver.{Request, Location}
use debugsymd.Diskcache.Entries.{tmp_subdir, Platform, Cache, commit, entry_path, staging_name}
use debugsymd.Diskcache.Places.{entry_path-role, entry_path-staging_name}
use debugsymd.Diskcache.Keys.{has_no-HasNo, has_no, HasNo}
use debugsymd.Objects.{
  role_cab_synth, role_raw_compressed, download_resolved, ObjectError, Remote, RemoteError, absent,
  broken, role_objects, cache_key, fill, receive, clean_up, stage, download,
}
use debugsymd.Objects.Stored.{
  Kept-trans, Stored-after, clean_up-Kept, clean_up-err, clean_up-ok, fill-Kept, Stored, Kept,
  commit_at-Stored, commit_at-Kept, new_temp-Kept, new_temp-failed,
}

pub data IsRole : Bytes → Type 0 where
  objects : IsRole role_objects
  raw_compressed : IsRole role_raw_compressed
  cab_synth : IsRole role_cab_synth

role-HasNo : {role : Bytes} → IsRole role → HasNo b'/' role
unfolding has_no
role-HasNo objects = has_no-HasNo b'/' role_objects refl
role-HasNo raw_compressed = has_no-HasNo b'/' role_raw_compressed refl
role-HasNo cab_synth = has_no-HasNo b'/' role_cab_synth refl

role-tmp_subdir : {role : Bytes} → IsRole role → role ≢ tmp_subdir
role-tmp_subdir objects e = cc
role-tmp_subdir raw_compressed e = cc
role-tmp_subdir cab_synth e = cc

module _ (os : Platform) (c : Cache) where
  -- the place of a request's entry
  abbrev pub place : Bytes → Request → Bytes
  place role req = entry_path os c role (cache_key req).0 (cache_key req).1

  -- No entry stands in a staging file's place.
  pub place-staging_name :
      (w : World) (role : Bytes) (req : Request)
      → IsRole role
      → place role req ≢ staging_name os c w
  place-staging_name w role req r =
      entry_path-staging_name os c w role (cache_key req).0 (cache_key req).1 (role-HasNo r)
        (role-tmp_subdir r)

  -- Entries of two roles stand in two places.
  pub place-role :
      {role role' : Bytes} (req req' : Request)
      → IsRole role
      → IsRole role'
      → role ≢ role'
      → place role req ≢ place role' req'
  place-role {role} {role'} req req' r r' apart e = apart (
      entry_path-role os c role role' (cache_key req).0 (cache_key req').0 (cache_key req).1
        (cache_key req').1 (role-HasNo r) (role-HasNo r') e)

  -- The place depends on the key of the request only.
  pub place-cache_key :
      (role : Bytes) (req req' : Request)
      → cache_key req ≡ cache_key req'
      → place role req ≡ place role req'
  place-cache_key role req req' e = ap (λ (k : Bytes × Bytes). entry_path os c role k.0 k.1) e

  pub commit-Stored :
      (tmp role : Bytes) (req : Request) (bytes : Bytes) (w v : World) {w' : World}
      → tmp ≢ place role req
      → v.files ≡ (fill tmp bytes w).files
      → commit os c tmp role (cache_key req).0 (cache_key req).1 v ≡ (ok tt, w')
      → Stored tmp (place role req) bytes w w'
  unfolding commit
  commit-Stored tmp role req bytes w v apart filled h =
      commit_at-Stored tmp (place role req) bytes w v apart filled h

  receive-ok :
      (req : Request) (tmp : Bytes) (got : Bytes × Result RemoteError ℕ) (w : World) {w' : World}
      → tmp ≢ place role_objects req
      → receive os c req tmp got w ≡ (ok tt, w')
      → (bytes : Bytes) × (n : ℕ) × (got ≡ (bytes, ok n))
        × Stored tmp (place role_objects req) bytes w w'
  unfolding receive
  receive-ok req tmp (bytes, err absent) w apart h = cc
  receive-ok req tmp (bytes, err broken) w apart h = cc
  receive-ok req tmp (bytes, ok n) w apart h = (
    bytes,
    n,
    refl,
    commit-Stored tmp role_objects req bytes w (count (Metric.storage_bytes n) (fill tmp bytes w))
        apart refl (wrap-ok ObjectError.committing _ h),
  )

  receive-err :
      (req : Request) (tmp : Bytes) (got : Bytes × Result RemoteError ℕ) (w : World)
      {e : ObjectError} {w' : World}
      → receive os c req tmp got w ≡ (err e, w')
      → Kept tmp w w'
  unfolding receive commit
  receive-err req tmp (bytes, err absent) w {e} {w'} h = fill-Kept tmp bytes w w' (cc)
  receive-err req tmp (bytes, err broken) w {e} {w'} h = fill-Kept tmp bytes w w' (ground arith)
  receive-err req tmp (bytes, ok n) w h =
      let (d, run) = wrap-err ObjectError.committing _ h in
      commit_at-Kept tmp (place role_objects req) bytes w
        (count (Metric.storage_bytes n) (fill tmp bytes w)) refl run

  module _ (remote : Remote) where
    -- A download that succeeded: the bytes that the store wrote for the location that was resolved.
    pub record Downloaded (req : Request) (w w' : World) : Type 0 where
      pub loc : Location
      pub bytes : Bytes
      pub n : ℕ
      pub resolved : remote.resolve req ≡ ok loc
      pub fetched : remote.fetch loc.bucket loc.key ≡ (bytes, ok n)
      pub entry : Stored (staging_name os c w) (place role_objects req) bytes w w'

    staged-ok :
        (req : Request) (loc : Location) (w : World) {w' : World}
        → remote.resolve req ≡ ok loc
        → and_then
            (stage os c w)
            (λ tmp v. clean_up tmp (receive os c req tmp (remote.fetch loc.bucket loc.key) v))
          ≡ (ok tt, w')
        → Downloaded req w w'
    staged-ok req loc w {w'} found h =
        let (tmp, v, made, run) = and_then-ok (stage os c w) _ h in
        let (name, kept) = new_temp-Kept os c w (wrap-ok ObjectError.staging _ made) in
        let apart : tmp ≢ place role_objects req =
          λ e. place-staging_name w role_objects req IsRole.objects (sym e ∙ name) in
        let (bytes, n, got, stored) = receive-ok req tmp _ v apart (clean_up-ok tmp _ run) in
        record {
          loc = loc;
          bytes = bytes;
          n = n;
          resolved = found;
          fetched = got;
          entry =
              rw (sym name) (Stored-after tmp (place role_objects req) bytes w v w' kept stored);
        }

    staged-err :
        (req : Request) (loc : Location) (w : World) {e : ObjectError} {w' : World}
        → and_then
            (stage os c w)
            (λ tmp v. clean_up tmp (receive os c req tmp (remote.fetch loc.bucket loc.key) v))
          ≡ (err e, w')
        → Kept (staging_name os c w) w w'
    staged-err req loc w {e} {w'} h = elim (and_then-err (stage os c w) _ h) [
      | inl bad ↦
          let (d, made) = wrap-err ObjectError.staging _ bad in
          λ p apart. ap (get p) (new_temp-failed os c w made)
      | inr (tmp, v, made, run) ↦
          let (name, kept) = new_temp-Kept os c w (wrap-ok ObjectError.staging _ made) in
          let (u, failed, after) = clean_up-err tmp _ run in
          let got = receive-err req tmp _ v failed in
          rw (after, sym name) (clean_up-Kept tmp w u (Kept-trans tmp w v u kept got))
    ]

    pub download-ok :
        (req : Request) (w : World) {w' : World}
        → download os c remote req w ≡ (ok tt, w')
        → Downloaded req w w'
    unfolding download
    download-ok req w {w'} h = go (remote.resolve req) refl h
      where
        go :
            (r : Result RemoteError Location)
            → remote.resolve req ≡ r
            → download_resolved os c remote req r w ≡ (ok tt, w')
            → Downloaded req w w'
        go (ok loc) e k =
            let v = count (Metric.resolver_request Resolved.found) w in
            let d = staged-ok req loc v e k in
            record {
              loc = d.loc;
              bytes = d.bytes;
              n = d.n;
              resolved = d.resolved;
              fetched = d.fetched;
              entry =
                  Stored-after (staging_name os c w) (place role_objects req) d.bytes w v w'
                    (λ p apart. refl) d.entry;
            }
        go (err absent) e k = cc
        go (err broken) e k = cc

    -- A download that fails changes no file but the staging file.
    pub download-err :
        (req : Request) (w : World) {e : ObjectError} {w' : World}
        → download os c remote req w ≡ (err e, w')
        → Kept (staging_name os c w) w w'
    unfolding download
    download-err req w {e} {w'} h = go (remote.resolve req) h
      where
        go :
            (r : Result RemoteError Location)
            → download_resolved os c remote req r w ≡ (err e, w')
            → Kept (staging_name os c w) w w'
        go (ok loc) k p apart =
            staged-err req loc (count (Metric.resolver_request Resolved.found) w) k p apart
        go (err absent) k p apart = ap (get p) (ground arith)
        go (err broken) k p apart = ap (get p) (ground arith)

    -- `download` is atomic, whatever fails: it returns no error, and the entry has the bytes that the
    -- store wrote for the location that was resolved, the staging file is gone, and every other file
    -- is as it was; or it returns an error, and no file but the staging file has changed.
    pub download-atomic :
        (req : Request) (w : World)
        → ((w' : World) × (download os c remote req w ≡ (ok tt, w')) × Downloaded req w w')
          ⊎ ((e : ObjectError) × (w' : World) × (download os c remote req w ≡ (err e, w'))
              × Kept (staging_name os c w) w w')
    download-atomic req w = go (download os c remote req w) refl
      where
        go :
            (r : Result ObjectError (Unit {0}) × World)
            → download os c remote req w ≡ r
            → ((w' : World) × (download os c remote req w ≡ (ok tt, w')) × Downloaded req w w')
              ⊎ ((e : ObjectError) × (w' : World) × (download os c remote req w ≡ (err e, w'))
                  × Kept (staging_name os c w) w w')
        go (ok tt, w') e = inl (w', e, download-ok req w e)
        go (err x, w') e = inr (x, w', e, download-err req w e)
