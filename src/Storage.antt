-- ===== src/Storage.antt =====
-- storage/s3.go: the fetch of an object, and with resolver/sentry.go the backend of the service. The
-- client's GetObject is a parameter; a write to the staging file does not fail here.
use debugsymd.Base.{
  ℕ, ◌≡◌, refl, sym, ap, false, Option, some, [], arith, Bytes, length, if◌then◌else◌,
}
use debugsymd.Base.Result.{Result, ok, err}
use debugsymd.GoStrings.{Unicode}
use debugsymd.Dict.{get}
use debugsymd.World.{File, World}
use debugsymd.Cab.Out.{Reader}
use debugsymd.Resolver.{Request, Location}
use debugsymd.Resolver.Sentry.{Sort, IsSort, Client, Sentry, LookupError, not_found, lookup}
use debugsymd.Resolver.Sentry.Found.{Found, lookup-Found}
use debugsymd.Diskcache.Entries.{Platform, Cache}
use debugsymd.Objects.{Remote, RemoteError, Group, cache_key, role_objects, fetch}
use debugsymd.Objects.Download.{place}
use debugsymd.Objects.Served.{Source, Flight}
use debugsymd.Objects.Fetch.{fetch-Served}

-- An error of `GetObject`: `types.NoSuchKey` or another one.
pub data GetError : Type 0 where
  no_such_key other : GetError

-- `io.Copy` of the body
unfoldable pub copy_body : Result GetError Reader → Bytes × Result RemoteError ℕ
copy_body (err no_such_key) = ([], err RemoteError.absent)
copy_body (err other) = ([], err RemoteError.broken)
copy_body (ok body) =
    (body.left, if body.broken then err RemoteError.broken else ok (length body.left))

-- `errors.Is(err, resolver.ErrNotFound)`
unfoldable pub resolved_as : Result LookupError Location → Result RemoteError Location
resolved_as (ok loc) = ok loc
resolved_as (err not_found) = err RemoteError.absent
resolved_as (err _) = err RemoteError.broken

module _ (get_object : Bytes → Bytes → Result GetError Reader) where
  unfoldable pub s3_fetch : Bytes → Bytes → Bytes × Result RemoteError ℕ
  unfolding copy_body
  s3_fetch bucket key = copy_body (get_object bucket key)

copy_body-ok :
    (r : Result GetError Reader) {bytes : Bytes} {n : ℕ}
    → copy_body r ≡ (bytes, ok n)
    → (body : Reader) × (r ≡ ok body) × (body.left ≡ bytes) × (body.broken ≡ false)
unfolding copy_body
copy_body-ok (err no_such_key) h = cc
copy_body-ok (err other) h = cc
copy_body-ok (ok body) h = (body, refl, ground arith, ground arith)

resolved_as-ok :
    (r : Result LookupError Location) {loc : Location} → resolved_as r ≡ ok loc → r ≡ ok loc
unfolding resolved_as
resolved_as-ok (ok loc) h = ap ok (cc)
resolved_as-ok (err not_found) h = cc
resolved_as-ok (err LookupError.bad_url) h = cc
resolved_as-ok (err LookupError.bad_request) h = cc
resolved_as-ok (err LookupError.querying) h = cc
resolved_as-ok (err (LookupError.bad_status n)) h = cc
resolved_as-ok (err LookupError.decoding) h = cc

module _ ⦃u : Unicode⦄ (sort : Sort) (client : Client) (sentry : Sentry)
    (get_object : Bytes → Bytes → Result GetError Reader) where
  -- The backend of the service: Sentry's debug files, stored in S3.
  unfoldable pub backend : Remote
  unfolding s3_fetch resolved_as
  backend = record {
    resolve = λ req. resolved_as (lookup sort client sentry req);
    fetch = s3_fetch get_object;
  }

  -- What a file is, for a service with this backend.
  pub data Origin (os : Platform) (c : Cache) (req : Request) (f : File) (w : World) : Type 0 where
    cached : get (place os c role_objects req) w.files ≡ some f → Origin os c req f w
    stored :
        (asked : Request) (alike : cache_key asked ≡ cache_key req) (loc : Location)
        (best : Found client sentry asked loc) (body : Reader)
        (got : get_object loc.bucket loc.key ≡ ok body) (contents : f.contents ≡ body.left)
        (complete : body.broken ≡ false)
        → Origin os c req f w

  Source-Origin :
      (os : Platform) (c : Cache) (group : Group) (req : Request) (f : File) (w : World)
      → IsSort sort
      → Source os c backend group req f w
      → Origin os c req f w
  unfolding backend s3_fetch
  Source-Origin os c group req f w laws (Source.cached found) = Origin.cached found
  Source-Origin os c group req f w laws (Source.fetched missed asked alike loc n resolved wrote) =
      let found =
        lookup-Found sort client sentry asked laws
          (resolved_as-ok (lookup sort client sentry asked) resolved) in
      let (body, got, same, complete) = copy_body-ok (get_object loc.bucket loc.key) wrote in
      Origin.stored asked alike loc found body got (sym same) complete

  -- With Sentry as the resolver and S3 as the store, a `Fetch` that returns no error returns a file,
  -- which is the cached object or has the whole body that S3 gave for the storage key of the best file
  -- among those that Sentry's API answered. This holds for every sort that puts the files in order, if
  -- no other call for the key is in flight or only a download for a request with the same key.
  pub fetch-Origin :
      (os : Platform) (c : Cache) (group : Group) (req : Request) (w : World) (x : Option File)
      {w' : World}
      → IsSort sort
      → Flight os c backend group req
      → fetch os c backend group req w ≡ (ok x, w')
      → (f : File) × (x ≡ some f) × Origin os c req f w
  fetch-Origin os c group req w x laws flight h =
      let (f, is_some, served) = fetch-Served os c backend group req w x flight h in
      (f, is_some, Source-Origin os c group req f w laws served.source)
