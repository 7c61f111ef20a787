-- ===== src/Objects/Fetch.antt =====
-- `Fetch` from the caller's side: its answer, the same request again, and its success.
use debugsymd.Base.{◌≡◌, refl, ap, ◌∙◌, Option, some, [], arith, Bytes}
use debugsymd.Base.Result.{Result, ok}
use debugsymd.Dict.{get}
use debugsymd.World.{World, File}
use debugsymd.Resolver.{Request}
use debugsymd.Diskcache.Entries.{Platform, Cache, lookup, lookup_at}
use debugsymd.Objects.{Remote, Group, object, object_found, fetch, role_objects}
use debugsymd.Objects.Download.{place}
use debugsymd.Objects.Served.{Served, Flight, object-Served}

pub outcome :
    {E A : Type 0} (r : Result E A × World) {a : A} → r.0 ≡ ok a → (v : World) × (r ≡ (ok a, v))
outcome r h = (r.1, ap (λ a. (a, r.1)) h)

pub lookup_at-held :
    (p : Bytes) (f : File) (w : World)
    → w.luck ≡ []
    → get p w.files ≡ some f
    → (lookup_at p w).0 ≡ ok (some f)
unfolding lookup_at
lookup_at-held p f w calm there = ground arith

module _ (os : Platform) (c : Cache) where
  -- A `Fetch` that returns no error returns a file, never nil, if no other call for the key is in
  -- flight or only a download for a request with the same key: the cached object, or if there was
  -- none, the bytes that the store wrote without an error for the location that was resolved. The
  -- bytes are in the cache then, and no other file than the staging file has changed.
  pub fetch-Served :
      (remote : Remote) (group : Group) (req : Request) (w : World) (x : Option File) {w' : World}
      → Flight os c remote group req
      → fetch os c remote group req w ≡ (ok x, w')
      → (f : File) × (x ≡ some f) × Served os c remote group req f w w'
  unfolding fetch
  fetch-Served remote group req w x flight h = object-Served os c remote group req w x flight h

  pub fetch-held :
      (remote : Remote) (group : Group) (req : Request) (f : File) (w : World)
      → (lookup_at (place os c role_objects req) w).0 ≡ ok (some f)
      → (fetch os c remote group req w).0 ≡ ok (some f)
  unfolding fetch object object_found lookup
  fetch-held remote group req f w h =
      let (v, found) = outcome (lookup_at (place os c role_objects req) w) h in rw found refl

  -- The same request again has the same bytes, whatever the resolver and the store say by then and
  -- whoever else is at work, if the files are as the first call left them and nothing on the
  -- machine fails.
  pub fetch_again :
      (remote remote' : Remote) (group group' : Group) (req : Request) (w v : World)
      (x : Option File) {w' : World}
      → Flight os c remote group req
      → fetch os c remote group req w ≡ (ok x, w')
      → v.files ≡ w'.files
      → v.luck ≡ []
      → (f g : File) × (v' : World) × (x ≡ some f)
        × (fetch os c remote' group' req v ≡ (ok (some g), v'))
        × (g.contents ≡ f.contents)
  fetch_again remote remote' group group' req w v x {w'} flight h same calm =
      let (f, is_some, s) = fetch-Served remote group req w x flight h in
      let p = place os c role_objects req in
      let g : File = record { contents = f.contents; modified = s.holds.at } in
      let found = lookup_at-held p g v calm (ap (get p) same ∙ s.holds.held) in
      let (v', again) =
        outcome (fetch os c remote' group' req v) (fetch-held remote' group' req g v found) in
      (f, g, v', is_some, again, refl)
