-- ===== src/Httpapi/Service.antt =====
-- main.go's wiring of the symstore route to the object service: the routes call the service on the
-- world as it is, with no other call in flight.
use debugsymd.Base.{
  ◌≡◌, refl, ap, Bool, true, false, Option, none, some, List, Bytes, length, ◌<◌, inl,
}
use mathlib.Core.Path.{subst}
use debugsymd.Base.Result.{Result, ok, err}
use debugsymd.GoStrings.{Unicode}
use debugsymd.World.{File, World}
use debugsymd.Resolver.{Request}
use debugsymd.Cab.Out.{Reader}
use debugsymd.Cab.Extract.Blocks.{Inflates}
use debugsymd.Symstore.Parse.{Serve}
use debugsymd.Symstore.Parse.Named.{Decided}
use debugsymd.Diskcache.Entries.{Cache, Platform}
use debugsymd.Objects.{ObjectError, Remote, Group, fetch}
use debugsymd.Objects.Synth.{Host, fetch_compressed}
use debugsymd.Objects.SourceBundle.{ZipFile, Manifest, SourceError, source_file}
use debugsymd.Objects.Served.{Source}
use debugsymd.Objects.Fetch.{fetch-Served}
use debugsymd.Objects.Payload.{Payload, fetch_compressed-Payload}
use debugsymd.Httpapi.Handler.{FetchError, Objects, Answer, symstore_route}
use debugsymd.Httpapi.Handler.Served.{chosen, symstore_route-Decided}

-- `errors.Is(err, objects.ErrNotFound)`
unfoldable pub error_as : ObjectError → FetchError
error_as ObjectError.missing = FetchError.missing
error_as _ = FetchError.failed

-- the same of an error of `SourceFile`; a panic does not get here
unfoldable pub source_error_as : SourceError → FetchError
unfolding error_as
source_error_as (SourceError.fetching e) = error_as e
source_error_as SourceError.not_found = FetchError.missing
source_error_as _ = FetchError.failed

abbrev pub answered : {E A : Type 0} → (E → FetchError) → Result E A × World → Result FetchError A
answered cast (ok a, w) = ok a
answered cast (err e, w) = err (cast e)

answered-ok :
    {E A : Type 0} (cast : E → FetchError) (r : Result E A × World) {a : A}
    → answered cast r ≡ ok a
    → r ≡ (ok a, r.1)
answered-ok cast (ok b, w) h = ap (λ x. (x, w)) (ap ok (cc))
answered-ok cast (err e, w) h = cc

abbrev pub alone : Group
alone key = none

-- What the route sees of a call of `SourceFile`: nothing if it panics.
abbrev pub source_outcome : Result SourceError Bytes × World → Option (Result FetchError Bytes)
source_outcome (ok text, w) = some (ok text)
source_outcome (err SourceError.panicked, w) = none
source_outcome (err e, w) = some (err (source_error_as e))

module _ (os : Platform) (c : Cache) (host : Host) (remote : Remote)
    (decode : Reader → Option Manifest) (unzip : Bytes → Option (List ZipFile)) where
  unfoldable pub service_at : World → Objects File
  unfolding error_as source_error_as
  service_at w = record {
    fetch = λ req. answered error_as (fetch os c remote alone req w);
    fetch_compressed = λ req. answered error_as (fetch_compressed os c host remote alone req w);
    source_file =
        λ req path. source_outcome (source_file decode unzip os c remote alone req path w);
  }

  -- The file of an answer: the compressed form for a request for one, and else the object.
  pub data Delivered (inflate : Bytes → Option Bytes) (req : Request) (f : File) (w : World)
      : Bool → Type 0 where
    enveloped : Payload os c host remote alone inflate req f w → Delivered inflate req f w true
    plain : Source os c remote alone req f w → Delivered inflate req f w false

  chosen-Delivered :
      (inflate : Bytes → Option Bytes) (cab : Bool) (req : Request) (w : World) (f : File)
      → Inflates host.deflate inflate
      → length req.filename < 1073741824
      → chosen (service_at w) cab req ≡ ok (some f)
      → Delivered inflate req f w cab
  unfolding service_at
  chosen-Delivered inflate true req w f laws short h =
      let (g, same, payload) =
        fetch_compressed-Payload os c host remote alone inflate req w (some f) laws short
          (inl (refl, inl refl))
          (answered-ok error_as (fetch_compressed os c host remote alone req w) h) in
      let it : g ≡ f = cc in
      Delivered.enveloped (subst (λ x. Payload os c host remote alone inflate req x w) it payload)
  chosen-Delivered inflate false req w f laws short h =
      let (g, same, served) =
        fetch-Served os c remote alone req w (some f) (inl refl)
          (answered-ok error_as (fetch os c remote alone req w) h) in
      let it : g ≡ f = cc in
      Delivered.plain (subst (λ x. Source os c remote alone req x w) it served.source)

  module _ ⦃u : Unicode⦄ where
    -- A file that the symstore route serves from the object service is for a request that the trailing
    -- name decides. Where the answer is a cabinet, it is the compressed form of the object: one that
    -- was cached, an object that begins with a cabinet's signature, or a cabinet from which a reader
    -- of the format gets the requested name and the object's bytes. Otherwise it is the object, from
    -- the cache or else from the store. This holds with no other call in flight, for every compressor
    -- that the decoder undoes and every served name below 2 ^ 30 bytes.
    pub symstore_route-Delivered :
        (inflate : Bytes → Option Bytes) (leading signature trailing : Bytes) (w : World)
        (content_type name : Bytes) (f : File)
        → Inflates host.deflate inflate
        → length name < 1073741824
        → symstore_route (service_at w) leading signature trailing
          ≡ Answer.served content_type name f
        → (req : Request) × (serve : Serve) × Decided trailing req serve
          × (name ≡ req.filename)
          × Delivered inflate req f w serve.cab
    symstore_route-Delivered inflate leading signature trailing w content_type name f laws short h =
        let (_, (req, serve, decided, source, _, named)) =
          symstore_route-Decided (service_at w) leading signature trailing
            {content_type = content_type} {name = name} {file = f} h in
        (
          req,
          serve,
          decided,
          named,
          chosen-Delivered inflate serve.cab req w f laws
              (subst (λ (n : Bytes). length n < 1073741824) named short) source,
        )
