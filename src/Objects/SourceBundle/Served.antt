-- ===== src/Objects/SourceBundle/Served.antt =====
-- What `SourceFile` answers.
use mathlib.Core.Path.{subst}
use debugsymd.Base.{
  ◌≡◌, refl, sym, ap, ◌∙◌, Option, some, List, arith, Bytes, inl, inr, Option-cases,
}
use debugsymd.Base.Result.{Result, ok, err}
use debugsymd.World.{File, World, wrap}
use debugsymd.World.Steps.{and_then-ok, wrap-ok}
use debugsymd.Resolver.{Request}
use debugsymd.Cab.Out.{Reader}
use debugsymd.Diskcache.Entries.{Cache, Platform}
use debugsymd.Objects.{Remote, Group, object}
use debugsymd.Objects.Served.{Served, Flight, object-Served}
use debugsymd.Objects.SourceBundle.{
  ZipFile, Manifest, SourceError, bundle_entry, read_entry, source_of, source_file,
}
use debugsymd.Objects.SourceBundle.Entry.{Source, bundle_entry-Source}

module _ (decode : Reader → Option Manifest) (unzip : Bytes → Option (List ZipFile)) where
  source_of-Source :
      (f : File) (source_path : Bytes) {text : Bytes}
      → source_of decode unzip (some f) source_path ≡ ok text
      → (zip : List ZipFile) × (unzip f.contents ≡ some zip) × Source decode zip source_path text
  unfolding source_of
  source_of-Source f source_path {text} h = elim (Option-cases (unzip f.contents)) [
    | inl n ↦ absurd (ground arith)
    | inr (zip, e) ↦ go zip e (bundle_entry decode zip source_path) refl (ground arith)
  ]
    where
      go :
          (zip : List ZipFile)
          → unzip f.contents ≡ some zip
          → (r : Result SourceError ZipFile) → bundle_entry decode zip source_path ≡ r
          → (elim r [ err e ↦ err e | ok entry ↦ read_entry entry ]) ≡ ok text
          → (zip : List ZipFile) × (unzip f.contents ≡ some zip)
            × Source decode zip source_path text
      go zip e (ok entry) found k =
          (zip, e, bundle_entry-Source decode zip source_path text entry found k)
      go zip e (err x) found k = cc

  module _ (os : Platform) (c : Cache) (remote : Remote) (group : Group) (req : Request) where
    -- A text that `SourceFile` returns without an error is the whole text, of 64 MiB at most and
    -- read to its end without an error, of a file in the archive that the request's object is: the file of a name that the archive's
    -- manifest lists under a path with the normal form of the one that was asked for. This holds if
    -- no other call for the key is in flight or only a download for a request with the same key.
    pub source_file-Source :
        (source_path text : Bytes) (w : World) {w' : World}
        → Flight os c remote group req
        → source_file decode unzip os c remote group req source_path w ≡ (ok text, w')
        → (f : File) × (zip : List ZipFile) × Served os c remote group req f w w'
          × (unzip f.contents ≡ some zip)
          × Source decode zip source_path text
    unfolding source_file
    source_file-Source source_path text w {w'} flight h =
        let (x, v, first, rest) =
          and_then-ok (wrap SourceError.fetching (object os c remote group req w)) _ h in
        let (f, is_some, served) =
          object-Served os c remote group req w x flight (wrap-ok SourceError.fetching _ first) in
        let same : v ≡ w' = ap (λ (r : Result SourceError Bytes × World). r.1) rest in
        let run : source_of decode unzip (some f) source_path ≡ ok text =
          ap (λ y. source_of decode unzip y source_path) (sym is_some)
          ∙ ap (λ (r : Result SourceError Bytes × World). r.0) rest in
        let (zip, e, source) = source_of-Source f source_path run in
        (f, zip, subst (Served os c remote group req f w) same served, e, source)
