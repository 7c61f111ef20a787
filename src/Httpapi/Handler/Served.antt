-- ===== src/Httpapi/Handler/Served.antt =====
-- What the symstore route serves, and when it asks the client to come back.
use debugsymd.Base.{
  ◌≡◌, Bool, true, false, Option, some, inl, inr, Bytes, arith, Bool-cases, Option-cases,
}
use debugsymd.Base.Result.{Result, ok, err}
use debugsymd.GoStrings.{Unicode, equal_fold}
use debugsymd.Resolver.{Request}
use debugsymd.Symstore.Parse.{Serve, parse}
use debugsymd.Symstore.Parse.Named.{Decided, parse-Decided}
use debugsymd.Httpapi.Handler.{FetchError, Objects, Answer, fail, deliver, symstore_route}

-- The fetch that an answer comes from.
abbrev pub chosen :
    {File : Type 0} → Objects File → Bool → Request → Result FetchError (Option File)
chosen objects true = objects.fetch_compressed
chosen objects false = objects.fetch

module _ {File : Type 0} (objects : Objects File) where
  deliver-served :
      (req : Request) (serve : Serve) {content_type name : Bytes} {file : File}
      → deliver objects req serve ≡ Answer.served content_type name file
      → (chosen objects serve.cab req ≡ ok (some file))
        × (content_type ≡ serve.content_type)
        × (name ≡ req.filename)
  unfolding deliver fail
  deliver-served req serve h = ground arith

  deliver-unavailable :
      (req : Request) (serve : Serve) {after : Bytes}
      → deliver objects req serve ≡ Answer.unavailable after
      → chosen objects serve.cab req ≡ err FetchError.failed
  unfolding deliver fail
  deliver-unavailable req serve h = ground arith

  module _ ⦃u : Unicode⦄ where
    -- An answer with a file has names that agree up to case, and the file that the service gave, by the
    -- fetch for cabinets exactly when the answer is one, for a request that the trailing name decides.
    pub symstore_route-Decided :
        (leading signature trailing : Bytes) {content_type name : Bytes} {file : File}
        → symstore_route objects leading signature trailing ≡ Answer.served content_type name file
        → (equal_fold leading trailing ≡ true)
          × ((req : Request) × (serve : Serve) × Decided trailing req serve
              × (chosen objects serve.cab req ≡ ok (some file))
              × (content_type ≡ serve.content_type)
              × (name ≡ req.filename))
    unfolding symstore_route
    symstore_route-Decided leading signature trailing {content_type} {name} {file} h =
        elim (Bool-cases (equal_fold leading trailing)) [
          | inr differ ↦ absurd (ground arith)
          | inl same ↦ elim (Option-cases (parse leading signature trailing)) [
            | inl n ↦ absurd (ground arith)
            | inr ((req, serve), e) ↦
                let (source, type, name_eq) =
                  deliver-served req serve {content_type = content_type} {name = name} {file = file}
                    (ground arith) in
                (
                  same,
                  (req, serve, parse-Decided leading signature trailing e, source, type, name_eq),
                )
          ]
        ]

    -- A client is told to come back later only when the names agree up to case, the path is one that
    -- `Parse` takes, and the fetch for its request failed other than by a miss.
    pub symstore_route-unavailable :
        (leading signature trailing : Bytes) {after : Bytes}
        → symstore_route objects leading signature trailing ≡ Answer.unavailable after
        → (equal_fold leading trailing ≡ true)
          × ((req : Request) × (serve : Serve) × (parse leading signature trailing
                ≡ some (req, serve))
              × (chosen objects serve.cab req ≡ err FetchError.failed))
    unfolding symstore_route
    symstore_route-unavailable leading signature trailing {after} h =
        elim (Bool-cases (equal_fold leading trailing)) [
          | inr differ ↦ absurd (ground arith)
          | inl same ↦ elim (Option-cases (parse leading signature trailing)) [
            | inl n ↦ absurd (ground arith)
            | inr ((req, serve), e) ↦ (
              same,
              (req, serve, e, deliver-unavailable req serve {after = after} (ground arith)),
            )
          ]
        ]
