-- ===== src/Httpapi/Handler.antt =====
-- httpapi/handler.go: the symstore route. The HTTP library's part of an answer (its headers, ranges
-- and conditional requests) is not modelled: an `Answer` is the call the route ends with.
pub mod Served
use debugsymd.Base.{Bool, true, false, not, Option, none, some, if◌then◌else◌, Bytes, codes}
use debugsymd.Base.Result.{Result, ok, err}
use debugsymd.GoStrings.{Unicode, equal_fold}
use debugsymd.Resolver.{Request}
use debugsymd.Symstore.Parse.{Serve, parse}

abbrev pub retry_after_seconds : Bytes
retry_after_seconds = codes "5"

-- An error is `objects.ErrNotFound`, wrapped or not, or another one.
pub data FetchError : Type 0 where
  missing failed : FetchError

-- The service's fetches, and a file out of a source bundle; it is none if the service panics. A fetched
-- file may be nil with no error.
pub record Objects (File : Type 0) : Type 0 where
  pub fetch : Request → Result FetchError (Option File)
  pub fetch_compressed : Request → Result FetchError (Option File)
  pub source_file : Request → Bytes → Option (Result FetchError Bytes)

-- The call that a route ends with, if it does not end by a panic.
pub data Answer (File : Type 0) : Type 0 where
  bad_request : Answer File
  not_found : Answer File
  unavailable : (retry_after : Bytes) → Answer File
  served : (content_type name : Bytes) → File → Answer File
  written : (content_type text : Bytes) → Answer File
  panicked : Answer File

module _ {File : Type 0} where
  unfoldable pub fail : FetchError → Answer File
  fail FetchError.missing = Answer.not_found
  fail FetchError.failed = Answer.unavailable retry_after_seconds

  -- from the choice of the fetch on
  unfoldable pub deliver : Objects File → Request → Serve → Answer File
  unfolding fail
  deliver objects req serve =
      elim ((if serve.cab then objects.fetch_compressed else objects.fetch) req) [
        | err e ↦ fail e
        | ok none ↦ fail FetchError.missing
        | ok (some file) ↦ Answer.served serve.content_type req.filename file
      ]

  module _ ⦃u : Unicode⦄ where
    unfoldable pub symstore_route : Objects File → Bytes → Bytes → Bytes → Answer File
    unfolding deliver
    symstore_route objects leading signature trailing =
        if not (equal_fold leading trailing)
        then Answer.bad_request
        else elim (parse leading signature trailing) [
          | none ↦ Answer.not_found
          | some (req, serve) ↦ deliver objects req serve
        ]
