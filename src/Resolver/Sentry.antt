-- ===== src/Resolver/Sentry.antt =====
-- resolver/sentry.go: the choice among the debug files that the Sentry API returns, and the key of
-- the chosen one in the blob store.
pub mod Found
pub mod Order
pub mod Pick
use Prim.Native.Nat.{compare, Ordering}
use mathlib.Core.List.{Perm, Pairwise}
use debugsymd.Base.{
  ℕ, ◌-◌, ◌≢◌, ◌≡◌, Bool, true, false, not, ◌&&◌, ◌||◌, Option, none, some, List, [], ◌∷◌, ◌++◌,
  ltb, ◌==◌, if◌then◌else◌, Bytes, codes, length, take, drop, ℤ,
}
use debugsymd.Base.Result.{Result, ok, err, ◌>>=◌}
use debugsymd.GoStrings.{trim_right, Unicode, equal_fold, has_suffix}
use debugsymd.Resolver.{FileType, Request, Location}

abbrev pub min_sha1_len : ℕ
min_sha1_len = 4

abbrev pub dsyms_path : Bytes
dsyms_path = codes "files/dsyms/"

abbrev pub symbol_type_source_bundle : Bytes
symbol_type_source_bundle = codes "sourcebundle"

pub record DebugFile : Type 0 where
  pub debug_id : Bytes
  pub code_id : Bytes
  pub object_name : Bytes
  pub symbol_type : Bytes
  pub sha1 : Bytes
  pub size : ℤ
  pub features : List Bytes

-- `strings.Compare`
unfoldable pub compare_bytes : Bytes → Bytes → Ordering
compare_bytes [] [] = Ordering.eq
compare_bytes [] (y ∷ t) = Ordering.lt
compare_bytes (x ∷ s) [] = Ordering.gt
compare_bytes (x ∷ s) (y ∷ t) = elim (compare x y) [
  | Ordering.lt ↦ Ordering.lt
  | Ordering.gt ↦ Ordering.gt
  | Ordering.eq ↦ compare_bytes s t
]

unfoldable pub wanted_feature : FileType → Bytes
wanted_feature FileType.pdb = codes "debug"
wanted_feature FileType.elf_debug = codes "debug"
wanted_feature FileType.mach_debug = codes "debug"
wanted_feature FileType.pe = codes "unwind"
wanted_feature FileType.elf_code = codes "unwind"
wanted_feature FileType.mach_code = codes "unwind"
wanted_feature FileType.source_bundle = []

-- `req.FileType == FileSourceBundle`
unfoldable pub wants_source : FileType → Bool
wants_source FileType.source_bundle = true
wants_source _ = false

abbrev pub is_set : Bytes → Bool
is_set s = not (length s == 0)

module _ ⦃u : Unicode⦄ where
  unfoldable pub matches_identity : DebugFile → Request → Bool
  matches_identity f req =
      (is_set req.debug_id && equal_fold f.debug_id req.debug_id)
      || (is_set req.code_id && is_set f.code_id && equal_fold f.code_id req.code_id)

  unfoldable pub is_source_bundle : DebugFile → Bool
  is_source_bundle f = equal_fold f.symbol_type symbol_type_source_bundle

  -- `slices.ContainsFunc` with `EqualFold`
  unfoldable pub has_feature : List Bytes → Bytes → Bool
  has_feature [] feat = false
  has_feature (s ∷ rest) feat = equal_fold s feat || has_feature rest feat

  unfoldable pub quality : DebugFile → Request → ℕ
  unfolding wanted_feature has_feature
  quality f req =
      let feat = wanted_feature req.file_type in
      let score : ℕ = if length feat == 0 || has_feature f.features feat then 1 else 2 in
      if is_set req.filename && equal_fold f.object_name req.filename then score - 1 else score

  -- the comparison that `pick` hands to `slices.SortFunc`, as a sign
  unfoldable pub rank : Request → DebugFile → DebugFile → Ordering
  rank req a b = elim (compare (quality a req) (quality b req)) [
    | Ordering.lt ↦ Ordering.lt
    | Ordering.gt ↦ Ordering.gt
    | Ordering.eq ↦ compare_bytes a.sha1 b.sha1
  ]

  -- the two `continue`s of the loop
  unfoldable pub eligible : Request → DebugFile → Bool
  eligible req f =
      matches_identity f req
      && (if is_source_bundle f
          then wants_source req.file_type
          else not (wants_source req.file_type))

  unfoldable pub matches : Request → List DebugFile → List DebugFile
  matches req [] = []
  matches req (f ∷ files) =
      let rest = matches req files in if eligible req f then f ∷ rest else rest

-- `slices.SortFunc`
abbrev pub Sort : Type 0
Sort = (DebugFile → DebugFile → Ordering) → List DebugFile → List DebugFile

-- A comparison that `slices.SortFunc` accepts: `lt` is a strict weak order.
pub record IsWeakOrder (cmp : DebugFile → DebugFile → Ordering) : Type 0 where
  pub irreflexive : (a : DebugFile) → cmp a a ≢ Ordering.lt
  pub transitive :
      (a b c : DebugFile) → cmp a b ≡ Ordering.lt → cmp b c ≡ Ordering.lt → cmp a c ≡ Ordering.lt
  pub incomparable :
      (a b c : DebugFile) → cmp a b ≢ Ordering.lt → cmp b c ≢ Ordering.lt → cmp a c ≢ Ordering.lt

-- What the documentation of `slices.SortFunc` says. The sort need not be stable.
pub record IsSort (sort : Sort) : Type 0 where
  pub permutes :
      (cmp : DebugFile → DebugFile → Ordering) (files : List DebugFile)
      → Perm (sort cmp files) files
  pub sorts :
      (cmp : DebugFile → DebugFile → Ordering) (files : List DebugFile)
      → IsWeakOrder cmp
      → Pairwise (λ a b. cmp b a ≢ Ordering.lt) (sort cmp files)

abbrev pub head? : List DebugFile → Option DebugFile
head? [] = none
head? (f ∷ files) = some f

module _ ⦃u : Unicode⦄ (sort : Sort) where
  unfoldable pub pick : List DebugFile → Request → Option DebugFile
  pick files req = elim (matches req files) [
    | [] ↦ none
    | f ∷ rest ↦ head? (sort (rank req) (f ∷ rest))
  ]

-- The fields of `Sentry` that `Lookup` reads; `client` is below.
pub record Sentry : Type 0 where
  pub base : Bytes
  pub org : Bytes
  pub project : Bytes
  pub token : Bytes
  pub bucket : Bytes
  pub key_prefix : Bytes

-- The options that set those fields; the client is given to `Lookup` here.
pub record SentryOptions : Type 0 where
  pub api_url : Bytes
  pub org : Bytes
  pub project : Bytes
  pub token : Bytes
  pub bucket : Bytes
  pub key_prefix : Bytes

unfoldable pub new_sentry : SentryOptions → Sentry
new_sentry o = record {
  base = trim_right o.api_url b'/';
  org = o.org;
  project = o.project;
  token = o.token;
  bucket = o.bucket;
  key_prefix = o.key_prefix;
}

-- `sha1` has four bytes at least
unfoldable pub storage_key : Sentry → Bytes → Bytes
storage_key s sha1 =
    (if is_set s.key_prefix
      then (if has_suffix s.key_prefix (codes "/") then s.key_prefix else s.key_prefix ++ codes "/")
      else [])
    ++ (take 2 sha1 ++ (codes "/" ++ (take 2 (drop 2 sha1) ++ (codes "/" ++ sha1))))

pub data LookupError : Type 0 where
  not_found : LookupError
  bad_url bad_request querying : LookupError
  bad_status : ℕ → LookupError
  decoding : LookupError

-- What the API answers: its status and its body.
pub record Response : Type 0 where
  pub status : ℕ
  pub body : Bytes

-- The packages that `Lookup` calls: `url.JoinPath`, `url.Values.Encode`, `http.NewRequest`, the
-- client's `Do` on a URL and a token, and the decoder of the answer's JSON.
pub record Client : Type 0 where
  pub join_path : Bytes → List Bytes → Option Bytes
  pub encode : List (Bytes × Bytes) → Bytes
  pub valid : Bytes → Bool
  pub get : Bytes → Bytes → Option Response
  pub decode : Bytes → Option (List DebugFile)

abbrev pub or_error : {A : Type 0} → LookupError → Option A → Result LookupError A
or_error e none = err e
or_error e (some a) = ok a

unfoldable pub query : Request → List (Bytes × Bytes)
query req =
    (if is_set req.debug_id then (codes "debug_id", req.debug_id) ∷ [] else [])
    ++ (if is_set req.code_id then (codes "code_id", req.code_id) ∷ [] else [])

-- the switch on the status
unfoldable pub check_status : Response → Result LookupError Bytes
check_status r =
    if r.status == 200
    then ok r.body
    else if r.status == 404
    then err not_found
    else err (bad_status r.status)

-- the test of the picked file, and its location
unfoldable pub locate : Sentry → Option DebugFile → Result LookupError Location
unfolding storage_key
locate s none = err not_found
locate s (some best) =
    if ltb (length best.sha1) min_sha1_len
    then err not_found
    else ok (record { bucket = s.bucket; key = storage_key s best.sha1; size = best.size })

module _ ⦃u : Unicode⦄ (sort : Sort) (c : Client) where
  unfoldable pub lookup : Sentry → Request → Result LookupError Location
  unfolding query check_status locate
  lookup s req = do
    endpoint ←
        or_error bad_url
          (c.join_path s.base (codes "projects" ∷ s.org ∷ s.project ∷ dsyms_path ∷ []))
    let url = endpoint ++ (codes "?" ++ c.encode (query req))
    request ← if c.valid url then ok url else err bad_request
    response ← or_error querying (c.get request s.token)
    body ← check_status response
    files ← or_error decoding (c.decode body)
    locate s (pick sort files req)
