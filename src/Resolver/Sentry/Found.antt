-- ===== src/Resolver/Sentry/Found.antt =====
-- What a location that `Lookup` returns comes from.
use debugsymd.Base.{
  ◌≡◌, ◌≤◌, refl, sym, ap, ◌∙◌, Option, none, some, List, [], ◌∷◌, ◌++◌, inl, inr, arith, Bytes,
  codes, length, if◌then◌else◌,
}
use debugsymd.Base.Result.{Result, ok, err, ◌>>=◌}
use debugsymd.GoStrings.{Unicode}
use debugsymd.Resolver.{Request, Location}
use debugsymd.Resolver.Sentry.{
  DebugFile, Sort, IsSort, Sentry, Client, Response, LookupError, pick, or_error, storage_key,
  query, check_status, locate, lookup, dsyms_path,
}
use debugsymd.Resolver.Sentry.Pick.{IsBest, pick-IsBest}

>>=-eq-ok :
    {E A B : Type 0} (r : Result E A) {f : A → Result E B} {b : B}
    → (r >>= f) ≡ ok b
    → (a : A) × (r ≡ ok a) × (f a ≡ ok b)
>>=-eq-ok (ok a) h = (a, refl, h)
>>=-eq-ok (err e) h = absurd (cc)

some_injective : {A : Type 0} {a b : A} → some a ≡ some b → a ≡ b
some_injective e = cc

none-some : {a : DebugFile} → none ≡ some a → ⊥
none-some e = cc

or_error-eq-ok :
    {A : Type 0} (e : LookupError) (o : Option A) {a : A} → or_error e o ≡ ok a → o ≡ some a
or_error-eq-ok e none h = absurd (cc)
or_error-eq-ok e (some a) h = cc

check_status-eq-ok :
    (r : Response) {body : Bytes} → check_status r ≡ ok body → (r.status ≡ 200) × (r.body ≡ body)
unfolding check_status
check_status-eq-ok r h = ground arith

locate-eq-ok :
    (s : Sentry) (best : Option DebugFile) {loc : Location}
    → locate s best ≡ ok loc
    → (f : DebugFile) × (best ≡ some f)
      × (4 ≤ length f.sha1)
      × (loc ≡ record { bucket = s.bucket; key = storage_key s f.sha1; size = f.size })
unfolding locate
locate-eq-ok s none h = absurd (cc)
locate-eq-ok s (some f) h = (f, refl, ground arith, ground arith)

-- What the API answered with the status 200, and the file of that answer that the location is of.
pub record Found ⦃u : Unicode⦄ (c : Client) (s : Sentry) (req : Request) (loc : Location)
    : Type 0 where
  pub url : Bytes
  pub response : Response
  pub files : List DebugFile
  pub best : DebugFile
  pub answered : c.get url s.token ≡ some response
  pub accepted : response.status ≡ 200
  pub decoded : c.decode response.body ≡ some files
  pub is_best : IsBest req files best
  pub long_enough : 4 ≤ length best.sha1
  pub located : loc ≡ record { bucket = s.bucket; key = storage_key s best.sha1; size = best.size }

module _ ⦃u : Unicode⦄ where
  picked-IsBest :
      (sort : Sort) (files : List DebugFile) (req : Request) {best : DebugFile}
      → IsSort sort
      → pick sort files req ≡ some best
      → IsBest req files best
  picked-IsBest sort files req {best} laws p = elim (pick-IsBest req sort files laws) [
    | inl (f, q, b) ↦ let it : f ≡ best = some_injective (sym q ∙ p) in rw (← it) b
    | inr (n, _) ↦ absurd (none-some (sym n ∙ p))
  ]

  -- A location that `Lookup` returns is that of the best file among those that the API answered with the
  -- status 200 and a body that decodes: its key is the storage key of that file's checksum, which has
  -- four bytes at least. This holds for every sort that puts the files in order.
  pub lookup-Found :
      (sort : Sort) (c : Client) (s : Sentry) (req : Request) {loc : Location}
      → IsSort sort
      → lookup sort c s req ≡ ok loc
      → Found c s req loc
  unfolding lookup
  lookup-Found sort c s req {loc} laws h =
      let (endpoint, _, h₁) =
        >>=-eq-ok
          (or_error LookupError.bad_url
            (c.join_path s.base (codes "projects" ∷ s.org ∷ s.project ∷ dsyms_path ∷ [])))
          h in
      let asked = endpoint ++ (codes "?" ++ c.encode (query req)) in
      let (url, _, h₂) =
        >>=-eq-ok (if c.valid asked then ok asked else err LookupError.bad_request) h₁ in
      let (response, e, h₃) = >>=-eq-ok (or_error LookupError.querying (c.get url s.token)) h₂ in
      let (body, st, h₄) = >>=-eq-ok (check_status response) h₃ in
      let (files, d, h₅) = >>=-eq-ok (or_error LookupError.decoding (c.decode body)) h₄ in
      let (best, p, long, l) = locate-eq-ok s (pick sort files req) h₅ in
      let (ok_status, same) = check_status-eq-ok response st in
      record {
        url = url;
        response = response;
        files = files;
        best = best;
        answered = or_error-eq-ok LookupError.querying _ e;
        accepted = ok_status;
        decoded = ap c.decode same ∙ or_error-eq-ok LookupError.decoding _ d;
        is_best = picked-IsBest sort files req laws p;
        long_enough = long;
        located = l;
      }
