-- ===== src/Tests/SentryExamples.antt =====
-- The theorems on `pick` at the two debug files of one module.
use mathlib.Core.List.{Mem}
use mathlib.Core.List.Perm
use debugsymd.Base.{drop, take, true, ◌≡◌, refl, false, none, some, [], ◌∷◌, ◌⊎◌, codes, pos, Bytes}
use debugsymd.Resolver.{Location, Request, FileType}
use debugsymd.Resolver.Sentry.{
  storage_key, locate, check_status, query, Sentry, lookup, Client, DebugFile, eligible, pick, rank,
  quality, matches, matches_identity, is_source_bundle, has_feature, wanted_feature, wants_source,
  compare_bytes,
}
use debugsymd.Base.Result.{ok}
use debugsymd.Resolver.Sentry.Found.{Found, lookup-Found}
use debugsymd.Resolver.Sentry.Pick.{IsBest, pick-IsBest, pick_stable}
use debugsymd.GoStrings.{bytes_eq, has_suffix, equal_fold}
use debugsymd.Tests.Sorts.{insertion_sort, insertion_sort-IsSort, place}
use debugsymd.Tests.Instances.{ascii_tables}

abbrev file_of : (feature sha1 : Bytes) → DebugFile
file_of feature sha1 = record {
  debug_id = codes "0c1033f7-8632-492e-91c6-c314b72e1920-1";
  code_id = [];
  object_name = codes "app.exe";
  symbol_type = codes "pe";
  sha1 = sha1;
  size = pos 10;
  features = feature ∷ [];
}

abbrev symbols : DebugFile
symbols = file_of (codes "debug") (codes "aabbcc")

abbrev unwinding : DebugFile
unwinding = file_of (codes "unwind") (codes "001122")

abbrev pub for_pdb : Request
for_pdb = record {
  debug_id = codes "0C1033F7-8632-492E-91C6-C314B72E1920-1";
  code_id = [];
  filename = codes "app.pdb";
  file_type = FileType.pdb;
}

-- The file with debug information comes first, although its checksum does not.
picks : pick insertion_sort (unwinding ∷ symbols ∷ []) for_pdb ≡ some symbols
unfolding pick matches eligible matches_identity is_source_bundle equal_fold wants_source rank
    quality has_feature wanted_feature compare_bytes insertion_sort place
picks = refl

pick-IsBest_example :
    ((f : DebugFile) × (pick insertion_sort (unwinding ∷ symbols ∷ []) for_pdb ≡ some f)
      × IsBest for_pdb (unwinding ∷ symbols ∷ []) f)
    ⊎ ((pick insertion_sort (unwinding ∷ symbols ∷ []) for_pdb ≡ none)
        × ((g : DebugFile) → Mem g (unwinding ∷ symbols ∷ []) → eligible for_pdb g ≡ false))
pick-IsBest_example =
    pick-IsBest for_pdb insertion_sort (unwinding ∷ symbols ∷ []) insertion_sort-IsSort

pick_stable_example :
    ((f : DebugFile) × (f' : DebugFile) × (pick insertion_sort (unwinding ∷ symbols ∷ []) for_pdb
        ≡ some f)
      × (pick insertion_sort (symbols ∷ unwinding ∷ []) for_pdb ≡ some f')
      × (f.sha1 ≡ f'.sha1))
    ⊎ ((pick insertion_sort (unwinding ∷ symbols ∷ []) for_pdb ≡ none)
        × (pick insertion_sort (symbols ∷ unwinding ∷ []) for_pdb ≡ none))
pick_stable_example =
    pick_stable for_pdb insertion_sort insertion_sort (unwinding ∷ symbols ∷ [])
      (symbols ∷ unwinding ∷ []) insertion_sort-IsSort insertion_sort-IsSort
      (Perm.swap symbols unwinding [])

abbrev pub answering : Client
answering = record {
  join_path = λ base parts. some base;
  encode = λ pairs. [];
  valid = λ url. true;
  get = λ url token. some (record { status = 200; body = [] });
  decode = λ body. some (unwinding ∷ symbols ∷ []);
}

abbrev pub server : Sentry
server = record {
  base = codes "https://s";
  org = codes "o";
  project = codes "p";
  token = [];
  bucket = codes "b";
  key_prefix = codes "blobs";
}

abbrev pub blob : Location
blob = record { bucket = codes "b"; key = codes "blobs/aa/bb/aabbcc"; size = pos 10 }

pub looks_up : lookup insertion_sort answering server for_pdb ≡ ok blob
unfolding lookup query check_status locate storage_key take drop has_suffix bytes_eq pick matches
    eligible matches_identity is_source_bundle equal_fold wants_source rank quality has_feature
    wanted_feature compare_bytes insertion_sort place
looks_up = refl

lookup-Found_example : Found answering server for_pdb blob
lookup-Found_example =
    lookup-Found insertion_sort answering server for_pdb {loc = blob} insertion_sort-IsSort looks_up
