-- ===== src/Tests/ObjectExamples.antt =====
-- The theorems on the object service at one request, from an empty cache.
use debugsymd.Diskcache.{key}
use debugsymd.Base.{◌≡◌, refl, false, Option, none, some, [], ◌∷◌, codes, pos, ◌⊎◌, take, inl}
use debugsymd.Base.Result.{Result, ok, err}
use debugsymd.Dict.{get}
use debugsymd.GoStrings.{bytes_eq}
use debugsymd.World.{File, World}
use debugsymd.Resolver.{FileType, Request, Location}
use debugsymd.Diskcache.Entries.{Cache, Platform, staging_name}
use debugsymd.Objects.{RemoteError, Group, Remote, ObjectError, fetch, download, role_objects}
use debugsymd.Objects.Synth.{Host, fetch_compressed}
use debugsymd.Objects.Stored.{Kept}
use debugsymd.Objects.Download.{Downloaded, download-atomic, place}
use debugsymd.Objects.Served.{Served}
use debugsymd.Objects.Fetch.{fetch-Served, fetch_again}
use debugsymd.Objects.Calm.{fetch-succeeds}
use debugsymd.Objects.Payload.{Payload}
use debugsymd.Tests.CabRuns.{store}

abbrev pub os : Platform
os = record { sum256 = take 4; random = λ files. codes "1" }

abbrev pub cache : Cache
cache = record { root = codes "/c" }

abbrev pub symbols : Request
symbols = record {
  debug_id = codes "abcd";
  code_id = [];
  filename = codes "a.pdb";
  file_type = FileType.pdb;
}

abbrev pub somewhere : Location
somewhere = record { bucket = codes "b"; key = codes "k"; size = pos 3 }

abbrev pub upstream : Remote
upstream = record { resolve = λ req. ok somewhere; fetch = λ bucket key. (codes "sym", ok 3) }

abbrev pub nobody : Group
nobody key = none

abbrev pub empty : World
empty = record {
  files = [];
  dirs = (codes "/c/tmp", tt) ∷ [];
  luck = [];
  now = 7;
  size_bytes = pos 0;
  entries = pos 0;
  log = [];
}

abbrev pub host : Host
host = record { deflate = store; faults = []; broken = false }

fetch-succeeds_example :
    (f : File) × (w' : World) × (fetch os cache upstream nobody symbols empty ≡ (ok (some f), w'))
    × ((get (place os cache role_objects symbols) empty.files ≡ some f)
        ⊎ (f.contents ≡ codes "sym"))
unfolding get bytes_eq
fetch-succeeds_example =
    fetch-succeeds os cache symbols upstream somewhere (codes "sym") 3 nobody empty refl refl refl
      refl refl

download-atomic_example :
    ((w' : World) × (download os cache upstream symbols empty ≡ (ok tt, w'))
      × Downloaded os cache upstream symbols empty w')
    ⊎ ((e : ObjectError) × (w' : World) × (download os cache upstream symbols empty ≡ (err e, w'))
        × Kept (staging_name os cache empty) empty w')
download-atomic_example = download-atomic os cache upstream symbols empty

fetched :
    (f : File) × (w' : World) × (fetch os cache upstream nobody symbols empty ≡ (ok (some f), w'))
fetched = let (f, w', e, _) = fetch-succeeds_example in (f, w', e)

fetch-Served_example :
    (f : File) × (some fetched.0 ≡ some f)
    × Served os cache upstream nobody symbols f empty fetched.1
fetch-Served_example =
    fetch-Served os cache upstream nobody symbols empty (some fetched.0) (inl refl) fetched.2

-- The same service without a resolver or a store.
abbrev offline : Remote
offline = record {
  resolve = λ req. err RemoteError.broken;
  fetch = λ bucket key. ([], err RemoteError.broken);
}

abbrev afterwards : World
afterwards = record (fetched.1) { luck = []; now = 9 }

fetch_again_example :
    (f g : File) × (v' : World) × (some fetched.0 ≡ some f)
    × (fetch os cache offline nobody symbols afterwards ≡ (ok (some g), v'))
    × (g.contents ≡ f.contents)
fetch_again_example =
    fetch_again os cache upstream offline nobody nobody symbols empty afterwards (some fetched.0)
      (inl refl) fetched.2 refl refl

-- the file of an answer
abbrev file_of : Result ObjectError (Option File) × World → Option File
file_of (ok found, w) = found
file_of (err e, w) = none

abbrev compressed : Result ObjectError (Option File) × World
compressed = fetch_compressed os cache host upstream nobody symbols empty
