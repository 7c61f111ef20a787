-- ===== src/System.antt =====
-- Requests, syntheses, sweeps and probes at work on one cache directory at the same time, and the process
-- dying in between. A step is one of the calls that diskcache/ and objects/ make, in any order.
pub mod Provenance
pub mod Sound
pub mod Runs
pub mod Service
pub mod Synthesis
pub mod Fetches
use debugsymd.Base.{
  zero, suc, ℕ, ◌≡◌, Option, none, some, List, [], ◌∷◌, ◌++◌, Bytes, codes, length, take, pos,
}
use debugsymd.Base.Result.{Result, ok, err}
use debugsymd.Dict.{get, put, delete}
use debugsymd.World.{File, World, discard, remove}
use debugsymd.Resolver.{Request, Location}
use debugsymd.Diskcache.Entries.{
  Platform, Cache, CacheError, lookup_at, new_temp, commit_at, tmp_dir,
}
use debugsymd.Objects.{Remote, role_objects, fill}
use debugsymd.Objects.Synth.{Host}
use debugsymd.Objects.Download.{place, IsRole}
use debugsymd.Objects.Compressed.{Wraps}

-- How far the owner of a staging file is: something may have been written to it, or the whole text of
-- an entry.
pub data Phase : Type 0 where
  filling : Phase
  ready : (final text : Bytes) → Phase

-- `jobs` are the staging files by name that someone has open; `opened` the entries that lookups have
-- given out, with their places.
pub record System : Type 0 where
  pub world : World
  pub jobs : List (Bytes × Phase)
  pub opened : List (Bytes × File)

abbrev pub get_elem? : List (Bytes × File) → ℕ → Option (Bytes × File)
get_elem? [] i = none
get_elem? (x ∷ xs) zero = some x
get_elem? (x ∷ xs) (suc i) = get_elem? xs i

-- A write of the whole text so far to a file that was opened under the name: one that was removed since
-- is not there any more.
unfoldable pub write_open : Bytes → Bytes → World → World
write_open tmp text w = elim (get tmp w.files) [ none ↦ w | some f ↦ fill tmp text w ]

-- `IsRemote` tells the states that the resolver and the store were in.
module _ (os : Platform) (c : Cache) (IsRemote : Remote → Type 0) where
  -- Where the contents of an entry come from: the store wrote them without an error for the location
  -- that was resolved, or they wrap such contents.
  pub data Genuine : Bytes → Bytes → Type 0 where
    object :
        (remote : Remote)
        → IsRemote remote
        → (asked : Request) (loc : Location) (text : Bytes) (n : ℕ) → remote.resolve asked ≡ ok loc
        → remote.fetch loc.bucket loc.key ≡ (text, ok n)
        → Genuine (place os c role_objects asked) text
    wrapped :
        (host : Host) (asked : Request) (f : File) (role text : Bytes)
        → Genuine (place os c role_objects asked) f.contents
        → Wraps host asked f role text
        → Genuine (place os c role asked) text

  pub data Step (s : System) : System → Type 0 where
    -- the clock, a counter, a gauge, a directory, a failure to come
    elsewhere : (w : World) → w.files ≡ s.world.files → Step s (record s { world = w })
    -- a lookup that finds the entry
    look_up :
        (role : Bytes) (req : Request) (f : File) (w : World)
        → IsRole role
        → lookup_at (place os c role req) s.world ≡ (ok (some f), w)
        → Step s (record s { world = w; opened = (place os c role req, f) ∷ s.opened })
    -- a staging file, under a name that nobody has open
    stage :
        (tmp : Bytes) (w : World)
        → new_temp os c s.world ≡ (ok tmp, w)
        → get tmp s.jobs ≡ none
        → Step s (record s { world = w; jobs = put tmp Phase.filling s.jobs })
    write :
        (tmp text : Bytes)
        → get tmp s.jobs ≡ some Phase.filling
        → Step s (record s { world = write_open tmp text s.world })
    -- the end of a fetch without an error
    fetched :
        (tmp : Bytes) (remote : Remote) (asked : Request) (loc : Location) (text : Bytes) (n : ℕ)
        → get tmp s.jobs ≡ some Phase.filling
        → IsRemote remote
        → remote.resolve asked ≡ ok loc
        → remote.fetch loc.bucket loc.key ≡ (text, ok n)
        → Step s (record s {
          world = write_open tmp text s.world;
          jobs = put tmp (Phase.ready (place os c role_objects asked) text) s.jobs;
        })
    -- the end of a copy or of a cabinet, without an error, from an object that was opened
    enclosed :
        (tmp : Bytes) (host : Host) (asked : Request) (f : File) (role text : Bytes) (i : ℕ)
        → get tmp s.jobs ≡ some Phase.filling
        → get_elem? s.opened i ≡ some (place os c role_objects asked, f)
        → Wraps host asked f role text
        → Step s (record s {
          world = write_open tmp text s.world;
          jobs = put tmp (Phase.ready (place os c role asked) text) s.jobs;
        })
    commit :
        (tmp final text : Bytes) (w : World)
        → get tmp s.jobs ≡ some (Phase.ready final text)
        → commit_at tmp final s.world ≡ (ok tt, w)
        → Step s (record s { world = w; jobs = delete tmp s.jobs })
    -- the owner of a staging file gives up, whatever it has done with it
    abandon :
        (tmp : Bytes) → Step s (record s { world = discard tmp s.world; jobs = delete tmp s.jobs })
    -- a sweep comes to a file, or someone else removes it
    unlink : (p : Bytes) → Step s (record s { world = (remove p s.world).1 })
    -- the process ends at any time, and is started again
    restart : Step s (record s { jobs = []; opened = [] })

  -- States from one on.
  pub data Steps (s : System) : System → Type 0 where
    here : Steps s s
    later : {t u : System} → Steps s t → Step t u → Steps s u
