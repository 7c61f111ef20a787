-- ===== src/Tests/SystemExamples.antt =====
-- The theorems on the system: a download, a cabinet and a sweep, from an empty cache.
use debugsymd.Base.{drop, take, take, ◌≡◌, refl, some, [], codes, inl}
use debugsymd.Base.Result.{ok}
use debugsymd.Dict.{get, put, delete}
use debugsymd.GoStrings.{bytes_eq, last_index_byte}
use debugsymd.Diskcache.{path, key, key_text}
use debugsymd.Symstore.DebugId.{hex_encode}
use debugsymd.Resolver.{file_type_name}
use debugsymd.World.{File, World, touch, make_dirs, rename, dir_of, prefixes, shift}
use debugsymd.Diskcache.Entries.{
  record_commit, commit_sized, commit_at, commit, new_temp, lookup_at,
}
use debugsymd.Objects.{first_set, cache_key, clean_up, receive, Remote, download, role_objects}
use debugsymd.Objects.Synth.{fetch_compressed}
use debugsymd.Objects.Download.{place, IsRole}
use debugsymd.System.{System, Genuine, Step, Steps}
use debugsymd.System.Runs.{idle, download-Steps}
use debugsymd.System.Service.{Follows}
use debugsymd.System.Sound.{IsStart, Steps-lookup}
use debugsymd.System.Fetches.{fetch_compressed-Follows}
use debugsymd.Tests.ObjectExamples.{os, cache, symbols, upstream, nobody, empty, host}

abbrev IsUpstream : Remote → Type 0
IsUpstream remote = remote ≡ upstream

abbrev synced : World
synced = (download os cache upstream symbols empty).1

abbrev restarted : System
restarted = record { world = synced; jobs = []; opened = [] }

to_restarted : Steps os cache IsUpstream (idle empty []) restarted
to_restarted =
    Steps.later (download-Steps os cache IsUpstream [] upstream refl symbols empty) Step.restart

empty-IsStart : IsStart os cache IsUpstream (idle empty [])
unfolding get
empty-IsStart = record { idle = refl; none_open = refl; entries = λ role req f r h. absurd (cc) }

abbrev entry : File
entry = record { contents = codes "sym"; modified = 7 }

found :
    lookup_at (place os cache role_objects symbols) synced
    ≡ (ok (some entry), (lookup_at (place os cache role_objects symbols) synced).1)
unfolding download receive clean_up cache_key first_set lookup_at new_temp commit commit_at
    commit_sized record_commit path key key_text hex_encode touch make_dirs rename dir_of prefixes
    shift get put delete bytes_eq last_index_byte file_type_name take drop
    debugsymd.Symstore.DebugId.hex_digit
found = refl

Steps-lookup_example :
    Genuine os cache IsUpstream (place os cache role_objects symbols) entry.contents
Steps-lookup_example =
    Steps-lookup os cache IsUpstream (idle empty []) restarted role_objects symbols entry
      (lookup_at (place os cache role_objects symbols) synced).1 empty-IsStart to_restarted
      IsRole.objects found

fetch_compressed-Follows_example :
    Follows os cache IsUpstream [] empty
      (fetch_compressed os cache host upstream nobody symbols empty)
fetch_compressed-Follows_example =
    fetch_compressed-Follows os cache IsUpstream host upstream refl nobody symbols [] empty
      (inl refl) (inl refl)
