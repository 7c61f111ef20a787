-- ===== src/Tests/RouteExamples.antt =====
-- The symstore route in front of the object service, at one path.
use debugsymd.Base.{◌≡◌, refl, Option, none, List, Bytes, codes, take, drop, arith}
use debugsymd.Dict.{get, put, delete}
use debugsymd.GoStrings.{
  bytes_eq, last_index_byte, equal_fold, trim_right, has_prefix, has_suffix, to_lower,
}
use debugsymd.World.{File, touch, make_dirs, rename, dir_of, prefixes, shift}
use debugsymd.Cab.Out.{Reader}
use debugsymd.Resolver.{Request, file_type_name}
use debugsymd.Symstore.Constants.{octet_stream}
use debugsymd.Symstore.DebugId.{hex_encode, hex_digit}
use debugsymd.Symstore.Parse.{
  Serve, is_source_bundle, parse, uncompress_leaf, base_identity, pe_request,
}
use debugsymd.Symstore.Parse.Named.{Decided}
use debugsymd.Diskcache.{path, key, key_text}
use debugsymd.Diskcache.Entries.{
  lookup, lookup_at, new_temp, commit, commit_at, commit_sized, record_commit,
}
use debugsymd.Objects.{
  fetch, object, object_found, object_missed, produce_once, run_or_wait, download, receive,
  clean_up, cache_key, first_set, flight_key,
}
use debugsymd.Objects.SourceBundle.{ZipFile, Manifest}
use debugsymd.Httpapi.Handler.{Answer, symstore_route, deliver}
use debugsymd.Httpapi.Service.{service_at, Delivered, symstore_route-Delivered}
use debugsymd.Tests.CabRuns.{unstore, store-Inflates}
use debugsymd.Tests.Instances.{ascii_tables}
use debugsymd.Tests.ObjectExamples.{os, cache, host, upstream, empty}

abbrev decode : Reader → Option Manifest
decode r = none

abbrev unzip : Bytes → Option (List ZipFile)
unzip bytes = none

abbrev served : File
served = record { contents = codes "sym"; modified = 7 }

routed :
    symstore_route
      (service_at os cache host upstream decode unzip empty)
      (codes "a.dll")
      (codes "5E9C4F2A12000")
      (codes "a.dll")
    ≡ Answer.served octet_stream (codes "a.dll") served
unfolding service_at fetch object object_found object_missed produce_once run_or_wait download
    receive clean_up cache_key first_set flight_key lookup lookup_at new_temp commit commit_at
    commit_sized record_commit path key key_text hex_encode hex_digit touch make_dirs rename dir_of
    prefixes shift get put delete bytes_eq last_index_byte file_type_name take drop is_source_bundle
    symstore_route deliver parse uncompress_leaf base_identity pe_request equal_fold trim_right
    has_prefix has_suffix to_lower
routed = refl

symstore_route-Delivered_example :
    (req : Request) × (serve : Serve) × Decided (codes "a.dll") req serve
    × (codes "a.dll" ≡ req.filename)
    × Delivered os cache host upstream decode unzip unstore req served empty serve.cab
symstore_route-Delivered_example =
    symstore_route-Delivered os cache host upstream decode unzip unstore (codes "a.dll")
      (codes "5E9C4F2A12000") (codes "a.dll") empty octet_stream (codes "a.dll") served
      store-Inflates (omega arith) routed
