-- ===== src/Objects/Synth.antt =====
-- objects/synth.go: the compressed form of an object. `Host` is what the cabinet writer and the copy
-- meet on the way: the compressor, the faults of the staging file and of the cached object's file.
use debugsymd.Base.{
  Bool, true, false, Option, none, some, List, [], ◌∷◌, Bytes, length, take, pos, leb,
  if◌then◌else◌,
}
use debugsymd.Base.Result.{ok, err}
use debugsymd.GoStrings.{bytes_eq}
use debugsymd.World.{File, Found, Metric, Run, ◌>>=◌, ◌>>◌, and_then, pure, fail, counting, chance}
use debugsymd.Resolver.{Request}
use debugsymd.Diskcache.Entries.{Cache, Platform}
use debugsymd.Cab.Out.{Fault, fine, fails, Out, Outcome, done, failed_with, out_of_fuel, Reader}
use debugsymd.Cab.Writer.{write_cab}
use debugsymd.Objects.{
  role_raw_compressed, role_cab_synth, label_compressed, cab_magic, ObjectError, Remote, Group,
  cache_key, flight_key, produce_once, filling, clean_up, lookup_role, commit_role, stage, object,
}

pub record Host : Type 0 where
  pub deflate : Bytes → Option Bytes
  pub faults : List Fault
  pub broken : Bool

abbrev pub reader : Host → File → Reader
reader host f = record { left = f.contents; broken = host.broken }

abbrev pub empty_out : Host → Out
empty_out host = record { contents = []; position = 0; faults = host.faults; failed = false }

-- of a reader: a file shorter than the signature is no cabinet
unfoldable pub starts_with_cab_magic : Reader → Run ObjectError Bool
starts_with_cab_magic r w =
    if leb (length cab_magic) (length r.left)
    then (ok (bytes_eq (take (length cab_magic) r.left) cab_magic), w)
    else if r.broken
    then (err ObjectError.reading_magic, w)
    else (ok false, w)

-- `io.Copy` in one write: what it leaves in the file, and whether it succeeded
unfoldable pub copied : List Fault → Reader → Bytes × Bool
copied [] r = (r.left, if r.broken then false else true)
copied (fine ∷ fs) r = (r.left, if r.broken then false else true)
copied (fails n ∷ fs) r = (take n r.left, false)

-- the promotion of an object that is a cabinet
unfoldable pub mirror : Host → File → Bytes → Run ObjectError (Unit {0})
unfolding copied
mirror host f tmp = do
  filling tmp (copied host.faults (reader host f)).0
  if (copied host.faults (reader host f)).1 then pure tt else fail ObjectError.mirroring

-- `cab.Write` never runs out of fuel.
unfoldable pub written_cab : File → Bytes → Outcome (Unit {0}) → Run ObjectError (Unit {0})
written_cab f tmp (done _ s) = do
  filling tmp s.contents
  counting (Metric.cab_bytes (length f.contents))
written_cab f tmp (failed_with _ s) = do filling tmp s.contents; fail ObjectError.synthesizing
written_cab f tmp out_of_fuel = fail ObjectError.synthesizing

unfoldable pub wrap_cab : Host → Request → File → Bytes → Run ObjectError (Unit {0})
unfolding written_cab
wrap_cab host req f tmp =
    written_cab f tmp (
      write_cab host.deflate req.filename (pos (length f.contents)) (reader host f)
        (empty_out host))

abbrev pub file_only : Option (File × Bytes) → Option File
file_only none = none
file_only (some (file, role)) = some file

module _ (os : Platform) (c : Cache) where
  -- a file that was found, with the role that served, or else the rest of the roles
  abbrev pub lookup_next :
      Bytes
      → Run ObjectError (Option (File × Bytes))
      → Option File
      → Run ObjectError (Option (File × Bytes))
  lookup_next role rest (some file) = pure (some (file, role))
  lookup_next role rest none = rest

  -- `lookupCompressed`, from the first of the roles on
  unfoldable pub lookup_roles : List Bytes → Request → Run ObjectError (Option (File × Bytes))
  lookup_roles [] req w = (ok none, w)
  lookup_roles (role ∷ roles) req w =
      let rest = lookup_roles roles req in
      and_then (lookup_role os c role req w) (lookup_next role rest)

  unfoldable pub lookup_compressed : Request → Run ObjectError (Option (File × Bytes))
  unfolding lookup_roles
  lookup_compressed req = lookup_roles (role_raw_compressed ∷ role_cab_synth ∷ []) req

  module _ (host : Host) where
    -- `synthesize` from the staging file on
    unfoldable pub produce : Request → File → Bool → Bytes → Run ObjectError (Unit {0})
    unfolding mirror wrap_cab
    produce req f is_cab tmp =
        if is_cab
        then (do mirror host f tmp; commit_role os c tmp role_raw_compressed req)
        else (do wrap_cab host req f tmp; commit_role os c tmp role_cab_synth req)

    -- `synthesize` behind the object; a nil file cannot be read
    unfoldable pub synthesize_from : Request → Option File → Run ObjectError (Unit {0})
    unfolding produce starts_with_cab_magic
    synthesize_from req none = fail ObjectError.reading_magic
    synthesize_from req (some f) = do
      is_cab ← starts_with_cab_magic (reader host f)
      chance ObjectError.rewinding
      tmp ← stage os c
      λ w. clean_up tmp (produce req f is_cab tmp w)

    module _ (remote : Remote) (group : Group) where
      unfoldable pub synthesize : Request → Run ObjectError (Unit {0})
      unfolding synthesize_from
      synthesize req = do f ← object os c remote group req; synthesize_from req f

      -- behind a lookup that missed
      unfoldable pub compressed_missed : Request → Run ObjectError (Option File)
      unfolding produce_once synthesize flight_key lookup_compressed
      compressed_missed req = do
        counting (Metric.cache_lookup label_compressed Found.miss)
        produce_once group (flight_key role_cab_synth (cache_key req).0 (cache_key req).1)
            (synthesize req)
        again ← lookup_compressed req
        pure (file_only again)

      -- behind the first lookup
      unfoldable pub compressed_found :
          Request → Option (File × Bytes) → Run ObjectError (Option File)
      unfolding compressed_missed
      compressed_found req (some (file, role)) = do
        counting (Metric.cache_lookup role Found.hit)
        pure (some file)
      compressed_found req none = compressed_missed req

      -- `FetchCompressed`
      unfoldable pub fetch_compressed : Request → Run ObjectError (Option File)
      unfolding compressed_found lookup_compressed
      fetch_compressed req = do found ← lookup_compressed req; compressed_found req found
