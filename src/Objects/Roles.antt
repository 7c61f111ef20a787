-- ===== src/Objects/Roles.antt =====
-- What `lookupCompressed` finds.
use mathlib.Core.Path.{subst}
use debugsymd.Base.{◌≡◌, sym, ap, ◌∙◌, Option, none, some, [], ◌∷◌, arith, Bytes}
use debugsymd.Base.Result.{ok}
use debugsymd.Dict.{get}
use debugsymd.World.{World, File}
use debugsymd.World.Steps.{and_then-ok}
use debugsymd.Resolver.{Request}
use debugsymd.Diskcache.Entries.{Platform, Cache}
use debugsymd.Objects.{role_raw_compressed, role_cab_synth, lookup_role}
use debugsymd.Objects.Synth.{lookup_roles, lookup_compressed, lookup_next}
use debugsymd.Objects.Download.{place}
use debugsymd.Objects.Served.{Holds, lookup_role-Hit, lookup_role-miss, lookup_role-held}

module _ (os : Platform) (c : Cache) (req : Request) where
  -- `lookupCompressed` finds the mirrored cabinet first.
  pub lookup_compressed-raw :
      (bytes : Bytes) (w : World) (x : Option (File × Bytes)) {w' : World}
      → Holds (place os c role_raw_compressed req) bytes w
      → lookup_compressed os c req w ≡ (ok x, w')
      → (f : File) × (x ≡ some (f, role_raw_compressed)) × (f.contents ≡ bytes)
  unfolding lookup_compressed lookup_roles
  lookup_compressed-raw bytes w x held h =
      let (found, v, first, rest) = and_then-ok (lookup_role os c role_raw_compressed req w) _ h in
      let (f, is_some, same, _) =
        lookup_role-held os c role_raw_compressed req bytes w found held first in
      (f, ground arith, same)

  pub lookup_compressed-synth :
      (bytes : Bytes) (w : World) (x : Option (File × Bytes)) {w' : World}
      → get (place os c role_raw_compressed req) w.files ≡ none
      → Holds (place os c role_cab_synth req) bytes w
      → lookup_compressed os c req w ≡ (ok x, w')
      → (f : File) × (x ≡ some (f, role_cab_synth)) × (f.contents ≡ bytes)
  unfolding lookup_compressed lookup_roles
  lookup_compressed-synth bytes w x {w'} missing held h =
      let (found, v, first, rest) = and_then-ok (lookup_role os c role_raw_compressed req w) _ h in
      go found v first rest
    where
      go :
          (found : Option File) (v : World)
          → lookup_role os c role_raw_compressed req w ≡ (ok found, v)
          → lookup_next os c role_raw_compressed
              (lookup_roles os c (role_cab_synth ∷ []) req)
              found
              v
            ≡ (ok x, w')
          → (f : File) × (x ≡ some (f, role_cab_synth)) × (f.contents ≡ bytes)
      go (some f) v first rest =
          absurd (let there = (lookup_role-Hit os c role_raw_compressed req w first).found in cc)
      go none v first rest =
          let (_, same) = lookup_role-miss os c role_raw_compressed req w first in
          let held' : Holds (place os c role_cab_synth req) bytes v = record {
            at = held.at;
            held = ap (get (place os c role_cab_synth req)) same ∙ held.held;
          } in
          let (found', v', second, last) =
            and_then-ok (lookup_role os c role_cab_synth req v) _ rest in
          let (f, is_some, same_bytes, _) =
            lookup_role-held os c role_cab_synth req bytes v found' held' second in
          (f, ground arith, same_bytes)

  -- An entry that is there before any other is made.
  pub data Cached (w : World) (f : File) : Bytes → Type 0 where
    raw : get (place os c role_raw_compressed req) w.files ≡ some f → Cached w f role_raw_compressed
    synth :
        get (place os c role_raw_compressed req) w.files ≡ none
        → get (place os c role_cab_synth req) w.files ≡ some f
        → Cached w f role_cab_synth

  pub Cached-same :
      (f : File) (w v : World) {role : Bytes}
      → v.files ≡ w.files
      → Cached v f role
      → Cached w f role
  Cached-same f w v same (Cached.raw found) =
      Cached.raw (ap (get (place os c role_raw_compressed req)) (sym same) ∙ found)
  Cached-same f w v same (Cached.synth missed found) =
      Cached.synth (ap (get (place os c role_raw_compressed req)) (sym same) ∙ missed)
        (ap (get (place os c role_cab_synth req)) (sym same) ∙ found)

  pub lookup_compressed-Cached :
      (w : World) {f : File} {role : Bytes} {w' : World}
      → lookup_compressed os c req w ≡ (ok (some (f, role)), w')
      → Cached w f role
  unfolding lookup_compressed lookup_roles
  lookup_compressed-Cached w {f} {role} {w'} h =
      let (found, v, first, rest) = and_then-ok (lookup_role os c role_raw_compressed req w) _ h in
      go found v first rest
    where
      later :
          (found : Option File) (v v' : World)
          → get (place os c role_raw_compressed req) w.files ≡ none
          → v.files ≡ w.files
          → lookup_role os c role_cab_synth req v ≡ (ok found, v')
          → lookup_next os c role_cab_synth (lookup_roles os c [] req) found v'
            ≡ (ok (some (f, role)), w')
          → Cached w f role
      later (some g) v v' missed same second last =
          let hit = lookup_role-Hit os c role_cab_synth req v second in
          let there = ap (get (place os c role_cab_synth req)) (sym same) ∙ hit.found in
          let same_file : g ≡ f = cc in
          let same_role : role_cab_synth ≡ role = cc in
          subst (Cached w f) same_role (Cached.synth missed (there ∙ ap some same_file))
      later none v v' missed same second last = cc

      go :
          (found : Option File) (v : World)
          → lookup_role os c role_raw_compressed req w ≡ (ok found, v)
          → lookup_next os c role_raw_compressed
              (lookup_roles os c (role_cab_synth ∷ []) req)
              found
              v
            ≡ (ok (some (f, role)), w')
          → Cached w f role
      go (some g) v first rest =
          let there = (lookup_role-Hit os c role_raw_compressed req w first).found in
          let same_file : g ≡ f = cc in
          let same_role : role_raw_compressed ≡ role = cc in
          subst (Cached w f) same_role (Cached.raw (there ∙ ap some same_file))
      go none v first rest =
          let (missed, same) = lookup_role-miss os c role_raw_compressed req w first in
          let (found', v', second, last) =
            and_then-ok (lookup_role os c role_cab_synth req v) _ rest in
          later found' v v' missed same second last

  pub lookup_compressed-none :
      (w : World) {w' : World}
      → lookup_compressed os c req w ≡ (ok none, w')
      → (get (place os c role_raw_compressed req) w.files ≡ none) × (w'.files ≡ w.files)
  unfolding lookup_compressed lookup_roles
  lookup_compressed-none w {w'} h =
      let (found, v, first, rest) = and_then-ok (lookup_role os c role_raw_compressed req w) _ h in
      go found v first rest
    where
      later :
          (found : Option File) (v v' : World)
          → lookup_role os c role_cab_synth req v ≡ (ok found, v')
          → lookup_next os c role_cab_synth (lookup_roles os c [] req) found v' ≡ (ok none, w')
          → w'.files ≡ v.files
      later (some g) v v' second last = cc
      later none v v' second last =
          let (_, same) = lookup_role-miss os c role_cab_synth req v second in ground arith

      go :
          (found : Option File) (v : World)
          → lookup_role os c role_raw_compressed req w ≡ (ok found, v)
          → lookup_next os c role_raw_compressed
              (lookup_roles os c (role_cab_synth ∷ []) req)
              found
              v
            ≡ (ok none, w')
          → (get (place os c role_raw_compressed req) w.files ≡ none) × (w'.files ≡ w.files)
      go (some g) v first rest = cc
      go none v first rest =
          let (missed, same) = lookup_role-miss os c role_raw_compressed req w first in
          let (found', v', second, last) =
            and_then-ok (lookup_role os c role_cab_synth req v) _ rest in
          (missed, later found' v v' second last ∙ same)
