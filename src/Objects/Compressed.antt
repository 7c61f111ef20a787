-- ===== src/Objects/Compressed.antt =====
-- What `synthesize` stores: the object itself if it is a cabinet, and else a cabinet around it.
use mathlib.Core.Path.{subst}
use debugsymd.Objects.Stored.{staging_name-same}
use debugsymd.Base.{
  ◌≡◌, ◌≢◌, refl, sym, ap, ◌∙◌, Bool, true, false, some, List, [], ◌∷◌, arith, Bytes, length, take,
  pos, inl, inr, Bool-cases,
}
use debugsymd.Base.Result.{ok}
use debugsymd.Dict.{eq_of_bytes_eq, get}
use debugsymd.World.{World, File, chance}
use debugsymd.World.Steps.{and_then-ok, wrap-ok}
use debugsymd.Resolver.{Request}
use debugsymd.Cab.Out.{Fault, fine, fails, Out, Outcome, done, failed_with, out_of_fuel, Reader}
use debugsymd.Cab.Writer.{write_cab}
use debugsymd.Diskcache.Entries.{Platform, Cache, staging_name}
use debugsymd.Objects.{ObjectError, cab_magic, role_raw_compressed, role_cab_synth, fill, stage}
use debugsymd.Objects.Synth.{
  Host, reader, empty_out, starts_with_cab_magic, copied, mirror, written_cab, wrap_cab, produce,
  synthesize_from,
}
use debugsymd.Objects.Stored.{Stored, Stored-after, new_temp-Kept, clean_up-ok}
use debugsymd.Objects.Download.{place, place-staging_name, commit-Stored, IsRole}

-- The bytes that stand for an object, and the role that they are kept under.
pub data Wraps (host : Host) (req : Request) (f : File) : Bytes → Bytes → Type 0 where
  mirrored :
      (magic : take (length cab_magic) f.contents ≡ cab_magic)
      → Wraps host req f role_raw_compressed f.contents
  wrapped :
      (s : Out)
      (written : write_cab host.deflate req.filename
          (pos (length f.contents))
          (reader host f)
          (empty_out host)
        ≡ done tt s)
      → Wraps host req f role_cab_synth s.contents

pub copied-whole :
    (faults : List Fault) (r : Reader) → (copied faults r).1 ≡ true → (copied faults r).0 ≡ r.left
unfolding copied
copied-whole [] r h = refl
copied-whole (fine ∷ fs) r h = refl
copied-whole (fails n ∷ fs) r h = cc

mirror-ok :
    (host : Host) (f : File) (tmp : Bytes) (w : World) {v : World}
    → mirror host f tmp w ≡ (ok tt, v)
    → v.files ≡ (fill tmp f.contents w).files
unfolding mirror
mirror-ok host f tmp w {v} h =
    let r = copied host.faults (reader host f) in
    elim (Bool-cases r.1) [
      | inl whole ↦
          let same : r.0 ≡ f.contents = copied-whole host.faults (reader host f) whole in
          let after : v ≡ fill tmp r.0 w = ground arith in
          ap (λ (x : World). x.files) after ∙ ap (λ b. (fill tmp b w).files) same
      | inr part ↦ absurd (ground arith)
    ]

written_cab-ok :
    (f : File) (tmp : Bytes) (o : Outcome (Unit {0})) (w : World) {v : World}
    → written_cab f tmp o w ≡ (ok tt, v)
    → (s : Out) × (o ≡ done tt s) × (v.files ≡ (fill tmp s.contents w).files)
unfolding written_cab
written_cab-ok f tmp (done tt s) w h = (s, refl, ground arith)
written_cab-ok f tmp (failed_with e s) w h = cc
written_cab-ok f tmp out_of_fuel w h = cc

-- the test of the signature
pub starts_with_cab_magic-true :
    (r : Reader) (w : World) {v : World}
    → starts_with_cab_magic r w ≡ (ok true, v)
    → (take (length cab_magic) r.left ≡ cab_magic)
unfolding starts_with_cab_magic
starts_with_cab_magic-true r w h =
    ground (arith, eq_of_bytes_eq (take (length cab_magic) r.left) cab_magic)

pub starts_with_cab_magic-same :
    (r : Reader) (w : World) {b : Bool} {v : World} → starts_with_cab_magic r w ≡ (ok b, v) → v ≡ w
unfolding starts_with_cab_magic
starts_with_cab_magic-same r w h = ground arith

module _ (os : Platform) (c : Cache) (host : Host) (req : Request) where
  -- A commit that put the wrapped object into its entry.
  pub record Enveloped (f : File) (w w' : World) : Type 0 where
    pub role : Bytes
    pub bytes : Bytes
    pub wraps : Wraps host req f role bytes
    pub entry : Stored (staging_name os c w) (place os c role req) bytes w w'

  produce-ok :
      (f : File) (is_cab : Bool) (tmp : Bytes) (w : World) {w' : World}
      → ((role : Bytes) → IsRole role → tmp ≢ place os c role req)
      → (is_cab ≡ true → take (length cab_magic) f.contents ≡ cab_magic)
      → produce os c host req f is_cab tmp w ≡ (ok tt, w')
      → (role : Bytes) × (bytes : Bytes) × Wraps host req f role bytes
        × Stored tmp (place os c role req) bytes w w'
  unfolding produce wrap_cab
  produce-ok f true tmp w apart magic h =
      let (_, v, first, rest) = and_then-ok (mirror host f tmp w) _ h in
      (
        role_raw_compressed,
        f.contents,
        Wraps.mirrored (magic refl),
        commit-Stored os c tmp role_raw_compressed req f.contents w v
            (apart role_raw_compressed IsRole.raw_compressed) (mirror-ok host f tmp w first)
            (wrap-ok ObjectError.committing _ rest),
      )
  produce-ok f false tmp w apart magic h =
      let (_, v, first, rest) = and_then-ok (wrap_cab host req f tmp w) _ h in
      let (s, written, filled) =
        written_cab-ok f tmp
          (write_cab host.deflate req.filename (pos (length f.contents)) (reader host f)
            (empty_out host))
          w first in
      (
        role_cab_synth,
        s.contents,
        Wraps.wrapped s written,
        commit-Stored os c tmp role_cab_synth req s.contents w v
            (apart role_cab_synth IsRole.cab_synth) filled (wrap-ok ObjectError.committing _ rest),
      )

  pub synthesize_from-Enveloped :
      (f : File) (w : World) {w' : World}
      → synthesize_from os c host req (some f) w ≡ (ok tt, w')
      → Enveloped f w w'
  unfolding synthesize_from
  synthesize_from-Enveloped f w {w'} h =
      let (is_cab, u, first, rest) = and_then-ok (starts_with_cab_magic (reader host f) w) _ h in
      let (_, u', second, rest') = and_then-ok (chance ObjectError.rewinding u) _ rest in
      let (tmp, v, third, last) = and_then-ok (stage os c u') _ rest' in
      let (name, kept) = new_temp-Kept os c u' (wrap-ok ObjectError.staging _ third) in
      let same : u.files ≡ w.files =
        ap (λ (x : World). x.files) (starts_with_cab_magic-same (reader host f) w first) in
      let same' : u'.files ≡ u.files = ground arith in
      let unchanged = same' ∙ same in
      let (role, bytes, wraps, stored) =
        produce-ok f is_cab tmp v (λ r i e. place-staging_name os c u' r req i (sym e ∙ name))
          (λ e. starts_with_cab_magic-true (reader host f) w (first ∙ ap (λ b. (ok b, u)) e))
          (clean_up-ok tmp _ last) in
      record {
        role = role;
        bytes = bytes;
        wraps = wraps;
        entry =
            subst (λ t. Stored t (place os c role req) bytes w w')
              (name ∙ staging_name-same os c u' w unchanged)
              (Stored-after tmp (place os c role req) bytes w v w'
                (λ p apart. kept p apart ∙ ap (get p) unchanged) stored);
      }
