-- ===== src/System/Synthesis.antt =====
-- What `FetchCompressed` does is a run of the steps of the system.
use debugsymd.Base.{
  ℕ, ◌≡◌, refl, Bool, true, false, some, List, Bytes, inl, inr, length, pos, take, Bool-cases,
}
use debugsymd.Base.Result.{Result, ok, err}
use debugsymd.Dict.{get}
use debugsymd.World.{File, World, Metric, and_then, wrap, count}
use debugsymd.Resolver.{Request}
use debugsymd.Cab.Out.{Outcome, done, failed_with, out_of_fuel}
use debugsymd.Cab.Writer.{write_cab}
use debugsymd.Diskcache.Entries.{Platform, Cache, CacheError, new_temp}
use debugsymd.Objects.{
  Remote, ObjectError, role_objects, role_raw_compressed, role_cab_synth, cab_magic, fill, clean_up,
  commit_role, stage,
}
use debugsymd.Objects.Synth.{
  Host, reader, empty_out, copied, mirror, written_cab, wrap_cab, produce,
}
use debugsymd.Objects.Stored.{new_temp-failed}
use debugsymd.Objects.Download.{place}
use debugsymd.Objects.Compressed.{Wraps, mirrored, wrapped, copied-whole}
use debugsymd.System.{Phase, Step, Steps, get_elem?}
use debugsymd.System.Runs.{
  idle, busy, get_own, new_temp-there, Steps-trans, step, step_to, stage-Steps, abandon-Steps,
  write-Steps, written-busy, commit-Steps,
}

module _ (os : Platform) (c : Cache) (IsRemote : Remote → Type 0) (host : Host) (req : Request)
    (o : List (Bytes × File)) (f : File) where
  -- The last write of what wraps an object that was given out.
  enclosed-Steps :
      (i : ℕ) (role text tmp : Bytes) (w : World) {g : File}
      → get_elem? o i ≡ some (place os c role_objects req, f)
      → Wraps host req f role text
      → get tmp w.files ≡ some g
      → Steps os c IsRemote
          (busy tmp Phase.filling w o)
          (busy tmp (Phase.ready (place os c role req) text) (fill tmp text w) o)
  enclosed-Steps i role text tmp w given wraps there =
      step_to os c IsRemote (busy tmp (Phase.ready (place os c role req) text) (fill tmp text w) o)
        (written-busy os c IsRemote o tmp (place os c role req) text w there)
        (Step.enclosed tmp host req f role text i (get_own tmp Phase.filling) given wraps)

  mirror-Steps :
      (i : ℕ) (tmp : Bytes) (w : World) {g : File}
      → get_elem? o i ≡ some (place os c role_objects req, f)
      → take (length cab_magic) f.contents ≡ cab_magic
      → get tmp w.files ≡ some g
      → Steps os c IsRemote (busy tmp Phase.filling w o) (
          idle
            (clean_up tmp (
              and_then (mirror host f tmp w) (λ _. commit_role os c tmp role_raw_compressed req))).1
            o)
  unfolding mirror clean_up
  mirror-Steps i tmp w given magic there =
      let r = copied host.faults (reader host f) in
      elim (Bool-cases r.1) [
        | inl whole ↦
            rw (whole, copied-whole host.faults (reader host f) whole)
              (Steps-trans os c IsRemote
                (enclosed-Steps i role_raw_compressed f.contents tmp w given (mirrored magic) there)
                (commit-Steps os c IsRemote o tmp role_raw_compressed f.contents req
                  (fill tmp f.contents w)))
        | inr part ↦ rw part (
            Steps-trans os c IsRemote (write-Steps os c IsRemote o tmp r.0 w there)
              (abandon-Steps os c IsRemote o tmp Phase.filling (fill tmp r.0 w)))
      ]

  wrap_cab-Steps :
      (i : ℕ) (tmp : Bytes) (w : World) {g : File}
      → get_elem? o i ≡ some (place os c role_objects req, f)
      → get tmp w.files ≡ some g
      → Steps os c IsRemote (busy tmp Phase.filling w o) (
          idle
            (clean_up tmp (
              and_then
                (wrap_cab host req f tmp w)
                (λ _. commit_role os c tmp role_cab_synth req))).1
            o)
  unfolding wrap_cab written_cab clean_up
  wrap_cab-Steps i tmp w {g} given there =
      go
        (write_cab host.deflate req.filename (pos (length f.contents)) (reader host f)
          (empty_out host))
        refl
    where
      go :
          (out : Outcome (Unit {0}))
          → write_cab host.deflate req.filename
              (pos (length f.contents))
              (reader host f)
              (empty_out host)
            ≡ out
          → Steps os c IsRemote (busy tmp Phase.filling w o) (
              idle
                (clean_up tmp (
                  and_then
                    (written_cab f tmp out w)
                    (λ _. commit_role os c tmp role_cab_synth req))).1
                o)
      go (done tt s) e =
          let v = count (Metric.cab_bytes (length f.contents)) (fill tmp s.contents w) in
          Steps-trans os c IsRemote
            (enclosed-Steps i role_cab_synth s.contents tmp w given (wrapped s e) there)
            (Steps-trans os c IsRemote (step os c IsRemote (Step.elsewhere v refl))
              (commit-Steps os c IsRemote o tmp role_cab_synth s.contents req v))
      go (failed_with x s) e =
          Steps-trans os c IsRemote (write-Steps os c IsRemote o tmp s.contents w there)
            (abandon-Steps os c IsRemote o tmp Phase.filling (fill tmp s.contents w))
      go out_of_fuel e = abandon-Steps os c IsRemote o tmp Phase.filling w

  produce-Steps :
      (i : ℕ) (is_cab : Bool) (tmp : Bytes) (w : World) {g : File}
      → get_elem? o i ≡ some (place os c role_objects req, f)
      → (is_cab ≡ true → take (length cab_magic) f.contents ≡ cab_magic)
      → get tmp w.files ≡ some g
      → Steps os c IsRemote
          (busy tmp Phase.filling w o)
          (idle (clean_up tmp (produce os c host req f is_cab tmp w)).1 o)
  unfolding produce
  produce-Steps i true tmp w given magic there = mirror-Steps i tmp w given (magic refl) there
  produce-Steps i false tmp w given magic there = wrap_cab-Steps i tmp w given there

  -- The staging file, and what is done with it.
  pub staged-Steps :
      (i : ℕ) (is_cab : Bool) (w : World)
      → get_elem? o i ≡ some (place os c role_objects req, f)
      → (is_cab ≡ true → take (length cab_magic) f.contents ≡ cab_magic)
      → Steps os c IsRemote (idle w o) (
          idle
            (and_then
              (stage os c w)
              (λ tmp v. clean_up tmp (produce os c host req f is_cab tmp v))).1
            o)
  staged-Steps i is_cab w given magic = go (new_temp os c w) refl
    where
      go :
          (r : Result CacheError Bytes × World)
          → new_temp os c w ≡ r
          → Steps os c IsRemote (idle w o) (
              idle
                (and_then
                  (wrap ObjectError.staging r)
                  (λ tmp v. clean_up tmp (produce os c host req f is_cab tmp v))).1
                o)
      go (err x, v) h = step os c IsRemote (Step.elsewhere v (new_temp-failed os c w h))
      go (ok tmp, v) h =
          let (g, there) = new_temp-there os c w h in
          Steps-trans os c IsRemote (stage-Steps os c IsRemote o w h)
            (produce-Steps i is_cab tmp v given magic there)
