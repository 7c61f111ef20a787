-- ===== src/System/Runs.antt =====
-- What a call of the service does is a run of such steps.
use mathlib.Core.Path.{subst}
use debugsymd.Base.{ℕ, ◌≡◌, refl, ap, ◌∙◌, some, List, [], ◌∷◌, arith, Bytes}
use debugsymd.Base.Result.{Result, ok, err}
use debugsymd.Dict.{get, put, delete, bytes_eq_refl}
use debugsymd.World.{File, World, Metric, Resolved, discard, and_then, wrap, count}
use debugsymd.Resolver.{Request, Location}
use debugsymd.Diskcache.Entries.{Platform, Cache, CacheError, commit, commit_at, new_temp}
use debugsymd.Diskcache.Entries.Commit.{commit_at-err}
use debugsymd.Objects.{
  Remote, RemoteError, absent, broken, ObjectError, role_objects, fill, receive, clean_up,
  commit_role, download, download_resolved,
}
use debugsymd.Objects.Stored.{get-put_same, new_temp-failed}
use debugsymd.Objects.Download.{place}
use debugsymd.System.{System, Phase, Step, Steps, write_open}

-- Nobody has a staging file open, or one job has.
abbrev pub idle : World → List (Bytes × File) → System
idle w opened = record { world = w; jobs = []; opened = opened }

abbrev pub busy : Bytes → Phase → World → List (Bytes × File) → System
busy tmp phase w opened = record { world = w; jobs = (tmp, phase) ∷ []; opened = opened }

pub get_own : (tmp : Bytes) (phase : Phase) → get tmp ((tmp, phase) ∷ []) ≡ some phase
unfolding get
get_own tmp phase = rw (bytes_eq_refl tmp) refl

pub put_own :
    (tmp : Bytes) (old phase : Phase) → put tmp phase ((tmp, old) ∷ []) ≡ (tmp, phase) ∷ []
unfolding put
put_own tmp old phase = rw (bytes_eq_refl tmp) refl

delete_own : (tmp : Bytes) (phase : Phase) → delete tmp ((tmp, phase) ∷ []) ≡ []
unfolding delete
delete_own tmp phase = rw (bytes_eq_refl tmp) refl

pub write_open-fill :
    (tmp text : Bytes) (w : World) {f : File}
    → get tmp w.files ≡ some f
    → write_open tmp text w ≡ fill tmp text w
unfolding write_open
write_open-fill tmp text w there = rw (there, write_open) refl

pub new_temp-there :
    (os : Platform) (c : Cache) (w : World) {tmp : Bytes} {v : World}
    → new_temp os c w ≡ (ok tmp, v)
    → (f : File) × (get tmp v.files ≡ some f)
unfolding new_temp
new_temp-there os c w {tmp} {v} h =
    let f : File = record { contents = []; modified = w.now } in
    let law = get-put_same tmp f w.files in (f, ground arith)

module _ (os : Platform) (c : Cache) (IsRemote : Remote → Type 0) where
  pub Steps-trans :
      {s t u : System} → Steps os c IsRemote s t → Steps os c IsRemote t u → Steps os c IsRemote s u
  Steps-trans r Steps.here = r
  Steps-trans r (Steps.later q st) = Steps.later (Steps-trans r q) st

  pub step : {s t : System} → Step os c IsRemote s t → Steps os c IsRemote s t
  step st = Steps.later Steps.here st

  pub step_to :
      {s t : System} (u : System) → t ≡ u → Step os c IsRemote s t → Steps os c IsRemote s u
  step_to {s} u e st = subst (Steps os c IsRemote s) e (step st)

  module _ (opened : List (Bytes × File)) where
    pub stage-Steps :
        (w : World) {tmp : Bytes} {v : World}
        → new_temp os c w ≡ (ok tmp, v)
        → Steps os c IsRemote (idle w opened) (busy tmp Phase.filling v opened)
    unfolding get put
    stage-Steps w {tmp} {v} h = step (Step.stage tmp v h refl)

    pub abandon-Steps :
        (tmp : Bytes) (phase : Phase) (w : World)
        → Steps os c IsRemote (busy tmp phase w opened) (idle (discard tmp w) opened)
    abandon-Steps tmp phase w =
        step_to (idle (discard tmp w) opened)
          (ap (λ j. record { world = discard tmp w; jobs = j; opened = opened })
            (delete_own tmp phase))
          (Step.abandon tmp)

    pub write-Steps :
        (tmp text : Bytes) (w : World) {f : File}
        → get tmp w.files ≡ some f
        → Steps os c IsRemote
            (busy tmp Phase.filling w opened)
            (busy tmp Phase.filling (fill tmp text w) opened)
    write-Steps tmp text w there =
        step_to (busy tmp Phase.filling (fill tmp text w) opened)
          (ap (λ v. busy tmp Phase.filling v opened) (write_open-fill tmp text w there))
          (Step.write tmp text (get_own tmp Phase.filling))

    -- The last write: the phase changes with it.
    pub written-busy :
        (tmp final text : Bytes) (w : World) {f : File}
        → get tmp w.files ≡ some f
        → record {
          world = write_open tmp text w;
          jobs = put tmp (Phase.ready final text) ((tmp, Phase.filling) ∷ []);
          opened = opened;
        }
          ≡ busy tmp (Phase.ready final text) (fill tmp text w) opened
    written-busy tmp final text w there =
        ap
          (λ v. record {
            world = v;
            jobs = put tmp (Phase.ready final text) ((tmp, Phase.filling) ∷ []);
            opened = opened;
          })
          (write_open-fill tmp text w there)
        ∙ ap (λ j. record { world = fill tmp text w; jobs = j; opened = opened })
            (put_own tmp Phase.filling (Phase.ready final text))

    -- The commit, and the removal of the staging file if it fails.
    pub commit-Steps :
        (tmp role text : Bytes) (req : Request) (w : World)
        → Steps os c IsRemote
            (busy tmp (Phase.ready (place os c role req) text) w opened)
            (idle (clean_up tmp (commit_role os c tmp role req w)).1 opened)
    unfolding clean_up commit
    commit-Steps tmp role text req w = go (commit_at tmp (place os c role req) w) refl
      where
        go :
            (r : Result CacheError (Unit {0}) × World)
            → commit_at tmp (place os c role req) w ≡ r
            → Steps os c IsRemote
                (busy tmp (Phase.ready (place os c role req) text) w opened)
                (idle (clean_up tmp (wrap ObjectError.committing r)).1 opened)
        go (ok tt, v) h =
            step_to (idle v opened)
              (ap (λ j. record { world = v; jobs = j; opened = opened })
                (delete_own tmp (Phase.ready (place os c role req) text)))
              (Step.commit tmp (place os c role req) text v
                (get_own tmp (Phase.ready (place os c role req) text)) h)
        go (err e, v) h =
            Steps-trans
              (step (Step.elsewhere v (commit_at-err tmp (place os c role req) w h).files))
              (abandon-Steps tmp (Phase.ready (place os c role req) text) v)

    module _ (remote : Remote) (is : IsRemote remote) where
      receive-Steps :
          (req : Request) (loc : Location) (tmp : Bytes) (got : Bytes × Result RemoteError ℕ)
          (w : World) {f : File}
          → get tmp w.files ≡ some f
          → remote.resolve req ≡ ok loc
          → remote.fetch loc.bucket loc.key ≡ got
          → Steps os c IsRemote
              (busy tmp Phase.filling w opened)
              (idle (clean_up tmp (receive os c req tmp got w)).1 opened)
      unfolding receive clean_up
      receive-Steps req loc tmp (text, err absent) w there resolved wrote =
          Steps-trans (write-Steps tmp text w there)
            (abandon-Steps tmp Phase.filling (fill tmp text w))
      receive-Steps req loc tmp (text, err broken) w there resolved wrote =
          let v = count Metric.storage_error (fill tmp text w) in
          Steps-trans (write-Steps tmp text w there)
            (Steps-trans (step (Step.elsewhere v refl)) (abandon-Steps tmp Phase.filling v))
      receive-Steps req loc tmp (text, ok n) w there resolved wrote =
          let p = place os c role_objects req in
          let v = count (Metric.storage_bytes n) (fill tmp text w) in
          Steps-trans
            (step_to (busy tmp (Phase.ready p text) (fill tmp text w) opened)
              (written-busy tmp p text w there)
              (Step.fetched tmp remote req loc text n (get_own tmp Phase.filling) is resolved
                wrote))
            (Steps-trans (step (Step.elsewhere v refl)) (commit-Steps tmp role_objects text req v))

      staged-Steps :
          (req : Request) (loc : Location) (w : World) (r : Result CacheError Bytes × World)
          → new_temp os c w ≡ r
          → remote.resolve req ≡ ok loc
          → Steps os c IsRemote (idle w opened) (
              idle
                (and_then (wrap ObjectError.staging r) (λ tmp v.
                  clean_up tmp (receive os c req tmp (remote.fetch loc.bucket loc.key) v))).1
                opened)
      staged-Steps req loc w (err e, v) h resolved =
          step (Step.elsewhere v (new_temp-failed os c w h))
      staged-Steps req loc w (ok tmp, v) h resolved =
          let (f, there) = new_temp-there os c w h in
          Steps-trans (stage-Steps w h)
            (receive-Steps req loc tmp (remote.fetch loc.bucket loc.key) v there resolved refl)

      pub download-Steps :
          (req : Request) (w : World)
          → Steps os c IsRemote (idle w opened) (idle (download os c remote req w).1 opened)
      unfolding download
      download-Steps req w = go (remote.resolve req) refl
        where
          go :
              (r : Result RemoteError Location)
              → remote.resolve req ≡ r
              → Steps os c IsRemote
                  (idle w opened)
                  (idle (download_resolved os c remote req r w).1 opened)
          go (ok loc) e =
              let v = count (Metric.resolver_request Resolved.found) w in
              Steps-trans (step (Step.elsewhere v refl))
                (staged-Steps req loc v (new_temp os c v) refl e)
          go (err absent) e = step (Step.elsewhere _ refl)
          go (err broken) e = step (Step.elsewhere _ refl)
