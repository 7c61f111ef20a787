-- ===== src/Httpapi/Server/Ready.antt =====
-- The readiness of the daemon: Probe, and the answer on the admin listener.
use debugsymd.Base.{◌≡◌, some, List, Bytes}
use debugsymd.Base.Result.{Result, ok, err}
use debugsymd.Dict.{get}
use debugsymd.World.{World}
use debugsymd.Diskcache.Entries.{Platform, Cache, CacheError, probe, staging_name}
use debugsymd.Objects.Stored.{Kept}
use debugsymd.Httpapi.Response.{Writer, IsLawful, Call, send}
use debugsymd.Httpapi.Server.{Library, AdminEndpoint, admin, ready_at}
use debugsymd.Httpapi.Server.Replies.{IsReplying}

module _ (os : Platform) (c : Cache) (w : World) where
  -- A probe that succeeds leaves no trace, and another one only its own file.
  pub data Probed (r : Result CacheError (Unit {0}) × World) : Type 0 where
    clean : r.0 ≡ ok tt → ((p : Bytes) → get p r.1.files ≡ get p w.files) → Probed r
    failed : (e : CacheError) → r.0 ≡ err e → Kept (staging_name os c w) w r.1 → Probed r

module _ {W : Type 0} (net : Writer W) (law : IsLawful net) where
  module _ {File : Type 0} (lib : Library File W) (replying : IsReplying lib) (os : Platform)
      (c : Cache) where
    abbrev readyz : World → List Call × World
    readyz w = admin lib AdminEndpoint.readyz (some (ready_at os c)) w

    -- The answer, what the probe has said and what it has left.
    pub data Answered (w : World) (wire : W) (r : List Call × World) : Type 0 where
      ready :
          net.sent (send net r.0 wire) ≡ some 200
          → probe os c w ≡ (ok tt, r.1)
          → ((p : Bytes) → get p r.1.files ≡ get p w.files)
          → Answered w wire r
      not_ready :
          (e : CacheError)
          → net.sent (send net r.0 wire) ≡ some 503
          → probe os c w ≡ (err e, r.1)
          → Kept (staging_name os c w) w r.1
          → Answered w wire r
