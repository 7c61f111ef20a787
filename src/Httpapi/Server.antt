-- ===== src/Httpapi/Server.antt =====
-- httpapi/server.go: the handlers of the two listeners. The multiplexer and what net/http and Prometheus
-- call on a writer are parameters; the deadlines are not modelled.
pub mod Replies
pub mod Routes
pub mod Counted
pub mod Ready
use debugsymd.Base.{
  ℕ, ◌≡◌, ◌≤◌, Bool, true, false, Option, none, some, List, [], ◌∷◌, ◌++◌, Bytes, codes,
  if◌then◌else◌,
}
use debugsymd.Base.Result.{Result, ok, err}
use debugsymd.Dict.{get}
use debugsymd.GoStrings.{Unicode}
use debugsymd.World.{World}
use debugsymd.Diskcache.Entries.{Platform, Cache, probe}
use debugsymd.Httpapi.Handler.{Objects, Answer, symstore_route}
use debugsymd.Httpapi.Debuginfod.{debuginfod_debug, debuginfod_executable, debuginfod_source}
use debugsymd.Httpapi.Response.{Writer, Call, send}
use debugsymd.Httpapi.Metrics.{
  Front, Handling, with_metrics, track_in_flight, symstore_form, fixed_form,
}
use debugsymd.Httpapi.Mux.{Endpoint, Values, ServeMux, public_patterns}

-- `http.Error`, `http.NotFound`, `http.ServeContent`, the handler of the metrics, and what the multiplexer
-- does with a request that no pattern matches.
pub record Library (File W : Type 0) : Type 0 where
  pub error : (message : Bytes) → (code : ℕ) → List Call
  pub not_found : List Call
  pub serve_content : (name : Bytes) → File → List Call
  pub exposition : List Call
  pub unrouted : W → W

abbrev pub path_value : Bytes → Values → Bytes
path_value name values = elim (get name values) [ none ↦ [] | some text ↦ text ]

pub data AdminEndpoint : Type 0 where
  healthz readyz metrics : AdminEndpoint

-- What ends the wait of `Run`: the context, or the error of a listener.
pub data Stop : Type 0 where
  cancelled server_closed failed : Stop

-- The error of `Run`; the two servers are shut down in any case.
unfoldable pub run_server : Stop → Option Stop
run_server Stop.cancelled = none
run_server Stop.server_closed = none
run_server Stop.failed = some Stop.failed

module _ {File W : Type 0} (lib : Library File W) where
  -- The calls that an answer of a route stands for.
  unfoldable pub reply : Answer File → List Call
  reply Answer.bad_request = lib.error (codes "leading and trailing filenames differ") 400
  reply Answer.not_found = lib.not_found
  reply (Answer.unavailable retry_after) = lib.error (codes "symbol backend unavailable") 503
  reply (Answer.served content_type name file) = lib.serve_content name file
  reply (Answer.written content_type text) = Call.writing text ∷ []
  reply Answer.panicked = []

  -- A route that panics does not return.
  unfoldable pub handling : Answer File → Handling
  unfolding reply
  handling Answer.panicked = record { calls = []; returns = false }
  handling a = record { calls = reply a; returns = true }

  -- /readyz, behind the call of `ready`
  abbrev pub answer_ready : Bool × World → List Call × World
  answer_ready (true, w) = (Call.writing (codes "ready\n") ∷ [], w)
  answer_ready (false, w) = (lib.error (codes "not ready") 503, w)

  unfoldable pub admin : AdminEndpoint → Option (World → Bool × World) → World → List Call × World
  admin AdminEndpoint.healthz ready w = (Call.writing (codes "ok\n") ∷ [], w)
  admin AdminEndpoint.metrics ready w = (lib.exposition, w)
  admin AdminEndpoint.readyz none w = (Call.writing (codes "ready\n") ∷ [], w)
  admin AdminEndpoint.readyz (some ready) w = answer_ready (ready w)

  module _ ⦃u : Unicode⦄ (objects : Objects File) where
    unfoldable pub answer : Endpoint → Values → Answer File
    answer Endpoint.symstore values =
        symstore_route objects (path_value (codes "leading") values)
          (path_value (codes "signature") values) (path_value (codes "trailing") values)
    answer Endpoint.debuginfo values =
        debuginfod_debug objects (path_value (codes "buildid") values)
    answer Endpoint.executable values =
        debuginfod_executable objects (path_value (codes "buildid") values)
    answer Endpoint.source values =
        debuginfod_source objects (path_value (codes "buildid") values)
          (path_value (codes "srcpath") values)

    unfoldable pub label : Endpoint → Values → Bytes
    label Endpoint.symstore values = symstore_form (path_value (codes "trailing") values)
    label Endpoint.debuginfo values = fixed_form (codes "debuginfo") values
    label Endpoint.executable values = fixed_form (codes "executable") values
    label Endpoint.source values = fixed_form (codes "source") values

    module _ (net : Writer W) where
      -- behind the choice of a pattern
      unfoldable pub serve_routed : Option (Endpoint × Values) → Front W → Bool × Front W
      unfolding with_metrics handling
      serve_routed none s = (true, record s { wire = lib.unrouted s.wire })
      serve_routed (some (e, values)) s =
          with_metrics net (label e values) (handling (answer e values)) s

      module _ (mux : ServeMux) where
        -- the handler of the public server
        unfoldable pub public_handler : Bool → List Bytes → Front W → Bool × Front W
        unfolding track_in_flight serve_routed
        public_handler debuginfod path =
            track_in_flight (serve_routed (mux (public_patterns debuginfod) path))

abbrev pub is_nil : {E A : Type 0} → Result E A × World → Bool × World
is_nil (ok a, w) = (true, w)
is_nil (err e, w) = (false, w)

-- main.go: `cache.Probe() == nil`
unfoldable pub ready_at : Platform → Cache → World → Bool × World
ready_at os c w = is_nil (probe os c w)
