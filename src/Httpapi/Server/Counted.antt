-- ===== src/Httpapi/Server/Counted.antt =====
-- The public listener's metrics agree with what its clients are sent.
use debugsymd.Base.{ℕ, ◌≡◌, ◌≤◌, ap, Bool, true, false, none, some, List, ◌∷◌, Bytes}
use debugsymd.GoStrings.{Unicode}
use debugsymd.Httpapi.Handler.{Objects, Answer}
use debugsymd.Httpapi.Response.{Writer, IsLawful, Call, play, new_status_recorder}
use debugsymd.Httpapi.Metrics.{Front, with_metrics}
use debugsymd.Httpapi.Mux.{Endpoint, Segment, ServeMux, In, is_clean, matches, public_patterns}
use debugsymd.Httpapi.Server.{Library}
use debugsymd.Httpapi.Server.Replies.{IsReplying, Agrees}
use debugsymd.Httpapi.Server.Routes.{Routed}

-- The status of an answer; that of a file is net/http's.
abbrev pub HasStatus : {File : Type 0} → Answer File → ℕ → Type 0
HasStatus Answer.bad_request code = code ≡ 400
HasStatus Answer.not_found code = code ≡ 404
HasStatus (Answer.unavailable retry_after) code = code ≡ 503
HasStatus (Answer.served content_type name file) code = 200 ≤ code
HasStatus (Answer.written content_type text) code = code ≡ 200
HasStatus Answer.panicked code = ⊥

module _ {File W : Type 0} (net : Writer W) (law : IsLawful net) (lib : Library File W)
    (replying : IsReplying lib) where
  -- What is counted for a request and sent for it.
  pub record Counted (a : Answer File) (form : Bytes) (s t : Front W) : Type 0 where
    pub code : ℕ
    pub is_status : HasStatus a code
    pub sent : net.sent t.wire ≡ some code
    pub counted : t.requests ≡ (code, form) ∷ s.requests

  -- A handler that returns is counted, and one that panics is not.
  pub data Ended (a : Answer File) (form : Bytes) (s : Front W) : Bool × Front W → Type 0 where
    returned : (t : Front W) → Counted a form s t → Ended a form s (true, t)
    broke_off :
        (t : Front W) → a ≡ Answer.panicked → t.requests ≡ s.requests → Ended a form s (false, t)

  counted :
      (a : Answer File) (form : Bytes) (s : Front W) (code : ℕ) (calls : List Call)
      → HasStatus a code
      → Agrees net law code (play net calls (new_status_recorder net s.wire))
      → Ended a form s (with_metrics net form (record { calls = calls; returns = true }) s)
  unfolding with_metrics
  counted a form s code calls status agrees = Ended.returned _ (record {
    code = code;
    is_status = status;
    sent = agrees.sent;
    counted = ap (λ n. (n, form) ∷ s.requests) agrees.recorded;
  })

  module _ ⦃u : Unicode⦄ (objects : Objects File) (mux : ServeMux) where
    -- What becomes of a request: whether its handler returns, and the state behind it.
    pub data Handled (debuginfod : Bool) (path : List Bytes) (s : Front W)
        : Bool × Front W → Type 0 where
      routed :
          (a : Answer File) (name : Bytes) (r : Bool × Front W)
          → Routed lib objects debuginfod path a name
          → Ended a name s r
          → Handled debuginfod path s r
      unrouted :
          (t : Front W)
          → (is_clean path ≡ true
              → (segments : List Segment) (e : Endpoint)
              → In (segments, e) (public_patterns debuginfod)
              → matches segments path ≡ none)
          → t.requests ≡ s.requests
          → Handled debuginfod path s (true, t)
