-- ===== src/Httpapi/Metrics.antt =====
-- httpapi/metrics.go: what is counted around a handler. `requests` are the increments of RequestsTotal by
-- status and form, the last one first; a status stands for its decimal text.
use debugsymd.Base.{ℕ, ℤ, Bool, List, ◌∷◌, Bytes, if◌then◌else◌}
use debugsymd.GoStrings.{Unicode}
use debugsymd.World.{shift}
use debugsymd.Httpapi.Form.{form}
use debugsymd.Httpapi.Response.{Writer, Call, new_status_recorder, play}

pub record Front (W : Type 0) : Type 0 where
  pub wire : W
  pub requests : List (ℕ × Bytes)
  pub in_flight : ℤ

-- What a handler calls, and whether it returns: otherwise it panics.
pub record Handling : Type 0 where
  pub calls : List Call
  pub returns : Bool

module _ {W : Type 0} (net : Writer W) where
  unfoldable pub with_metrics : Bytes → Handling → Front W → Bool × Front W
  unfolding new_status_recorder play
  with_metrics label next s =
      let rec = play net next.calls (new_status_recorder net s.wire) in
      (
        next.returns,
        if next.returns
            then record s { wire = rec.inner; requests = (rec.status, label) ∷ s.requests }
            else record s { wire = rec.inner },
      )

module _ {W : Type 0} where
  -- The second change of the gauge is deferred, so a panic does not skip it.
  unfoldable pub track_in_flight : (Front W → Bool × Front W) → Front W → Bool × Front W
  unfolding shift
  track_in_flight next s =
      let (returned, t) = next (record s { in_flight = shift s.in_flight 1 0 }) in
      (returned, record t { in_flight = shift t.in_flight 0 1 })

module _ ⦃u : Unicode⦄ where
  -- from the trailing segment
  unfoldable pub symstore_form : Bytes → Bytes
  symstore_form trailing = form trailing

abbrev pub fixed_form : {R : Type 0} → Bytes → R → Bytes
fixed_form label request = label
