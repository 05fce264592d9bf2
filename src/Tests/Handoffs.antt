-- ===== src/Tests/Handoffs.antt =====
-- A Handoff session: an offer, its decline, and a competing accept.
use macp_sdk_python.Dict
use macp_sdk_python.Dict.{Dict, get, modify, set}
use macp_sdk_python.Envelope.{Envelope}
use macp_sdk_python.Handoff.{
  HandoffAcceptPayload, HandoffDeclinePayload, HandoffParsers, HandoffRecord, Handoffs,
  apply_mode_message, handoff_projection, handoffs_after, on_accept, on_context, on_decline,
  on_offer, settle,
}
use macp_sdk_python.Handoff.Queries.{can_offer_to, declined_targets}
use macp_sdk_python.Handoff.Settled.{HandoffsFit, feed-HandoffsFit}
use macp_sdk_python.Prelude.{List, String, [], false, none, some, ℕ, ◌∷◌}
use macp_sdk_python.Projection.{
  Projection, ProjectionClass, apply_envelope, feed, init, record_anomaly, set_phase, when_type,
  with_payload,
}
use macp_sdk_python.Tests.Samples.{commitment, envelope, python, unless_empty}

abbrev accept : HandoffAcceptPayload
accept = record { handoff_id = "h1"; accepted_by = "bob"; implicit = false }

abbrev decline : HandoffDeclinePayload
decline = record { handoff_id = "h1"; declined_by = "" }

abbrev parsers : HandoffParsers
parsers = record {
  commitment = unless_empty commitment;
  offer =
      unless_empty
        (record { handoff_id = "h1"; target_participant = "bob"; scope = "support"; reason = "" });
  context = unless_empty (record { handoff_id = "h1"; content_type = "text/plain" });
  accept = unless_empty accept;
  decline = unless_empty decline;
}

abbrev send : ℕ → String → String → String → Envelope
send ref message_type message_id sender =
    envelope ref "macp.mode.handoff.v1" message_type message_id sender (1 ∷ [])

abbrev handoff : ProjectionClass Handoffs
handoff = handoff_projection python parsers

abbrev session : List Envelope
session =
    send 1 "HandoffOffer" "m1" "alice"
    ∷ send 2 "HandoffContext" "m2" "alice"
    ∷ send 3 "HandoffDecline" "m3" "bob"
    ∷ []

abbrev declined : Projection Handoffs
declined = feed handoff session (init handoff)

abbrev late : Envelope
late = send 4 "HandoffAccept" "m4" "bob"

runs : Unit {0}
unfolding feed apply_envelope apply_mode_message when_type with_payload on_offer on_context
    on_accept on_decline settle set_phase record_anomaly Dict.get Dict.set Dict.modify can_offer_to
    declined_targets
runs = tt

abbrev handoff_record : HandoffRecord
handoff_record = record {
  handoff_id = "h1";
  target_participant = "bob";
  scope = "support";
  reason = "";
  sender = "alice";
  status = "declined";
  context_content_type = some "text/plain";
  accepted_by = none;
  declined_by = some "";
  implicit = false;
}

feed-HandoffsFit_example : HandoffsFit (handoffs_after python parsers session)
feed-HandoffsFit_example = feed-HandoffsFit python parsers session
