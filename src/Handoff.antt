-- ===== src/Handoff.antt =====
-- src/macp_sdk/handoff.py: `HandoffProjection`, its record and its handler.
pub mod Lawful
pub mod Steps
pub mod Queries
pub mod Settled
pub mod Offers
use macp_sdk_python.Dict
use macp_sdk_python.Dict.{Dict, get, has, modify, set}
use macp_sdk_python.Envelope.{Bytes, CommitmentPayload, Envelope, StrMethods}
use macp_sdk_python.Prelude.{
  Bool, List, Option, String, [], concat, contains, false, if◌then◌else◌, none, some, ◌==◌, ◌∷◌,
}
use macp_sdk_python.Projection.{
  Projection, ProjectionAnomaly, ProjectionClass, Ran, feed, init, record_anomaly, returned,
  set_phase, when_type, with_payload,
}

pub record HandoffOfferPayload : Type 0 where
  pub handoff_id : String
  pub target_participant : String
  pub scope : String
  pub reason : String

pub record HandoffContextPayload : Type 0 where
  pub handoff_id : String
  pub content_type : String

-- A runtime before macp-proto 0.1.6 has no `implicit`, which then reads as false.
pub record HandoffAcceptPayload : Type 0 where
  pub handoff_id : String
  pub accepted_by : String
  pub implicit : Bool

pub record HandoffDeclinePayload : Type 0 where
  pub handoff_id : String
  pub declined_by : String

pub record HandoffParsers : Type 0 where
  pub commitment : Bytes → Option CommitmentPayload
  pub offer : Bytes → Option HandoffOfferPayload
  pub context : Bytes → Option HandoffContextPayload
  pub accept : Bytes → Option HandoffAcceptPayload
  pub decline : Bytes → Option HandoffDeclinePayload

pub record HandoffRecord : Type 0 where
  pub handoff_id : String
  pub target_participant : String
  pub scope : String
  pub reason : String
  pub sender : String
  pub status : String
  pub context_content_type : Option String
  pub accepted_by : Option String
  pub declined_by : Option String
  pub implicit : Bool

-- The dict `handoffs`, which is all that `HandoffProjection.__init__` adds
abbrev pub Handoffs : Type 0
Handoffs = Dict.Dict HandoffRecord

abbrev pub offer_of : Envelope → HandoffOfferPayload → HandoffRecord
offer_of e x = record {
  handoff_id = x.handoff_id;
  target_participant = x.target_participant;
  scope = x.scope;
  reason = x.reason;
  sender = e.sender;
  status = "offered";
  context_content_type = none;
  accepted_by = none;
  declined_by = none;
  implicit = false;
}

-- `handoff.status in ("offered", "context_sent")`
abbrev pub is_pending : HandoffRecord → Bool
is_pending h = contains h.status ("offered" ∷ "context_sent" ∷ [])

unfoldable pub on_offer : Envelope → HandoffOfferPayload → Projection Handoffs → Projection Handoffs
on_offer e x p =
    set_phase "OfferPending" (record p { state = Dict.set x.handoff_id (offer_of e x) p.state })

abbrev pub with_context : HandoffContextPayload → HandoffRecord → HandoffRecord
with_context x h = record h {
  status = if h.status == "offered" then "context_sent" else h.status;
  context_content_type = some x.content_type;
}

unfoldable pub on_context : HandoffContextPayload → Projection Handoffs → Projection Handoffs
on_context x p =
    let q = record p { state = Dict.modify x.handoff_id (with_context x) p.state } in
    if Dict.has x.handoff_id p.state
    then if p.phase == "OfferPending" then set_phase "ContextSharing" q else q
    else p

abbrev pub with_accept : HandoffAcceptPayload → HandoffRecord → HandoffRecord
with_accept x h = record h {
  status = "accepted";
  accepted_by = some x.accepted_by;
  implicit = x.implicit;
}

abbrev pub with_decline : HandoffDeclinePayload → HandoffRecord → HandoffRecord
with_decline x h = record h { status = "declined"; declined_by = some x.declined_by }

module _ (py : StrMethods) where
  unfoldable pub settled_handoff : Envelope → String → String → HandoffRecord → ProjectionAnomaly
  settled_handoff e name handoff_id h = record {
    kind = "settled_handoff";
    mode = "macp.mode.handoff.v1";
    message_type = e.message_type;
    message_id = e.message_id;
    sender = e.sender;
    subject_id = handoff_id;
    detail = concat (
        "handoff "
        ∷ py.repr handoff_id
        ∷ " already settled as "
        ∷ py.repr h.status
        ∷ "; discarded competing "
        ∷ name
        ∷ " from "
        ∷ py.repr e.sender
        ∷ []);
  }

  -- The common shape of the HandoffAccept and HandoffDecline branches: an unknown handoff is left
  -- alone, a pending one is settled by `settle`, and for a settled one an anomaly is recorded.
  unfoldable pub settle :
      Envelope
      → String
      → String
      → (HandoffRecord → HandoffRecord)
      → String
      → Option HandoffRecord
      → Projection Handoffs
      → Projection Handoffs
  unfolding settled_handoff
  settle e name handoff_id change phase none p = p
  settle e name handoff_id change phase (some h) p =
      if is_pending h
      then set_phase phase (record p { state = Dict.modify handoff_id change p.state })
      else record_anomaly (settled_handoff e name handoff_id h) p

  unfoldable pub on_accept :
      Envelope → HandoffAcceptPayload → Projection Handoffs → Projection Handoffs
  unfolding settle
  on_accept e x p =
      settle e "HandoffAccept" x.handoff_id (with_accept x) "Accepted"
        (Dict.get x.handoff_id p.state) p

  unfoldable pub on_decline :
      Envelope → HandoffDeclinePayload → Projection Handoffs → Projection Handoffs
  unfolding settle
  on_decline e x p =
      settle e "HandoffDecline" x.handoff_id (with_decline x) "Declined"
        (Dict.get x.handoff_id p.state) p

module _ (py : StrMethods) (parse : HandoffParsers) where
  unfoldable pub apply_mode_message : Envelope → Projection Handoffs → Ran Handoffs
  apply_mode_message e p =
      when_type e "HandoffOffer" (with_payload (parse.offer e.payload) (on_offer e) p) (
        when_type e "HandoffContext" (with_payload (parse.context e.payload) on_context p) (
          when_type e "HandoffAccept" (with_payload (parse.accept e.payload) (on_accept py e) p) (
            when_type e "HandoffDecline"
              (with_payload (parse.decline e.payload) (on_decline py e) p) (returned, p))))

  abbrev pub handoff_projection : ProjectionClass Handoffs
  handoff_projection = record {
    mode = "macp.mode.handoff.v1";
    initial_phase = "Pending";
    initial_state = [];
    parse_commitment = parse.commitment;
    apply_mode_message = apply_mode_message;
  }

-- The fields of the mode after a sequence of envelopes was fed to a fresh projection
abbrev pub handoffs_after : StrMethods → HandoffParsers → List Envelope → Handoffs
handoffs_after py parse es =
    (feed (handoff_projection py parse) es (init (handoff_projection py parse))).state
