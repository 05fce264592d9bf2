-- ===== src/Quorum.antt =====
-- src/macp_sdk/quorum.py: `QuorumProjection`, its records, its handler and its queries.
pub mod Lawful
pub mod Steps
pub mod Ballots
pub mod Queries
pub mod Reach
pub mod Outlook
use macp_sdk_python.Dict
use macp_sdk_python.Dict.{Dict, get, has, set}
use macp_sdk_python.Envelope.{Bytes, CommitmentPayload, Envelope, StrMethods}
use macp_sdk_python.Prelude.{List, Option, String, [], concat, if◌then◌else◌, none, some, ℕ, ◌∷◌}
use macp_sdk_python.Projection.{
  Projection, ProjectionAnomaly, ProjectionClass, Ran, feed, init, record_anomaly, returned,
  set_phase, when_type, with_payload,
}

pub record ApprovalRequestPayload : Type 0 where
  pub request_id : String
  pub action : String
  pub summary : String
  pub required_approvals : ℕ

-- `ApprovePayload`, `RejectPayload` and `AbstainPayload` have the same two fields.
pub record BallotPayload : Type 0 where
  pub request_id : String
  pub reason : String

pub record QuorumParsers : Type 0 where
  pub commitment : Bytes → Option CommitmentPayload
  pub approval_request : Bytes → Option ApprovalRequestPayload
  pub approve : Bytes → Option BallotPayload
  pub reject : Bytes → Option BallotPayload
  pub abstain : Bytes → Option BallotPayload

pub record ApprovalRequestRecord : Type 0 where
  pub request_id : String
  pub action : String
  pub summary : String
  pub required_approvals : ℕ
  pub sender : String

pub record BallotRecord : Type 0 where
  pub request_id : String
  pub vote : String
  pub reason : String
  pub sender : String

pub record Quorum : Type 0 where
  pub requests : Dict.Dict ApprovalRequestRecord
  pub ballots : Dict.Dict (Dict.Dict BallotRecord)

abbrev pub request_of : Envelope → ApprovalRequestPayload → ApprovalRequestRecord
request_of e payload = record {
  request_id = payload.request_id;
  action = payload.action;
  summary = payload.summary;
  required_approvals = payload.required_approvals;
  sender = e.sender;
}

unfoldable pub on_request :
    Envelope → ApprovalRequestPayload → Projection Quorum → Projection Quorum
on_request e payload p = set_phase "Voting" (record p {
  state = record p.state {
    requests = Dict.set payload.request_id (request_of e payload) p.state.requests;
  };
})

-- `ballots.get(request_id)`, as the dict that `setdefault` finds or adds
abbrev pub sender_map : String → Quorum → Dict.Dict BallotRecord
sender_map request_id s = elim (Dict.get request_id s.ballots) [ none ↦ [] | some m ↦ m ]

abbrev pub find_ballot : String → String → Quorum → Option BallotRecord
find_ballot request_id sender s = Dict.get sender (sender_map request_id s)

-- `self.ballots.setdefault(request_id, {})`, which also stays when the ballot is discarded
abbrev pub with_sender_map : String → Quorum → Quorum
with_sender_map request_id s = record s {
  ballots = if Dict.has request_id s.ballots then s.ballots else Dict.set request_id [] s.ballots;
}

abbrev pub add_ballot : BallotRecord → Quorum → Quorum
add_ballot b s = record s {
  ballots = Dict.set b.request_id (Dict.set b.sender b (sender_map b.request_id s)) s.ballots;
}

module _ (py : StrMethods) where
  unfoldable pub duplicate_ballot : Envelope → String → String → BallotRecord → ProjectionAnomaly
  duplicate_ballot e request_id vote existing = record {
    kind = "duplicate_ballot";
    mode = "macp.mode.quorum.v1";
    message_type = e.message_type;
    message_id = e.message_id;
    sender = e.sender;
    subject_id = request_id;
    detail =
        concat ("kept first ballot " ∷ py.repr existing.vote ∷ "; discarded " ∷ py.repr vote ∷ []);
  }

  -- The rest of `_set_ballot`, by the ballot that the sender has on the request.
  unfoldable pub cast_ballot :
      Envelope
      → String
      → BallotPayload
      → Option BallotRecord
      → Projection Quorum
      → Projection Quorum
  unfolding duplicate_ballot
  cast_ballot e vote payload (some existing) p =
      record_anomaly (duplicate_ballot e payload.request_id vote existing) p
  cast_ballot e vote payload none p = record p {
    state =
        add_ballot
          (record {
            request_id = payload.request_id;
            vote = vote;
            reason = payload.reason;
            sender = e.sender;
          })
          p.state;
  }

  -- `_set_ballot`
  unfoldable pub set_ballot :
      Envelope → String → BallotPayload → Projection Quorum → Projection Quorum
  unfolding cast_ballot
  set_ballot e vote payload p =
      if Dict.has payload.request_id p.state.requests
      then cast_ballot e vote payload (find_ballot payload.request_id e.sender p.state)
          (record p { state = with_sender_map payload.request_id p.state })
      else p

module _ (py : StrMethods) (parse : QuorumParsers) where
  unfoldable pub apply_mode_message : Envelope → Projection Quorum → Ran Quorum
  apply_mode_message e p =
      when_type e "ApprovalRequest"
        (with_payload (parse.approval_request e.payload) (on_request e) p)
        (when_type e "Approve"
          (with_payload (parse.approve e.payload) (set_ballot py e "approve") p)
          (when_type e "Reject" (with_payload (parse.reject e.payload) (set_ballot py e "reject") p)
            (when_type e "Abstain"
              (with_payload (parse.abstain e.payload) (set_ballot py e "abstain") p)
              ((returned, p)))))

  abbrev pub quorum_projection : ProjectionClass Quorum
  quorum_projection = record {
    mode = "macp.mode.quorum.v1";
    initial_phase = "Pending";
    initial_state = record { requests = []; ballots = [] };
    parse_commitment = parse.commitment;
    apply_mode_message = apply_mode_message;
  }

-- The fields of the mode after a sequence of envelopes was fed to a fresh projection
abbrev pub quorum_after : StrMethods → QuorumParsers → List Envelope → Quorum
quorum_after py parse es =
    (feed (quorum_projection py parse) es (init (quorum_projection py parse))).state
