-- ===== src/Proposal.antt =====
-- src/macp_sdk/proposal.py: `ProposalProjection`, its records and its handler.
pub mod Lawful
pub mod Steps
pub mod Queries
pub mod Accepts
pub mod Status
use macp_sdk_python.Dict
use macp_sdk_python.Dict.{Dict, has, modify, set}
use macp_sdk_python.Envelope.{Bytes, CommitmentPayload, Envelope}
use macp_sdk_python.Prelude.{Bool, List, Option, String, [], if◌then◌else◌, ◌&&◌, ◌++◌, ◌∷◌}
use macp_sdk_python.Projection.{
  Projection, ProjectionClass, Ran, feed, init, returned, set_phase, when_type, with_payload,
}

pub record ProposalPayload : Type 0 where
  pub proposal_id : String
  pub title : String
  pub summary : String
  pub tags : List String

pub record CounterProposalPayload : Type 0 where
  pub proposal_id : String
  pub supersedes_proposal_id : String
  pub title : String
  pub summary : String

pub record AcceptPayload : Type 0 where
  pub proposal_id : String
  pub reason : String

pub record RejectPayload : Type 0 where
  pub proposal_id : String
  pub terminal : Bool
  pub reason : String

pub record WithdrawPayload : Type 0 where
  pub proposal_id : String

pub record ProposalParsers : Type 0 where
  pub commitment : Bytes → Option CommitmentPayload
  pub proposal : Bytes → Option ProposalPayload
  pub counter_proposal : Bytes → Option CounterProposalPayload
  pub accept : Bytes → Option AcceptPayload
  pub reject : Bytes → Option RejectPayload
  pub withdraw : Bytes → Option WithdrawPayload

pub record ProposalRecord : Type 0 where
  pub proposal_id : String
  pub title : String
  pub summary : String
  pub sender : String
  pub supersedes : String
  pub status : String
  pub tags : List String

pub record ProposalRejectRecord : Type 0 where
  pub proposal_id : String
  pub reason : String
  pub sender : String
  pub terminal : Bool

pub record ProposalAcceptRecord : Type 0 where
  pub proposal_id : String
  pub reason : String
  pub sender : String

-- The fields that `ProposalProjection.__init__` adds
pub record Negotiation : Type 0 where
  pub proposals : Dict.Dict ProposalRecord
  pub accepts : List ProposalAcceptRecord
  pub rejections : List ProposalRejectRecord
  pub latest_accept_by_sender : Dict.Dict String

abbrev pub proposal_of : Envelope → ProposalPayload → ProposalRecord
proposal_of e x = record {
  proposal_id = x.proposal_id;
  title = x.title;
  summary = x.summary;
  sender = e.sender;
  supersedes = "";
  status = "open";
  tags = x.tags;
}

abbrev pub counter_of : Envelope → CounterProposalPayload → ProposalRecord
counter_of e x = record {
  proposal_id = x.proposal_id;
  title = x.title;
  summary = x.summary;
  sender = e.sender;
  supersedes = x.supersedes_proposal_id;
  status = "open";
  tags = [];
}

abbrev pub put_proposal : ProposalRecord → Negotiation → Negotiation
put_proposal r s = record s { proposals = Dict.set r.proposal_id r s.proposals }

unfoldable pub on_proposal :
    Envelope → ProposalPayload → Projection Negotiation → Projection Negotiation
on_proposal e x p = record p { state = put_proposal (proposal_of e x) p.state }

unfoldable pub on_counter :
    Envelope → CounterProposalPayload → Projection Negotiation → Projection Negotiation
on_counter e x p = record p { state = put_proposal (counter_of e x) p.state }

abbrev pub add_accept : ProposalAcceptRecord → Negotiation → Negotiation
add_accept a s = record s {
  accepts = s.accepts ++ a ∷ [];
  latest_accept_by_sender = Dict.set a.sender a.proposal_id s.latest_accept_by_sender;
}

unfoldable pub on_accept :
    Envelope → AcceptPayload → Projection Negotiation → Projection Negotiation
on_accept e x p = record p {
  state =
      add_accept (record { proposal_id = x.proposal_id; reason = x.reason; sender = e.sender })
        p.state;
}

abbrev pub with_status : String → ProposalRecord → ProposalRecord
with_status status r = record r { status = status }

abbrev pub add_rejection : Envelope → RejectPayload → Negotiation → Negotiation
add_rejection e x s = record s {
  rejections =
      s.rejections
      ++ record {
        proposal_id = x.proposal_id;
        reason = x.reason;
        sender = e.sender;
        terminal = x.terminal;
      }
        ∷ [];
}

abbrev pub mark : String → String → Negotiation → Negotiation
mark pid status s = record s { proposals = Dict.modify pid (with_status status) s.proposals }

unfoldable pub on_reject :
    Envelope → RejectPayload → Projection Negotiation → Projection Negotiation
on_reject e x p =
    let q = record p { state = add_rejection e x p.state } in
    if x.terminal && Dict.has x.proposal_id p.state.proposals
    then set_phase "TerminalRejected" (record q { state = mark x.proposal_id "rejected" q.state })
    else q

unfoldable pub on_withdraw : WithdrawPayload → Projection Negotiation → Projection Negotiation
on_withdraw x p = record p { state = mark x.proposal_id "withdrawn" p.state }

module _ (parse : ProposalParsers) where
  unfoldable pub apply_mode_message : Envelope → Projection Negotiation → Ran Negotiation
  apply_mode_message e p =
      when_type e "Proposal" (with_payload (parse.proposal e.payload) (on_proposal e) p) (
        when_type e "CounterProposal"
          (with_payload (parse.counter_proposal e.payload) (on_counter e) p)
          (when_type e "Accept" (with_payload (parse.accept e.payload) (on_accept e) p) (
            when_type e "Reject" (with_payload (parse.reject e.payload) (on_reject e) p) (
              when_type e "Withdraw" (with_payload (parse.withdraw e.payload) on_withdraw p)
                (returned, p)))))

  abbrev pub proposal_projection : ProjectionClass Negotiation
  proposal_projection = record {
    mode = "macp.mode.proposal.v1";
    initial_phase = "Negotiating";
    initial_state = record {
      proposals = [];
      accepts = [];
      rejections = [];
      latest_accept_by_sender = [];
    };
    parse_commitment = parse.commitment;
    apply_mode_message = apply_mode_message;
  }

-- The fields of the mode after a sequence of envelopes was fed to a fresh projection
abbrev pub negotiation_after : ProposalParsers → List Envelope → Negotiation
negotiation_after parse es =
    (feed (proposal_projection parse) es (init (proposal_projection parse))).state
