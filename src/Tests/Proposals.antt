-- ===== src/Tests/Proposals.antt =====
-- A Proposal session: a proposal, a counter-proposal, accepts of both, and a terminal reject.
use macp_sdk_python.Dict
use macp_sdk_python.Dict.{Dict, get, modify, set}
use macp_sdk_python.Envelope.{Bytes, Envelope}
use macp_sdk_python.Prelude.{
  List, Option, String, [], eqb, if◌then◌else◌, none, refl, some, true, ℕ, ◌↔◌, ◌∷◌, ◌≡◌,
}
use macp_sdk_python.Projection.{apply_envelope, feed, set_phase, when_type, with_payload}
use macp_sdk_python.Proposal.{
  AcceptPayload, ProposalParsers, apply_mode_message, negotiation_after, on_accept, on_counter,
  on_proposal, on_reject,
}
use macp_sdk_python.Proposal.Accepts.{
  AcceptsFit, IsAgreement, feed-AcceptsFit, feed-accepted_proposal,
}
use macp_sdk_python.Proposal.Queries.{accepted_proposal}
use macp_sdk_python.Tests.Samples.{commitment, envelope, unless_empty}

-- An Accept names "p1" or "p2" by its first byte.
abbrev accept_of : Bytes → Option AcceptPayload
accept_of [] = none
accept_of (b ∷ bytes) = some (record { proposal_id = if eqb b 1 then "p1" else "p2"; reason = "" })

abbrev parsers : ProposalParsers
parsers = record {
  commitment = unless_empty commitment;
  proposal = unless_empty (record { proposal_id = "p1"; title = "plan"; summary = ""; tags = [] });
  counter_proposal =
      unless_empty (record {
        proposal_id = "p2";
        supersedes_proposal_id = "p1";
        title = "other";
        summary = "";
      });
  accept = accept_of;
  reject = unless_empty (record { proposal_id = "p1"; terminal = true; reason = "" });
  withdraw = unless_empty (record { proposal_id = "p1" });
}

abbrev send : ℕ → String → String → String → ℕ → Envelope
send ref message_type message_id sender byte =
    envelope ref "macp.mode.proposal.v1" message_type message_id sender (byte ∷ [])

abbrev session : List Envelope
session =
    send 1 "Proposal" "m1" "alice" 1
    ∷ send 2 "CounterProposal" "m2" "bob" 1
    ∷ send 3 "Accept" "m3" "bob" 1
    ∷ send 4 "Accept" "m4" "alice" 2
    ∷ send 5 "Accept" "m5" "bob" 2
    ∷ send 6 "Reject" "m6" "carol" 1
    ∷ []

runs : Unit {0}
unfolding feed apply_envelope apply_mode_message when_type with_payload on_proposal on_counter
    on_accept on_reject set_phase Dict.get Dict.set Dict.modify accepted_proposal
runs = tt

session_accepted : accepted_proposal (negotiation_after parsers session) ≡ some "p2"
unfolding runs
session_accepted = refl

abbrev reject_again : Envelope
reject_again = send 7 "Reject" "m7" "dave" 1

feed-AcceptsFit_example : AcceptsFit (negotiation_after parsers session)
feed-AcceptsFit_example = feed-AcceptsFit parsers session

feed-accepted_proposal_example :
    (accepted_proposal (negotiation_after parsers session) ≡ some "p2")
    ↔ IsAgreement (negotiation_after parsers session).accepts "p2"
feed-accepted_proposal_example = feed-accepted_proposal parsers session "p2"
