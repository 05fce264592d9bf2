-- ===== src/Tests/Quorums.antt =====
-- A Quorum session: a request for two approvals, ballots of bob (twice) and carol.
use macp_sdk_python.Dict
use macp_sdk_python.Dict.{Dict, get, set}
use macp_sdk_python.Envelope.{Envelope}
use macp_sdk_python.Prelude.{
  List, Option, String, [], arith, false, length, refl, some, ℕ, ◌∷◌, ◌≡◌,
}
use macp_sdk_python.Prelude.Int.{pos, ◌+ℤ◌, ◌-ℤ◌}
use macp_sdk_python.Projection.{
  Projection, ProjectionClass, apply_envelope, feed, init, record_anomaly, set_phase, when_type,
  with_payload,
}
use macp_sdk_python.Quorum.{
  BallotPayload, BallotRecord, Quorum, QuorumParsers, apply_mode_message, find_ballot, on_request,
  quorum_projection, set_ballot,
}
use macp_sdk_python.Quorum.Ballots.{feed-find_ballot}
use macp_sdk_python.Quorum.Outlook.{feed-is_threshold_unreachable}
use macp_sdk_python.Quorum.Queries.{
  count_votes, has_quorum, is_threshold_unreachable, required, unset, voted_senders,
}
use macp_sdk_python.Tests.Samples.{commitment, envelope, python, unless_empty}

abbrev ballot : Option BallotPayload
ballot = some (record { request_id = "r1"; reason = "" })

abbrev parsers : QuorumParsers
parsers = record {
  commitment = unless_empty commitment;
  approval_request =
      unless_empty
        (record { request_id = "r1"; action = "deploy"; summary = ""; required_approvals = 2 });
  approve = λ bytes. ballot;
  reject = λ bytes. ballot;
  abstain = λ bytes. ballot;
}

abbrev send : ℕ → String → String → String → Envelope
send ref message_type message_id sender =
    envelope ref "macp.mode.quorum.v1" message_type message_id sender (1 ∷ [])

abbrev quorum : ProjectionClass Quorum
quorum = quorum_projection python parsers

abbrev opening : List Envelope
opening = send 1 "ApprovalRequest" "m1" "alice" ∷ send 2 "Reject" "m2" "bob" ∷ []

abbrev ballots : List Envelope
ballots = send 3 "Approve" "m3" "bob" ∷ send 4 "Approve" "m4" "carol" ∷ []

abbrev pub opened : Projection Quorum
opened = feed quorum opening (init quorum)

abbrev bob_ballot : BallotRecord
bob_ballot = record { request_id = "r1"; vote = "reject"; reason = ""; sender = "bob" }

runs : Unit {0}
unfolding feed apply_envelope apply_mode_message when_type with_payload on_request set_ballot
    set_phase record_anomaly Dict.get Dict.set is_threshold_unreachable voted_senders count_votes
    required has_quorum ◌+ℤ◌ ◌-ℤ◌
runs = tt

ballots_anomalies : length (feed quorum ballots opened).anomalies ≡ 1
unfolding runs
ballots_anomalies = refl

feed-find_ballot_example :
    find_ballot "r1" "bob" (feed quorum ballots opened).state ≡ some bob_ballot
unfolding runs
feed-find_ballot_example = feed-find_ballot python parsers ballots opened "r1" "bob" bob_ballot refl

-- Of two eligible senders one has rejected, and two approvals are required.
feed-is_threshold_unreachable_example :
    has_quorum "r1" unset (feed quorum ballots opened).state ≡ false
unfolding runs
feed-is_threshold_unreachable_example =
    feed-is_threshold_unreachable python parsers ballots opened "r1" (pos 2) unset refl refl
      (omega arith)
