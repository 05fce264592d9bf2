-- ===== src/Tests/Decisions.antt =====
-- A Decision session: a proposal, three votes, a second vote, and a commitment.
use macp_sdk_python.Dict
use macp_sdk_python.Decision.{
  Decision, DecisionParsers, DecisionVoteRecord, VotePayload, apply_mode_message, decision_after,
  decision_projection, find_vote, on_proposal, on_vote, vote_of,
}
use macp_sdk_python.Decision.Majority.{UpperLaw, approvals, feed-majority_winner}
use macp_sdk_python.Decision.Tally.{is_abstain, is_positive_vote, majority_winner, non_abstain}
use macp_sdk_python.Decision.Votes.{feed-find_vote}
use macp_sdk_python.Dict.{Dict, get, set}
use macp_sdk_python.Envelope.{Bytes, Envelope}
use macp_sdk_python.Prelude.{
  List, Option, String, [], eqb, if◌then◌else◌, length, none, refl, some, ℕ, ◌*◌, ◌<◌, ◌↔◌, ◌∷◌,
  ◌≡◌,
}
use macp_sdk_python.Projection.{
  Projection, ProjectionClass, apply_envelope, feed, init, record_anomaly, set_phase, when_type,
  with_payload,
}
use macp_sdk_python.Tests.Samples.{commitment, envelope, python, unless_empty}

abbrev vote_by : ℕ → VotePayload
vote_by b = record {
  proposal_id = "p1";
  vote = if eqb b 1 then "APPROVE" else "REJECT";
  reason = "";
}

abbrev first_byte : Bytes → Option ℕ
first_byte [] = none
first_byte (b ∷ bytes) = some b

abbrev pub parsers : DecisionParsers
parsers = record {
  commitment = unless_empty commitment;
  proposal = unless_empty (record { proposal_id = "p1"; option = "deploy"; rationale = "ready" });
  evaluation =
      unless_empty
        (record { proposal_id = "p1"; recommendation = "REVIEW"; confidence = 0; reason = "" });
  objection = unless_empty (record { proposal_id = "p1"; reason = "risk"; severity = "" });
  vote = λ bytes. elim (first_byte bytes) [ none ↦ none | some b ↦ some (vote_by b) ];
}

abbrev pub decision : ProjectionClass Decision
decision = decision_projection python parsers

abbrev send : ℕ → String → String → String → Bytes → Envelope
send ref = envelope ref "macp.mode.decision.v1"

abbrev pub proposed : Envelope
proposed = send 1 "Proposal" "m1" "alice" (1 ∷ [])

abbrev pub first_vote : Envelope
first_vote = send 2 "Vote" "m2" "bob" (1 ∷ [])

abbrev pub second_vote : Envelope
second_vote = send 3 "Vote" "m3" "bob" (2 ∷ [])

abbrev pub other_vote : Envelope
other_vote = send 4 "Vote" "m4" "carol" (1 ∷ [])

abbrev pub malformed : Envelope
malformed = send 5 "Vote" "m5" "dave" []

abbrev pub committed : Envelope
committed = send 6 "Commitment" "m6" "alice" (1 ∷ [])

abbrev pub session : List Envelope
session = proposed ∷ first_vote ∷ second_vote ∷ first_vote ∷ malformed ∷ other_vote ∷ committed ∷ []

unfoldable pub runs : Unit {0}
unfolding feed apply_envelope apply_mode_message when_type with_payload on_proposal on_vote
    set_phase record_anomaly Dict.get Dict.set majority_winner is_positive_vote is_abstain
runs = tt

abbrev pub after_votes : Projection Decision
after_votes = feed decision (proposed ∷ first_vote ∷ []) (init decision)

first_record : DecisionVoteRecord
first_record = record { proposal_id = "p1"; vote = "APPROVE"; reason = ""; sender = "bob" }

session_anomalies : length (feed decision session (init decision)).anomalies ≡ 1
unfolding runs
session_anomalies = refl

session_transcript : length (feed decision session (init decision)).transcript ≡ 5
unfolding runs
session_transcript = refl

session_winner : majority_winner python (feed decision session (init decision)).state ≡ some "p1"
unfolding runs
session_winner = refl

feed-find_vote_example :
    find_vote "p1" "bob" (feed decision session after_votes).state
    ≡ some (vote_of first_vote (vote_by 1))
unfolding runs
feed-find_vote_example =
    feed-find_vote python parsers session after_votes "p1" "bob" (vote_of first_vote (vote_by 1))
      refl

upper_law : UpperLaw python
upper_law = record { abstain_is_stripped = λ s h. refl }

feed-majority_winner_example :
    (majority_winner python (decision_after python parsers session) ≡ some "p1") ↔ (
      non_abstain python (decision_after python parsers session).votes
      < 2 * approvals python "p1" (decision_after python parsers session).votes)
feed-majority_winner_example = feed-majority_winner python upper_law parsers session "p1"
