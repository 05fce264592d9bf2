-- ===== src/Tests/Bases.antt =====
-- `apply_envelope` on the Decision session.
use macp_sdk_python.Decision.Lawful.{decision_projection-IsLawful}
use macp_sdk_python.Modes.{decision_mode, feed-Committed}
use macp_sdk_python.Prelude.{[], refl, ◌∷◌, ◌≡◌}
use macp_sdk_python.Projection.{apply_envelope, feed, init, returned}
use macp_sdk_python.Projection.Contract.{IsLawful}
use macp_sdk_python.Projection.Ids.{HasUniqueIds, apply_envelope-redelivered, feed-HasUniqueIds}
use macp_sdk_python.Projection.Replay.{feed-transcript}
use macp_sdk_python.Projection.Rollback.{apply_envelope-atomic}
use macp_sdk_python.Tests.Decisions.{
  after_votes, committed, decision, first_vote, malformed, parsers, runs, session,
}
use macp_sdk_python.Tests.Samples.{python}

lawful : IsLawful decision
lawful = decision_projection-IsLawful python parsers

feed-transcript_example :
    feed decision (feed decision session (init decision)).transcript (init decision)
    ≡ feed decision session (init decision)
feed-transcript_example = feed-transcript decision lawful session

apply_envelope-atomic_example : (apply_envelope decision malformed after_votes).1 ≡ after_votes
unfolding runs
apply_envelope-atomic_example = apply_envelope-atomic decision lawful malformed after_votes refl

apply_envelope-redelivered_example :
    apply_envelope decision first_vote
      (feed decision session (apply_envelope decision first_vote (init decision)).1)
    ≡ (returned, feed decision session (apply_envelope decision first_vote (init decision)).1)
unfolding runs
apply_envelope-redelivered_example =
    apply_envelope-redelivered decision lawful first_vote (init decision) session refl refl refl

feed-HasUniqueIds_example : HasUniqueIds (feed decision session (init decision))
feed-HasUniqueIds_example = feed-HasUniqueIds decision lawful session

feed-Committed_example :
    (feed decision session (feed decision (committed ∷ []) (init decision))).phase ≡ "Committed"
unfolding runs
feed-Committed_example =
    feed-Committed decision session (feed decision (committed ∷ []) (init decision))
      (decision_mode python parsers) refl
