-- ===== src/Tests/MultiRounds.antt =====
-- A multi-round session of bob and carol, who agree after three rounds.
use macp_sdk_python.Dict
use macp_sdk_python.Dict.{Dict, get, set}
use macp_sdk_python.Envelope.{Bytes, Envelope}
use macp_sdk_python.MultiRound.{
  MultiRound, MultiRoundParsers, add_value, apply_mode_message, check_convergence, differs, include,
  is_missing, multi_round_projection, on_contribute, on_start, settle, value_set,
}
use macp_sdk_python.MultiRound.Agreed.{Agreed, feed-Agreed}
use macp_sdk_python.MultiRound.Consensus.{common_value, holds}
use macp_sdk_python.MultiRound.Progress.{rally, rally-converges}
use macp_sdk_python.MultiRound.Rounds.{Frozen, feed-Frozen, fields_after}
use macp_sdk_python.Prelude.{List, String, [], none, refl, some, true, ℕ, ◌∷◌, ◌≡◌}
use macp_sdk_python.Projection.{
  Projection, ProjectionClass, apply_envelope, feed, init, set_phase, when_type, with_payload,
}
use macp_sdk_python.Tests.Contributes.{reading_runs, utf8_decode, utf8_encode, yes}
use macp_sdk_python.Tests.Samples.{commitment, envelope, unless_empty}

abbrev parsers : MultiRoundParsers
parsers = record {
  commitment = unless_empty commitment;
  session_start = unless_empty (record { participants = "bob" ∷ "carol" ∷ [] });
}

abbrev rounds_of : ProjectionClass MultiRound
rounds_of = multi_round_projection utf8_decode utf8_encode parsers [] none

abbrev contribution : ℕ → String → String → Bytes → Envelope
contribution ref message_id sender payload =
    envelope ref "ext.multi_round.v1" "Contribute" message_id sender payload

abbrev start : Envelope
start = envelope 1 "ext.multi_round.v1" "SessionStart" "m1" "alice" (1 ∷ [])

abbrev to_yes : Bytes
to_yes = 0x0a ∷ 3 ∷ yes

abbrev to_no : Bytes
to_no = 0x0a ∷ 2 ∷ b'n' ∷ b'o' ∷ []

abbrev votes : List Envelope
votes =
    contribution 2 "m2" "bob" to_yes
    ∷ contribution 3 "m3" "carol" to_no
    ∷ contribution 4 "m4" "dave" to_no
    ∷ contribution 5 "m5" "carol" to_yes
    ∷ []

-- "no" once more, after the session has converged
abbrev late : List Envelope
late = contribution 6 "m6" "carol" to_no ∷ []

abbrev started_session : Projection MultiRound
started_session = feed rounds_of (start ∷ []) (init rounds_of)

abbrev voted_session : Projection MultiRound
voted_session = feed rounds_of votes started_session

runs : Unit {0}
unfolding reading_runs feed apply_envelope apply_mode_message when_type with_payload on_start
    on_contribute check_convergence settle value_set include is_missing differs add_value set_phase
    Dict.get Dict.set
runs = tt

converged_on_yes :
    (voted_session.state.converged_value ≡ some yes)
    × (voted_session.state.round ≡ 3)
    × (voted_session.phase ≡ "Converged")
unfolding runs
converged_on_yes = (refl, refl, refl)

-- A second SessionStart names the phase anew, though the session stays converged.
restarted_phase :
    (feed rounds_of (record start { message_id = "m7" } ∷ []) voted_session).phase ≡ "Contributing"
unfolding runs
restarted_phase = refl

feed-Frozen_example :
    Frozen voted_session.state (fields_after utf8_decode utf8_encode parsers late voted_session)
unfolding runs
feed-Frozen_example = feed-Frozen utf8_decode utf8_encode parsers late voted_session refl

feed-Agreed_example : Agreed (fields_after utf8_decode utf8_encode parsers votes started_session)
unfolding runs common_value holds
feed-Agreed_example =
    feed-Agreed utf8_decode utf8_encode parsers votes started_session refl
      (record { value = refl; flag = refl })

rally-converges_example :
    ((rally yes votes started_session).state.converged ≡ true)
    × ((rally yes votes started_session).state.converged_value ≡ some yes)
unfolding runs common_value
rally-converges_example = rally-converges yes votes started_session refl refl refl refl
