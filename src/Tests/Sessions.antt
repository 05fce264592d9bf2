-- ===== src/Tests/Sessions.antt =====
-- A multi-round session helper of bob, whose identity the client expects.
use macp_sdk_python.Dict
use macp_sdk_python.Auth.{AuthConfig, auth_config, for_bearer}
use macp_sdk_python.Builders.{
  Outside, SessionStart, bind, build_commitment_payload, build_envelope,
  build_session_start_payload, commitment_fields, done, ends_with, guarded, has_suffix,
  identity_mismatch, infer_outcome_positive, refused,
}
use macp_sdk_python.Contribute.{canonical_proto}
use macp_sdk_python.Contribute.Decision.{same_text}
use macp_sdk_python.Dict.{Dict, get, set}
use macp_sdk_python.Envelope.{Bytes, Envelope}
use macp_sdk_python.MultiRound.{
  MultiRound, MultiRoundParsers, add_value, apply_mode_message, check_convergence, differs, include,
  is_missing, is_participant, multi_round_projection, on_contribute, on_start, settle, value_set,
}
use macp_sdk_python.MultiRound.Actions.{
  Action, Call, checked_arguments, contradicts, contribute_envelope, contributing, is_other_than,
  multi_round_commit, multi_round_start, perform, prepare, run, starting,
}
use macp_sdk_python.MultiRound.Lawful.{multi_round_projection-IsLawful}
use macp_sdk_python.MultiRound.Recorded.{contribute_envelope-recorded}
use macp_sdk_python.MultiRound.Sent.{run-IsOwn}
use macp_sdk_python.Prelude.{
  List, Option, String, [], arith, false, length, none, refl, some, true, ℕ, ◌∷◌, ◌≡◌,
}
use macp_sdk_python.Prelude.Int.{pos}
use macp_sdk_python.Projection.{
  ProjectionClass, apply_envelope, init, set_phase, when_type, with_payload,
}
use macp_sdk_python.Session.{
  Reply, Session, acked, act, answered, check_sender, nacked, send_and_track, sender_for,
  start_envelope, track_ack,
}
use macp_sdk_python.Session.Tracking.{AllOf, IsOwn, act-projection}
use macp_sdk_python.Tests.Contributes.{reading_runs, utf8_decode, utf8_encode, yes}
use macp_sdk_python.Tests.Samples.{commitment, python, unless_empty}
use macp_sdk_python.Text.{Text, codes}
use macp_sdk_python.Validation.{
  no_duplicate, validate_max_suspend_ms, validate_participant_count, validate_participants,
  validate_required_field, validate_session_start, validate_ttl_ms,
}

-- The installed classes have every field, and every number can be made a float.
abbrev out : Outside
out = record {
  py = python;
  show = λ n. "a number";
  converts = λ n. true;
  has_max_suspend_ms_field = true;
  has_outcome_positive_field = true;
  has_supersedes_field = true;
  session_start_bytes = λ start. some (1 ∷ []);
  commitment_bytes = λ payload supersedes. some (1 ∷ []);
}

abbrev bytes_of : Text → Option Bytes
bytes_of value = some (canonical_proto utf8_decode utf8_encode value)

abbrev parsers : MultiRoundParsers
parsers = record {
  commitment = unless_empty commitment;
  session_start = unless_empty (record { participants = "bob" ∷ "carol" ∷ [] });
}

abbrev helper_class : ProjectionClass MultiRound
helper_class = multi_round_projection utf8_decode utf8_encode parsers [] none

abbrev helper : Session MultiRound
helper = record {
  mode = "ext.multi_round.v1";
  session_id = "s1";
  mode_version = "1.0.0";
  configuration_version = "config.default";
  policy_version = "policy.default";
  auth = none;
  client_auth = for_bearer "token" none (some "bob");
  projection = init helper_class;
}

abbrev call : ℕ → String → Option String → Call
call ref message_id sender = record {
  fresh = record { ref = ref; message_id = message_id; commitment_id = "c1" };
  sender = sender;
  auth = none;
}

abbrev opening : SessionStart
opening = record {
  intent = "";
  participants = "bob" ∷ "carol" ∷ [];
  ttl_ms = pos 1000;
  mode_version = "";
  configuration_version = "";
  policy_version = "";
  context_id = "";
  extensions = [];
  roots = [];
  max_suspend_ms = pos 0;
}

-- The second contribution names another sender, and is never sent.
abbrev calls : List (Call × Action)
calls =
    (call 1 "m1" none, starting opening)
    ∷ (call 2 "m2" none, contributing yes)
    ∷ (call 3 "m3" (some "carol"), contributing yes)
    ∷ []

abbrev accepts : Envelope → Option AuthConfig → Reply
accepts e auth = acked

abbrev refuses : Envelope → Option AuthConfig → Reply
refuses e auth = nacked

runs : Unit {0}
unfolding reading_runs run perform prepare act send_and_track track_ack multi_round_start
    contribute_envelope multi_round_commit start_envelope build_envelope build_session_start_payload
    build_commitment_payload sender_for check_sender bind guarded validate_session_start
    validate_participants no_duplicate validate_participant_count validate_ttl_ms
    validate_max_suspend_ms validate_required_field for_bearer auth_config is_participant
    apply_envelope apply_mode_message when_type with_payload on_start on_contribute
    check_convergence settle value_set include is_missing differs add_value set_phase Dict.get
    Dict.set infer_outcome_positive has_suffix ends_with codes same_text is_other_than contradicts
    checked_arguments commitment_fields
runs = tt

two_are_sent : length (run out bytes_of helper_class accepts calls helper).0 ≡ 2
unfolding runs
two_are_sent = refl

other_sender :
    contribute_envelope out bytes_of (call 3 "m3" (some "carol")) helper yes
    ≡ identity_mismatch "bob" "carol"
unfolding runs
other_sender = refl

empty_value : contribute_envelope out bytes_of (call 3 "m3" none) helper [] ≡ refused
unfolding runs
empty_value = refl

negative_action : infer_outcome_positive out "deploy.rejected" ≡ false
unfolding runs
negative_action = refl

abbrev contribution : Envelope
contribution = record {
  ref = 2;
  mode = "ext.multi_round.v1";
  message_type = "Contribute";
  message_id = "m2";
  session_id = "s1";
  sender = "bob";
  payload = canonical_proto utf8_decode utf8_encode yes;
}

run-IsOwn_example :
    AllOf
      (IsOwn helper_class
        (multi_round_projection-IsLawful utf8_decode utf8_encode parsers)
        accepts
        helper)
      (run out bytes_of helper_class accepts calls helper).1.projection.transcript
run-IsOwn_example =
    run-IsOwn out bytes_of helper_class accepts
      (multi_round_projection-IsLawful utf8_decode utf8_encode parsers) calls helper tt

act-projection_example :
    (act helper_class refuses helper (done contribution) none).projection ≡ helper.projection
unfolding runs
act-projection_example =
    act-projection helper_class (multi_round_projection-IsLawful utf8_decode utf8_encode parsers)
      refuses helper (done contribution) none (λ h. cc h)

contribute_envelope-recorded_example :
    let r =
      perform out bytes_of helper_class accepts (call 2 "m2" none) helper (contributing yes) in
    (r.ending ≡ answered acked)
    × (r.sent ≡ contribution ∷ [])
    × (Dict.get "bob" r.projection.state.contributions ≡ some yes)
unfolding runs
contribute_envelope-recorded_example =
    contribute_envelope-recorded utf8_decode utf8_encode parsers out bytes_of accepts
      (call 2 "m2" none) helper yes contribution refl refl refl refl refl refl refl refl refl
      (omega arith)
