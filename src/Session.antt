-- ===== src/Session.antt =====
-- src/macp_sdk/base_session.py: a session helper over a client. Its asyncio twin
-- (src/macp_sdk/async_session.py) builds the same envelopes.
pub mod Identity
pub mod Tracking
use macp_sdk_python.Auth.{AuthConfig, or_option}
use macp_sdk_python.Builders.{
  Attempt, Fresh, Outside, SessionStart, bind, build_commitment_payload, build_envelope,
  build_session_start_payload, default_to, done, guarded, identity_mismatch, overflowed,
  proto_error, refused,
}
use macp_sdk_python.Envelope.{Bytes, CommitmentPayload, Envelope}
use macp_sdk_python.Prelude.{
  Bool, List, Option, String, [], if◌then◌else◌, none, not, some, ◌==◌, ◌∷◌,
}
use macp_sdk_python.Projection.{
  Outcome, Projection, ProjectionClass, apply_envelope, raised, returned,
}
use macp_sdk_python.Validation.{validate_session_start}

-- A helper's fields; `mode` is its `MODE`, and `client_auth` the `auth` of its client.
pub record Session (S : Type 0) : Type 0 where
  pub mode : String
  pub session_id : String
  pub mode_version : String
  pub configuration_version : String
  pub policy_version : String
  pub auth : Option AuthConfig
  pub client_auth : Option AuthConfig
  pub projection : Projection S

-- What `client.send` does: it answers with an acknowledgement, or raises.
pub data Reply : Type 0 where
  acked nacked send_error : Reply

-- How an action ends, what it put on the wire, and the projection that it leaves.
pub data Ending : Type 0 where
  not_built : Ending
  answered : Reply → Ending
  projection_error : Ending

pub record Acted (S : Type 0) : Type 0 where
  pub ending : Ending
  pub sent : List Envelope
  pub projection : Projection S

-- `auth or self.auth or self.client.auth`
abbrev pub first_auth : Option AuthConfig → Option AuthConfig → Option AuthConfig
first_auth none rest = rest
first_auth (some auth) rest = some auth

abbrev pub sender_hint_of : Option AuthConfig → Option String
sender_hint_of none = none
sender_hint_of (some auth) = auth.sender_hint

abbrev pub expected_of : Option AuthConfig → Option String
expected_of none = none
expected_of (some auth) = auth.expected_sender

-- The identity check of the resolved sender.
unfoldable pub check_sender : Option String → String → Attempt String
check_sender none resolved = done resolved
check_sender (some expected) resolved =
    if not (resolved == expected) then identity_mismatch expected resolved else done resolved

module _ {S : Type 0} where
  abbrev pub auth_of : Session S → Option AuthConfig → Option AuthConfig
  auth_of s auth = first_auth auth (first_auth s.auth s.client_auth)

  -- `_sender_for`
  unfoldable pub sender_for : Session S → Option String → Option AuthConfig → Attempt String
  unfolding check_sender
  sender_for s sender auth =
      check_sender (expected_of (auth_of s auth))
        (default_to "" (or_option sender (sender_hint_of (auth_of s auth))))

  -- `_envelope`, of a payload that is serialized already
  unfoldable pub envelope :
      Fresh → Session S → String → Bytes → Option String → Option AuthConfig → Attempt Envelope
  unfolding sender_for
  envelope fresh s message_type payload sender auth =
      bind (sender_for s sender auth)
        λ resolved. done (build_envelope fresh s.mode message_type s.session_id resolved payload)

  unfoldable pub start_envelope :
      Outside
      → Fresh
      → Session S
      → SessionStart
      → Option String
      → Option AuthConfig
      → Attempt Envelope
  unfolding envelope
  start_envelope out fresh s start sender auth =
      guarded
        (validate_session_start out.py out.show out.converts start.intent start.participants
          start.ttl_ms s.mode_version s.configuration_version (s.mode == "macp.mode.decision.v1"))
        (bind
          (build_session_start_payload out (record start {
            mode_version = s.mode_version;
            configuration_version = s.configuration_version;
            policy_version = s.policy_version;
          }))
          λ payload. envelope fresh s "SessionStart" payload sender auth)

  -- The versions of the session, in a payload's fields.
  abbrev pub with_versions : Session S → CommitmentPayload → CommitmentPayload
  with_versions s given = record given {
    mode_version = s.mode_version;
    configuration_version = s.configuration_version;
    policy_version = s.policy_version;
  }

  unfoldable pub commit_envelope :
      Outside
      → Fresh
      → Session S
      → CommitmentPayload
      → Option String
      → Option Bool
      → Option String
      → Option AuthConfig
      → Attempt Envelope
  unfolding envelope
  commit_envelope out fresh s given commitment_id outcome_positive sender auth =
      bind
        (build_commitment_payload out fresh (with_versions s given) commitment_id outcome_positive
          none)
        λ payload. envelope fresh s "Commitment" payload sender auth

module _ {S : Type 0} (cls : ProjectionClass S) (send : Envelope → Option AuthConfig → Reply) where
  -- What `apply_envelope` ended with, after an acknowledgement.
  abbrev pub tracked_ending : Outcome → Ending
  tracked_ending returned = answered acked
  tracked_ending raised = projection_error

  -- `_track_ack`
  unfoldable pub track_ack : Session S → Envelope → Reply → Acted S
  track_ack s e acked = record {
    ending = tracked_ending (apply_envelope cls e s.projection).0;
    sent = e ∷ [];
    projection = (apply_envelope cls e s.projection).1;
  }
  track_ack s e nacked = record {
    ending = answered nacked;
    sent = e ∷ [];
    projection = s.projection;
  }
  track_ack s e send_error = record {
    ending = answered send_error;
    sent = e ∷ [];
    projection = s.projection;
  }

  -- `_send_and_track`
  unfoldable pub send_and_track : Session S → Envelope → Option AuthConfig → Acted S
  unfolding track_ack
  send_and_track s e auth = track_ack s e (send e (first_auth auth s.auth))

  -- An action: it builds its envelope, which may raise, and sends it.
  unfoldable pub act : Session S → Attempt Envelope → Option AuthConfig → Acted S
  unfolding send_and_track
  act s (done e) auth = send_and_track s e auth
  act s refused auth = record { ending = not_built; sent = []; projection = s.projection }
  act s (identity_mismatch expected actual) auth = record {
    ending = not_built;
    sent = [];
    projection = s.projection;
  }
  act s overflowed auth = record { ending = not_built; sent = []; projection = s.projection }
  act s proto_error auth = record { ending = not_built; sent = []; projection = s.projection }
