-- ===== src/Tests/Samples.antt =====
-- Parsers, envelopes and sessions to test with. An empty payload does not parse, and another parses
-- by its first byte.
use macp_sdk_python.Envelope.{Bytes, CommitmentPayload, Envelope, StrMethods}
use macp_sdk_python.Prelude.{Option, String, [], none, some, true, ℕ, ◌∷◌}

-- On texts in the right case and without outer spaces, `upper`, `lower` and `strip` change nothing.
abbrev pub python : StrMethods
python = record { upper = λ s. s; lower = λ s. s; strip = λ s. s; repr = λ s. s }

abbrev pub unless_empty {ℓ} : {A : Type ℓ} → A → Bytes → Option A
unless_empty a [] = none
unless_empty a (b ∷ bytes) = some a

abbrev pub commitment : CommitmentPayload
commitment = record {
  commitment_id = "c1";
  action = "decision.selected";
  authority_scope = "team";
  reason = "votes";
  mode_version = "1.0.0";
  configuration_version = "config.default";
  policy_version = "policy.default";
  outcome_positive = true;
}

abbrev pub envelope : ℕ → String → String → String → String → Bytes → Envelope
envelope ref mode message_type message_id sender payload = record {
  ref = ref;
  mode = mode;
  message_type = message_type;
  message_id = message_id;
  session_id = "s1";
  sender = sender;
  payload = payload;
}
