-- ===== src/Envelope.antt =====
-- The generated protobuf messages that every mode reads (src/macp_sdk/envelope.py builds them), and
-- the methods of Python's `str` that the program calls.
use macp_sdk_python.Prelude.{ℕ, String, Bool, List}

abbrev pub Bytes : Type 0
Bytes = List ℕ

-- `ref` is the object's identity, which `is` compares.
pub record Envelope : Type 0 where
  pub ref : ℕ
  pub mode : String
  pub message_type : String
  pub message_id : String
  pub session_id : String
  pub sender : String
  pub payload : Bytes

pub record CommitmentPayload : Type 0 where
  pub commitment_id : String
  pub action : String
  pub authority_scope : String
  pub reason : String
  pub mode_version : String
  pub configuration_version : String
  pub policy_version : String
  pub outcome_positive : Bool

-- `str.upper`, `str.lower` and `str.strip` over all of Unicode, and `repr`, are Python's own.
pub record StrMethods : Type 0 where
  pub upper : String → String
  pub lower : String → String
  pub strip : String → String
  pub repr : String → String
