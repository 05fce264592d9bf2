-- ===== src/Builders.antt =====
-- src/macp_sdk/envelope.py: the payloads and the envelopes that a session sends. A generated
-- constructor and its `SerializeToString` are one parameter, which answers `none` where the former raises.
use macp_sdk_python.CommitmentHash.{CommitmentRef}
use macp_sdk_python.Contribute.Decision.{same_text}
use macp_sdk_python.Envelope.{Bytes, CommitmentPayload, Envelope, StrMethods}
use macp_sdk_python.Prelude.{
  Bool, List, Option, String, [], any, if◌then◌else◌, none, not, or_else, some, ℕ, ◌&&◌, ◌||◌, ◌∷◌,
}
use macp_sdk_python.Prelude.Int.{pos, ℤ}
use macp_sdk_python.Text.{Text, codes}
use macp_sdk_python.Validation.{
  Check, overflow_error, passed, session_error, validate_commitment_hash, validate_max_suspend_ms,
}

-- A call returns, or raises: `MacpSessionError`, without its message, `MacpIdentityMismatchError`, an
-- `OverflowError` of a check, or what a generated class raises.
pub data Attempt (A : Type 0) : Type 0 where
  done : A → Attempt A
  refused : Attempt A
  identity_mismatch : String → String → Attempt A
  overflowed : Attempt A
  proto_error : Attempt A

unfoldable pub bind : {A B : Type 0} → Attempt A → (A → Attempt B) → Attempt B
bind (done a) f = f a
bind refused f = refused
bind (identity_mismatch expected actual) f = identity_mismatch expected actual
bind overflowed f = overflowed
bind proto_error f = proto_error

-- A check of validation.py, before what follows it.
unfoldable pub guarded : {A : Type 0} → Check Unit → Attempt A → Attempt A
guarded (passed _) rest = rest
guarded (session_error _) rest = refused
guarded overflow_error rest = overflowed

abbrev pub built : {A : Type 0} → Option A → Attempt A
built none = proto_error
built (some a) = done a

-- `text.endswith(suffix)`
unfoldable pub ends_with : Text → Text → Bool
unfolding same_text
ends_with suffix [] = same_text suffix []
ends_with suffix (c ∷ text) = same_text suffix (c ∷ text) || ends_with suffix text

abbrev pub negative_suffixes : List String
negative_suffixes = "rejected" ∷ "failed" ∷ "declined" ∷ []

abbrev pub positive_suffixes : List String
positive_suffixes = "selected" ∷ "accepted" ∷ "completed" ∷ "approved" ∷ []

unfoldable pub has_suffix : List String → String → Bool
unfolding ends_with codes
has_suffix suffixes action = any (λ suffix. ends_with (codes suffix) (codes action)) suffixes

-- `SessionStartPayload`, as it is built.
pub record SessionStart : Type 0 where
  pub intent : String
  pub participants : List String
  pub ttl_ms : ℤ
  pub mode_version : String
  pub configuration_version : String
  pub policy_version : String
  pub context_id : String
  pub extensions : List (String × Bytes)
  pub roots : List (String × String)
  pub max_suspend_ms : ℤ

-- The generated classes that are installed, what Python's `str` and numbers do, and the fresh UUIDs of
-- one call with the identity of the envelope that it makes.
pub record Outside : Type 0 where
  pub py : StrMethods
  pub show : ℤ → String
  pub converts : ℤ → Bool
  pub has_max_suspend_ms_field : Bool
  pub has_outcome_positive_field : Bool
  pub has_supersedes_field : Bool
  pub session_start_bytes : SessionStart → Option Bytes
  pub commitment_bytes : CommitmentPayload → Option CommitmentRef → Option Bytes

pub record Fresh : Type 0 where
  pub ref : ℕ
  pub message_id : String
  pub commitment_id : String

unfoldable pub build_envelope : Fresh → String → String → String → String → Bytes → Envelope
build_envelope fresh mode message_type session_id sender payload = record {
  ref = fresh.ref;
  mode = mode;
  message_type = message_type;
  message_id = fresh.message_id;
  session_id = session_id;
  sender = sender;
  payload = payload;
}

-- `a or b` for an optional text with a default
abbrev pub default_to : String → Option String → String
default_to fallback none = fallback
default_to fallback (some s) = or_else s fallback

module _ (out : Outside) where
  unfoldable pub infer_outcome_positive : String → Bool
  unfolding has_suffix
  infer_outcome_positive action = not (has_suffix negative_suffixes (out.py.lower action))

  unfoldable pub build_session_start_payload : SessionStart → Attempt Bytes
  build_session_start_payload start =
      guarded (validate_max_suspend_ms out.py out.show out.converts start.max_suspend_ms) (
        built (
          out.session_start_bytes (record start {
            max_suspend_ms = if out.has_max_suspend_ms_field then start.max_suspend_ms else pos 0;
          })))

  -- The fields of the payload, of which `outcome_positive` may be left out.
  unfoldable pub commitment_fields :
      Fresh → CommitmentPayload → Option String → Option Bool → CommitmentPayload
  unfolding infer_outcome_positive
  commitment_fields fresh given commitment_id outcome_positive = record given {
    commitment_id = default_to fresh.commitment_id commitment_id;
    outcome_positive =
        out.has_outcome_positive_field
        && (elim outcome_positive [ none ↦ infer_outcome_positive given.action | some b ↦ b ]);
  }

  unfoldable pub build_commitment_payload :
      Fresh → CommitmentPayload → Option String → Option Bool → Option CommitmentRef → Attempt Bytes
  unfolding commitment_fields
  build_commitment_payload fresh given commitment_id outcome_positive supersedes =
      let payload = commitment_fields fresh given commitment_id outcome_positive in
      elim supersedes [
        | none ↦ built (out.commitment_bytes payload none)
        | some ref ↦
            if not out.has_supersedes_field
            then refused
            else guarded (validate_commitment_hash out.py out.show out.converts ref.commitment_hash)
                (built (out.commitment_bytes payload (some ref)))
      ]

  unfoldable pub build_commitment_ref : String → String → Attempt CommitmentRef
  build_commitment_ref session_id prior_hash =
      guarded (validate_commitment_hash out.py out.show out.converts prior_hash)
        (done (record { session_id = session_id; commitment_hash = prior_hash }))
