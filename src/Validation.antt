-- ===== src/Validation.antt =====
-- src/macp_sdk/validation.py: the checks of what a caller passes. The regular expressions are in
-- Validation/Patterns.
pub mod Patterns
pub mod Rosters
pub mod SessionIds
pub mod Votes
use Prim.Native.Char.{code}
use macp_sdk_python.Envelope.{Bytes, StrMethods}
use macp_sdk_python.Prelude.{
  Bool, List, Option, String, [], concat, contains, false, if◌then◌else◌, is_empty, length, ltb,
  none, not, some, true, ℕ, ◌&&◌, ◌==◌, ◌||◌, ◌∷◌,
}
use macp_sdk_python.Prelude.Int.{ltb_ℤ, pos, ℤ}
use macp_sdk_python.Text.{codes}
use macp_sdk_python.Validation.Patterns.{
  base64url, is_canonical_commitment_hash, matches, matches_run, uuid_shape, uuid_v4v7,
}

-- `==` of two truth values
abbrev pub same_truth : Bool → Bool → Bool
same_truth true b = b
same_truth false b = not b

-- A check returns, or raises `MacpSessionError` with a message, or `OverflowError`.
pub data Check (A : Type 0) : Type 0 where
  passed : A → Check A
  session_error : String → Check A
  overflow_error : Check A

abbrev pub and_then : {A B : Type 0} → Check A → Check B → Check B
and_then (passed a) rest = rest
and_then (session_error m) rest = session_error m
and_then overflow_error rest = overflow_error

-- Whether a check returns.
abbrev pub passes : {A : Type 0} → Check A → Bool
passes (passed a) = true
passes (session_error m) = false
passes overflow_error = false

-- `repr` of a text is Python's own, and `show` of a number too. `converts n` says that the number can be
-- made a float, without which `math.isfinite` raises `OverflowError`.
module _ (py : StrMethods) (show : ℤ → String) (converts : ℤ → Bool) where
  unfoldable pub validate_session_id : String → Check Unit
  validate_session_id sid =
      if matches uuid_shape (codes sid)
      then if not (matches uuid_v4v7 (codes sid))
        then session_error (
            concat (
              "session_id is UUID-shaped but not a lowercase v4/v7 UUID "
              ∷ "(no fall-through to base64url), got: "
              ∷ py.repr sid
              ∷ []))
        else passed tt
      else if matches_run base64url 22 128 (codes sid)
      then passed tt
      else session_error (
          concat (
            "session_id must be a lowercase UUID v4/v7 or base64url (22-128 chars), got: "
            ∷ py.repr sid
            ∷ []))

  unfoldable pub validate_commitment_hash : String → Check Unit
  validate_commitment_hash value =
      if not (is_canonical_commitment_hash value)
      then session_error (
          concat (
            "commitment_hash must match ^sha256:[0-9a-f]{64}$ (RFC-MACP-0013), got: "
            ∷ py.repr value
            ∷ []))
      else passed tt

  unfoldable pub validate_vote : String → Check String
  validate_vote value =
      if not (contains (py.upper value) ("APPROVE" ∷ "REJECT" ∷ "ABSTAIN" ∷ []))
      then session_error (
          concat (
            "invalid vote value "
            ∷ py.repr value
            ∷ ": must be one of APPROVE, REJECT, ABSTAIN"
            ∷ []))
      else passed (py.upper value)

  unfoldable pub validate_recommendation : String → Check String
  validate_recommendation value =
      if not (contains (py.upper value) ("APPROVE" ∷ "REVIEW" ∷ "BLOCK" ∷ "REJECT" ∷ []))
      then session_error (
          concat (
            "invalid recommendation "
            ∷ py.repr value
            ∷ ": must be one of APPROVE, REVIEW, BLOCK, REJECT"
            ∷ []))
      else passed (py.upper value)

  unfoldable pub validate_severity : String → Check String
  validate_severity value =
      if not (contains (py.lower value) ("critical" ∷ "high" ∷ "medium" ∷ "low" ∷ []))
      then session_error (
          concat (
            "invalid severity "
            ∷ py.repr value
            ∷ ": must be one of critical, high, medium, low"
            ∷ []))
      else passed (py.lower value)

  unfoldable pub validate_participant_count : ℕ → Check Unit
  validate_participant_count count =
      if ltb 1000 count then session_error "Maximum 1000 participants per session" else passed tt

  unfoldable pub validate_signal_type : String → Option Bytes → Check Unit
  validate_signal_type signal_type none = passed tt
  validate_signal_type signal_type (some bytes) =
      if not (is_empty bytes) && ltb 0 (length bytes) && py.strip signal_type == ""
      then session_error "signal_type must be non-empty when data is present"
      else passed tt

  unfoldable pub validate_progress_scope : String → String → Check Unit
  validate_progress_scope session_id mode =
      let session_id_empty = session_id == "" in
      let mode_empty = py.strip mode == "" in
      if same_truth session_id_empty mode_empty
      then passed tt
      else session_error (
          concat (
            "Progress must be either ambient (session_id and mode both empty) or "
            ∷ "session-scoped (both non-empty), but "
            ∷ (if session_id_empty
                then concat ("mode is " ∷ py.repr mode ∷ " but session_id is empty" ∷ [])
                else concat ("session_id is " ∷ py.repr session_id ∷ " but mode is empty" ∷ []))
            ∷ " (RFC-MACP-0001 §6). "
            ∷ "Pass both fields for a session-scoped Progress, or neither for an ambient one."
            ∷ []))

  unfoldable pub validate_ttl_ms : ℤ → Check Unit
  validate_ttl_ms ttl_ms =
      if not (converts ttl_ms)
      then overflow_error
      else if ltb_ℤ ttl_ms (pos 1) || ltb_ℤ (pos 86400000) ttl_ms
      then session_error (concat ("ttl_ms must be in [1, 86400000], got " ∷ show ttl_ms ∷ []))
      else passed tt

  unfoldable pub validate_max_suspend_ms : ℤ → Check Unit
  validate_max_suspend_ms max_suspend_ms =
      if not (converts max_suspend_ms)
      then overflow_error
      else if ltb_ℤ max_suspend_ms (pos 0)
      then session_error (
          concat (
            "max_suspend_ms must be >= 0 (0 selects the runtime default), got "
            ∷ show max_suspend_ms
            ∷ []))
      else passed tt

  -- The loop of `validate_participants`, with the set `seen`.
  unfoldable pub no_duplicate : List String → List String → Check Unit
  no_duplicate seen [] = passed tt
  no_duplicate seen (p ∷ participants) =
      let rest = no_duplicate (p ∷ seen) participants in
      if contains p seen then session_error (concat ("duplicate participant: " ∷ p ∷ [])) else rest

  unfoldable pub validate_participants : List String → Bool → Check Unit
  validate_participants participants allow_empty =
      if is_empty participants && not allow_empty
      then session_error "participants must be non-empty"
      else and_then (no_duplicate [] participants)
          (validate_participant_count (length participants))

  unfoldable pub validate_required_field : String → String → Check Unit
  validate_required_field field_name value =
      if value == "" || py.strip value == ""
      then session_error (concat (field_name ∷ " must be non-empty" ∷ []))
      else passed tt

  unfoldable pub validate_session_start :
      String → List String → ℤ → String → String → Bool → Check Unit
  validate_session_start intent participants ttl_ms mode_version configuration_version allow_empty =
      and_then (validate_participants participants allow_empty) (
        and_then (validate_ttl_ms ttl_ms) (
          and_then (validate_required_field "mode_version" mode_version)
            (validate_required_field "configuration_version" configuration_version)))
