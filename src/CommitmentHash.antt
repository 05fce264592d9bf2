-- ===== src/CommitmentHash.antt =====
-- src/macp_sdk/commitment_hash.py: the canonical form of a commitment, its hash, and the check of a claimed
-- hash.
pub mod Members
pub mod Injective
pub mod Verify
pub mod Frozen
use Prim.Native.String.{compare}
use Prim.Native.Nat.{Ordering}
use macp_sdk_python.Envelope.{Bytes, CommitmentPayload}
use macp_sdk_python.Json.{escape}
use macp_sdk_python.Prelude.{
  Bool, List, Option, String, [], any, concat, contains, if◌then◌else◌, is_empty, none, not, some,
  true, ℕ, ◌&&◌, ◌++◌, ◌==◌, ◌∷◌,
}
use macp_sdk_python.Text.{Text, codes}

pub record CommitmentRef : Type 0 where
  pub session_id : String
  pub commitment_hash : String

-- A parsed `CommitmentPayload`: its fields, `supersedes` if it is set, and the numbers of the fields
-- that `UnknownFieldSet` finds in it and in its `supersedes`.
pub record Payload : Type 0 where
  pub fields : CommitmentPayload
  pub supersedes : Option CommitmentRef
  pub unknown : List ℕ
  pub ref_unknown : List ℕ

-- A result, or `MacpSessionError`, without its message.
pub data Hashed (A : Type 0) : Type 0 where
  hashed : A → Hashed A
  session_error : Hashed A

pub data VerifyOutcome : Type 0 where
  match mismatch cannot_verify : VerifyOutcome

abbrev pub label : String
label = "macp-commitment-hash/1"

abbrev pub frozen_field_names : List String
frozen_field_names =
    "commitment_id" ∷ "action" ∷ "authority_scope" ∷ "reason" ∷ "mode_version" ∷ "policy_version"
    ∷ "configuration_version" ∷ "outcome_positive" ∷ "supersedes" ∷ []

abbrev pub frozen_ref_field_names : List String
frozen_ref_field_names = "session_id" ∷ "commitment_hash" ∷ []

-- `field_names - frozen` is empty.
abbrev pub within : List String → List String → Bool
within frozen field_names = not (any (λ name. not (contains name frozen)) field_names)

abbrev pub json_bool : Bool → Text
json_bool value = if value then codes "true" else codes "false"

-- A rendered member of an object: `f"{_escape_json_string(k)}:{v}"`
abbrev pub member : String → Text → Text
member key value = escape (codes key) ++ b':' ∷ value

-- `",".join(...)` of members
unfoldable pub join : List (String × Text) → Text
join [] = []
join ((key, value) ∷ []) = member key value
join ((key, value) ∷ m ∷ members) = member key value ++ b',' ∷ join (m ∷ members)

unfoldable pub object : List (String × Text) → Text
unfolding join
object members = b'{' ∷ join members ++ b'}' ∷ []

-- `_supersedes_member`
unfoldable pub supersedes_member : CommitmentRef → Text
unfolding object
supersedes_member ref = object (
    ("commitment_hash", escape (codes ref.commitment_hash))
    ∷ ("session_id", escape (codes ref.session_id))
    ∷ [])

-- `members.sort(key=lambda kv: kv[0])`
unfoldable pub insert_member : String × Text → List (String × Text) → List (String × Text)
insert_member m [] = m ∷ []
insert_member m (n ∷ members) =
    let later = n ∷ insert_member m members in
    elim (compare m.0 n.0) [ Ordering.gt ↦ later | _ ↦ m ∷ n ∷ members ]

unfoldable pub sort_members : List (String × Text) → List (String × Text)
unfolding insert_member
sort_members [] = []
sort_members (m ∷ members) = insert_member m (sort_members members)

unfoldable pub members_of : Payload → List (String × Text)
unfolding sort_members supersedes_member
members_of p =
    let members =
      ("action", escape (codes p.fields.action))
      ∷ ("authority_scope", escape (codes p.fields.authority_scope))
      ∷ ("commitment_id", escape (codes p.fields.commitment_id))
      ∷ ("configuration_version", escape (codes p.fields.configuration_version))
      ∷ ("mode_version", escape (codes p.fields.mode_version))
      ∷ ("outcome_positive", json_bool p.fields.outcome_positive)
      ∷ ("policy_version", escape (codes p.fields.policy_version))
      ∷ ("reason", escape (codes p.fields.reason))
      ∷ [] in
    elim p.supersedes [
      | none ↦ members
      | some ref ↦ sort_members (members ++ ("supersedes", supersedes_member ref) ∷ [])
    ]

-- `actual` and `ref_actual` are the fields of the installed generated classes; `encode` is
-- `str.encode("utf-8")`, `sha256_hex` is `hashlib.sha256(...).hexdigest()`, and `parse` is
-- `ParseFromString`, with `none` for `DecodeError`.
module _ (actual ref_actual : List String) (encode : Text → Bytes) (sha256_hex : Bytes → String)
    (parse : Bytes → Option Payload) where
  -- The four checks that come first.
  unfoldable pub is_hashable : Payload → Bool
  is_hashable p = within frozen_field_names actual && is_empty p.unknown && elim p.supersedes [
    | none ↦ true
    | some _ ↦ within frozen_ref_field_names ref_actual && is_empty p.ref_unknown
  ]

  unfoldable pub canonical_projection : Payload → Hashed Bytes
  unfolding is_hashable object members_of
  canonical_projection p =
      if is_hashable p then hashed (encode (object (members_of p))) else session_error

  abbrev pub preimage : Bytes → Bytes
  preimage projection = codes label ++ b':' ∷ projection

  unfoldable pub commitment_hash : Payload → Hashed String
  unfolding canonical_projection
  commitment_hash p = elim (canonical_projection p) [
    | session_error ↦ session_error
    | hashed projection ↦ hashed (concat ("sha256:" ∷ sha256_hex (preimage projection) ∷ []))
  ]

  -- `return "match" if claimed_hash == actual else "mismatch"`, or the `except`.
  unfoldable pub verdict : Hashed String → String → VerifyOutcome
  verdict session_error claimed_hash = cannot_verify
  verdict (hashed actual_hash) claimed_hash =
      if claimed_hash == actual_hash then match else mismatch

  unfoldable pub verify_commitment_hash : Bytes → String → VerifyOutcome
  unfolding commitment_hash verdict
  verify_commitment_hash wire claimed_hash = elim (parse wire) [
    | none ↦ cannot_verify
    | some payload ↦ verdict (commitment_hash payload) claimed_hash
  ]
