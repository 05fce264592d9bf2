-- ===== src/Tests/CommitmentHashes.antt =====
-- A commitment with and without a predecessor, with a codec and a digest to test with.
use macp_sdk_python.CommitmentHash.{
  CommitmentRef, Hashed, Payload, VerifyOutcome, cannot_verify, canonical_projection,
  commitment_hash, frozen_field_names, frozen_ref_field_names, hashed, insert_member, is_hashable,
  join, members_of, mismatch, object, session_error, sort_members, supersedes_member, verdict,
  verify_commitment_hash,
}
use macp_sdk_python.CommitmentHash.Frozen.{IsFrozen, verify_commitment_hash-IsFrozen}
use macp_sdk_python.CommitmentHash.Injective.{canonical_projection-injective}
use macp_sdk_python.CommitmentHash.Verify.{
  commitment_hash-is_canonical, verify_commitment_hash-match,
}
use macp_sdk_python.Envelope.{Bytes}
use macp_sdk_python.Json.{escape, escape_body, escape_char, string}
use macp_sdk_python.Json.RoundTrip.{string-escape}
use macp_sdk_python.Prelude.{
  Option, String, [], ap, none, refl, some, sym, true, ◌++◌, ◌↔◌, ◌∷◌, ◌≡◌, ◌≢◌,
}
use macp_sdk_python.Tests.Samples.{commitment, python, unless_empty}
use macp_sdk_python.Text.{Text, codes}
use macp_sdk_python.Validation.{passes, validate_commitment_hash}
use macp_sdk_python.Validation.Patterns.{full_matches, is_canonical_commitment_hash}

abbrev digest : Bytes → String
digest bytes = "0123456789abcdef0123456789abcdef0123456789abcdef0123456789abcdef"

abbrev utf8 : Text → Bytes
utf8 text = text

abbrev predecessor : CommitmentRef
predecessor = record { session_id = "s0"; commitment_hash = "sha256:00" }

abbrev payload : Payload
payload = record {
  fields = record commitment { reason = "a \"vote\"\n" };
  supersedes = some predecessor;
  unknown = [];
  ref_unknown = [];
}

abbrev parser : Bytes → Option Payload
parser = unless_empty payload

abbrev with_unknown : Payload
with_unknown = record payload { ref_unknown = 3 ∷ [] }

abbrev hash_text : String
hash_text = "sha256:0123456789abcdef0123456789abcdef0123456789abcdef0123456789abcdef"

runs : Unit {0}
unfolding canonical_projection commitment_hash verify_commitment_hash is_canonical_commitment_hash
    is_hashable verdict members_of sort_members insert_member supersedes_member object join
    escape_body escape_char codes full_matches
runs = tt

abbrev canonical_text : Bytes
canonical_text =
    codes
      "{\"action\":\"decision.selected\",\"authority_scope\":\"team\",\"commitment_id\":\"c1\",\"configuration_version\":\"config.default\",\"mode_version\":\"1.0.0\",\"outcome_positive\":true,\"policy_version\":\"policy.default\",\"reason\":\"a \\\"vote\\\"\\n\",\"supersedes\":{\"commitment_hash\":\"sha256:00\",\"session_id\":\"s0\"}}"

abbrev projection_of : Payload → Hashed Bytes
projection_of p =
    canonical_projection frozen_field_names frozen_ref_field_names utf8 digest parser p

abbrev hash_of_payload : Payload → Hashed String
hash_of_payload p = commitment_hash frozen_field_names frozen_ref_field_names utf8 digest parser p

abbrev verified : Bytes → String → VerifyOutcome
verified wire claimed_hash =
    verify_commitment_hash frozen_field_names frozen_ref_field_names utf8 digest parser wire
      claimed_hash

payload_text : projection_of payload ≡ hashed canonical_text
unfolding runs
payload_text = refl

unknown_field_refused : projection_of with_unknown ≡ session_error
unfolding runs
unknown_field_refused = refl

upper_case_claim : verified (1 ∷ []) "SHA256:00" ≡ mismatch
unfolding runs
upper_case_claim = refl

malformed_bytes : verified [] hash_text ≡ cannot_verify
unfolding runs
malformed_bytes = refl

canonical_projection-injective_example :
    (payload.supersedes ≡ payload.supersedes) × (payload.fields ≡ payload.fields)
unfolding runs
canonical_projection-injective_example =
    canonical_projection-injective frozen_field_names frozen_ref_field_names utf8 digest parser
      payload payload canonical_text (λ a b h. h) refl refl

verify_commitment_hash-match_example :
    (p : Payload) × (parser (1 ∷ []) ≡ some p)
    × (p.supersedes ≡ payload.supersedes)
    × (p.fields ≡ payload.fields)
unfolding runs
verify_commitment_hash-match_example =
    verify_commitment_hash-match frozen_field_names frozen_ref_field_names utf8 digest parser
      (1 ∷ []) hash_text payload (λ a b h. h)
      (λ p e digests.
        ap (λ (o : Option Payload). elim o [ none ↦ [] | some q ↦ utf8 (object (members_of q)) ])
          (sym e))
      refl refl

commitment_hash-is_canonical_example :
    (is_canonical_commitment_hash hash_text ≡ true)
    × (passes (validate_commitment_hash python (λ n. "a number") (λ n. true) hash_text) ≡ true)
unfolding runs
commitment_hash-is_canonical_example =
    commitment_hash-is_canonical frozen_field_names frozen_ref_field_names utf8 digest parser python
      (λ n. "a number") (λ n. true) payload hash_text (λ x. refl) refl

string-escape_example :
    string true (escape (codes "a \"vote\"\n") ++ b',' ∷ [])
    ≡ some (codes "a \"vote\"\n", b',' ∷ [])
string-escape_example = string-escape true (codes "a \"vote\"\n") (b',' ∷ [])

verify_commitment_hash-IsFrozen_example : (verified (1 ∷ []) hash_text ≢ cannot_verify) ↔ (
    (p : Payload) × (parser (1 ∷ []) ≡ some p)
    × IsFrozen frozen_field_names frozen_ref_field_names p)
verify_commitment_hash-IsFrozen_example =
    verify_commitment_hash-IsFrozen frozen_field_names frozen_ref_field_names utf8 digest parser
      (1 ∷ []) hash_text
