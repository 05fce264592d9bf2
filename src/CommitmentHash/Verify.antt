-- ===== src/CommitmentHash/Verify.antt =====
-- src/macp_sdk/commitment_hash.py: the form of a hash, and what the verdicts of `verify_commitment_hash` say.
use Prim.Native.String.{◌++◌ as str_append}
use text.Mathlib.TextLemmas.{append-nil, append_cancel_left}
use macp_sdk_python.CommitmentHash.{
  Hashed, Payload, cannot_verify, canonical_projection, commitment_hash, hashed, match, members_of,
  object, preimage, session_error, verdict, verify_commitment_hash,
}
use macp_sdk_python.CommitmentHash.Injective.{object_members-injective, projected_bytes}
use macp_sdk_python.Envelope.{Bytes, StrMethods}
use macp_sdk_python.Json.Values.{digits}
use macp_sdk_python.Prelude.{
  Bool, List, Option, String, [], ap, arith, concat, eq_iff, none, refl, some, sym, true, ◌++◌, ◌∙◌,
  ◌∷◌, ◌≡◌,
}
use macp_sdk_python.Prelude.Int.{ℤ}
use macp_sdk_python.Text.{Text, codes, codes-append}
use macp_sdk_python.Validation.{passes, validate_commitment_hash}
use macp_sdk_python.Validation.Patterns.{
  Test, full_matches, hash_pattern, is_canonical_commitment_hash, literal, lower_hex, times,
}

prefixed-injective :
    (a b : String) → concat ("sha256:" ∷ a ∷ []) ≡ concat ("sha256:" ∷ b ∷ []) → a ≡ b
prefixed-injective a b h =
    sym (append-nil a)
    ∙ append_cancel_left "sha256:" (str_append a "") (str_append b "") h
    ∙ append-nil b

module _ (actual ref_actual : List String) (encode : Text → Bytes) (sha256_hex : Bytes → String)
    (parse : Bytes → Option Payload) where
  abbrev pub digest_of : Payload → String
  digest_of p = sha256_hex (
      preimage actual ref_actual encode sha256_hex parse
        (projected_bytes actual ref_actual encode sha256_hex parse p))

  hash_of :
      (p : Payload) (h : String)
      → commitment_hash actual ref_actual encode sha256_hex parse p ≡ hashed h
      → h ≡ concat ("sha256:" ∷ digest_of p ∷ [])
  unfolding commitment_hash canonical_projection
  hash_of p h e = ground (arith, e)

  verdict-match :
      (r : Hashed String) (claimed_hash : String)
      → verdict actual ref_actual encode sha256_hex parse r claimed_hash ≡ match
      → r ≡ hashed claimed_hash
  unfolding verdict
  verdict-match session_error claimed_hash h = cc h
  verdict-match (hashed h) claimed_hash e = ground (arith, e, eq_iff claimed_hash h)

  verdict-error :
      (claimed_hash : String)
      → verdict actual ref_actual encode sha256_hex parse session_error claimed_hash ≡ cannot_verify
  unfolding verdict
  verdict-error claimed_hash = refl

  verified :
      (wire : Bytes) (claimed_hash : String) (p : Payload)
      → parse wire ≡ some p
      → verify_commitment_hash actual ref_actual encode sha256_hex parse wire claimed_hash
        ≡ verdict actual ref_actual encode sha256_hex parse
            (commitment_hash actual ref_actual encode sha256_hex parse p)
            claimed_hash
  unfolding verify_commitment_hash
  verified wire claimed_hash p e = rw (e, verify_commitment_hash) refl

  unparsed :
      (wire : Bytes) (claimed_hash : String)
      → parse wire ≡ none
      → verify_commitment_hash actual ref_actual encode sha256_hex parse wire claimed_hash
        ≡ cannot_verify
  unfolding verify_commitment_hash
  unparsed wire claimed_hash e = rw (e, verify_commitment_hash) refl

  verify-match :
      (wire : Bytes) (claimed_hash : String) (parsed : Option Payload)
      → parse wire ≡ parsed
      → verify_commitment_hash actual ref_actual encode sha256_hex parse wire claimed_hash ≡ match
      → (p : Payload) × (parse wire ≡ some p)
        × (commitment_hash actual ref_actual encode sha256_hex parse p ≡ hashed claimed_hash)
  verify-match wire claimed_hash none e h = cc (sym (unparsed wire claimed_hash e) ∙ h)
  verify-match wire claimed_hash (some p) e h = (
    p,
    e,
    verdict-match (commitment_hash actual ref_actual encode sha256_hex parse p) claimed_hash
        (sym (verified wire claimed_hash p e) ∙ h),
  )

-- Where `encode` gives different texts different bytes, and SHA-256 does not give the commitment of the
-- wire bytes and another one the same digest for different preimages, the verdict "match" for the other
-- one's hash says that the bytes parse as a commitment with the same fields and the same `supersedes`.
pub verify_commitment_hash-match :
    (actual ref_actual : List String) (encode : Text → Bytes) (sha256_hex : Bytes → String)
    (parse : Bytes → Option Payload) (wire : Bytes) (claimed_hash : String) (q : Payload)
    → ((a b : Text) → encode a ≡ encode b → a ≡ b)
    → ((p : Payload)
        → parse wire ≡ some p
        → digest_of actual ref_actual encode sha256_hex parse p
          ≡ digest_of actual ref_actual encode sha256_hex parse q
        → projected_bytes actual ref_actual encode sha256_hex parse p
          ≡ projected_bytes actual ref_actual encode sha256_hex parse q)
    → commitment_hash actual ref_actual encode sha256_hex parse q ≡ hashed claimed_hash
    → verify_commitment_hash actual ref_actual encode sha256_hex parse wire claimed_hash ≡ match
    → (p : Payload) × (parse wire ≡ some p) × (p.supersedes ≡ q.supersedes) × (p.fields ≡ q.fields)
verify_commitment_hash-match actual ref_actual encode sha256_hex parse wire claimed_hash q inj free
      hq h =
    let (p, e, hp) =
      verify-match actual ref_actual encode sha256_hex parse wire claimed_hash (parse wire) refl
        h in
    let digests =
      prefixed-injective (digest_of actual ref_actual encode sha256_hex parse p)
        (digest_of actual ref_actual encode sha256_hex parse q)
        (sym (hash_of actual ref_actual encode sha256_hex parse p claimed_hash hp)
          ∙ hash_of actual ref_actual encode sha256_hex parse q claimed_hash hq) in
    let same =
      object_members-injective p q
        (inj (object (members_of p)) (object (members_of q)) (free p e digests)) in
    (p, e, same.0, same.1)

full_matches-literal :
    (s t : Text) (rest : List Test) → full_matches (literal s rest) (s ++ t) ≡ full_matches rest t
unfolding full_matches
full_matches-literal [] t rest = refl
full_matches-literal (c ∷ s) t rest = ground (arith, full_matches-literal s t rest)

codes-prefixed :
    (digest : String) → codes (concat ("sha256:" ∷ digest ∷ [])) ≡ codes "sha256:" ++ codes digest
codes-prefixed digest =
    codes-append "sha256:" (str_append digest "")
    ∙ ap (λ d. codes "sha256:" ++ codes d) (append-nil digest)

-- Where a digest is 64 lower-case hexadecimal digits, every hash that `commitment_hash` gives has the
-- form that `is_canonical_commitment_hash` asks for, and passes `validate_commitment_hash`.
pub commitment_hash-is_canonical :
    (actual ref_actual : List String) (encode : Text → Bytes) (sha256_hex : Bytes → String)
    (parse : Bytes → Option Payload) (py : StrMethods) (show : ℤ → String) (converts : ℤ → Bool)
    (p : Payload) (h : String)
    → ((x : Bytes) → full_matches (times 64 lower_hex []) (codes (sha256_hex x)) ≡ true)
    → commitment_hash actual ref_actual encode sha256_hex parse p ≡ hashed h
    → (is_canonical_commitment_hash h ≡ true)
      × (passes (validate_commitment_hash py show converts h) ≡ true)
unfolding is_canonical_commitment_hash validate_commitment_hash
commitment_hash-is_canonical actual ref_actual encode sha256_hex parse py show converts p h digits
      e =
    let canonical : full_matches hash_pattern (codes h) ≡ true =
      ap (λ t. full_matches hash_pattern (codes t))
        (hash_of actual ref_actual encode sha256_hex parse p h e)
      ∙ ap (full_matches hash_pattern)
          (codes-prefixed (digest_of actual ref_actual encode sha256_hex parse p))
      ∙ full_matches-literal (codes "sha256:")
          (codes (digest_of actual ref_actual encode sha256_hex parse p)) (times 64 lower_hex [])
      ∙ digits (
          preimage actual ref_actual encode sha256_hex parse
            (projected_bytes actual ref_actual encode sha256_hex parse p)) in
    (canonical, ground (arith, canonical))
